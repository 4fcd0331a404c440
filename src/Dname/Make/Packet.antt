-- ===== src/Dname/Make/Packet.antt =====
-- `dname_make_from_packet`: the name in memory is that which the packet spells.
use Prim.Native.Nat.{bit_and}
use mathlib.Core.List.{append-nil}
use nsd_old.Base.{
  ℕ, ◌+◌, ◌≤◌, ◌≡◌, sym, ap, ◌∙◌, Bool, Option, none, some, List, [], ◌∷◌, ◌++◌, All, length, take,
  drop, take_one-drop, drop-add, length-take, length-drop, take-append-take-drop, done, arith,
  ◌>>=◌, Returns, Returns-bind,
}
use nsd_old.Buffer.{Buffer}
use nsd_old.Buffer.Valid.{IsValid}
use nsd_old.Packet.{max_domain_len}
use nsd_old.Dname.{max_packet_size, make_wire_from_packet}
use nsd_old.Dname.Steps.{Spells}
use nsd_old.Dname.Decode.{Decoded, make_wire_from_packet-Decoded}
use nsd_old.Dname.Name.{Name}
use nsd_old.Dname.Make.{dname_make, dname_make_from_packet}
use nsd_old.Dname.Make.Wire.{IsLabelText, wire}
use nsd_old.Dname.Make.Named.{IsMade, dname_make-IsMade}

-- What a packet spells is the wire format of some labels.
pub Spells-wire :
    {d : List ℕ} {limit at : ℕ} {w : List ℕ}
    → Spells d limit at w
    → limit ≤ length d
    → (xs : List (List ℕ)) × (w ≡ wire xs) × All IsLabelText xs
Spells-wire {d} {limit} {at} {w} (Spells.root z h e) lim =
    ([], e ∙ take_one-drop at d 0 (omega (arith, h, lim)) ∙ ap (λ k. k ∷ []) z, tt)
Spells-wire {d} {limit} {at} {w} (Spells.label behind n rest g p q b h e sp) lim =
    let (xs, er, l) = Spells-wire sp lim in
    let x = take n (drop (at + 1) d) in
    let size : length x ≡ n =
      omega (arith, length-take n (drop (at + 1) d), length-drop (at + 1) d, b, h, lim) in
    let k : n + 1 ≡ 1 + n = omega arith in
    let front : take (n + 1) (drop at d) ≡ n ∷ x =
      ap (λ m. take m (drop at d)) k
      ∙ sym (take-append-take-drop 1 n (drop at d))
      ∙ ap (λ l. l ++ take n (drop 1 (drop at d)))
          (take_one-drop at d 0 (omega (arith, b, h, lim)) ∙ ap (λ m. m ∷ []) (sym g))
      ∙ ap (λ l. n ∷ take n l) (sym (drop-add at 1 d)) in
    (
      x ∷ xs,
      e
          ∙ ap (λ l. l ++ rest) front
          ∙ ap (λ l. n ∷ (x ++ l)) er
          ∙ ap (λ m. m ∷ (x ++ wire xs)) (sym size),
      ((omega (arith, size, p), ap (λ m. bit_and m 0xc0) size ∙ q), l),
    )
Spells-wire (Spells.pointer target p h t lt sp) lim = Spells-wire sp lim

-- What `dname_make_from_packet` does to the packet `b`: if it returns a name, that has the labels
-- that the packet spells at the position.
abbrev pub FromPacket : Bool → Buffer → Option Name × Buffer → Type 0
FromPacket normalize b (none, c) = IsValid c × (c.bytes ≡ b.bytes) × (c.limit ≡ b.limit)
FromPacket normalize b (some n, c) =
    IsValid c
    × (c.bytes ≡ b.bytes)
    × (c.limit ≡ b.limit)
    × ((xs : List (List ℕ)) × Spells b.bytes b.limit b.position (wire xs)
        × (length (wire xs) ≤ max_domain_len)
        × IsMade normalize xs n)

made-FromPacket :
    (normalize : Bool) {b : Buffer} (buf : Option (List ℕ)) (c : Buffer)
    → IsValid b
    → Decoded b (buf, c)
    → Returns
        (FromPacket normalize b)
        (elim buf [ none ↦ done (none, c) | some w ↦ dname_make w normalize >>= λ n. done (n, c) ])
made-FromPacket normalize none c v d = d
made-FromPacket normalize {b} (some w) c v (vc, eb, el, short, sp) =
    let (xs, e, l) = Spells-wire sp (omega arith) in
    let (n, run, m) = dname_make-IsMade normalize xs [] l (rw (← e) short) in
    let run' : dname_make w normalize ≡ done (some n) =
      ap (λ k. dname_make k normalize) (e ∙ sym (append-nil (wire xs))) ∙ run in
    rw run' (vc, eb, el, (xs, rw (← e) sp, rw (← e) short, m))

-- On a valid packet of at most MAX_PACKET_SIZE octets `dname_make_from_packet` returns, with the octets
-- and the limit as they were. If it makes a name, that is of the labels that the labels and pointers
-- of the packet spell from the position on, the most significant first, in lower case with
-- `normalize`.
pub dname_make_from_packet-FromPacket :
    {b : Buffer} (allow_pointers normalize : Bool)
    → IsValid b
    → b.limit ≤ max_packet_size
    → Returns (FromPacket normalize b) (dname_make_from_packet b allow_pointers normalize)
unfolding dname_make_from_packet
dname_make_from_packet-FromPacket {b} allow normalize v h =
    Returns-bind (FromPacket normalize b) (make_wire_from_packet b allow) _
      (make_wire_from_packet-Decoded allow v h) λ (buf, c) d. made-FromPacket normalize buf c v d
