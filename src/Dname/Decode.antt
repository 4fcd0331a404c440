-- ===== src/Dname/Decode.antt =====
-- `dname_make_wire_from_packet` ends on every packet, stays inside it, and what it returns is the
-- name that the labels and pointers of the packet spell.
use Prim.Native.Nat.{bit_and}
use native.Mathlib.Decide.{dec_lt, ℕ_discrete}
use mathlib.Core.List.{append_assoc}
use nsd_old.Base.{
  ℕ, zero, suc, ◌+◌, ◌-◌, ◌≤◌, ◌<◌, ◌≡◌, refl, ap, ◌∙◌, Bool, true, false, Option, none, some, List,
  [], ◌++◌, arith, leb, ltb, le→leb, lt→ltb, ==_iff, Bool-cases, inl, inr, ◌⊎◌, length, get_or,
  replicate, length-replicate, Outcome, done, Returns, Returns-bind,
}
use nsd_old.Buffer.{Buffer}
use nsd_old.Buffer.Valid.{IsValid, at-IsValid}
use nsd_old.Buffer.Access.{available_lem, set_position_lem}
use nsd_old.Packet.{max_domain_len, peek}
use nsd_old.Dname.Steps.{
  Spells, unvisited, unvisited-set_bit, length-set_bit, unvisited-replicate, Same, MarkIn, Walking,
  RoundKeeps, follow-Keeps, copy-Keeps,
}
use nsd_old.Dname.{
  Walk, Round, set_bit, get_bit, round, wire_loop, restore, make_wire_from_packet, max_packet_size,
}

abbrev pub visit : Walk → Buffer → Walk
visit w c = record w { visited = set_bit w.visited c.position }

visit-Walking : (w : Walk) (c : Buffer) → Walking c.limit w → Walking c.limit (visit w c)
visit-Walking w c k = record {
  table = length-set_bit w.visited c.position ∙ k.table;
  short = k.short;
  mark_in = k.mark_in;
}

-- A round refuses, or it visits an offset that was not visited and goes on from there.
round-cases :
    (allow : Bool) (w : Walk) {c : Buffer}
    → IsValid c
    → Walking c.limit w
    → (round allow w c ≡ done (Round.refuse c))
      ⊎ ((c.position + 1 ≤ c.limit)
          × (get_bit w.visited c.position ≡ false)
          × Returns (RoundKeeps (visit w c) c) (round allow w c))
unfolding round peek
round-cases allow w {c} v k = elim (dec_lt c.position c.limit) [
  | no h ↦ inl (ground (arith, available_lem v 1))
  | yes h ↦ elim (Bool-cases (get_bit w.visited c.position)) [
    | inl g ↦ inl (ground (arith, available_lem v 1))
    | inr g ↦
        let here : leb 1 (c.limit - c.position) ≡ true = le→leb _ _ (omega arith) in
        let n = get_or c.bytes c.position 0 in
        let inside : ltb c.position (length c.bytes) ≡ true = lt→ltb _ _ (omega arith) in
        inr (
          omega arith,
          g,
          rw (available_lem v 1, here, g, inside)
              (elim (ℕ_discrete (bit_and n 0xc0) 0xc0) [
                | yes p ↦
                    rw ((==_iff (bit_and n 0xc0) 0xc0).1 p)
                      (follow-Keeps (visit w c) v (visit-Walking w c k) (omega arith) allow p)
                | no p ↦ elim (ℕ_discrete (bit_and n 0xc0) 0) [
                  | yes q ↦ rw q (copy-Keeps (visit w c) v (visit-Walking w c k) (omega arith) q)
                  | no q ↦ ground arith
                ]
              ]),
        )
  ]
]

-- What the whole loop does, with `wire` written, at the packet `c`.
abbrev Walked : List ℕ → Buffer → Option Walk × Buffer → Type 0
Walked wire c (none, d) = Same c d
Walked wire c (some w', d) =
    Same c d
    × Walking c.limit w'
    × ((rest : List ℕ) × (w'.wire ≡ wire ++ rest) × Spells c.bytes c.limit c.position rest)

Walked-again :
    (w w' : Walk) (c d : Buffer) (m : Outcome (Option Walk × Buffer))
    → RoundKeeps w c (Round.again w' d)
    → Returns (Walked w'.wire d) m
    → Returns (Walked w.wire c) m
Walked-again w w' c d (done (none, e)) (s, k, q, x) r = ground arith
Walked-again w w' c d (done (some u, e)) (s, k, q, (front, ew, sp)) (s', k', (rest, er, sp')) = (
  ground arith,
  rw (← s.same_limit) k',
  (
    front ++ rest,
    er ∙ ap (λ l. l ++ rest) ew ∙ append_assoc w.wire front rest,
    sp rest (rw (← s.same_bytes, ← s.same_limit) sp'),
  ),
)
Walked-again w w' c d Outcome.fault q r = absurd r
Walked-again w w' c d Outcome.stuck q r = absurd r

wire_loop-Walked :
    (fuel : ℕ) (allow : Bool) (w : Walk) {c : Buffer}
    → IsValid c
    → Walking c.limit w
    → unvisited w.visited < fuel
    → Returns (Walked w.wire c) (wire_loop fuel allow w c)
unfolding wire_loop
wire_loop-Walked zero allow w v k f = elim f [ ]
wire_loop-Walked (suc fuel) allow w {c} v k f = elim (round-cases allow w v k) [
  | inl e ↦ rw e (record { valid = v; same_bytes = refl; same_limit = refl })
  | inr (h, g, r) ↦ Returns-bind (Walked w.wire c) (round allow w c) _ r (elim [
    | Round.refuse d ↦ λ s. s
    | Round.finish w' d ↦ λ q. q
    | Round.again w' d ↦ λ q.
        let fewer : suc (unvisited w'.visited) ≡ unvisited w.visited =
          rw q.2 (unvisited-set_bit w.visited c.position (omega (arith, k.table)) g) in
        Walked-again (visit w c) w' c d (wire_loop fuel allow w' d) q
          (wire_loop-Walked fuel allow w' q.0.valid (rw q.0.same_limit q.1) (omega (arith, fewer)))
  ])
]

-- What `dname_make_wire_from_packet` does to the packet `b`: if it returns a name, that is the name
-- at the position, in no more octets than fit in `buf`.
abbrev pub Decoded : Buffer → Option (List ℕ) × Buffer → Type 0
Decoded b (none, c) = IsValid c × (c.bytes ≡ b.bytes) × (c.limit ≡ b.limit)
Decoded b (some wire, c) =
    IsValid c
    × (c.bytes ≡ b.bytes)
    × (c.limit ≡ b.limit)
    × (length wire ≤ max_domain_len)
    × Spells b.bytes b.limit b.position wire

restore-Decoded :
    {b c : Buffer} {wire : List ℕ} (mark : Option ℕ)
    → Same b c
    → length wire ≤ max_domain_len
    → Spells b.bytes b.limit b.position wire
    → MarkIn c.limit mark
    → Returns (Decoded b) (restore wire mark c)
unfolding restore
restore-Decoded none s l sp m = (s.valid, s.same_bytes, s.same_limit, l, sp)
restore-Decoded (some m) s l sp h =
    rw (set_position_lem s.valid m h) (at-IsValid m s.valid h, s.same_bytes, s.same_limit, l, sp)

leave-Decoded :
    (b : Buffer) (w : Option Walk) (c : Buffer)
    → Walked [] b (w, c)
    → Returns (Decoded b) (elim w [ none ↦ done (none, c) | some w' ↦ restore w'.wire w'.mark c ])
leave-Decoded b none c s = (s.valid, s.same_bytes, s.same_limit)
leave-Decoded b (some w) c (s, k, (rest, e, sp)) =
    restore-Decoded w.mark s k.short (rw e sp) (rw s.same_limit k.mark_in)

-- On a valid packet of at most MAX_PACKET_SIZE octets `dname_make_wire_from_packet` returns, whatever
-- pointers the packet holds, loops of pointers among them. No read or move passes the limit, and the
-- octets are as they were. If it accepts, `buf` holds at most MAXDOMAINLEN octets, and they are the
-- name that the labels and pointers from the position on spell.
pub make_wire_from_packet-Decoded :
    {b : Buffer} (allow_pointers : Bool)
    → IsValid b
    → b.limit ≤ max_packet_size
    → Returns (Decoded b) (make_wire_from_packet b allow_pointers)
unfolding make_wire_from_packet
make_wire_from_packet-Decoded {b} allow v h = rw (le→leb b.limit max_packet_size h) (
    Returns-bind (Decoded b) (wire_loop (b.limit + 1) allow start b) _
      (wire_loop-Walked (b.limit + 1) allow start v walking fuel) λ (w, c) q. leave-Decoded b w c q)
  where
    start : Walk
    start = record { visited = replicate b.limit false; wire = []; mark = none }

    walking : Walking b.limit start
    walking = record { table = length-replicate b.limit false; short = omega arith; mark_in = tt }

    fuel : unvisited (replicate b.limit false) < b.limit + 1
    fuel = omega (arith, unvisited-replicate b.limit)
