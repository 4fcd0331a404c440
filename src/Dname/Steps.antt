-- ===== src/Dname/Steps.antt =====
-- One round of `dname_make_wire_from_packet`: what it does to the packet, the name and the marks.
use Prim.Native.Nat.{bit_and}
use native.Mathlib.Decide.{dec_lt, ℕ_discrete}
use mathlib.Core.List.{append-nil}
use nsd_old.Base.{
  ℕ, zero, suc, ◌+◌, ◌-◌, ◌*◌, ◌≤◌, ◌<◌, ◌≡◌, ◌≢◌, refl, sym, ap, Bool, true, false, Option, none,
  some, List, [], ◌∷◌, ◌++◌, arith, leb, ltb, le→leb, lt→ltb, lt→leb, ==_iff, ◌==◌, if◌then◌else◌,
  length, get_or, take, drop, replicate, length-append, length-take, length-drop, done, Returns,
}
use nsd_old.Buffer.{Buffer, moved}
use nsd_old.Buffer.Valid.{IsValid, moved-IsValid, at-IsValid}
use nsd_old.Buffer.Access.{available_lem, skip_lem, read_lem, set_position_lem}
use nsd_old.Packet.{max_domain_len, peek}
use nsd_old.Dname.{Walk, Round, set_bit, get_bit, marked, follow, copy}

-- The name `w` that stands at the offset `at`: labels, each a length and as many octets, and
-- pointers to earlier or later offsets of the packet, up to a root label.
pub data Spells (d : List ℕ) (limit : ℕ) : ℕ → List ℕ → Type 0 where
  root :
      {at : ℕ} {w : List ℕ}
      → get_or d at 0 ≡ 0
      → at + 1 ≤ limit
      → w ≡ take 1 (drop at d)
      → Spells d limit at w
  label :
      {at : ℕ} {w : List ℕ} (behind n : ℕ) (rest : List ℕ)
      → n ≡ get_or d at 0
      → n ≢ 0
      → bit_and n 0xc0 ≡ 0
      → behind ≡ at + (n + 1)
      → behind ≤ limit
      → w ≡ take (n + 1) (drop at d) ++ rest
      → Spells d limit behind rest
      → Spells d limit at w
  pointer :
      {at : ℕ} {w : List ℕ} (target : ℕ)
      → bit_and (get_or d at 0) 0xc0 ≡ 0xc0
      → at + 2 ≤ limit
      → target ≡ bit_and (get_or d at 0) 0x3f * 256 + get_or d (at + 1) 0
      → target < limit
      → Spells d limit target w
      → Spells d limit at w

-- How many offsets are not visited yet.
pub unvisited : List Bool → ℕ
unvisited [] = 0
unvisited (true ∷ xs) = unvisited xs
unvisited (false ∷ xs) = suc (unvisited xs)

pub unvisited-set_bit :
    (xs : List Bool) (i : ℕ)
    → i < length xs
    → get_bit xs i ≡ false
    → suc (unvisited (set_bit xs i)) ≡ unvisited xs
unfolding unvisited set_bit get_bit
unvisited-set_bit [] i h g = elim h [ ]
unvisited-set_bit (true ∷ xs) zero h g = cc
unvisited-set_bit (false ∷ xs) zero h g = refl
unvisited-set_bit (true ∷ xs) (suc i) h g = unvisited-set_bit xs i (omega arith) g
unvisited-set_bit (false ∷ xs) (suc i) h g = ap suc (unvisited-set_bit xs i (omega arith) g)

pub length-set_bit : (xs : List Bool) (i : ℕ) → length (set_bit xs i) ≡ length xs
unfolding set_bit
length-set_bit [] i = refl
length-set_bit (x ∷ xs) zero = refl
length-set_bit (x ∷ xs) (suc i) = ap suc (length-set_bit xs i)

pub unvisited-replicate : (n : ℕ) → unvisited (replicate n false) ≡ n
unfolding unvisited
unvisited-replicate zero = refl
unvisited-replicate (suc n) = ap suc (unvisited-replicate n)

-- `c` is `b` with another position.
pub record Same (b c : Buffer) : Type 0 where
  pub valid : IsValid c
  pub same_bytes : c.bytes ≡ b.bytes
  pub same_limit : c.limit ≡ b.limit

abbrev pub MarkIn : ℕ → Option ℕ → Type 0
MarkIn limit none = Unit
MarkIn limit (some m) = m ≤ limit

-- Between rounds.
pub record Walking (limit : ℕ) (w : Walk) : Type 0 where
  pub table : length w.visited ≡ limit
  pub short : length w.wire ≤ max_domain_len
  pub mark_in : MarkIn limit w.mark

-- What a round does, from the walk `w` at the packet `c`.
abbrev pub RoundKeeps : Walk → Buffer → Round → Type 0
RoundKeeps w c (Round.refuse d) = Same c d
RoundKeeps w c (Round.finish w' d) =
    Same c d
    × Walking c.limit w'
    × ((last : List ℕ) × (w'.wire ≡ w.wire ++ last) × Spells c.bytes c.limit c.position last)
RoundKeeps w c (Round.again w' d) =
    Same c d
    × Walking c.limit w'
    × (w'.visited ≡ w.visited)
    × ((front : List ℕ) × (w'.wire ≡ w.wire ++ front)
        × ((rest : List ℕ)
            → Spells c.bytes c.limit d.position rest
            → Spells c.bytes c.limit c.position (front ++ rest)))

MarkIn-marked :
    {limit : ℕ} (m : Option ℕ) (p : ℕ) → p ≤ limit → MarkIn limit m → MarkIn limit (marked m p)
MarkIn-marked none p h k = h
MarkIn-marked (some m) p h k = k

module _ (w : Walk) {c : Buffer} (v : IsValid c) (k : Walking c.limit w)
    (h : c.position + 1 ≤ c.limit) where
  -- The branches that go on, as equations.
  follow_on :
      (n target : ℕ)
      → c.position + 2 ≤ c.limit
      → target ≡ bit_and n 0x3f * 256 + get_or c.bytes (c.position + 1) 0
      → target < c.limit
      → follow true n w c
        ≡ done (
            Round.again
              (record w { mark = marked w.mark (c.position + 2) })
              (record c { position = target }))
  unfolding follow peek
  follow_on n target r e t =
      let u : IsValid (moved c 2) = moved-IsValid 2 v r in
      let inside : ltb (c.position + 1) (length c.bytes) ≡ true = lt→ltb _ _ (omega arith) in
      let low : leb c.limit target ≡ false = lt→leb _ _ t in
      let room : leb 2 (c.limit - c.position) ≡ true = le→leb _ _ (omega arith) in
      rw (
        available_lem v 2,
        room,
        inside,
        ← e,
        low,
        skip_lem v 2 r,
        set_position_lem u target (omega arith),
      )

  copy_on :
      (n : ℕ)
      → c.position + (n + 1) ≤ c.limit
      → length w.wire + (n + 1) ≤ max_domain_len
      → copy n w c
        ≡ done (
            if n == 0
            then Round.finish
                (record w { wire = w.wire ++ take (n + 1) (drop c.position c.bytes) })
                (moved c (n + 1))
            else Round.again
                (record w { wire = w.wire ++ take (n + 1) (drop c.position c.bytes) })
                (moved c (n + 1)))
  unfolding copy
  copy_on n r l =
      let room : leb (n + 1) (c.limit - c.position) ≡ true = le→leb _ _ (omega arith) in
      let low : leb (max_domain_len + 1) (length w.wire + (n + 1)) ≡ false =
        lt→leb _ _ (omega arith) in
      rw (available_lem v (n + 1), room, low, read_lem v (n + 1) r)

  length-chunk : (n : ℕ) → c.position + n ≤ c.limit → length (take n (drop c.position c.bytes)) ≡ n
  length-chunk n r =
      omega (arith, length-take n (drop c.position c.bytes), length-drop c.position c.bytes)

  pub follow-Keeps :
      (allow : Bool)
      → bit_and (get_or c.bytes c.position 0) 0xc0 ≡ 0xc0
      → Returns (RoundKeeps w c) (follow allow (get_or c.bytes c.position 0) w c)
  follow-Keeps false p = unfold follow in ground (arith, available_lem v 2)
  follow-Keeps true p =
      let n = get_or c.bytes c.position 0 in
      let target = bit_and n 0x3f * 256 + get_or c.bytes (c.position + 1) 0 in
      elim (dec_lt c.limit (c.position + 2)) [
        | yes s ↦ unfold follow in ground (arith, available_lem v 2)
        | no s ↦ elim (dec_lt target c.limit) [
          | no t ↦ unfold follow peek in ground (arith, available_lem v 2)
          | yes t ↦ rw (follow_on n target (omega arith) refl t) (
            record {
              valid = at-IsValid target v (omega arith);
              same_bytes = refl;
              same_limit = refl;
            },
            record {
              table = k.table;
              short = k.short;
              mark_in = MarkIn-marked w.mark (c.position + 2) (omega arith) k.mark_in;
            },
            refl,
            (
              [],
              sym (append-nil w.wire),
              λ rest s'. Spells.pointer target p (omega arith) refl t s',
            ),
          )
        ]
      ]

  pub copy-Keeps :
      bit_and (get_or c.bytes c.position 0) 0xc0 ≡ 0
      → Returns (RoundKeeps w c) (copy (get_or c.bytes c.position 0) w c)
  copy-Keeps p =
      let n = get_or c.bytes c.position 0 in
      let chunk = take (n + 1) (drop c.position c.bytes) in
      elim (dec_lt c.limit (c.position + (n + 1))) [
        | yes s ↦ unfold copy in ground (arith, available_lem v (n + 1))
        | no s ↦ elim (dec_lt max_domain_len (length w.wire + (n + 1))) [
          | yes l ↦ unfold copy in ground (arith, available_lem v (n + 1))
          | no l ↦
              let same : Same c (moved c (n + 1)) = record {
                valid = moved-IsValid (n + 1) v (omega arith);
                same_bytes = refl;
                same_limit = refl;
              } in
              let walking : Walking c.limit (record w { wire = w.wire ++ chunk }) = record {
                table = k.table;
                short =
                    omega (arith, length-append w.wire chunk, length-chunk (n + 1) (omega arith));
                mark_in = k.mark_in;
              } in
              rw (copy_on n (omega arith) (omega arith)) (elim (ℕ_discrete n 0) [
                | yes z ↦ rw ((==_iff n 0).1 z) (
                  same,
                  walking,
                  (
                    chunk,
                    refl,
                    Spells.root z (omega arith)
                        (ap (λ i. take (i + 1) (drop c.position c.bytes)) z),
                  ),
                )
                | no z ↦
                    let t : (n == 0) ≡ false = ground arith in
                    rw t (
                      same,
                      walking,
                      refl,
                      (
                        chunk,
                        refl,
                        λ rest s'.
                            Spells.label (c.position + (n + 1)) n rest refl z p refl (omega arith)
                              refl s',
                      ),
                    )
              ])
        ]
      ]
