-- ===== src/Buffer/Valid.antt =====
-- The buffer's well-formedness, and the operations of buffer.h and buffer.c that keep it.
use nsd_old.Base.{
  ℕ, zero, suc, ap, ◌+◌, ◌-◌, ◌*◌, ◌/◌, ◌^◌, ◌≤◌, ◌<◌, ◌≡◌, refl, false, List, [], ◌∷◌, ◌++◌, min,
  arith, length, length-append, length-take, take, Returns,
}
use nsd_old.Buffer.{
  Buffer, clear, flip, rewind, set_limit, realloc, set_capacity, reserve, grown, moved,
}

-- The invariant of buffer.h, that the array has `capacity` octets, and that it fits in memory.
pub record IsValid (b : Buffer) : Type 0 where
  pub within : b.position ≤ b.limit
  pub fits : b.limit ≤ b.capacity
  pub stored : length b.bytes ≡ b.capacity
  pub small : b.capacity < 2 ^ 62

pub moved-IsValid :
    {b : Buffer} (n : ℕ) → IsValid b → b.position + n ≤ b.limit → IsValid (moved b n)
moved-IsValid n v h = omega arith

pub at-IsValid :
    {b : Buffer} (p : ℕ) → IsValid b → p ≤ b.limit → IsValid (record b { position = p })
at-IsValid p v h = omega arith

-- A buffer that `buffer_create` or `buffer_create_from` makes over as many octets as it is told is
-- valid, has everything ahead of it, and lets `buffer_clear`, `buffer_flip` and `buffer_rewind`
-- return valid buffers over the same octets, with the marks that buffer.h promises for each.
pub marks :
    {b : Buffer}
    → IsValid b
    → Returns
        (λ c. IsValid c × (c.bytes ≡ b.bytes) × (c.position ≡ 0) × (c.limit ≡ b.capacity))
        (clear b)
      × Returns
          (λ c. IsValid c × (c.bytes ≡ b.bytes) × (c.position ≡ 0) × (c.limit ≡ b.position))
          (flip b)
      × Returns
          (λ c. IsValid c × (c.bytes ≡ b.bytes) × (c.position ≡ 0) × (c.limit ≡ b.limit))
          (rewind b)
unfolding clear flip rewind
marks v = ground arith

-- `buffer_set_limit` below the capacity keeps the buffer valid and pulls the position back to the
-- new limit if that is less.
pub set_limit-IsValid :
    {b : Buffer} (n : ℕ)
    → IsValid b
    → n ≤ b.capacity
    → Returns (λ c. IsValid c × (c.limit ≡ n) × (c.position ≡ min n b.position)) (set_limit b n)
unfolding set_limit
set_limit-IsValid n v h = ground arith

length-realloc :
    (junk bytes : List ℕ) (cap : ℕ) → cap ≤ length junk → length (realloc junk bytes cap) ≡ cap
length-realloc junk bytes cap h = omega (
  arith,
  length-append (take cap bytes) (take (cap - length bytes) junk),
  length-take cap bytes,
  length-take (cap - length bytes) junk,
)

-- `buffer_set_capacity` to no less than the position.
pub set_capacity-IsValid :
    (junk : List ℕ) {b : Buffer} (cap : ℕ)
    → IsValid b
    → b.position ≤ cap
    → cap < 2 ^ 62
    → cap ≤ length junk
    → Returns
        (λ c. IsValid c × (c.capacity ≡ cap) × (c.limit ≡ cap) × (c.position ≡ b.position))
        (set_capacity junk b cap)
unfolding set_capacity
set_capacity-IsValid junk {b} cap v p s j = ground (arith, length-realloc junk b.bytes cap j)

-- What stands below the old length and the new capacity is kept.
take-append-take :
    (p cap : ℕ) (xs rest : List ℕ)
    → p ≤ length xs
    → p ≤ cap
    → take p (take cap xs ++ rest) ≡ take p xs
take-append-take zero cap xs rest h k = refl
take-append-take (suc p) zero xs rest h k = absurd (omega arith)
take-append-take (suc p) (suc cap) [] rest h k = absurd (omega arith)
take-append-take (suc p) (suc cap) (x ∷ xs) rest h k =
    ap (λ l. x ∷ l) (take-append-take p cap xs rest (omega arith) (omega arith))

-- What `reserve` promises of the buffer `c` that it makes of `b`.
pub record Reserved (b : Buffer) (amount : ℕ) (c : Buffer) : Type 0 where
  pub valid : IsValid c
  pub open_end : c.limit ≡ c.capacity
  pub room : c.position + amount ≤ c.limit
  pub mark_kept : c.position ≡ b.position
  pub grows : b.capacity ≤ c.capacity
  pub bounded : c.capacity ≤ b.capacity * 3 / 2 + b.position + amount
  pub kept : take b.position c.bytes ≡ take b.position b.bytes

-- `buffer_reserve` on a valid buffer that is not fixed, with fresh memory enough and sizes that fit
-- in memory, returns a valid buffer with room for `amount` octets at an unchanged position. What
-- was written is kept, the limit is the capacity, and the capacity does not shrink.
pub reserve-Reserved :
    (junk : List ℕ) {b : Buffer} (amount : ℕ)
    → IsValid b
    → b.is_fixed ≡ false
    → b.capacity * 3 / 2 + b.position + amount < 2 ^ 62
    → b.capacity * 3 / 2 + b.position + amount ≤ length junk
    → Returns (Reserved b amount) (reserve junk b amount)
unfolding reserve
reserve-Reserved junk {b} amount v f s j = ground (
  arith,
  length-realloc junk b.bytes (grown b amount),
  take-append-take b.position (grown b amount) b.bytes
      (take (grown b amount - length b.bytes) junk),
)
