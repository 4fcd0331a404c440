-- ===== src/Buffer/RoundTrip.antt =====
-- What is written to a buffer is read back, and a write past the limit does not happen.
use nsd_old.Base.{
  ℕ, ◌+◌, ◌/◌, ◌%◌, ◌^◌, ◌≤◌, ◌<◌, ◌≡◌, ◌⊎◌, List, arith, length, length-overwrite, get_or,
  overwrite, take-drop-overwrite, get_or-overwrite_in, get_or-overwrite_out, done, fault, Returns,
}
use nsd_old.Buffer.{
  Buffer, be16, be32, be64, write, write_u16, write_u32, write_u64, read_at, read_u16_at,
  read_u32_at, read_u64_at,
}
use nsd_old.Buffer.Valid.{IsValid}

-- What a write of `d` at the position makes of `b`: nothing but the octets under it, and the
-- position, is changed. `j` is any place outside what is written.
pub record Wrote (b : Buffer) (d : List ℕ) (j : ℕ) (c : Buffer) : Type 0 where
  pub valid : IsValid c
  pub mark : c.position ≡ b.position + length d
  pub limit_kept : c.limit ≡ b.limit
  pub written : read_at c b.position (length d) ≡ done d
  pub outside : get_or c.bytes j 0 ≡ get_or b.bytes j 0

module _ {b : Buffer} (v : IsValid b) where
  -- `buffer_write` of octets that fit before the limit stores exactly them: `buffer_read_at` at the
  -- old position gives them back, the position is past them, and the octet at any place outside
  -- them is what it was.
  pub write-Wrote :
      (d : List ℕ) (j : ℕ)
      → b.position + length d ≤ b.limit
      → (j < b.position) ⊎ (b.position + length d ≤ j)
      → Returns (Wrote b d j) (write b d)
  unfolding write read_at
  write-Wrote d j h o = ground (
    arith,
    length-overwrite b.bytes b.position d,
    take-drop-overwrite b.bytes b.position d,
    get_or-overwrite_out b.bytes b.position d j 0,
  )

  -- `buffer_write` of octets that do not fit before the limit fails its assertion.
  pub write_overrun : (d : List ℕ) → b.limit < b.position + length d → write b d ≡ fault
  unfolding write
  write_overrun d h = ground arith

  octet :
      (d : List ℕ) (j : ℕ)
      → b.position + length d ≤ b.limit
      → j < length d
      → get_or (overwrite b.bytes b.position d) (b.position + j) 0 ≡ get_or d j 0
  octet d j h k = get_or-overwrite_in b.bytes b.position d j 0 (omega arith) k

  -- `buffer_write_u16` with two octets left stores the number, the high octet first: the octets at
  -- the old position are its quotient and its remainder by 256, and `buffer_read_u16_at` reads the
  -- number back there.
  pub write_u16-read_u16_at :
      (x : ℕ)
      → x < 2 ^ 16
      → b.position + 2 ≤ b.limit
      → Returns
          (λ c.
            (read_u16_at c b.position ≡ done x)
            × (get_or c.bytes b.position 0 ≡ x / 256)
            × (get_or c.bytes (b.position + 1) 0 ≡ x % 256))
          (write_u16 b x)
  unfolding write_u16 read_u16_at
  write_u16-read_u16_at x s h = ground (arith, octet (be16 x) 0 h, octet (be16 x) 1 h)

  -- `buffer_write_u32` with four octets left stores the number so that `buffer_read_u32_at` reads it
  -- back at the old position.
  pub write_u32-read_u32_at :
      (x : ℕ)
      → x < 2 ^ 32
      → b.position + 4 ≤ b.limit
      → Returns (λ c. read_u32_at c b.position ≡ done x) (write_u32 b x)
  unfolding write_u32 read_u32_at
  write_u32-read_u32_at x s h =
      ground (arith, octet (be32 x) 0 h, octet (be32 x) 1 h, octet (be32 x) 2 h, octet (be32 x) 3 h)

  -- `buffer_write_u64` with eight octets left stores the number so that `buffer_read_u64_at` reads it
  -- back at the old position.
  pub write_u64-read_u64_at :
      (x : ℕ)
      → x < 2 ^ 64
      → b.position + 8 ≤ b.limit
      → Returns (λ c. read_u64_at c b.position ≡ done x) (write_u64 b x)
  unfolding write_u64 read_u64_at
  write_u64-read_u64_at x s h = ground (
    arith,
    octet (be64 x) 0 h,
    octet (be64 x) 1 h,
    octet (be64 x) 2 h,
    octet (be64 x) 3 h,
    octet (be64 x) 4 h,
    octet (be64 x) 5 h,
    octet (be64 x) 6 h,
    octet (be64 x) 7 h,
  )
