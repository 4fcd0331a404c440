-- ===== src/Buffer/Access.antt =====
-- Guarded reads, writes and moves of a valid buffer, one equation for each.
use nsd_old.Base.{
  ℕ, ◌+◌, ◌-◌, ◌%◌, ◌≤◌, ◌≡◌, List, arith, leb, le→leb, length, get_or, take, drop, overwrite, done,
}
use nsd_old.Buffer.{
  Buffer, size_mod, skip, set_position, available, write_at, read, read_at, read_u8, read_u16,
  read_u16_at, read_u32, read_uint16, read_uint32, moved,
}
use nsd_old.Buffer.Valid.{IsValid}

module _ {b : Buffer} (v : IsValid b) where
  pub available_lem : (n : ℕ) → available b n ≡ done (leb n (b.limit - b.position))
  unfolding available
  available_lem n = ground arith

  pub set_position_lem : (p : ℕ) → p ≤ b.limit → set_position b p ≡ done (record b { position = p })
  unfolding set_position
  set_position_lem p h = ground arith

  module _ (n : ℕ) (h : b.position + n ≤ b.limit) where
    pub skip_lem : skip b n ≡ done (moved b n)
    unfolding skip
    skip_lem =
        let e : (b.position + n) % size_mod ≡ b.position + n = omega arith in
        rw e (rw (le→leb _ _ h))

  pub read_u8_lem :
      b.position + 1 ≤ b.limit → read_u8 b ≡ done (get_or b.bytes b.position 0, moved b 1)
  unfolding read_u8
  read_u8_lem h = ground arith

  pub read_u16_lem :
      b.position + 2 ≤ b.limit → read_u16 b ≡ done (read_uint16 b.bytes b.position, moved b 2)
  unfolding read_u16
  read_u16_lem h = ground arith

  pub read_u32_lem :
      b.position + 4 ≤ b.limit → read_u32 b ≡ done (read_uint32 b.bytes b.position, moved b 4)
  unfolding read_u32
  read_u32_lem h = ground arith

  pub read_lem :
      (n : ℕ)
      → b.position + n ≤ b.limit
      → read b n ≡ done (take n (drop b.position b.bytes), moved b n)
  unfolding read
  read_lem n h = ground arith

  pub read_at_lem : (at n : ℕ) → at + n ≤ b.limit → read_at b at n ≡ done (take n (drop at b.bytes))
  unfolding read_at
  read_at_lem at n h = ground arith

  pub write_at_lem :
      (at : ℕ) (d : List ℕ)
      → at + length d ≤ b.limit
      → write_at b at d ≡ done (record b { bytes = overwrite b.bytes at d })
  unfolding write_at
  write_at_lem at d h = ground arith

  pub read_u16_at_lem :
      (at : ℕ) → at + 2 ≤ b.limit → read_u16_at b at ≡ done (read_uint16 b.bytes at)
  unfolding read_u16_at
  read_u16_at_lem at h = ground arith
