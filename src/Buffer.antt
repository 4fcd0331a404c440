-- ===== src/Buffer.antt =====
-- buffer.h and buffer.c: the packet buffer, an octet array with a position, a limit and a capacity.
-- An `assert` that fails is the outcome `fault`. The octet array is a list; `size_t` sums that the
-- code leaves unchecked wrap at 2 ^ 64. util.h's octet order routines stand here too.
pub mod Valid
pub mod Access
pub mod RoundTrip
mod Tests
use nsd_old.Base.{
  ℕ, ◌+◌, ◌-◌, ◌*◌, ◌/◌, ◌%◌, ◌^◌, Bool, true, false, not, List, [], ◌∷◌, ◌++◌, leb, ltb,
  if◌then◌else◌, length, get_or, take, drop, replicate, overwrite, Outcome, done, assert, ◌>>=◌,
  ◌>>◌,
}

-- `buffer_type`
pub record Buffer : Type 0 where
  pub bytes : List ℕ
  pub position : ℕ
  pub limit : ℕ
  pub capacity : ℕ
  pub is_fixed : Bool

abbrev pub size_mod : ℕ
size_mod = 2 ^ 64

-- `write_uint16`, `write_uint32` and `write_uint64`: the octets that they store, high one first.
unfoldable pub be16 : ℕ → List ℕ
be16 v = v / 256 % 256 ∷ v % 256 ∷ []

unfoldable pub be32 : ℕ → List ℕ
be32 v = v / 2 ^ 24 % 256 ∷ v / 2 ^ 16 % 256 ∷ v / 2 ^ 8 % 256 ∷ v % 256 ∷ []

unfoldable pub be64 : ℕ → List ℕ
unfolding be32
be64 v = be32 (v / 2 ^ 32 % 2 ^ 32) ++ be32 (v % 2 ^ 32)

-- `read_uint16`, `read_uint32` and `read_uint64` at an offset. Octets shifted to disjoint places
-- are joined by `|` in the source, which is their sum.
unfoldable pub read_uint16 : List ℕ → ℕ → ℕ
read_uint16 d at = get_or d at 0 * 256 + get_or d (at + 1) 0

unfoldable pub read_uint32 : List ℕ → ℕ → ℕ
read_uint32 d at =
    get_or d at 0 * 2 ^ 24
    + get_or d (at + 1) 0 * 2 ^ 16
    + get_or d (at + 2) 0 * 2 ^ 8
    + get_or d (at + 3) 0

unfoldable pub read_uint64 : List ℕ → ℕ → ℕ
unfolding read_uint32
read_uint64 d at = read_uint32 d at * 2 ^ 32 + read_uint32 d (at + 4)

-- `buffer_create`; fresh memory holds whatever `junk` says.
unfoldable pub create : List ℕ → ℕ → Buffer
create junk cap = record {
  bytes = junk;
  position = 0;
  limit = cap;
  capacity = cap;
  is_fixed = false;
}

unfoldable pub create_from : List ℕ → ℕ → Buffer
create_from data_ size = record {
  bytes = data_;
  position = 0;
  limit = size;
  capacity = size;
  is_fixed = true;
}

-- `buffer_invariant`
unfoldable pub invariant : Buffer → Outcome (Unit {0})
invariant b = do assert (leb b.position b.limit); assert (leb b.limit b.capacity)

unfoldable pub clear : Buffer → Outcome Buffer
unfolding invariant
clear b = do invariant b; done (record b { position = 0; limit = b.capacity })

unfoldable pub flip : Buffer → Outcome Buffer
unfolding invariant
flip b = do invariant b; done (record b { limit = b.position; position = 0 })

unfoldable pub rewind : Buffer → Outcome Buffer
unfolding invariant
rewind b = do invariant b; done (record b { position = 0 })

unfoldable pub set_position : Buffer → ℕ → Outcome Buffer
set_position b mark = do assert (leb mark b.limit); done (record b { position = mark })

-- `count` is an `ssize_t`, given by its 64-bit pattern, and the sum is a `size_t` one.
unfoldable pub skip : Buffer → ℕ → Outcome Buffer
skip b count = do
  let to = (b.position + count) % size_mod
  assert (leb to b.limit)
  done (record b { position = to })

unfoldable pub set_limit : Buffer → ℕ → Outcome Buffer
set_limit b limit = do
  assert (leb limit b.capacity)
  done (record b { limit = limit; position = if ltb limit b.position then limit else b.position })

-- `xrealloc` keeps what fits; `junk` is the content of the memory that it adds.
abbrev pub realloc : List ℕ → List ℕ → ℕ → List ℕ
realloc junk bytes cap = take cap bytes ++ take (cap - length bytes) junk

unfoldable pub set_capacity : List ℕ → Buffer → ℕ → Outcome Buffer
unfolding invariant
set_capacity junk b cap = do
  invariant b
  assert (leb b.position cap)
  done (record b { bytes = realloc junk b.bytes cap; limit = cap; capacity = cap })

-- The new capacity that `buffer_reserve` asks for.
unfoldable pub grown : Buffer → ℕ → ℕ
grown b amount =
    let wanted = (b.position + amount) % size_mod in
    let half_more = b.capacity * 3 % size_mod / 2 in
    if ltb half_more wanted then wanted else half_more

unfoldable pub reserve : List ℕ → Buffer → ℕ → Outcome Buffer
unfolding invariant set_capacity grown
reserve junk b amount = do
  invariant b
  assert (not b.is_fixed)
  b' ←
      if ltb b.capacity ((b.position + amount) % size_mod)
      then set_capacity junk b (grown b amount)
      else done b
  done (record b' { limit = b'.capacity })

unfoldable pub remaining_at : Buffer → ℕ → Outcome ℕ
unfolding invariant
remaining_at b at = do invariant b; assert (leb at b.limit); done (b.limit - at)

unfoldable pub remaining : Buffer → Outcome ℕ
unfolding remaining_at
remaining b = remaining_at b b.position

unfoldable pub available_at : Buffer → ℕ → ℕ → Outcome Bool
unfolding remaining_at
available_at b at count = do r ← remaining_at b at; done (leb count r)

unfoldable pub available : Buffer → ℕ → Outcome Bool
unfolding available_at
available b count = available_at b b.position count

-- `buffer_write_at` and `buffer_write`, of as many octets as the list has.
unfoldable pub write_at : Buffer → ℕ → List ℕ → Outcome Buffer
unfolding available_at
write_at b at d = do
  fits ← available_at b at (length d)
  assert fits
  done (record b { bytes = overwrite b.bytes at d })

-- The tail that `buffer_write` and its relatives share: the position moves over what was written.
abbrev pub moved : Buffer → ℕ → Buffer
moved b n = record b { position = b.position + n }

unfoldable pub write : Buffer → List ℕ → Outcome Buffer
unfolding write_at
write b d = do b' ← write_at b b.position d; done (moved b' (length d))

unfoldable pub write_u8_at : Buffer → ℕ → ℕ → Outcome Buffer
unfolding write_at
write_u8_at b at v = write_at b at (v % 256 ∷ [])

unfoldable pub write_u8 : Buffer → ℕ → Outcome Buffer
unfolding write_u8_at
write_u8 b v = do b' ← write_u8_at b b.position v; done (moved b' 1)

unfoldable pub write_u16_at : Buffer → ℕ → ℕ → Outcome Buffer
unfolding write_at be16
write_u16_at b at v = write_at b at (be16 v)

unfoldable pub write_u16 : Buffer → ℕ → Outcome Buffer
unfolding write_u16_at
write_u16 b v = do b' ← write_u16_at b b.position v; done (moved b' 2)

unfoldable pub write_u32_at : Buffer → ℕ → ℕ → Outcome Buffer
unfolding write_at be32
write_u32_at b at v = write_at b at (be32 v)

unfoldable pub write_u32 : Buffer → ℕ → Outcome Buffer
unfolding write_u32_at
write_u32 b v = do b' ← write_u32_at b b.position v; done (moved b' 4)

unfoldable pub write_u64_at : Buffer → ℕ → ℕ → Outcome Buffer
unfolding write_at be64
write_u64_at b at v = write_at b at (be64 v)

unfoldable pub write_u64 : Buffer → ℕ → Outcome Buffer
unfolding write_u64_at
write_u64 b v = do b' ← write_u64_at b b.position v; done (moved b' 8)

-- The assertion that every read makes, and the value that it then takes from the octets.
unfoldable pub fetch {ℓ} : {A : Type ℓ} → Buffer → ℕ → ℕ → A → Outcome A
unfolding available_at
fetch b at count v = do fits ← available_at b at count; assert fits; done v

unfoldable pub read_at : Buffer → ℕ → ℕ → Outcome (List ℕ)
unfolding fetch
read_at b at count = fetch b at count (take count (drop at b.bytes))

unfoldable pub read : Buffer → ℕ → Outcome (List ℕ × Buffer)
unfolding read_at
read b count = do d ← read_at b b.position count; done (d, moved b count)

unfoldable pub read_u8_at : Buffer → ℕ → Outcome ℕ
unfolding fetch
read_u8_at b at = fetch b at 1 (get_or b.bytes at 0)

unfoldable pub read_u8 : Buffer → Outcome (ℕ × Buffer)
unfolding read_u8_at
read_u8 b = do v ← read_u8_at b b.position; done (v, moved b 1)

unfoldable pub read_u16_at : Buffer → ℕ → Outcome ℕ
unfolding fetch read_uint16
read_u16_at b at = fetch b at 2 (read_uint16 b.bytes at)

unfoldable pub read_u16 : Buffer → Outcome (ℕ × Buffer)
unfolding read_u16_at
read_u16 b = do v ← read_u16_at b b.position; done (v, moved b 2)

unfoldable pub read_u32_at : Buffer → ℕ → Outcome ℕ
unfolding fetch read_uint32
read_u32_at b at = fetch b at 4 (read_uint32 b.bytes at)

unfoldable pub read_u32 : Buffer → Outcome (ℕ × Buffer)
unfolding read_u32_at
read_u32 b = do v ← read_u32_at b b.position; done (v, moved b 4)

unfoldable pub read_u64_at : Buffer → ℕ → Outcome ℕ
unfolding fetch read_uint64
read_u64_at b at = fetch b at 8 (read_uint64 b.bytes at)

unfoldable pub read_u64 : Buffer → Outcome (ℕ × Buffer)
unfolding read_u64_at
read_u64 b = do v ← read_u64_at b b.position; done (v, moved b 8)
