-- ===== src/Rrl.antt =====
-- rrl.c: response rate limiting. One bucket keeps a smoothed rate of the queries of one source; the
-- table of buckets is a function of the slot. Log messages are left out.
pub mod Rate
pub mod Smooth
mod Tests
use nsd_old.Base.{
  ℕ, zero, suc, ◌+◌, ◌-◌, ◌*◌, ◌/◌, ◌%◌, ◌^◌, Bool, true, false, not, ◌&&◌, ◌||◌, leb, ltb, ◌==◌,
  if◌then◌else◌,
}

abbrev pub u32_mod : ℕ
u32_mod = 2 ^ 32

-- `struct rrl_bucket`. A stamp is an `int32_t`, given by its 32-bit pattern.
pub record Bucket : Type 0 where
  pub source : ℕ
  pub rate : ℕ
  pub hash : ℕ
  pub counter : ℕ
  pub stamp : ℕ
  pub flags : ℕ

-- `x >> n`
pub shift_right : ℕ → ℕ → ℕ
shift_right x zero = x
shift_right x (suc n) = shift_right (x / 2) n

-- `rrl_attenuate_bucket`
pub attenuate : Bucket → ℕ → Bucket
attenuate b elapsed = if ltb 16 elapsed then record b { rate = 0 } else record b {
  rate = (shift_right b.rate elapsed + shift_right b.counter (elapsed - 1)) % u32_mod;
}

-- `used_to_block`
pub used_to_block : ℕ → ℕ → ℕ → Bool
used_to_block rate counter lm = leb lm rate || leb lm ((counter + rate / 2) % u32_mod)

-- `now - b->stamp` as a 32-bit pattern; it is positive from 1 up to 2 ^ 31 - 1.
abbrev pub elapsed : ℕ → ℕ → ℕ
elapsed now stamp = (now + u32_mod - stamp) % u32_mod

-- The bucket of the same source, brought up to date.
pub aged : Bucket → ℕ → Bucket
aged b now =
    let d = elapsed now b.stamp in
    if d == 1
    then record b { rate = (b.rate / 2 + b.counter) % u32_mod; counter = 1; stamp = now }
    else if ltb 0 d && ltb d (2 ^ 31)
    then record (attenuate b d) { counter = 1; stamp = now }
    else if not (d == 0)
    then record b { rate = 0; counter = 1; stamp = now }
    else record b { counter = (b.counter + 1) % u32_mod }

-- The rate that `rrl_update` returns for a bucket that is up to date.
pub current_rate : Bucket → ℕ
current_rate b = if ltb (b.rate / 2) b.counter then (b.counter + b.rate / 2) % u32_mod else b.rate

-- The bucket that `rrl_update` leaves in its slot, and what it returns.
pub update_bucket : Bucket → ℕ → ℕ → ℕ → ℕ → Bucket × ℕ
update_bucket b hash source flags now =
    if not (b.source == source) || not (b.flags == flags) || not (b.hash == hash)
    then (
      record { source = source; rate = 0; hash = hash; counter = 1; stamp = now; flags = flags },
      1,
    )
    else (aged b now, current_rate (aged b now))

-- `rrl_update` on the table of `size` buckets.
pub update : (ℕ → Bucket) → ℕ → ℕ → ℕ → ℕ → ℕ → (ℕ → Bucket) × ℕ
update table size hash source flags now =
    let slot = hash % size in
    let (b, rate) = update_bucket (table slot) hash source flags now in
    ((λ i. if i == slot then b else table i), rate)

-- The end of `rrl_process_query`: the limit that applies is `lm`, and the result is that the query
-- is to be dropped.
pub process : (ℕ → Bucket) → ℕ → ℕ → ℕ → ℕ → ℕ → ℕ → (ℕ → Bucket) × Bool
process table size hash source flags now lm =
    let (table', rate) = update table size hash source flags now in
    if lm == 0 then (table, false) else (table', leb lm rate)
