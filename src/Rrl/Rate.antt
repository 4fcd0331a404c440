-- ===== src/Rrl/Rate.antt =====
-- What the rate limit does to a source that keeps within its rate, and to the others.
use nsd_old.Base.{
  ℕ, zero, suc, ◌+◌, ◌-◌, ◌*◌, ◌/◌, ◌%◌, ◌^◌, ◌≤◌, ◌<◌, ◌≡◌, ◌≢◌, ◌⊎◌, inl, inr, refl, true, not,
  ◌||◌, ◌==◌, Bool-cases, arith,
}
use nsd_old.Rrl.{
  Bucket, u32_mod, shift_right, attenuate, elapsed, aged, current_rate, update_bucket, update,
  process,
}

-- A bucket has seen at most `c` queries in this second, and no more in any second before: then its
-- smoothed rate is at most twice that.
pub record Within (c : ℕ) (b : Bucket) : Type 0 where
  pub counter_le : b.counter ≤ c
  pub rate_le : b.rate ≤ 2 * c

pub shift_right-le : (n x : ℕ) → shift_right x n ≤ x
unfolding shift_right
shift_right-le zero x = omega arith
shift_right-le (suc n) x = omega (arith, shift_right-le n (x / 2))

shift_right-half : (n x : ℕ) → 0 < n → shift_right x n ≤ x / 2
unfolding shift_right
shift_right-half zero x h = elim h [ ]
shift_right-half (suc n) x h = shift_right-le n (x / 2)

aged-Within :
    (c : ℕ) {b : Bucket} (now : ℕ)
    → 0 < c
    → c < 2 ^ 30
    → Within c b
    → (elapsed now b.stamp ≢ 0) ⊎ (b.counter < c)
    → Within c (aged b now)
unfolding aged attenuate
aged-Within c {b} now p s w o = ground (
  arith,
  shift_right-half (elapsed now b.stamp) b.rate,
  shift_right-le (elapsed now b.stamp - 1) b.counter,
)

-- The bucket is the one of this source.
abbrev pub IsOf : Bucket → ℕ → ℕ → ℕ → Type 0
IsOf b hash source flags = (b.source ≡ source) × (b.flags ≡ flags) × (b.hash ≡ hash)

-- If the bucket is the one of the source, it has seen less than `c` queries before this one.
abbrev pub Keeps : ℕ → Bucket → ℕ → ℕ → ℕ → ℕ → Type 0
Keeps c b hash source flags now =
    IsOf b hash source flags → Within c b × ((elapsed now b.stamp ≢ 0) ⊎ (b.counter < c))

aged-IsOf :
    (b : Bucket) (hash source flags now : ℕ)
    → IsOf b hash source flags
    → IsOf (aged b now) hash source flags
unfolding aged attenuate
aged-IsOf b hash source flags now o = ground (arith, o)

-- The bucket of a source that sends at most `c` queries in every second, up to and with the query at
-- hand, stays so, and the rate that `rrl_update` returns is at most 2 * c. Of a bucket of another source
-- nothing is asked: it is given to this source.
pub update_bucket-Within :
    (c : ℕ) {b : Bucket} (hash source flags now : ℕ)
    → 0 < c
    → c < 2 ^ 30
    → Keeps c b hash source flags now
    → Within c (update_bucket b hash source flags now).0
      × IsOf (update_bucket b hash source flags now).0 hash source flags
      × ((update_bucket b hash source flags now).1 ≤ 2 * c)
unfolding update_bucket current_rate
update_bucket-Within c {b} hash source flags now p s k =
    elim (Bool-cases (not (b.source == source) || not (b.flags == flags) || not (b.hash == hash))) [
      | inl e ↦ rw e (omega (arith, p), (refl, refl, refl), omega (arith, p))
      | inr e ↦
          let o : IsOf b hash source flags = ground (arith, e) in
          let w = aged-Within c now p s (k o).0 (k o).1 in
          rw e (w, aged-IsOf b hash source flags now o, ground (arith, w))
    ]

module _ (table : ℕ → Bucket) (size hash source flags now lm : ℕ) where
  -- A query that is the `n`-th of its source in this second, with `n` and half the smoothed rate at
  -- the limit, is dropped by `rrl_process_query`, and so counted.
  pub process-drops :
      let b = table (hash % size) in
      0 < lm
      → b.source ≡ source
      → b.flags ≡ flags
      → b.hash ≡ hash
      → b.stamp ≡ now
      → now < u32_mod
      → b.counter + 1 + b.rate / 2 < u32_mod
      → lm ≤ b.counter + 1 + b.rate / 2
      → ((process table size hash source flags now lm).1 ≡ true)
        × (((process table size hash source flags now lm).0 (hash % size)).counter ≡ b.counter + 1)
  unfolding process update update_bucket aged current_rate
  process-drops z es ef eh et nb nw h = ground arith
