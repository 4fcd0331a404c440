-- ===== src/Rrl/Smooth.antt =====
-- Aging a bucket over several silent seconds at once is aging it second by second, to within one.
use native.Mathlib.Decide.{dec_lt}
use nsd_old.Base.{◌⊎◌, inl, inr, ℕ, zero, suc, ◌+◌, ◌-◌, ◌/◌, ◌%◌, ◌≤◌, ◌<◌, ◌≡◌, refl, arith}
use nsd_old.Rrl.Rate.{shift_right-le}
use nsd_old.Rrl.{Bucket, u32_mod, shift_right, attenuate}

-- The rate after `d` seconds by the rule for one, `rate = rate/2 + counter`, where no query came
-- after the first of them.
abbrev pub second_by_second : Bucket → ℕ → ℕ
second_by_second b zero = b.rate
second_by_second b (suc d) = shift_right (b.rate / 2 + b.counter) d

shift_right-add :
    (n x y carry : ℕ)
    → carry ≤ 1
    → (shift_right x n + shift_right y n ≤ shift_right (x + y + carry) n)
      × (shift_right (x + y + carry) n ≤ shift_right x n + shift_right y n + 1)
unfolding shift_right
shift_right-add zero x y carry h = omega arith
shift_right-add (suc n) x y carry h =
    let k = (x % 2 + y % 2 + carry) / 2 in
    let e : (x + y + carry) / 2 ≡ x / 2 + y / 2 + k = omega arith in
    rw e (shift_right-add n (x / 2) (y / 2) k (omega arith))

sum_fits :
    (b : Bucket) (d : ℕ)
    → shift_right (b.rate / 2) d + shift_right b.counter d ≤ shift_right (b.rate / 2 + b.counter) d
    → shift_right (b.rate / 2 + b.counter) d
      ≤ shift_right (b.rate / 2) d + shift_right b.counter d + 1
    → shift_right (b.rate / 2) d + shift_right b.counter d < u32_mod
    → ((suc d ≤ 16)
        × ((attenuate b (suc d)).rate ≤ second_by_second b (suc d))
        × (second_by_second b (suc d) ≤ (attenuate b (suc d)).rate + 1))
      ⊎ ((16 < suc d) × ((attenuate b (suc d)).rate ≡ 0))
unfolding attenuate
sum_fits b d low high f =
    let e : suc d - 1 ≡ d = omega arith in
    let s : shift_right b.rate (suc d) ≡ shift_right (b.rate / 2) d = unfold shift_right in refl in
    elim (dec_lt 16 (suc d)) [
      | yes h ↦ inr (h, ground arith)
      | no h ↦ inl (omega arith, ground (arith, e, s), ground (arith, e, s))
    ]

-- For 2 to 16 seconds `rrl_attenuate_bucket` gives the rate that the rule for one second gives when it
-- is applied that often with no query in between, or one less; for more seconds it gives 0. The
-- numbers of the bucket are those of 32 bits, and so is the rate after one second.
pub attenuate-second_by_second :
    (b : Bucket) (d : ℕ)
    → b.rate / 2 + b.counter < u32_mod
    → (2 ≤ d)
    → ((d ≤ 16)
        × ((attenuate b d).rate ≤ second_by_second b d)
        × (second_by_second b d ≤ (attenuate b d).rate + 1))
      ⊎ ((16 < d) × ((attenuate b d).rate ≡ 0))
attenuate-second_by_second b zero h p = elim p [ ]
attenuate-second_by_second b (suc d) h p =
    let x = b.rate / 2 in
    let y = b.counter in
    let (low, high) = shift_right-add d x y 0 (omega arith) in
    let e : x + y + 0 ≡ x + y = omega arith in
    let le : shift_right (x + y) d ≤ x + y = shift_right-le d (x + y) in
    let low' : shift_right x d + shift_right y d ≤ shift_right (x + y) d = rw e at low in
    let high' : shift_right (x + y) d ≤ shift_right x d + shift_right y d + 1 = rw e at high in
    sum_fits b d low' high' (omega arith)
