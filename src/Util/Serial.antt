-- ===== src/Util/Serial.antt =====
-- `compare_serial` is the order of RFC 1982 on the circle of 32-bit numbers.
use nsd_old.Base.{before, same, after, ℕ, ◌+◌, ◌-◌, ◌%◌, ◌^◌, ◌<◌, ◌≤◌, ◌≡◌, ◌≢◌, ◌↔◌, arith}
use nsd_old.Util.{compare_serial, u32_mod}

-- The way from `a` forward to `b` round the circle.
abbrev pub ahead : ℕ → ℕ → ℕ
ahead a b = (b + u32_mod - a) % u32_mod

module _ (a b : ℕ) (ha : a < u32_mod) (hb : b < u32_mod) where
  -- For 32-bit serials, `compare_serial` says 0 exactly for equal ones, -1 exactly if the way
  -- forward from the first to the second is positive and less than half the circle, and 1 exactly
  -- if that way is half the circle or more.
  pub compare_serial_circle :
      ((compare_serial a b ≡ same) ↔ (a ≡ b))
      × ((compare_serial a b ≡ before) ↔ ((0 < ahead a b) × (ahead a b < 2 ^ 31)))
      × ((compare_serial a b ≡ after) ↔ (2 ^ 31 ≤ ahead a b))
  unfolding compare_serial
  compare_serial_circle = ground arith

  -- For 32-bit serials that are not half the circle apart, exchanging them exchanges -1 and 1.
  pub compare_serial_antisym :
      ahead a b ≢ 2 ^ 31 → (compare_serial a b ≡ before) ↔ (compare_serial b a ≡ after)
  unfolding compare_serial
  compare_serial_antisym h = ground arith

-- A serial that was raised by less than half the circle, wrapping or not, is after the old one.
pub compare_serial-raised :
    (a n : ℕ) → a < u32_mod → 0 < n → n < 2 ^ 31 → compare_serial a ((a + n) % u32_mod) ≡ before
unfolding compare_serial
compare_serial-raised a n ha h k = ground arith
