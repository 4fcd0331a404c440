-- ===== src/Rrl/Tests.antt =====
-- Runs of one bucket, and the theorems at concrete inputs.
use nsd_old.Base.{ℕ, ◌+◌, ◌≤◌, ◌<◌, ◌≡◌, ◌⊎◌, refl, arith}
use nsd_old.Rrl.{Bucket, shift_right, attenuate, aged}
use nsd_old.Rrl.Smooth.{second_by_second, attenuate-second_by_second}

abbrev bucket : Bucket
bucket = record { source = 7; rate = 9; hash = 12; counter = 5; stamp = 100; flags = 1 }

abbrev table : ℕ → Bucket
table i = bucket

three_later : (aged bucket 103).rate ≡ 2
unfolding aged attenuate shift_right
three_later = refl

from_the_future : (aged bucket 99).rate ≡ 0
unfolding aged attenuate shift_right
from_the_future = refl

attenuate-second_by_second_example :
    ((3 ≤ 16)
      × ((attenuate bucket 3).rate ≤ second_by_second bucket 3)
      × (second_by_second bucket 3 ≤ (attenuate bucket 3).rate + 1))
    ⊎ ((16 < 3) × ((attenuate bucket 3).rate ≡ 0))
attenuate-second_by_second_example = attenuate-second_by_second bucket 3 (omega arith) (omega arith)
