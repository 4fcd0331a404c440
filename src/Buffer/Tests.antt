-- ===== src/Buffer/Tests.antt =====
-- Runs of the buffer on small octet arrays, and its theorems at concrete inputs.
use nsd_old.Base.{◌≡◌, refl, inr, [], ◌∷◌, arith, false, replicate, done, fault, Returns}
use nsd_old.Buffer.{Buffer, reserve, write, read_u16}
use nsd_old.Buffer.Valid.{IsValid, Reserved, reserve-Reserved}
use nsd_old.Buffer.RoundTrip.{Wrote, write-Wrote}

abbrev ten : Buffer
ten = record {
  bytes = 1 ∷ 2 ∷ 3 ∷ 4 ∷ 5 ∷ 6 ∷ 7 ∷ 8 ∷ 9 ∷ 10 ∷ [];
  position = 1;
  limit = 10;
  capacity = 10;
  is_fixed = false;
}

ten-IsValid : IsValid ten
ten-IsValid = omega arith

read_u16_runs : read_u16 ten ≡ done (0x0203, record ten { position = 3 })
unfolding read_u16
read_u16_runs = refl

read_u16_at_end : read_u16 (record ten { position = 9 }) ≡ fault
unfolding read_u16
read_u16_at_end = refl

reserve-Reserved_example : Returns (Reserved ten 20) (reserve (replicate 40 0) ten 20)
reserve-Reserved_example =
    reserve-Reserved (replicate 40 0) {b = ten} 20 ten-IsValid refl (omega arith) (omega arith)

write-Wrote_example : Returns (Wrote ten (7 ∷ 7 ∷ []) 3) (write ten (7 ∷ 7 ∷ []))
write-Wrote_example =
    write-Wrote {b = ten} ten-IsValid (7 ∷ 7 ∷ []) 3 (omega arith) (inr (omega arith))
