-- ===== src/Util/Tests.antt =====
-- Runs of the serial and TTL routines, and their theorems at concrete inputs.
use nsd_old.Base.{
  before, same, after, ℕ, ◌-◌, ◌%◌, ◌^◌, ◌<◌, ◌≤◌, ◌≡◌, ◌↔◌, refl, List, [], ◌∷◌, ◌++◌, arith,
}
use nsd_old.Util.{
  compare_serial, serial_loop, strtoserial, unit_seconds, ttl_loop, strtottl, u32_mod, msb_clear,
}
use nsd_old.Util.Serial.{ahead, compare_serial_circle}
use nsd_old.Util.Decimal.{Period, total, text, strtoserial_wraps, strtottl-text}

abbrev digits_2038 : List ℕ
digits_2038 = b'2' ∷ b'0' ∷ b'3' ∷ b'8' ∷ []

-- 429496729
abbrev tenth : List ℕ
tenth = b'4' ∷ b'2' ∷ b'9' ∷ b'4' ∷ b'9' ∷ b'6' ∷ b'7' ∷ b'2' ∷ b'9' ∷ []

-- 1h30m
abbrev periods : List Period
periods = (b'1' ∷ [], b'h') ∷ (b'3' ∷ b'0' ∷ [], b'm') ∷ []

ttl_with_blank : strtottl (b'1' ∷ b'h' ∷ b' ' ∷ b'5' ∷ b';' ∷ []) ≡ (3605, b';' ∷ [])
unfolding strtottl ttl_loop unit_seconds
ttl_with_blank = refl

serial_over : strtoserial (tenth ++ (b'9' ∷ [])) ≡ (3, [])
unfolding strtoserial serial_loop
serial_over = refl

serial_far_over : strtoserial (tenth ++ (b'9' ∷ b'0' ∷ b'0' ∷ [])) ≡ (300, [])
unfolding strtoserial serial_loop
serial_far_over = refl

compare_serial_circle_example :
    ((compare_serial 5 4294967295 ≡ same) ↔ (◌≡◌ {A = ℕ} 5 4294967295))
    × ((compare_serial 5 4294967295 ≡ before)
        ↔ ((0 < ahead 5 4294967295) × (ahead 5 4294967295 < 2 ^ 31)))
    × ((compare_serial 5 4294967295 ≡ after) ↔ (2 ^ 31 ≤ ahead 5 4294967295))
compare_serial_circle_example = compare_serial_circle 5 4294967295 (omega arith) (omega arith)

strtoserial_wraps_example : strtoserial (tenth ++ (b'8' ∷ [])) ≡ (b'8' - b'6', [])
strtoserial_wraps_example =
    strtoserial_wraps tenth b'8' (omega arith) refl (omega arith) (omega arith)

strtottl-text_example : strtottl (text periods) ≡ (msb_clear (total periods % u32_mod), [])
unfolding unit_seconds
strtottl-text_example = strtottl-text periods (omega arith)
