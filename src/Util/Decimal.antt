-- ===== src/Util/Decimal.antt =====
-- `strtoserial` and `strtottl` on texts of digits and units.
use native.Mathlib.Nat.{div-add-mod}
use nsd_old.Base.{
  ℕ, ◌+◌, ◌-◌, ◌*◌, ◌%◌, ◌^◌, ◌<◌, ◌≤◌, ◌≡◌, refl, ◌∙◌, ap, Bool-cases, inl, inr, false, List, [],
  ◌∷◌, ◌++◌, All, arith,
}
use nsd_old.Util.{
  serial_loop, strtoserial, ttl_loop, strtottl, unit_seconds, is_blank, u32_mod, msb_clear,
}

abbrev pub IsDigit : ℕ → Type 0
IsDigit c = (b'0' ≤ c) × (c ≤ b'9')

-- The number that digits spell behind a number `i`.
abbrev pub value : ℕ → List ℕ → ℕ
value i [] = i
value i (c ∷ cs) = value (i * 10 + (c - b'0')) cs

le-value : (i : ℕ) (cs : List ℕ) → i ≤ value i cs
le-value i [] = omega arith
le-value i (c ∷ cs) = omega (arith, le-value (i * 10 + (c - b'0')) cs)

serial_loop-value :
    (i : ℕ) (cs : List ℕ)
    → All IsDigit cs
    → value i cs < u32_mod
    → serial_loop i cs ≡ (value i cs, [])
unfolding serial_loop
serial_loop-value i [] d h = refl
serial_loop-value i (c ∷ cs) (d, ds) h =
    ground (arith, le-value (i * 10 + (c - b'0')) cs, serial_loop-value (i * 10 + (c - b'0')) cs ds)

-- `strtoserial` reads decimal digits whose number fits 32 bits to the end, as that number.
pub strtoserial-value :
    (cs : List ℕ) → All IsDigit cs → value 0 cs < u32_mod → strtoserial cs ≡ (value 0 cs, [])
unfolding strtoserial
strtoserial-value cs d h = serial_loop-value 0 cs d h

serial_loop-append :
    (i : ℕ) (cs rest : List ℕ)
    → All IsDigit cs
    → value i cs < u32_mod
    → serial_loop i (cs ++ rest) ≡ serial_loop (value i cs) rest
unfolding serial_loop
serial_loop-append i [] rest d h = refl
serial_loop-append i (c ∷ cs) rest (d, ds) h =
    ground (
      arith,
      le-value (i * 10 + (c - b'0')) cs,
      serial_loop-append (i * 10 + (c - b'0')) cs rest ds,
    )

-- The overflow test of `strtoserial` misses the last digit: digits of 429496729 followed by a digit
-- `c` of 6 or more, a number of 2 ^ 32 or more, are read to the end without a sign of failure, as the
-- number wrapped round, `c` - 6.
pub strtoserial_wraps :
    (cs : List ℕ) (c : ℕ)
    → All IsDigit cs
    → value 0 cs ≡ 429496729
    → b'6' ≤ c
    → c ≤ b'9'
    → strtoserial (cs ++ (c ∷ [])) ≡ (c - b'6', [])
unfolding strtoserial
strtoserial_wraps cs c d e lo hi =
    serial_loop-append 0 cs (c ∷ []) d (omega (arith, e))
    ∙ unfold serial_loop in rw e (ground arith)

-- A period of a TTL: digits, then a unit.
abbrev pub Period : Type 0
Period = List ℕ × ℕ

abbrev pub IsPeriod : Period → Type 0
IsPeriod (digits, c) = All IsDigit digits × (0 < unit_seconds c)

abbrev pub text : List Period → List ℕ
text [] = []
text ((digits, c) ∷ ps) = digits ++ (c ∷ text ps)

abbrev pub total : List Period → ℕ
total [] = 0
total ((digits, c) ∷ ps) = value 0 digits * unit_seconds c + total ps

-- Units are neither blanks nor digits.
unit-not_blank : (c : ℕ) → 0 < unit_seconds c → is_blank c ≡ false
unfolding unit_seconds
unit-not_blank c h = elim (Bool-cases (is_blank c)) [
  | inl e ↦ absurd (ground (arith, e))
  | inr e ↦ e
]

digit-not_unit : (c : ℕ) → IsDigit c → unit_seconds c ≡ 0
unfolding unit_seconds
digit-not_unit c d = ground arith

wrapped :
    (n seconds f : ℕ)
    → (seconds % u32_mod + n % u32_mod * f % u32_mod) % u32_mod ≡ (seconds + n * f) % u32_mod
wrapped n seconds f = omega (arith, ap (λ (t : ℕ). t * f) (div-add-mod n u32_mod))

-- The loop over digits, and over a unit behind them.
ttl_loop-digits :
    (i seconds : ℕ) (cs rest : List ℕ)
    → All IsDigit cs
    → ttl_loop (i % u32_mod) seconds (cs ++ rest) ≡ ttl_loop (value i cs % u32_mod) seconds rest
ttl_loop-digits i seconds [] rest d = refl
ttl_loop-digits i seconds (c ∷ cs) rest (d, ds) =
    digit_step ∙ ttl_loop-digits (i * 10 + (c - b'0')) seconds cs rest ds
  where
    digit_step :
        ttl_loop (i % u32_mod) seconds (c ∷ (cs ++ rest))
        ≡ ttl_loop ((i * 10 + (c - b'0')) % u32_mod) seconds (cs ++ rest)
    digit_step =
        let e : (i % u32_mod * 10 % u32_mod + (c - b'0')) % u32_mod
            ≡ (i * 10 + (c - b'0')) % u32_mod =
          omega arith in
        unfold ttl_loop in ground (arith, e, digit-not_unit c d)

ttl_loop-unit :
    (n seconds c : ℕ) (rest : List ℕ)
    → 0 < unit_seconds c
    → ttl_loop (n % u32_mod) (seconds % u32_mod) (c ∷ rest)
      ≡ ttl_loop 0 ((seconds + n * unit_seconds c) % u32_mod) rest
unfolding ttl_loop
ttl_loop-unit n seconds c rest h =
    ground (arith, unit-not_blank c h, wrapped n seconds (unit_seconds c))

ttl_loop-text :
    (seconds : ℕ) (ps : List Period)
    → All IsPeriod ps
    → ttl_loop 0 (seconds % u32_mod) (text ps) ≡ (msb_clear ((seconds + total ps) % u32_mod), [])
ttl_loop-text seconds [] d =
    let e : (seconds % u32_mod + 0) % u32_mod ≡ (seconds + 0) % u32_mod = omega arith in
    unfold ttl_loop in ap (λ t. (msb_clear t, [])) e
ttl_loop-text seconds ((digits, c) ∷ ps) ((d, u), ds) =
    let n = value 0 digits * unit_seconds c in
    let e : seconds + n + total ps ≡ seconds + (n + total ps) = omega arith in
    ttl_loop-digits 0 (seconds % u32_mod) digits (c ∷ text ps) d
    ∙ ttl_loop-unit (value 0 digits) seconds c (text ps) u
    ∙ ttl_loop-text (seconds + value 0 digits * unit_seconds c) ps ds
    ∙ ap (λ t. (msb_clear (t % u32_mod), [])) e

-- `strtottl` reads a text of periods, each digits and a unit, to the end, and returns the seconds
-- that they sum to, modulo 2 ^ 32, or the default TTL if the sign bit of that is set. So a sum below
-- 2 ^ 31 is returned and one from there to below 2 ^ 32 gives the default, while a sum of 2 ^ 32 or
-- more wraps, and may come out as a small TTL.
pub strtottl-text :
    (ps : List Period) → All IsPeriod ps → strtottl (text ps) ≡ (msb_clear (total ps % u32_mod), [])
unfolding strtottl
strtottl-text ps d =
    let e : 0 + total ps ≡ total ps = omega arith in
    ttl_loop-text 0 ps d ∙ ap (λ t. (msb_clear (t % u32_mod), [])) e

ttl_loop-lt : (i seconds : ℕ) (cs : List ℕ) → (ttl_loop i seconds cs).0 < 2 ^ 31
unfolding ttl_loop
ttl_loop-lt i seconds [] = ground arith
ttl_loop-lt i seconds (c ∷ cs) = ground (
  arith,
  ttl_loop-lt i seconds cs,
  ttl_loop-lt 0 ((seconds + i * unit_seconds c % u32_mod) % u32_mod) cs,
  ttl_loop-lt ((i * 10 % u32_mod + (c - b'0')) % u32_mod) seconds cs,
)

-- Whatever the text, `strtottl` returns a number with the sign bit clear.
pub strtottl-lt : (cs : List ℕ) → (strtottl cs).0 < 2 ^ 31
unfolding strtottl
strtottl-lt cs = ttl_loop-lt 0 0 cs
