-- ===== src/Util.antt =====
-- util.c: serial numbers and the numbers of zone files. A C string is the list of its characters
-- before the NUL; `*endptr` is the list of those that were not read.
pub mod Serial
pub mod Decimal
pub mod Hex
mod Tests
use nsd_old.Base.{
  Comparison, before, same, after, ℕ, ◌+◌, ◌-◌, ◌*◌, ◌/◌, ◌%◌, ◌^◌, Bool, true, false, not, ◌&&◌,
  ◌||◌, List, [], ◌∷◌, leb, ltb, ◌==◌, if◌then◌else◌,
}

abbrev pub u32_mod : ℕ
u32_mod = 2 ^ 32

-- `compare_serial`
pub compare_serial : ℕ → ℕ → Comparison
compare_serial a b =
    let cutoff : ℕ = 2 ^ 31 in
    if a == b
    then same
    else if (ltb a b && ltb (b - a) cutoff) || (ltb b a && ltb cutoff (a - b))
    then before
    else after

abbrev pub is_digit : ℕ → Bool
is_digit c = leb b'0' c && leb c b'9'

-- The loop of `strtoserial`. A character that is no digit is passed over, whatever it is.
pub serial_loop : ℕ → List ℕ → ℕ × List ℕ
serial_loop i [] = (i, [])
serial_loop i (c ∷ cs) =
    let more = serial_loop ((i * 10 % u32_mod + (c - b'0')) % u32_mod) cs in
    let past = serial_loop i cs in
    if is_digit c then (if i * 10 % u32_mod / 10 == i then more else (i, c ∷ cs)) else past

pub strtoserial : List ℕ → ℕ × List ℕ
strtoserial cs = serial_loop 0 cs

abbrev pub default_ttl : ℕ
default_ttl = 3600

-- The seconds that a unit character stands for in `strtottl`, 0 for any other character.
pub unit_seconds : ℕ → ℕ
unit_seconds c =
    if c == b's' || c == b'S'
    then 1
    else if c == b'm' || c == b'M'
    then 60
    else if c == b'h' || c == b'H'
    then 60 * 60
    else if c == b'd' || c == b'D'
    then 60 * 60 * 24
    else if c == b'w' || c == b'W'
    then 60 * 60 * 24 * 7
    else 0

abbrev pub is_blank : ℕ → Bool
is_blank c = c == b' ' || c == 9

-- `seconds & MSB_32` is that a 32-bit number is 2 ^ 31 or more.
abbrev pub msb_clear : ℕ → ℕ
msb_clear seconds = if leb (2 ^ 31) seconds then default_ttl else seconds

-- The loop of `strtottl`, with its two exits.
pub ttl_loop : ℕ → ℕ → List ℕ → ℕ × List ℕ
ttl_loop i seconds [] = (msb_clear ((seconds + i) % u32_mod), [])
ttl_loop i seconds (c ∷ cs) =
    let past = ttl_loop i seconds cs in
    let unit = ttl_loop 0 ((seconds + i * unit_seconds c % u32_mod) % u32_mod) cs in
    let digit = ttl_loop ((i * 10 % u32_mod + (c - b'0')) % u32_mod) seconds cs in
    if is_blank c
    then past
    else if ltb 0 (unit_seconds c)
    then unit
    else if is_digit c
    then digit
    else (msb_clear ((seconds + i) % u32_mod), c ∷ cs)

pub strtottl : List ℕ → ℕ × List ℕ
strtottl cs = ttl_loop 0 0 cs
