-- ===== src/Util/Hex.antt =====
-- util.c: the hexadecimal coder. A C string is the list of its characters before the NUL.
pub mod RoundTrip
mod Tests
use nsd_old.Base.{
  ℕ, ◌+◌, ◌-◌, ◌*◌, ◌/◌, ◌%◌, Bool, true, false, not, ◌&&◌, ◌||◌, Option, none, some, List, [], ◌∷◌,
  leb, ltb, ◌==◌, if◌then◌else◌, length, get_or, Outcome, done, fault, ◌>>=◌,
}

-- The table of `hex_ntop`
abbrev pub hexdigits : List ℕ
hexdigits =
    b'0' ∷ b'1' ∷ b'2' ∷ b'3' ∷ b'4' ∷ b'5' ∷ b'6' ∷ b'7' ∷ b'8' ∷ b'9' ∷ b'a' ∷ b'b' ∷ b'c' ∷ b'd'
    ∷ b'e' ∷ b'f' ∷ []

-- The loop of `hex_ntop`
pub hex_text : List ℕ → List ℕ
hex_text [] = []
hex_text (x ∷ xs) = get_or hexdigits (x / 16) 0 ∷ get_or hexdigits (x % 16) 0 ∷ hex_text xs

-- `hex_ntop`: the characters before the NUL, whose number is the result; `none` for -1.
pub hex_ntop : List ℕ → ℕ → Option (List ℕ)
hex_ntop src targsize = if ltb targsize (length src * 2 + 1) then none else some (hex_text src)

-- `isxdigit` of an ASCII character
pub isxdigit : ℕ → Bool
isxdigit c = (leb b'0' c && leb c b'9') || (leb b'a' c && leb c b'f') || (leb b'A' c && leb c b'F')

-- `hexdigit_to_int`, which aborts at any other character
pub hexdigit_to_int : ℕ → Outcome ℕ
hexdigit_to_int c =
    if leb b'0' c && leb c b'9'
    then done (c - b'0')
    else if leb b'a' c && leb c b'f'
    then done (c - b'a' + 10)
    else if leb b'A' c && leb c b'F'
    then done (c - b'A' + 10)
    else fault

-- The octet that a round writes, in front of those of the next rounds
abbrev pub in_front : ℕ → Option (List ℕ) → Option (List ℕ)
in_front x none = none
in_front x (some xs) = some (x ∷ xs)

-- The loop of `hex_pton`; behind the last character `src[1]` would be the NUL.
pub hex_octets : List ℕ → Outcome (Option (List ℕ))
hex_octets [] = done (some [])
hex_octets (c ∷ []) = done none
hex_octets (c ∷ d ∷ src) = do
  rest ← hex_octets src
  if not (isxdigit c) || not (isxdigit d) then done none else do
    high ← hexdigit_to_int c
    low ← hexdigit_to_int d
    done (in_front (high * 16 + low) rest)

-- `hex_pton`: the octets that it writes, whose number is the result; `none` for -1.
pub hex_pton : List ℕ → ℕ → Outcome (Option (List ℕ))
hex_pton src targsize =
    if not (length src % 2 == 0) || ltb targsize (length src / 2) then done none else hex_octets src
