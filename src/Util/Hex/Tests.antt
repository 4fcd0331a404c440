-- ===== src/Util/Hex/Tests.antt =====
-- Runs of the hexadecimal coder, and its theorem at an input.
use nsd_old.Base.{ℕ, ◌*◌, ◌≤◌, ◌<◌, ◌≡◌, refl, none, some, List, [], ◌∷◌, length, done, arith}
use nsd_old.Util.Hex.{hex_text, hex_ntop, isxdigit, hexdigit_to_int, hex_octets, hex_pton}
use nsd_old.Util.Hex.RoundTrip.{hex_ntop-hex_pton}

written : hex_ntop (0xa7 ∷ 5 ∷ []) 5 ≡ some (b'a' ∷ b'7' ∷ b'0' ∷ b'5' ∷ [])
unfolding hex_ntop hex_text
written = refl

capitals : hex_pton (b'A' ∷ b'7' ∷ []) 1 ≡ done (some (0xa7 ∷ []))
unfolding hex_pton hex_octets isxdigit hexdigit_to_int
capitals = refl

no_digit : hex_pton (b'g' ∷ b'7' ∷ []) 1 ≡ done none
unfolding hex_pton hex_octets isxdigit hexdigit_to_int
no_digit = refl

abbrev octets : List ℕ
octets = 0xa7 ∷ 5 ∷ []

hex_ntop-hex_pton_example :
    (length octets * 2 < 5
      → (text : List ℕ) × (hex_ntop octets 5 ≡ some text) × (hex_pton text 2 ≡ done (some octets)))
    × (5 ≤ length octets * 2 → hex_ntop octets 5 ≡ none)
hex_ntop-hex_pton_example =
    hex_ntop-hex_pton octets 5 2 (omega arith, (omega arith, tt)) (omega arith)
