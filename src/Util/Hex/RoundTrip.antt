-- ===== src/Util/Hex/RoundTrip.antt =====
-- What `hex_ntop` writes, `hex_pton` reads back.
use nsd_old.Base.{
  ℕ, ◌+◌, ◌*◌, ◌/◌, ◌%◌, ◌≤◌, ◌<◌, ◌≡◌, refl, true, none, some, List, [], ◌∷◌, length, get_or, done,
  arith,
}
use nsd_old.Util.Hex.{
  hexdigits, hex_text, hex_ntop, isxdigit, hexdigit_to_int, hex_octets, hex_pton,
}

digit_read :
    (n : ℕ)
    → n < 16
    → (isxdigit (get_or hexdigits n 0) ≡ true) × (hexdigit_to_int (get_or hexdigits n 0) ≡ done n)
unfolding isxdigit hexdigit_to_int
digit_read n h = ground arith

-- The elements are octets.
abbrev pub Octets : List ℕ → Type 0
Octets [] = Unit
Octets (x ∷ xs) = (x < 256) × Octets xs

hex_octets-hex_text : (xs : List ℕ) → Octets xs → hex_octets (hex_text xs) ≡ done (some xs)
unfolding hex_octets hex_text
hex_octets-hex_text [] h = refl
hex_octets-hex_text (x ∷ xs) (h, hs) =
    let high = digit_read (x / 16) (omega (arith, h)) in
    let low = digit_read (x % 16) (omega arith) in
    let whole : x / 16 * 16 + x % 16 ≡ x = omega arith in
    rw (hex_octets-hex_text xs hs, high.0, low.0, high.1, low.1, whole) refl

length-hex_text : (xs : List ℕ) → length (hex_text xs) ≡ length xs * 2
unfolding hex_text
length-hex_text [] = refl
length-hex_text (x ∷ xs) = omega (arith, length-hex_text xs)

-- `hex_ntop` of octets with room for two characters each and the NUL writes a text that `hex_pton`
-- reads back as the same octets, with room for these; with less room it fails.
pub hex_ntop-hex_pton :
    (xs : List ℕ) (text_room room : ℕ)
    → Octets xs
    → length xs ≤ room
    → (length xs * 2 < text_room
        → (text : List ℕ) × (hex_ntop xs text_room ≡ some text)
          × (hex_pton text room ≡ done (some xs)))
      × (text_room ≤ length xs * 2 → hex_ntop xs text_room ≡ none)
unfolding hex_ntop hex_pton
hex_ntop-hex_pton xs text_room room o h =
    let n = length-hex_text xs in
    let even : length (hex_text xs) % 2 ≡ 0 = omega (arith, n) in
    let half : length (hex_text xs) / 2 ≡ length xs = omega (arith, n) in
    (
      λ k. (hex_text xs, ground arith, ground (arith, even, half, hex_octets-hex_text xs o)),
      λ k. ground arith,
    )
