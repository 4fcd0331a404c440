-- ===== src/Tsig/Names.antt =====
-- When the comparisons of the names of algorithms in tsig.c and options.c come out equal.
use nsd_old.Base.{
  ℕ, ◌≡◌, ◌↔◌, ◌⊎◌, refl, sym, ap, ◌∙◌, Bool, true, ◌||◌, ◌&&◌, List, [], ◌∷◌, drop, take, ◌++◌,
  arith, Bool-cases, inl, inr, zero, suc,
}
use nsd_old.Dname.Name.{is_same}
use nsd_old.Dname.Make.{tolower}
use nsd_old.Tsig.{tsig_strlowercmp}

-- The text in lower case
abbrev pub lower : List ℕ → List ℕ
lower [] = []
lower (x ∷ xs) = tolower x ∷ lower xs

-- `hmac-`
abbrev pub hmac_prefix : List ℕ
hmac_prefix = b'h' ∷ b'm' ∷ b'a' ∷ b'c' ∷ b'-' ∷ []

pub tsig_strlowercmp_same :
    (xs ys : List ℕ) → (is_same (tsig_strlowercmp xs ys) ≡ true) ↔ (lower xs ≡ lower ys)
unfolding tsig_strlowercmp
tsig_strlowercmp_same [] [] = (λ h. refl, λ h. refl)
tsig_strlowercmp_same [] (y ∷ ys) = (λ h. cc h, λ h. cc h)
tsig_strlowercmp_same (x ∷ xs) [] = (λ h. cc h, λ h. cc h)
tsig_strlowercmp_same (x ∷ xs) (y ∷ ys) = ground (arith, tsig_strlowercmp_same xs ys)

-- `text` is the short name of an algorithm, or what stands in it behind `hmac-`, in upper or lower case.
abbrev pub Denotes : List ℕ → List ℕ → Type 0
Denotes text short_name =
    (lower text ≡ lower short_name)
    ⊎ ((rest : List ℕ) × (short_name ≡ hmac_prefix ++ rest) × (lower text ≡ lower rest))

halves : (n : ℕ) (xs : List ℕ) → xs ≡ take n xs ++ drop n xs
halves zero xs = refl
halves (suc n) [] = refl
halves (suc n) (x ∷ xs) = ap (λ l. x ∷ l) (halves n xs)

-- The two tests of the name, when the second says if the short name starts with `hmac-`
pub tests-Denotes :
    (text short_name : List ℕ) (whole part prefixed : Bool)
    → ((whole ≡ true) ↔ (lower text ≡ lower short_name))
    → ((part ≡ true) ↔ (lower text ≡ lower (drop 5 short_name)))
    → ((prefixed ≡ true) ↔ (take 5 short_name ≡ hmac_prefix))
    → (((whole || (prefixed && part)) ≡ true) ↔ Denotes text short_name)
tests-Denotes text short_name whole part prefixed w p f = (
  λ h. elim (Bool-cases whole) [
    | inl e ↦ inl (w.0 e)
    | inr e ↦
        let both : (prefixed ≡ true) × (part ≡ true) = ground (arith, h, e) in
        inr (
          drop 5 short_name,
          halves 5 short_name ∙ ap (λ l. l ++ drop 5 short_name) (f.0 both.0),
          p.0 both.1,
        )
  ],
  λ d. elim d [
    | inl e ↦ ground (arith, w.1 e)
    | inr (rest, e, l) ↦
        let start : prefixed ≡ true = f.1 (ap (λ s. take 5 s) e) in
        let end : part ≡ true = p.1 (l ∙ ap (λ s. lower (drop 5 s)) (sym e)) in
        ground (arith, start, end)
  ],
)
