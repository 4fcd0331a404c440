-- ===== src/Base/Lists.antt =====
-- Lists of octets measured and indexed by native numbers, and a run of octets written over a list.
use Prim.Native.Nat.{ℕ, zero, suc, ◌+◌, ◌-◌, ◌≤◌, ◌<◌, min}
use mathlib.Core.Path.{◌≡◌, refl, sym, ap}
use mathlib.Core.Logic.{◌⊎◌, inl, inr}
use mathlib.Core.List.{List, [], ◌∷◌, ◌++◌, map}
use native.Mathlib.Omega.{arith}

module _ {ℓ} {A : Type ℓ} where
  abbrev pub length : List A → ℕ
  length [] = 0
  length (x ∷ xs) = suc (length xs)

  abbrev pub get_or : List A → ℕ → A → A
  get_or [] i d = d
  get_or (x ∷ xs) zero d = x
  get_or (x ∷ xs) (suc i) d = get_or xs i d

  abbrev pub take : ℕ → List A → List A
  take zero xs = []
  take (suc n) [] = []
  take (suc n) (x ∷ xs) = x ∷ take n xs

  abbrev pub drop : ℕ → List A → List A
  drop zero xs = xs
  drop (suc n) [] = []
  drop (suc n) (x ∷ xs) = drop n xs

  abbrev pub replicate : ℕ → A → List A
  replicate zero a = []
  replicate (suc n) a = a ∷ replicate n a

  -- A predicate on every element.
  abbrev pub All {κ} : (A → Type κ) → List A → Type κ
  All P [] = Unit {κ}
  All P (x ∷ xs) = P x × All P xs

  -- `memcpy(xs + at, ys, length ys)`; what would fall behind the end is dropped.
  abbrev pub overwrite : List A → ℕ → List A → List A
  overwrite [] i ys = []
  overwrite (x ∷ xs) (suc i) ys = x ∷ overwrite xs i ys
  overwrite (x ∷ xs) zero [] = x ∷ xs
  overwrite (x ∷ xs) zero (y ∷ ys) = y ∷ overwrite xs zero ys

take-nil {ℓ} : {A : Type ℓ} (n : ℕ) → take {A = A} n [] ≡ []
take-nil zero = refl
take-nil (suc n) = refl

drop-nil {ℓ} : {A : Type ℓ} (n : ℕ) → drop {A = A} n [] ≡ []
drop-nil zero = refl
drop-nil (suc n) = refl

module _ {ℓ} {A : Type ℓ} where
  pub length-append : (xs ys : List A) → length (xs ++ ys) ≡ length xs + length ys
  length-append [] ys = omega arith
  length-append (x ∷ xs) ys = omega (arith, length-append xs ys)

  pub length-replicate : (n : ℕ) (a : A) → length (replicate n a) ≡ n
  length-replicate zero a = refl
  length-replicate (suc n) a = ap suc (length-replicate n a)

  pub length-take : (n : ℕ) (xs : List A) → length (take n xs) ≡ min n (length xs)
  length-take zero xs = omega arith
  length-take (suc n) [] = omega arith
  length-take (suc n) (x ∷ xs) = omega (arith, length-take n xs)

  pub length-drop : (n : ℕ) (xs : List A) → length (drop n xs) ≡ length xs - n
  length-drop zero xs = omega arith
  length-drop (suc n) [] = omega arith
  length-drop (suc n) (x ∷ xs) = omega (arith, length-drop n xs)

  pub length-overwrite :
      (xs : List A) (i : ℕ) (ys : List A) → length (overwrite xs i ys) ≡ length xs
  length-overwrite [] i ys = refl
  length-overwrite (x ∷ xs) (suc i) ys = ap suc (length-overwrite xs i ys)
  length-overwrite (x ∷ xs) zero [] = refl
  length-overwrite (x ∷ xs) zero (y ∷ ys) = ap suc (length-overwrite xs zero ys)

  -- What a `memcpy` wrote is read back at its place.
  pub take-drop-overwrite :
      (xs : List A) (i : ℕ) (ys : List A)
      → i + length ys ≤ length xs
      → take (length ys) (drop i (overwrite xs i ys)) ≡ ys
  take-drop-overwrite [] zero [] h = refl
  take-drop-overwrite [] zero (y ∷ ys) h = absurd (omega arith)
  take-drop-overwrite [] (suc i) ys h = absurd (omega arith)
  take-drop-overwrite (x ∷ xs) (suc i) ys h = take-drop-overwrite xs i ys (omega arith)
  take-drop-overwrite (x ∷ xs) zero [] h = refl
  take-drop-overwrite (x ∷ xs) zero (y ∷ ys) h =
      ap (λ l. y ∷ l) (take-drop-overwrite xs zero ys (omega arith))

  -- The element at a place, after a `memcpy`, inside what was written and outside it.
  pub get_or-overwrite_in :
      (xs : List A) (i : ℕ) (ys : List A) (j : ℕ) (d : A)
      → i + length ys ≤ length xs
      → j < length ys
      → get_or (overwrite xs i ys) (i + j) d ≡ get_or ys j d
  get_or-overwrite_in xs i [] j d h lt = elim lt [ ]
  get_or-overwrite_in [] i (y ∷ ys) j d h lt = absurd (omega arith)
  get_or-overwrite_in (x ∷ xs) (suc i) (y ∷ ys) j d h lt =
      let e : suc i + j ≡ suc (i + j) = omega arith in
      rw e (get_or-overwrite_in xs i (y ∷ ys) j d (omega arith) lt)
  get_or-overwrite_in (x ∷ xs) zero (y ∷ ys) zero d h lt = refl
  get_or-overwrite_in (x ∷ xs) zero (y ∷ ys) (suc j) d h lt =
      let e : zero + suc j ≡ suc (zero + j) = omega arith in
      rw e (get_or-overwrite_in xs zero ys j d (omega arith) (omega arith))

  pub get_or-overwrite_out :
      (xs : List A) (i : ℕ) (ys : List A) (j : ℕ) (d : A)
      → (j < i) ⊎ (i + length ys ≤ j)
      → get_or (overwrite xs i ys) j d ≡ get_or xs j d
  get_or-overwrite_out [] i ys j d h = refl
  get_or-overwrite_out (x ∷ xs) (suc i) ys zero d h = refl
  get_or-overwrite_out (x ∷ xs) (suc i) ys (suc j) d (inl h) =
      get_or-overwrite_out xs i ys j d (inl (omega arith))
  get_or-overwrite_out (x ∷ xs) (suc i) ys (suc j) d (inr h) =
      get_or-overwrite_out xs i ys j d (inr (omega arith))
  get_or-overwrite_out (x ∷ xs) zero [] j d h = refl
  get_or-overwrite_out (x ∷ xs) zero (y ∷ ys) zero d (inl h) = elim h [ ]
  get_or-overwrite_out (x ∷ xs) zero (y ∷ ys) zero d (inr h) = absurd (omega arith)
  get_or-overwrite_out (x ∷ xs) zero (y ∷ ys) (suc j) d (inl h) = absurd (omega arith)
  get_or-overwrite_out (x ∷ xs) zero (y ∷ ys) (suc j) d (inr h) =
      get_or-overwrite_out xs zero ys j d (inr (omega arith))

  -- Two runs of a list, one behind the other.
  pub take-append-take-drop :
      (m n : ℕ) (xs : List A) → take m xs ++ take n (drop m xs) ≡ take (m + n) xs
  take-append-take-drop zero n xs = let e : zero + n ≡ n = omega arith in rw e
  take-append-take-drop (suc m) n [] =
      let e : suc m + n ≡ suc (m + n) = omega arith in rw (e, take-nil n)
  take-append-take-drop (suc m) n (x ∷ xs) =
      let e : suc m + n ≡ suc (m + n) = omega arith in
      rw e (ap (λ l. x ∷ l) (take-append-take-drop m n xs))

  pub drop-add : (m n : ℕ) (xs : List A) → drop (m + n) xs ≡ drop n (drop m xs)
  drop-add zero n xs = let e : zero + n ≡ n = omega arith in rw e
  drop-add (suc m) n [] = let e : suc m + n ≡ suc (m + n) = omega arith in rw e (sym (drop-nil n))
  drop-add (suc m) n (x ∷ xs) =
      let e : suc m + n ≡ suc (m + n) = omega arith in rw e (drop-add m n xs)

  pub take_one-drop :
      (i : ℕ) (xs : List A) (d : A) → i < length xs → take 1 (drop i xs) ≡ get_or xs i d ∷ []
  take_one-drop i [] d h = elim h [ ]
  take_one-drop zero (x ∷ xs) d h = refl
  take_one-drop (suc i) (x ∷ xs) d h = take_one-drop i xs d (omega arith)

module _ {ℓ} {A : Type ℓ} where
  -- What stands at a place, from what is left behind the elements before it.
  pub drop-cons :
      (i : ℕ) (xs : List A) (y d : A) (ys : List A)
      → drop i xs ≡ y ∷ ys
      → (i < length xs) × (get_or xs i d ≡ y) × (drop (i + 1) xs ≡ ys)
  drop-cons zero [] y d ys e = cc
  drop-cons zero (x ∷ xs) y d ys e = (omega arith, cc, cc)
  drop-cons (suc i) [] y d ys e = cc
  drop-cons (suc i) (x ∷ xs) y d ys e =
      let (lt, g, r) = drop-cons i xs y d ys e in
      let k : suc i + 1 ≡ suc (i + 1) = omega arith in (omega arith, g, rw k r)

  pub drop-append : (xs ys : List A) → drop (length xs) (xs ++ ys) ≡ ys
  drop-append [] ys = refl
  drop-append (x ∷ xs) ys = drop-append xs ys

  pub take-append : (xs ys : List A) → take (length xs) (xs ++ ys) ≡ xs
  take-append [] ys = refl
  take-append (x ∷ xs) ys = ap (λ l. x ∷ l) (take-append xs ys)

pub length-map {ℓ κ} :
    {A : Type ℓ} {B : Type κ} (f : A → B) (xs : List A) → length (map f xs) ≡ length xs
length-map f [] = refl
length-map f (x ∷ xs) = ap suc (length-map f xs)
