-- ===== src/Dname/Name/Labels.antt =====
-- Which lists of labels the names in memory stand for, and that labels are compared as lists of octets.
use Prim.Native.Nat.{bit_and}
use nsd_old.Base.{
  Comparison, same, compare_num, and_then, lex, ℕ, suc, ◌+◌, ◌<◌, ◌≡◌, refl, min, List, [], ◌∷◌,
  length, get_or, done, arith, ◌==◌, if◌then◌else◌,
}
use nsd_old.Dname.Name.{Name, at, dname_label, label_length, memcmp, label_compare, compare_at}

-- The octets `xs` stand in `d` from the offset `i` on.
abbrev pub Stands : List ℕ → ℕ → List ℕ → Type 0
Stands d i [] = Unit
Stands d i (x ∷ xs) = (i < length d) × (get_or d i 0 ≡ x) × Stands d (i + 1) xs

-- `x` is the label `i` of the name `n`.
pub record IsLabel (n : Name) (i : ℕ) (x : List ℕ) : Type 0 where
  pub counted : i < n.label_count
  pub listed : i < length n.label_offsets
  pub inside : get_or n.label_offsets i 0 < n.name_size
  pub normal : bit_and (length x) 0xc0 ≡ 0
  pub stands : Stands n.octets (get_or n.label_offsets i 0) (length x ∷ x)

-- The labels of `n` from `i` on, the most significant first, are `xs`.
pub data Labels (n : Name) : ℕ → List (List ℕ) → Type 0 where
  no_more : {i : ℕ} → i ≡ n.label_count → Labels n i []
  one_more :
      {i : ℕ} {x : List ℕ} {xs : List (List ℕ)}
      → IsLabel n i x
      → Labels n (i + 1) xs
      → Labels n i (x ∷ xs)

-- The name `n` has the labels `xs` below the root label, which has the index 0.
abbrev pub IsName : Name → List (List ℕ) → Type 0
IsName n xs = Labels n 1 xs

pub length-Labels :
    {n : Name} {i : ℕ} {xs : List (List ℕ)} → Labels n i xs → n.label_count ≡ i + length xs
length-Labels (Labels.no_more e) = omega (arith, e)
length-Labels {i = i} {xs = x ∷ xs} (Labels.one_more l r) = omega (arith, length-Labels r)

memcmp-step :
    (size : ℕ) (d c : List ℕ) {i j x y : ℕ} {r : Comparison}
    → i < length d
    → j < length c
    → get_or d i 0 ≡ x
    → get_or c j 0 ≡ y
    → memcmp size d (i + 1) c (j + 1) ≡ done r
    → memcmp (suc size) d i c j ≡ done (if x == y then r else compare_num x y)
unfolding memcmp at
memcmp-step size d c s t sx ty q = ground arith

memcmp_lem :
    (d c : List ℕ) (i j : ℕ) (xs ys : List ℕ)
    → Stands d i xs
    → Stands c j ys
    → (r : Comparison) × (memcmp (min (length xs) (length ys)) d i c j ≡ done r)
      × (and_then r (compare_num (length xs) (length ys)) ≡ lex compare_num xs ys)
unfolding memcmp lex
memcmp_lem d c i j [] [] s t = (same, refl, refl)
memcmp_lem d c i j [] (y ∷ ys) s t =
    let e : min 0 (suc (length ys)) ≡ 0 = omega arith in (same, rw e refl, ground arith)
memcmp_lem d c i j (x ∷ xs) [] s t =
    let e : min (suc (length xs)) 0 ≡ 0 = omega arith in (same, rw e refl, ground arith)
memcmp_lem d c i j (x ∷ xs) (y ∷ ys) (s, sx, ss) (t, ty, ts) =
    let (r, q, h) = memcmp_lem d c (i + 1) (j + 1) xs ys ss ts in
    let e : min (suc (length xs)) (suc (length ys)) ≡ suc (min (length xs) (length ys)) =
      omega arith in
    (
      (if x == y then r else compare_num x y),
      rw e (memcmp-step (min (length xs) (length ys)) d c s t sx ty q),
      ground (arith, h),
    )

label_compare_lem :
    (d c : List ℕ) (i j : ℕ) (xs ys : List ℕ)
    → bit_and (length xs) 0xc0 ≡ 0
    → bit_and (length ys) 0xc0 ≡ 0
    → Stands d i (length xs ∷ xs)
    → Stands c j (length ys ∷ ys)
    → label_compare d i c j ≡ done (lex compare_num xs ys)
unfolding label_compare label_length at
label_compare_lem d c i j xs ys nx ny (s, sx, ss) (t, ty, ts) =
    let (r, q, h) = memcmp_lem d c (i + 1) (j + 1) xs ys ss ts in ground (arith, q, h)

dname_label_lem :
    {n : Name} {i : ℕ} {x : List ℕ}
    → IsLabel n i x
    → dname_label n i ≡ done (get_or n.label_offsets i 0)
unfolding dname_label at
dname_label_lem l = ground (arith, l.counted, l.listed, l.inside)

-- Labels are compared as lists of octets.
pub compare_at_lem :
    {left right : Name} {i : ℕ} {x y : List ℕ}
    → IsLabel left i x
    → IsLabel right i y
    → compare_at i left right ≡ done (lex compare_num x y)
unfolding compare_at
compare_at_lem {left} {right} {i} {x} {y} l r =
    rw (dname_label_lem l, dname_label_lem r)
      (label_compare_lem left.octets right.octets (get_or left.label_offsets i 0)
        (get_or right.label_offsets i 0) x y l.normal r.normal l.stands r.stands)
