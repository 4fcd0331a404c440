-- ===== src/Base/Order.antt =====
-- Three-way comparison, as C code returns it by sign, and lexicographic order.
use Prim.Native.Nat.{ℕ}
use mathlib.Core.Path.{◌≡◌, refl, ap₂}
use mathlib.Core.List.{List, [], ◌∷◌}
use native.Mathlib.Omega.{arith}
use nsd_old.Base.Tests.{ltb, if◌then◌else◌}

-- A negative result, 0, and a positive one.
pub data Comparison : Type 0 where
  before same after : Comparison

abbrev pub opposite : Comparison → Comparison
opposite before = after
opposite same = same
opposite after = before

-- `a - b` by its sign.
abbrev pub compare_num : ℕ → ℕ → Comparison
compare_num a b = if ltb a b then before else if ltb b a then after else same

-- What is decided first holds.
abbrev pub and_then : Comparison → Comparison → Comparison
and_then before d = before
and_then same d = d
and_then after d = after

-- Three-way comparisons that are linear orders.
pub record IsOrder {ℓ} {A : Type ℓ} (cmp : A → A → Comparison) : Type ℓ where
  pub refl_same : (a : A) → cmp a a ≡ same
  pub same_eq : (a b : A) → cmp a b ≡ same → a ≡ b
  pub opposite_eq : (a b : A) → cmp b a ≡ opposite (cmp a b)
  pub before_trans : (a b c : A) → cmp a b ≡ before → cmp b c ≡ before → cmp a c ≡ before

pub compare_num-IsOrder : IsOrder compare_num
compare_num-IsOrder = record {
  refl_same = λ a. ground arith;
  same_eq = λ a b h. ground arith;
  opposite_eq = λ a b. ground arith;
  before_trans = λ a b c h k. ground arith;
}

-- The lexicographic order, with a list before those that continue it.
unfoldable pub lex {ℓ} : {A : Type ℓ} → (A → A → Comparison) → List A → List A → Comparison
lex cmp [] [] = same
lex cmp [] (y ∷ ys) = before
lex cmp (x ∷ xs) [] = after
lex cmp (x ∷ xs) (y ∷ ys) = and_then (cmp x y) (lex cmp xs ys)

module _ {ℓ} {A : Type ℓ} {cmp : A → A → Comparison} (o : IsOrder cmp) where
  lex_refl : (xs : List A) → lex cmp xs xs ≡ same
  unfolding lex
  lex_refl [] = refl
  lex_refl (x ∷ xs) = rw (o.refl_same x, lex_refl xs)

  lex-same : (xs ys : List A) → lex cmp xs ys ≡ same → xs ≡ ys
  unfolding lex
  lex-same [] [] h = refl
  lex-same [] (y ∷ ys) h = cc
  lex-same (x ∷ xs) [] h = cc
  lex-same (x ∷ xs) (y ∷ ys) h =
      ap₂ ◌∷◌ (o.same_eq x y (ground arith)) (lex-same xs ys (ground arith))

  lex-opposite : (xs ys : List A) → lex cmp ys xs ≡ opposite (lex cmp xs ys)
  unfolding lex
  lex-opposite [] [] = refl
  lex-opposite [] (y ∷ ys) = refl
  lex-opposite (x ∷ xs) [] = refl
  lex-opposite (x ∷ xs) (y ∷ ys) = ground (arith, o.opposite_eq x y, lex-opposite xs ys)

  lex_trans :
      (xs ys zs : List A) → lex cmp xs ys ≡ before → lex cmp ys zs ≡ before → lex cmp xs zs ≡ before
  unfolding lex
  lex_trans [] [] zs h k = cc
  lex_trans [] (y ∷ ys) [] h k = cc
  lex_trans [] (y ∷ ys) (z ∷ zs) h k = refl
  lex_trans (x ∷ xs) [] zs h k = cc
  lex_trans (x ∷ xs) (y ∷ ys) [] h k = cc
  lex_trans (x ∷ xs) (y ∷ ys) (z ∷ zs) h k =
      ground (
        arith,
        o.before_trans x y z,
        o.same_eq x y,
        o.same_eq y z,
        o.refl_same x,
        lex_trans xs ys zs,
      )

  pub lex-IsOrder : IsOrder (lex cmp)
  lex-IsOrder = record {
    refl_same = lex_refl;
    same_eq = lex-same;
    opposite_eq = lex-opposite;
    before_trans = lex_trans;
  }
