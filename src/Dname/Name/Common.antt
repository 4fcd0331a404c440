-- ===== src/Dname/Name/Common.antt =====
-- What two names have in common, by their lists of labels, the most significant first: a subdomain
-- continues the list, and `dname_label_match_count` counts the common labels.
use mathlib.Core.Path.{ap₂}
use native.Mathlib.Decide.{dec_lt}
use nsd_old.Base.{
  same, compare_num, lex, ℕ, zero, suc, ◌+◌, ◌-◌, ◌≤◌, ◌<◌, ◌≡◌, ◌≢◌, ◌↔◌, refl, ap, Bool, true,
  false, List, [], ◌∷◌, ◌++◌, inl, inr, Bool-cases, length, length-append, take, done, arith,
}
use nsd_old.Dname.Name.{
  Name, is_same, subdomain_loop, dname_is_subdomain, match_loop, dname_label_match_count,
}
use nsd_old.Dname.Name.Labels.{Labels, IsName, length-Labels, compare_at_lem}
use nsd_old.Dname.Name.Order.{labels-IsOrder}

labels_same : (x y : List ℕ) → lex compare_num x y ≡ same → x ≡ y
labels_same = labels-IsOrder.same_eq

-- What `dname_is_subdomain` finds in the labels `ys` of `right` below those of `left`.
subdomain_loop_lem :
    {left right : Name} (i : ℕ) {xs ys : List (List ℕ)}
    → Labels left i xs
    → Labels right i ys
    → length ys ≤ length xs
    → (b : Bool) × (subdomain_loop (length ys) i left right ≡ done b)
      × ((b ≡ true) ↔ ((zs : List (List ℕ)) × (xs ≡ ys ++ zs)))
unfolding subdomain_loop
subdomain_loop_lem i {xs = xs} {ys = []} l r h = (true, refl, (λ _. (xs, refl), λ _. refl))
subdomain_loop_lem i {xs = []} {ys = y ∷ ys} l r h = absurd (omega (arith, h))
subdomain_loop_lem i {xs = x ∷ xs} {ys = y ∷ ys} (Labels.one_more l ls) (Labels.one_more r rs) h =
    let (b, q, (to, from)) = subdomain_loop_lem (i + 1) ls rs (omega (arith, h)) in
    elim (Bool-cases (is_same (lex compare_num x y))) [
      | inl e ↦
          let z : x ≡ y = labels_same x y (ground arith) in
          (
            b,
            ground (arith, compare_at_lem l r),
            (
              λ k. let (zs, t) = to k in (zs, ap₂ ◌∷◌ z t),
              λ (zs, t). let u : xs ≡ ys ++ zs = cc t in from (zs, u),
            ),
          )
      | inr e ↦ (
        false,
        ground (arith, compare_at_lem l r),
        (λ k. cc, λ (zs, t). let z : x ≡ y = cc t in ground (arith, labels-IsOrder.refl_same y)),
      )
    ]

-- `dname_is_subdomain` on two names returns, and what it returns is true exactly if the labels of
-- `left`, the most significant first, begin with all the labels of `right`.
pub dname_is_subdomain-continues :
    {left right : Name} {xs ys : List (List ℕ)}
    → IsName left xs
    → IsName right ys
    → (b : Bool) × (dname_is_subdomain left right ≡ done b)
      × ((b ≡ true) ↔ ((zs : List (List ℕ)) × (xs ≡ ys ++ zs)))
unfolding dname_is_subdomain
dname_is_subdomain-continues {left} {right} {xs} {ys} l r = elim (dec_lt (length xs) (length ys)) [
  | yes h ↦ (
    false,
    ground (arith, length-Labels l, length-Labels r),
    (λ k. cc, λ (zs, t). absurd (omega (arith, h, ap length t, length-append ys zs))),
  )
  | no h ↦
      let (b, q, iff) = subdomain_loop_lem 1 l r (omega arith) in
      let e : right.label_count - 1 ≡ length ys = omega (arith, length-Labels r) in
      (b, ground (arith, e, q, length-Labels l, length-Labels r), iff)
]

-- The lists have `count` labels in common, and no more.
pub record InCommon (count : ℕ) (xs ys : List (List ℕ)) : Type 0 where
  pub within_left : count ≤ length xs
  pub within_right : count ≤ length ys
  pub equal : take count xs ≡ take count ys
  pub most : (j : ℕ) → j ≤ length xs → j ≤ length ys → take j xs ≡ take j ys → j ≤ count

module _ (x y : List ℕ) (xs ys : List (List ℕ)) where
  most-cons :
      {count : ℕ}
      → InCommon count xs ys
      → (j : ℕ) → j ≤ suc (length xs)
      → j ≤ suc (length ys)
      → take j (x ∷ xs) ≡ take j (y ∷ ys)
      → j ≤ suc count
  most-cons c zero p q t = omega arith
  most-cons c (suc j) p q t =
      let u : take j xs ≡ take j ys = cc t in
      omega (arith, c.most j (omega (arith, p)) (omega (arith, q)) u)

  cons-InCommon :
      {count : ℕ} → x ≡ y → InCommon count xs ys → InCommon (suc count) (x ∷ xs) (y ∷ ys)
  cons-InCommon z c = record {
    within_left = omega (arith, c.within_left);
    within_right = omega (arith, c.within_right);
    equal = ap₂ ◌∷◌ z c.equal;
    most = most-cons c;
  }

  none_more : x ≢ y → (j : ℕ) → take j (x ∷ xs) ≡ take j (y ∷ ys) → j ≤ 0
  none_more d zero t = omega arith
  none_more d (suc j) t = absurd (d (cc t))

  differ-InCommon : x ≢ y → InCommon 0 (x ∷ xs) (y ∷ ys)
  differ-InCommon d = record {
    within_left = omega arith;
    within_right = omega arith;
    equal = refl;
    most = λ j p q t. none_more d j t;
  }

match_loop_lem :
    {left right : Name} (fuel i : ℕ) {xs ys : List (List ℕ)}
    → Labels left i xs
    → Labels right i ys
    → length xs < fuel
    → (count : ℕ) × (match_loop fuel i left right ≡ done (i + count)) × InCommon count xs ys
unfolding match_loop
match_loop_lem zero i l r h = absurd (omega (arith, h))
match_loop_lem (suc fuel) i {xs = []} {ys = ys} l r h = (
  0,
  ground (arith, length-Labels l),
  record {
    within_left = omega arith;
    within_right = omega arith;
    equal = refl;
    most = λ j p q t. p;
  },
)
match_loop_lem (suc fuel) i {xs = x ∷ xs} {ys = []} l r h = (
  0,
  ground (arith, length-Labels r),
  record {
    within_left = omega arith;
    within_right = omega arith;
    equal = refl;
    most = λ j p q t. q;
  },
)
match_loop_lem (suc fuel) i {xs = x ∷ xs} {ys = y ∷ ys} (Labels.one_more l ls)
      (Labels.one_more r rs) h =
    let (count, q, c) = match_loop_lem fuel (i + 1) ls rs (omega (arith, h)) in
    elim (Bool-cases (is_same (lex compare_num x y))) [
      | inl e ↦
          let z : x ≡ y = labels_same x y (ground arith) in
          (
            suc count,
            ground (arith, compare_at_lem l r, l.counted, r.counted),
            cons-InCommon x y xs ys z c,
          )
      | inr e ↦ (
        0,
        ground (arith, compare_at_lem l r, l.counted, r.counted),
        differ-InCommon x y xs ys (λ z. ground (arith, z, labels-IsOrder.refl_same y)),
      )
    ]

-- `dname_label_match_count` on two names returns one, for the root label, and the number of labels
-- that they have in common, the most significant first.
pub dname_label_match_count-InCommon :
    {left right : Name} {xs ys : List (List ℕ)}
    → IsName left xs
    → IsName right ys
    → (count : ℕ) × (dname_label_match_count left right ≡ done (1 + count)) × InCommon count xs ys
unfolding dname_label_match_count
dname_label_match_count-InCommon {left} l r =
    match_loop_lem left.label_count 1 l r (omega (arith, length-Labels l))
