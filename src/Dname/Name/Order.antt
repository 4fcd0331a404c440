-- ===== src/Dname/Name/Order.antt =====
-- The order of `dname_compare` is the lexicographic one of the lists of labels, the most significant
-- first.
use nsd_old.Base.{
  Comparison, same, before, opposite, compare_num, lex, lex-IsOrder, compare_num-IsOrder, IsOrder,
  ℕ, suc, ◌+◌, ◌-◌, ◌≡◌, refl, sym, ap, ◌∙◌, min, Bool, true, false, List, [], ◌∷◌, length, done,
  arith,
}
use nsd_old.Dname.Name.{Name, compare_loop, dname_compare}
use nsd_old.Dname.Name.Labels.{Labels, IsName, length-Labels, compare_at_lem}

-- The order of names: by labels from the most significant, and labels by octets.
abbrev pub name_order : List (List ℕ) → List (List ℕ) → Comparison
name_order = lex (lex compare_num)

compare_loop_lem :
    {left right : Name} (i : ℕ) {xs ys : List (List ℕ)}
    → Labels left i xs
    → Labels right i ys
    → compare_loop (min (length xs) (length ys)) i left right ≡ done (name_order xs ys)
unfolding compare_loop lex
compare_loop_lem {left} {right} i {xs = []} {ys = []} l r =
    ground (arith, length-Labels l, length-Labels r)
compare_loop_lem {left} {right} i {xs = []} {ys = y ∷ ys} l r =
    let e : min 0 (suc (length ys)) ≡ 0 = omega arith in
    rw e (ground (arith, length-Labels l, length-Labels r))
compare_loop_lem {left} {right} i {xs = x ∷ xs} {ys = []} l r =
    let e : min (suc (length xs)) 0 ≡ 0 = omega arith in
    rw e (ground (arith, length-Labels l, length-Labels r))
compare_loop_lem i {xs = x ∷ xs} {ys = y ∷ ys} (Labels.one_more l ls) (Labels.one_more r rs) =
    let e : min (suc (length xs)) (suc (length ys)) ≡ suc (min (length xs) (length ys)) =
      omega arith in
    rw e (ground (arith, compare_at_lem l r, compare_loop_lem (i + 1) ls rs))

pub labels-IsOrder : IsOrder (lex compare_num)
labels-IsOrder = lex-IsOrder compare_num-IsOrder

pub names-IsOrder : IsOrder name_order
names-IsOrder = lex-IsOrder labels-IsOrder

distinct_pointers :
    {left right : Name} {xs ys : List (List ℕ)}
    → IsName left xs
    → IsName right ys
    → dname_compare false left right ≡ done (name_order xs ys)
unfolding dname_compare
distinct_pointers {left} {right} {xs} {ys} l r =
    let e : min left.label_count right.label_count - 1 ≡ min (length xs) (length ys) =
      omega (arith, length-Labels l, length-Labels r) in
    rw e (compare_loop_lem 1 l r)

-- `dname_compare` on two names returns by its sign how their lists of labels compare, the most
-- significant label first, and labels compare as lists of octets: in both a list is before those that
-- continue it. Equal pointers are to the same name.
pub dname_compare-name_order :
    (pointers_equal : Bool) {left right : Name} {xs ys : List (List ℕ)}
    → (pointers_equal ≡ true → left ≡ right)
    → IsName left xs
    → IsName right ys
    → dname_compare pointers_equal left right ≡ done (name_order xs ys)
unfolding dname_compare
dname_compare-name_order false p l r = distinct_pointers l r
dname_compare-name_order true {left} {right} {xs} {ys} p l r =
    ap (λ r. done r) (sym (names-IsOrder.refl_same xs))
    ∙ sym (distinct_pointers l l)
    ∙ ap (λ n. dname_compare false left n) (p refl)
    ∙ distinct_pointers l r

-- On names `dname_compare` is a linear order: it is 0 only between names of the same labels, an
-- exchange of the names turns it round, and what is before a name is before all that the name is
-- before.
pub dname_compare-linear :
    {a b c : Name} {xs ys zs : List (List ℕ)}
    → IsName a xs
    → IsName b ys
    → IsName c zs
    → (dname_compare false a b ≡ done same → xs ≡ ys)
      × ((r : Comparison)
          → dname_compare false a b ≡ done r
          → dname_compare false b a ≡ done (opposite r))
      × (dname_compare false a b ≡ done before
          → dname_compare false b c ≡ done before
          → dname_compare false a c ≡ done before)
dname_compare-linear {a} {b} {c} {xs} {ys} {zs} l r s = (
  λ h. ground (arith, distinct_pointers l r, names-IsOrder.same_eq xs ys),
  λ o h.
      ground (arith, distinct_pointers l r, distinct_pointers r l, names-IsOrder.opposite_eq xs ys),
  λ h k. ground (
    arith,
    distinct_pointers l r,
    distinct_pointers r s,
    distinct_pointers l s,
    names-IsOrder.before_trans xs ys zs,
  ),
)
