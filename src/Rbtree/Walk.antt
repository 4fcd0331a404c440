-- ===== src/Rbtree/Walk.antt =====
-- RBTREE_FOR comes to every node, in the order of the keys.
use mathlib.Core.Path.{subst}
use mathlib.Core.List.{append_assoc}
use nsd_old.Base.{
  ℕ, zero, suc, ◌+◌, ◌≤◌, ◌<◌, ◌≡◌, ◌≢◌, refl, sym, ap, ◌∙◌, false, List, [], ◌∷◌, ◌++◌, length,
  ◌==◌, arith, Returns, Returns-bind,
}
use nsd_old.Rbtree.{Side, Rbtree, rbtree_step, rbtree_end, visited_from, rbtree_for}
use nsd_old.Rbtree.Shape.{Tree, inorder, hits, occ, self_hit}
use nsd_old.Rbtree.Ordered.{AllAbove, Ascending, AllAbove-parts}
use nsd_old.Rbtree.Insert.{IsTree}
use nsd_old.Rbtree.Next.{first_of, locate, rbtree_step-next, rbtree_end-first}

abbrev count_in : ℕ → List ℕ → ℕ
count_in a [] = 0
count_in a (x ∷ xs) = hits a x + count_in a xs

count_in-append : (a : ℕ) (xs ys : List ℕ) → count_in a (xs ++ ys) ≡ count_in a xs + count_in a ys
count_in-append a [] ys = omega arith
count_in-append a (x ∷ xs) ys = omega (arith, count_in-append a xs ys)

occ-inorder : (a : ℕ) (s : Tree) → occ a s ≡ count_in a (inorder s)
occ-inorder a Tree.leaf = refl
occ-inorder a (Tree.node l b r) =
    omega (arith, occ-inorder a l, occ-inorder a r, count_in-append a (inorder l) (b ∷ inorder r))

abbrev tail_of : List ℕ → List ℕ
tail_of [] = []
tail_of (x ∷ xs) = xs

not_null : (a : ℕ) → a ≢ 0 → (a == 0) ≡ false
not_null a h = ground (arith, h)

-- What is behind an address in an ascending list is one list.
behind_unique :
    (rank : ℕ → ℕ) (xs xs' : List ℕ) (a : ℕ) (ys ys' : List ℕ)
    → Ascending rank (xs ++ a ∷ ys)
    → xs ++ a ∷ ys ≡ xs' ++ a ∷ ys'
    → ys ≡ ys'
behind_unique rank [] [] a ys ys' k e = ap tail_of e
behind_unique rank [] (x ∷ xs') a ys ys' (k, m) e =
    let again =
      AllAbove-parts rank (rank a) xs' (a ∷ ys')
        (subst (AllAbove rank (rank a)) (ap tail_of e) k) in
    absurd (omega (arith, again.1.0))
behind_unique rank (x ∷ xs) [] a ys ys' (k, m) e =
    let again = AllAbove-parts rank (rank x) xs (a ∷ ys) k in
    absurd (omega (arith, again.1.0, ap (λ l. rank (first_of l)) e))
behind_unique rank (x ∷ xs) (x' ∷ xs') a ys ys' (k, m) e =
    behind_unique rank xs xs' a ys ys' m (ap tail_of e)

module _ {K : Type 0} (rank : K → ℕ) (t : Rbtree K) (w : Tree) (k : IsTree rank t w) where
  visited_from-rest :
      (fuel : ℕ) (xs ys : List ℕ)
      → inorder w ≡ xs ++ ys
      → length ys < fuel
      → Returns (λ l. l ≡ ys) (visited_from fuel t (first_of ys))
  unfolding visited_from
  visited_from-rest zero xs ys e n = absurd (omega (arith, n))
  visited_from-rest (suc fuel) xs [] e n = refl
  visited_from-rest (suc fuel) xs (a ∷ ys) e n =
      let here : 1 ≤ occ a w =
        omega
          (arith, occ-inorder a w, ap (count_in a) e, count_in-append a xs (a ∷ ys), self_hit a) in
      let place = locate t [] w a k.red_black.place here in
      let z : (a == 0) ≡ false = not_null a place.3.rep.0 in
      let up = subst (Ascending (λ x. rank (t.key x))) e k.ascending in
      rw (Returns, z)
        (Returns-bind (λ l. l ≡ a ∷ ys) (rbtree_step Side.right t.count t a) _
          (rbtree_step-next rank t w a t.count k here (omega arith))
          λ next (xs', ys', e', f).
            let same : ys ≡ ys' =
              behind_unique (λ x. rank (t.key x)) xs xs' a ys ys' up (sym e ∙ e') in
            Returns-bind (λ l. l ≡ a ∷ ys) (visited_from fuel t next) _
              (subst (λ y. Returns (λ l. l ≡ ys) (visited_from fuel t y)) (ap first_of same ∙ sym f)
                (visited_from-rest fuel (xs ++ a ∷ []) ys (e ∙ sym (append_assoc xs (a ∷ []) ys))
                  (omega (arith, n))))
              λ l h. ap (λ m. a ∷ m) h)

  -- The loop of RBTREE_FOR over a tree in the order of its keys ends, and comes to each node of the tree
  -- once, in that order, when the sentinel is its own left child.
  pub rbtree_for-inorder : t.child Side.left 0 ≡ 0 → Returns (λ l. l ≡ inorder w) (rbtree_for t)
  unfolding rbtree_for
  rbtree_for-inorder z =
      Returns-bind (λ l. l ≡ inorder w) (rbtree_end Side.left t) _ (rbtree_end-first rank t w k z)
        λ node e.
          subst (λ y. Returns (λ l. l ≡ inorder w) (visited_from (t.count + 1) t y)) (sym e)
            (visited_from-rest (t.count + 1) [] (inorder w) refl (omega (arith, k.counted)))
