-- ===== src/Rbtree/Find.antt =====
-- `rbtree_find_less_equal` and `rbtree_search`.
use mathlib.Core.Path.{subst}
use mathlib.Core.List.{append_assoc}
use nsd_old.Base.{
  Comparison, compare_num, ℕ, zero, suc, ◌+◌, ◌≤◌, ◌<◌, ◌≡◌, inl, inr, refl, sym, ap, ◌∙◌, Bool,
  true, false, List, [], ◌∷◌, ◌++◌, length, length-append, ◌==◌, arith, Returns,
}
use nsd_old.Rbtree.{Side, Rbtree, descend, rbtree_find_less_equal}
use nsd_old.Rbtree.Shape.{Tree, top, inorder, occ, Frame, self_hit}
use nsd_old.Rbtree.Ordered.{AllBelow, AllAbove, before_place, behind_place, inorder-plug}
use nsd_old.Rbtree.Descent.{node_rank, Searching, go_left, go_right, three_cases, occ-plug}
use nsd_old.Rbtree.Insert.{IsTree, start-Searching}

-- The last of a list of addresses, or 0
abbrev pub last_of : List ℕ → ℕ
last_of [] = 0
last_of (x ∷ []) = x
last_of (x ∷ y ∷ ys) = last_of (y ∷ ys)

last_of-append : (xs : List ℕ) (a : ℕ) → last_of (xs ++ a ∷ []) ≡ a
last_of-append [] a = refl
last_of-append (x ∷ []) a = refl
last_of-append (x ∷ y ∷ ys) a = last_of-append (y ∷ ys) a

-- What `rbtree_find_less_equal` finds for the rank `v`: a node with that key; or, where there is none, the
-- last of the nodes with smaller keys, and these are all in front of those with larger keys.
abbrev pub Nearest : {K : Type 0} → (K → ℕ) → Rbtree K → Tree → ℕ → Bool × ℕ → Type 0
Nearest rank t w v (true, a) = (1 ≤ occ a w) × (rank (t.key a) ≡ v)
Nearest rank t w v (false, a) =
    (xs : List ℕ) × (ys : List ℕ) × (inorder w ≡ xs ++ ys)
    × AllBelow (node_rank t rank) v xs
    × AllAbove (node_rank t rank) v ys
    × (a ≡ last_of xs)

module _ {K : Type 0} (cmp : K → K → Comparison) (rank : K → ℕ)
    (ordered : (a b : K) → cmp a b ≡ compare_num (rank a) (rank b)) (t : Rbtree K) (w : Tree)
    (key : K) where
  abbrev Q : Bool × ℕ → Type 0
  Q = Nearest rank t w (rank key)

  descend-Nearest :
      (fuel : ℕ) (c : List Frame) (s : Tree) (h found : ℕ)
      → Searching rank t w (rank key) c s h
      → found ≡ last_of (before_place c)
      → length (inorder s) < fuel
      → Returns Q (descend cmp fuel t key (top s) found)
  unfolding descend
  descend-Nearest zero c s h found k i n = absurd (omega (arith, n))
  descend-Nearest (suc fuel) c Tree.leaf h found k i n = (
    before_place c,
    behind_place c,
    ap inorder (sym k.whole) ∙ inorder-plug c Tree.leaf,
    k.low,
    k.high,
    i,
  )
  descend-Nearest (suc fuel) c (Tree.node l a r) h found k i n =
      let z : (a == 0) ≡ false = ground (arith, k.place.rep.0) in
      let long = length-append (inorder l) (a ∷ inorder r) in
      elim (three_cases (rank key) (rank (t.key a))) [
        | inl (e, below) ↦
            let (m, q) = go_left rank t w (rank key) c l a r h k below in
            rw (Returns, z, ordered key (t.key a), e)
              (subst (λ y. Returns Q (descend cmp fuel t key y found)) (sym k.place.rep.1.0)
                (descend-Nearest fuel (record { side = Side.left; place = a; sibling = r } ∷ c) l m
                  found q i (omega (arith, n, long))))
        | inr (inl (e, equal)) ↦
            rw (Returns, z, ordered key (t.key a), e)
              (
                subst (λ y. 1 ≤ occ a y) k.whole
                    (omega (arith, occ-plug c a (Tree.node l a r), self_hit a)),
                sym equal,
              )
        | inr (inr (e, above)) ↦
            let (m, q) = go_right rank t w (rank key) c l a r h k above in
            let last : a ≡ last_of (before_place c ++ (inorder l ++ a ∷ [])) = sym (
              ap last_of (sym (append_assoc (before_place c) (inorder l) (a ∷ [])))
              ∙ last_of-append (before_place c ++ inorder l) a) in
            rw (Returns, z, ordered key (t.key a), e)
              (subst (λ y. Returns Q (descend cmp fuel t key y a)) (sym k.place.rep.2.0)
                (descend-Nearest fuel (record { side = Side.right; place = a; sibling = l } ∷ c) r m
                  a q last (omega (arith, n, long))))
      ]

  -- In a red-black tree in the order of its keys, with a comparison that agrees with a rank of the keys,
  -- `rbtree_find_less_equal` returns. It returns 1 with a node that has the key; or 0, and then no node has
  -- it: each key in front is smaller and each behind is larger, and the result is the last node in front,
  -- NULL where there is none.
  pub rbtree_find_less_equal-Nearest :
      IsTree rank t w → Returns Q (rbtree_find_less_equal cmp t key)
  unfolding rbtree_find_less_equal
  rbtree_find_less_equal-Nearest k =
      let (h, b) = k.red_black.tree in
      subst (λ y. Returns Q (descend cmp (t.count + 1) t key y 0)) (sym k.red_black.place.hole)
        (descend-Nearest (t.count + 1) [] w h 0 (start-Searching rank t w (rank key) h k b) refl
          (omega (arith, k.counted)))
