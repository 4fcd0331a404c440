-- ===== src/Rbtree/Next.antt =====
-- `rbtree_next` and `rbtree_first`: the walk through a tree in its order.
use mathlib.Core.Path.{subst}
use mathlib.Core.List.{append_assoc, append-nil}
use native.Mathlib.Decide.{ℕ_discrete, dec_le}
use nsd_old.Base.{
  ℕ, zero, suc, ◌+◌, ◌≤◌, ◌<◌, ◌≡◌, ◌≢◌, refl, sym, ap, ◌∙◌, true, false, List, [], ◌∷◌, ◌++◌,
  length, length-append, ◌==◌, arith, Returns, Returns-map,
}
use nsd_old.Rbtree.{Side, opposite_side, Rbtree, outermost, climb, rbtree_step, rbtree_end}
use nsd_old.Rbtree.Shape.{Tree, top, join, inorder, occ, Frame, holder, plug, Rep, At, top-join}
use nsd_old.Rbtree.Step.{upward-At}
use nsd_old.Rbtree.Fixup.{tops_differ}
use nsd_old.Rbtree.Ordered.{before_place, behind_place, inorder-plug}
use nsd_old.Rbtree.Descent.{downward-At}
use nsd_old.Rbtree.Insert.{IsTree}

-- The first of a list of addresses, or 0
abbrev pub first_of : List ℕ → ℕ
first_of [] = 0
first_of (x ∷ xs) = x

module _ {K : Type 0} (t : Rbtree K) where
  leftmost_lem :
      (fuel : ℕ) (s : Tree) (ys : List ℕ)
      → Rep t s
      → top s ≢ 0
      → length (inorder s) ≤ fuel
      → Returns (λ n. n ≡ first_of (inorder s ++ ys)) (outermost Side.left fuel t (top s))
  unfolding outermost
  leftmost_lem fuel Tree.leaf ys r z n = absurd (z refl)
  leftmost_lem zero (Tree.node l a q) ys r z n =
      absurd (omega (arith, n, length-append (inorder l) (a ∷ inorder q)))
  leftmost_lem (suc fuel) (Tree.node Tree.leaf a q) ys r z n =
      let e : (t.child Side.left a == 0) ≡ true = ground (arith, r.1.0) in rw (Returns, e) refl
  leftmost_lem (suc fuel) (Tree.node (Tree.node p b m) a q) ys r z n =
      let l = Tree.node p b m in
      let zb : b ≢ 0 = r.1.2.0 in
      let e : (t.child Side.left a == 0) ≡ false = ground (arith, r.1.0, zb) in
      let rest =
        leftmost_lem fuel l (a ∷ (inorder q ++ ys)) r.1.2 zb
          (omega (arith, n, length-append (inorder l) (a ∷ inorder q))) in
      rw (Returns, e)
        (Returns-map (λ n. n ≡ first_of ((inorder l ++ a ∷ inorder q) ++ ys))
          (outermost Side.left fuel t (t.child Side.left a))
          (λ n h. h ∙ ap first_of (sym (append_assoc (inorder l) (a ∷ inorder q) ys)))
          (subst
            (λ y.
              Returns (λ n. n ≡ first_of (inorder l ++ a ∷ (inorder q ++ ys)))
                (outermost Side.left fuel t y))
            (sym r.1.0) rest))

  climb_lem :
      (fuel : ℕ) (c : List Frame) (s : Tree)
      → At t c s
      → top s ≢ 0
      → length c < fuel
      → Returns (λ n. n ≡ first_of (behind_place c)) (climb Side.right fuel t (top s) (holder c))
  unfolding climb
  climb_lem zero c s k z n = absurd (omega (arith, n))
  climb_lem (suc fuel) [] s k z n = refl
  climb_lem (suc fuel) (f ∷ c) s k z n =
      let w = join f.side s f.place f.sibling in
      let Q : ℕ → Type 0 = λ n. n ≡ first_of (behind_place c) in
      let up : top w ≡ f.place = top-join f.side s f.place f.sibling in
      let rest =
        climb_lem fuel c w (upward-At t f c s k) (λ e. k.rest.0 (sym up ∙ e)) (omega (arith, n)) in
      sided f.side k.hole k.rest.1.0 refl (
        subst (λ y. Returns Q (climb Side.right fuel t f.place y)) (sym k.rest.2)
          (subst (λ y. Returns Q (climb Side.right fuel t y (holder c))) up rest))
    where
      sided :
          (d : Side)
          → t.child d f.place ≡ top s
          → t.child (opposite_side d) f.place ≡ top f.sibling
          → f.side ≡ d
          → Returns
              (λ n. n ≡ first_of (behind_place c))
              (climb Side.right fuel t f.place (t.parent f.place))
          → Returns
              (λ n. n ≡ first_of (behind_place (f ∷ c)))
              (climb Side.right (suc fuel) t (top s) f.place)
      sided Side.left h e i rest =
          let differ : top s ≢ t.child Side.right f.place =
            λ q. tops_differ s f.sibling (λ x. omega (arith, k.apart x)) z (q ∙ e) in
          let other : (top s == t.child Side.right f.place) ≡ false = ground (arith, differ) in
          let inside : (f.place == 0) ≡ false = ground (arith, k.rest.0) in
          rw (Returns, other, inside, i) refl
      sided Side.right h e i rest =
          let same : (top s == t.child Side.right f.place) ≡ true = ground (arith, h) in
          let inside : (f.place == 0) ≡ false = ground (arith, k.rest.0) in
          rw (Returns, same, inside)
            (Returns-map (λ n. n ≡ first_of (behind_place (f ∷ c)))
              (climb Side.right fuel t f.place (t.parent f.place)) (λ n q. rw i q) rest)

  -- The place of a node of the tree
  pub locate :
      (c : List Frame) (s : Tree) (a : ℕ)
      → At t c s
      → 1 ≤ occ a s
      → (e : List Frame) × (l : Tree) × (r : Tree) × At t e (Tree.node l a r)
        × (plug e (Tree.node l a r) ≡ plug c s)
  locate c Tree.leaf a k i = absurd (omega (arith, i))
  locate c (Tree.node l b r) a k i = elim (ℕ_discrete a b) [
    | yes e ↦ (
      c,
      l,
      r,
      subst (λ y. At t c (Tree.node l y r)) (sym e) k,
      ap (λ y. plug c (Tree.node l y r)) e,
    )
    | no n ↦ elim (dec_le 1 (occ a l)) [
      | yes g ↦
          locate (record { side = Side.left; place = b; sibling = r } ∷ c) l a
            (downward-At t c Side.left l b r k) g
      | no g ↦
          locate (record { side = Side.right; place = b; sibling = l } ∷ c) r a
            (downward-At t c Side.right r b l k) (ground (arith, i, g, n))
    ]
  ]

  next_lem :
      (fuel : ℕ) (c : List Frame) (l : Tree) (a : ℕ) (r : Tree)
      → At t c (Tree.node l a r)
      → length c < fuel
      → length (inorder r) ≤ fuel
      → Returns (λ n. n ≡ first_of (inorder r ++ behind_place c)) (rbtree_step Side.right fuel t a)
  unfolding rbtree_step
  next_lem fuel c l a Tree.leaf k n m =
      let e : (t.child Side.right a == 0) ≡ true = ground (arith, k.rep.2.0) in
      rw (Returns, e)
        (subst (λ y. Returns (λ n. n ≡ first_of (behind_place c)) (climb Side.right fuel t a y))
          (sym k.under) (climb_lem fuel c (Tree.node l a Tree.leaf) k k.rep.0 n))
  next_lem fuel c l a (Tree.node p b q) k n m =
      let r = Tree.node p b q in
      let zb : b ≢ 0 = k.rep.2.2.0 in
      let e : (t.child Side.right a == 0) ≡ false = ground (arith, k.rep.2.0, zb) in
      rw (Returns, e)
        (subst
          (λ y.
            Returns (λ n. n ≡ first_of (inorder r ++ behind_place c))
              (outermost Side.left fuel t y))
          (sym k.rep.2.0) (leftmost_lem fuel r (behind_place c) k.rep.2.2 zb m))

path_length :
    (c : List Frame) (s : Tree) → length c + length (inorder s) ≤ length (inorder (plug c s))
path_length [] s = omega arith
path_length (f ∷ c) s = omega (arith, path_length c (join f.side s f.place f.sibling), sided f.side)
  where
    sided : (d : Side) → length (inorder s) + 1 ≤ length (inorder (join d s f.place f.sibling))
    sided Side.left = omega (arith, length-append (inorder s) (f.place ∷ inorder f.sibling))
    sided Side.right = omega (arith, length-append (inorder f.sibling) (f.place ∷ inorder s))

-- `rbtree_next` of a node of a red-black tree in the order of its keys returns the node behind it in that
-- order, or NULL for the last, in at most as many rounds of its loops as the tree has nodes.
pub rbtree_step-next :
    {K : Type 0} (rank : K → ℕ) (t : Rbtree K) (w : Tree) (a fuel : ℕ)
    → IsTree rank t w
    → 1 ≤ occ a w
    → t.count ≤ fuel
    → Returns
        (λ n. (xs : List ℕ) × (ys : List ℕ) × (inorder w ≡ xs ++ a ∷ ys) × (n ≡ first_of ys))
        (rbtree_step Side.right fuel t a)
rbtree_step-next rank t w a fuel k i m =
    let (c, l, r, place, whole) = locate t [] w a k.red_black.place i in
    let order : inorder w ≡ (before_place c ++ inorder l) ++ a ∷ (inorder r ++ behind_place c) =
      ap inorder (sym whole)
      ∙ inorder-plug c (Tree.node l a r)
      ∙ ap (λ x. before_place c ++ x) (append_assoc (inorder l) (a ∷ inorder r) (behind_place c))
      ∙ sym (append_assoc (before_place c) (inorder l) (a ∷ (inorder r ++ behind_place c))) in
    let long = path_length c (Tree.node l a r) in
    let size : length (inorder (plug c (Tree.node l a r))) ≡ t.count =
      ap (λ x. length (inorder x)) whole ∙ k.counted in
    let both = length-append (inorder l) (a ∷ inorder r) in
    Returns-map _ (rbtree_step Side.right fuel t a)
      (λ n e. (before_place c ++ inorder l, inorder r ++ behind_place c, order, e))
      (next_lem t fuel c l a r place (omega (arith, long, size, both, m))
        (omega (arith, long, size, both, m)))

-- `rbtree_first` returns the first node in the order of the keys, and of an empty tree the sentinel, which
-- is its own left child.
pub rbtree_end-first :
    {K : Type 0} (rank : K → ℕ) (t : Rbtree K) (w : Tree)
    → IsTree rank t w
    → t.child Side.left 0 ≡ 0
    → Returns (λ n. n ≡ first_of (inorder w)) (rbtree_end Side.left t)
unfolding rbtree_end outermost
rbtree_end-first rank t Tree.leaf k z =
    let e : (t.child Side.left t.root == 0) ≡ true =
      ground (arith, ap (t.child Side.left) k.red_black.place.hole, z) in
    let root : t.root ≡ 0 = k.red_black.place.hole in start (t.count + 1) (omega arith) e root
  where
    start :
        (fuel : ℕ)
        → 0 < fuel
        → (t.child Side.left t.root == 0) ≡ true
        → t.root ≡ 0
        → Returns (λ n. n ≡ 0) (outermost Side.left fuel t t.root)
    start zero n e r = absurd (omega (arith, n))
    start (suc fuel) n e r = rw (Returns, e) r
rbtree_end-first rank t (Tree.node l a r) k z =
    subst
      (λ y.
        Returns (λ n. n ≡ first_of (inorder (Tree.node l a r)))
          (outermost Side.left (t.count + 1) t y))
      (sym k.red_black.place.hole)
      (Returns-map (λ n. n ≡ first_of (inorder (Tree.node l a r)))
        (outermost Side.left (t.count + 1) t a)
        (λ n h. h ∙ ap first_of (append-nil (inorder (Tree.node l a r))))
        (leftmost_lem t (t.count + 1) (Tree.node l a r) [] k.red_black.place.rep
          k.red_black.place.rep.0 (omega (arith, k.counted))))
