-- ===== src/Rbtree/Descent.antt =====
-- The search of `rbtree_insert` for the place of the new node.
use mathlib.Core.Path.{subst}
use nsd_old.Base.{
  Comparison, before, same, after, compare_num, ℕ, zero, suc, ◌+◌, ◌≤◌, ◌<◌, ◌≡◌, ◌≢◌, ◌⊎◌, inl,
  inr, refl, sym, false, Option, none, some, List, [], ◌∷◌, ◌++◌, length, length-append, ◌==◌,
  arith, Returns,
}
use nsd_old.Rbtree.{Side, Color, Rbtree, find_parent}
use nsd_old.Rbtree.Shape.{
  Tree, top, join, inorder, occ, Frame, holder, plug, occ-join, At, self_hit,
}
use nsd_old.Rbtree.Balance.{HasBlackTop, Balanced, PathBalanced}
use nsd_old.Rbtree.Ordered.{
  AllBelow, AllAbove, Ascending, AllBelow-append, AllAbove-append, AllBelow-trans, AllAbove-trans,
  Ascending-parts, before_place, behind_place,
}

-- One step down from a place
pub downward-At {ℓ} :
    {K : Type ℓ} (t : Rbtree K) (c : List Frame) (d : Side) (s : Tree) (a : ℕ) (m : Tree)
    → At t c (join d s a m)
    → At t (record { side = d; place = a; sibling = m } ∷ c) s
downward-At t c Side.left s a m k =
    let (z, (el, ul, rl), right) = k.rep in
    record {
      hole = el;
      under = ul;
      rep = rl;
      rest = (z, right, k.under, k.hole, k.rest);
      apart = λ x. omega (arith, k.apart x);
    }
downward-At t c Side.right s a m k =
    let (z, left, (er, ur, rr)) = k.rep in
    record {
      hole = er;
      under = ur;
      rep = rr;
      rest = (z, left, k.under, k.hole, k.rest);
      apart = λ x. omega (arith, k.apart x);
    }

-- The side on which the place is
abbrev pub IsSide : List Frame → Side → Type 0
IsSide [] d = Unit
IsSide (f ∷ c) d = f.side ≡ d

abbrev pub node_rank : {K : Type 0} → Rbtree K → (K → ℕ) → ℕ → ℕ
node_rank t rank a = rank (t.key a)

-- The place at hand in the tree `w`, with the keys before it below `v` and those behind it above
pub record Searching {K : Type 0} (rank : K → ℕ) (t : Rbtree K) (w : Tree) (v : ℕ) (c : List Frame)
    (s : Tree) (h : ℕ) : Type 0 where
  pub place : At t c s
  pub whole : plug c s ≡ w
  pub ascending : Ascending (node_rank t rank) (inorder s)
  pub low : AllBelow (node_rank t rank) v (before_place c)
  pub high : AllAbove (node_rank t rank) v (behind_place c)
  pub tree : Balanced t.color s h
  pub path : PathBalanced t.color c h
  pub gap : HasBlackTop t.color s ⊎ ((holder c ≢ 0) × (t.color (holder c) ≡ Color.black))
  pub room : length c + length (inorder s) ≤ length (inorder w)

-- The balance, one step down
path_down :
    (color : ℕ → Color) (c : List Frame) (d : Side) (s : Tree) (a : ℕ) (m : Tree) (h : ℕ)
    → a ≢ 0
    → Balanced color (join d s a m) h
    → HasBlackTop color (join d s a m) ⊎ ((holder c ≢ 0) × (color (holder c) ≡ Color.black))
    → PathBalanced color c h
    → (n : ℕ) × Balanced color s n
      × PathBalanced color (record { side = d; place = a; sibling = m } ∷ c) n
      × (HasBlackTop color s ⊎ ((a ≢ 0) × (color a ≡ Color.black)))
path_down color c Side.left s a m h z (inl (r, bs, bm, ks, km)) (inl b) p = cc (r, b)
path_down color c Side.left s a m h z (inl (r, bs, bm, ks, km)) (inr (zc, bc)) p =
    (h, ks, (km, inl (r, bm, bc, zc, p)), inl bs)
path_down color c Side.left s a m h z (inr (b, (n, e, ks, km))) g p =
    (n, ks, (km, inr (b, subst (PathBalanced color c) e p)), inr (z, b))
path_down color c Side.right s a m h z (inl (r, bm, bs, km, ks)) (inl b) p = cc (r, b)
path_down color c Side.right s a m h z (inl (r, bm, bs, km, ks)) (inr (zc, bc)) p =
    (h, ks, (km, inl (r, bm, bc, zc, p)), inl bs)
path_down color c Side.right s a m h z (inr (b, (n, e, km, ks))) g p =
    (n, ks, (km, inr (b, subst (PathBalanced color c) e p)), inr (z, b))

module _ {K : Type 0} (rank : K → ℕ) (t : Rbtree K) (w : Tree) (v : ℕ) (c : List Frame) where
  pub go_left :
      (l : Tree) (a : ℕ) (r : Tree) (h : ℕ)
      → Searching rank t w v c (Tree.node l a r) h
      → v < rank (t.key a)
      → (n : ℕ) × Searching rank t w v (record { side = Side.left; place = a; sibling = r } ∷ c) l n
  go_left l a r h k below =
      let (al, bl, ar, rest) =
        Ascending-parts (node_rank t rank) (inorder l) a (inorder r) k.ascending in
      let high : AllAbove (node_rank t rank) v (a ∷ (inorder r ++ behind_place c)) = (
        below,
        AllAbove-append (node_rank t rank) v (inorder r) (behind_place c)
            (AllAbove-trans (node_rank t rank) v (rank (t.key a)) (inorder r) (omega (arith, below))
              ar)
            k.high,
      ) in
      let room : suc (length c) + length (inorder l) ≤ length (inorder w) =
        omega (arith, k.room, length-append (inorder l) (a ∷ inorder r)) in
      let (n, tree, path, gap) =
        path_down t.color c Side.left l a r h k.place.rep.0 k.tree k.gap k.path in
      (
        n,
        record {
          place = downward-At t c Side.left l a r k.place;
          whole = k.whole;
          ascending = al;
          low = k.low;
          high = high;
          tree = tree;
          path = path;
          gap = gap;
          room = room;
        },
      )

  pub go_right :
      (l : Tree) (a : ℕ) (r : Tree) (h : ℕ)
      → Searching rank t w v c (Tree.node l a r) h
      → rank (t.key a) < v
      → (n : ℕ) × Searching rank t w v
          (record { side = Side.right; place = a; sibling = l } ∷ c)
          r
          n
  go_right l a r h k above =
      let f = node_rank t rank in
      let (al, bl, ar, rest) = Ascending-parts f (inorder l) a (inorder r) k.ascending in
      let low : AllBelow f v (before_place c ++ (inorder l ++ a ∷ [])) =
        AllBelow-append f v (before_place c) (inorder l ++ a ∷ []) k.low (
          AllBelow-append f v (inorder l) (a ∷ [])
            (AllBelow-trans f (rank (t.key a)) v (inorder l) (omega (arith, above)) bl)
            (above, tt)) in
      let room : suc (length c) + length (inorder r) ≤ length (inorder w) =
        omega (arith, k.room, length-append (inorder l) (a ∷ inorder r)) in
      let (n, tree, path, gap) =
        path_down t.color c Side.right r a l h k.place.rep.0 k.tree k.gap k.path in
      (
        n,
        record {
          place = downward-At t c Side.right r a l k.place;
          whole = k.whole;
          ascending = rest;
          low = low;
          high = k.high;
          tree = tree;
          path = path;
          gap = gap;
          room = room;
        },
      )

pub three_cases :
    (a b : ℕ)
    → ((compare_num a b ≡ before) × (a < b))
      ⊎ (((compare_num a b ≡ same) × (a ≡ b)) ⊎ ((compare_num a b ≡ after) × (b < a)))
three_cases a b = ground arith

-- What the search comes to: a node of the tree has the key; or an empty place at the end of a path, below
-- the node and on the side that were found.
abbrev pub Placed : {K : Type 0} → (K → ℕ) → Rbtree K → Tree → ℕ → Option (ℕ × Side) → Type 0
Placed rank t w v none = (a : ℕ) × (1 ≤ occ a w) × (rank (t.key a) ≡ v)
Placed rank t w v (some (parent, d)) =
    (c : List Frame) × (h : ℕ) × (parent ≡ holder c)
    × IsSide c d
    × Searching rank t w v c Tree.leaf h

pub occ-plug : (c : List Frame) (x : ℕ) (s : Tree) → occ x s ≤ occ x (plug c s)
occ-plug [] x s = omega arith
occ-plug (f ∷ c) x s =
    omega
      (arith, occ-plug c x (join f.side s f.place f.sibling), occ-join f.side x s f.place f.sibling)

module _ {K : Type 0} (cmp : K → K → Comparison) (rank : K → ℕ)
    (ordered : (a b : K) → cmp a b ≡ compare_num (rank a) (rank b)) (t : Rbtree K) (w : Tree)
    (key : K) where
  abbrev Q : Option (ℕ × Side) → Type 0
  Q = Placed rank t w (rank key)

  pub find_parent-Placed :
      (fuel : ℕ) (c : List Frame) (s : Tree) (h : ℕ) (d : Side)
      → Searching rank t w (rank key) c s h
      → IsSide c d
      → length (inorder s) < fuel
      → Returns (Placed rank t w (rank key)) (find_parent cmp fuel t key (top s) (holder c, d))
  unfolding find_parent
  find_parent-Placed zero c s h d k i n = absurd (omega (arith, n))
  find_parent-Placed (suc fuel) c Tree.leaf h d k i n = (c, h, refl, i, k)
  find_parent-Placed (suc fuel) c (Tree.node l a r) h d k i n =
      let z : (a == 0) ≡ false = ground (arith, k.place.rep.0) in
      let long = length-append (inorder l) (a ∷ inorder r) in
      elim (three_cases (rank key) (rank (t.key a))) [
        | inl (e, below) ↦
            let (m, q) = go_left rank t w (rank key) c l a r h k below in
            rw (Returns, z, ordered key (t.key a), e)
              (subst (λ y. Returns Q (find_parent cmp fuel t key y (a, Side.left)))
                (sym k.place.rep.1.0)
                (find_parent-Placed fuel (record { side = Side.left; place = a; sibling = r } ∷ c) l
                  m Side.left q refl (omega (arith, n, long))))
        | inr (inl (e, equal)) ↦
            rw (Returns, z, ordered key (t.key a), e)
              (
                a,
                subst (λ y. 1 ≤ occ a y) k.whole
                    (omega (arith, occ-plug c a (Tree.node l a r), self_hit a)),
                sym equal,
              )
        | inr (inr (e, above)) ↦
            let (m, q) = go_right rank t w (rank key) c l a r h k above in
            rw (Returns, z, ordered key (t.key a), e)
              (subst (λ y. Returns Q (find_parent cmp fuel t key y (a, Side.right)))
                (sym k.place.rep.2.0)
                (find_parent-Placed fuel (record { side = Side.right; place = a; sibling = l } ∷ c)
                  r m Side.right q refl (omega (arith, n, long))))
      ]
