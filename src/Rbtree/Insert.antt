-- ===== src/Rbtree/Insert.antt =====
-- `rbtree_insert`: the new node in its place, and the whole.
use mathlib.Core.Path.{subst}
use nsd_old.Base.{
  Comparison, compare_num, ℕ, ◌+◌, ◌≤◌, ◌≡◌, ◌≢◌, inl, refl, sym, ap, ◌∙◌, Bool, true, false,
  Option, none, some, List, [], ◌∷◌, ◌++◌, length, length-append, arith, done, ◌>>=◌, Returns,
  Returns-bind,
}
use nsd_old.Rbtree.{
  Side, Color, Rbtree, rbtree_insert_fixup, find_parent, rbtree_insert, rbtree_create,
}
use nsd_old.Rbtree.Shape.{Tree, top, inorder, occ, Frame, plug, occ_path}
use nsd_old.Rbtree.Balance.{Balanced, PathBalanced}
use nsd_old.Rbtree.Loop.{IsRedBlack, Fixed, rbtree_insert_fixup-Fixed}
use nsd_old.Rbtree.Ordered.{
  Ascending, insert_by, insert_by-append, Ascending-around, before_place, behind_place,
  inorder-plug,
}
use nsd_old.Rbtree.Descent.{node_rank, Searching, Placed, find_parent-Placed}
use nsd_old.Rbtree.Link.{placed, Put, placed-Put, occ-plug_eq, linked-Fixing}

-- The nodes of `t` are the red-black tree `w`, with the keys in ascending order, and they are counted.
pub record IsTree {K : Type 0} (rank : K → ℕ) (t : Rbtree K) (w : Tree) : Type 0 where
  pub red_black : IsRedBlack t w
  pub ascending : Ascending (node_rank t rank) (inorder w)
  pub counted : length (inorder w) ≡ t.count

-- What `rbtree_insert` comes to for a node `x`: 0, with nothing changed, when a node of the tree has its
-- key; or 1, with the node in the tree, at its place in the order of the keys.
abbrev pub Inserted : {K : Type 0} → (K → ℕ) → Rbtree K → Tree → ℕ → Bool × Rbtree K → Type 0
Inserted rank t w x (false, u) =
    (u ≡ t) × ((a : ℕ) × (1 ≤ occ a w) × (rank (t.key a) ≡ rank (t.key x)))
Inserted rank t w x (true, u) =
    (s : Tree) × IsTree rank u s
    × (inorder s ≡ insert_by (node_rank t rank) x (inorder w))
    × (u.key ≡ t.key)

-- The search starts at the root.
pub start-Searching :
    {K : Type 0} (rank : K → ℕ) (t : Rbtree K) (w : Tree) (v h : ℕ)
    → IsTree rank t w
    → Balanced t.color w h
    → Searching rank t w v [] w h
start-Searching rank t w v h k b = record {
  place = k.red_black.place;
  whole = refl;
  ascending = k.ascending;
  low = tt;
  high = tt;
  tree = b;
  path = tt;
  gap = inl k.red_black.top_black;
  room = omega arith;
}

module _ {K : Type 0} (cmp : K → K → Comparison) (rank : K → ℕ)
    (ordered : (a b : K) → cmp a b ≡ compare_num (rank a) (rank b)) (t : Rbtree K) (w : Tree)
    (k : IsTree rank t w) (x : ℕ) (zx : x ≢ 0) (absent : occ x w ≡ 0) where
  Fixed-Inserted :
      (c : List Frame) (h : ℕ) (u v : Rbtree K)
      → Searching rank t w (rank (t.key x)) c Tree.leaf h
      → Put t c x u
      → Fixed u (inorder (plug c (Tree.node Tree.leaf x Tree.leaf))) v
      → Inserted rank t w x (true, v)
  Fixed-Inserted c h u v q (l, color, key, count) (s, r, order, kv, cv) =
      let f = node_rank t rank in
      let old : inorder w ≡ before_place c ++ behind_place c =
        ap inorder (sym q.whole) ∙ inorder-plug c Tree.leaf in
      let new : inorder s ≡ before_place c ++ x ∷ behind_place c =
        order ∙ inorder-plug c (Tree.node Tree.leaf x Tree.leaf) in
      let same_key : v.key ≡ t.key = kv ∙ key in
      let up : Ascending f (inorder s) = subst (Ascending f) (sym new) (
        Ascending-around f (before_place c) x (behind_place c) (subst (Ascending f) old k.ascending)
          q.low q.high) in
      (
        s,
        record {
          red_black = r;
          ascending = subst (λ n. Ascending (λ a. rank (n a)) (inorder s)) (sym same_key) up;
          counted = omega (
            arith,
            ap length new,
            ap length old,
            length-append (before_place c) (x ∷ behind_place c),
            length-append (before_place c) (behind_place c),
            k.counted,
            cv,
            count,
          );
        },
        new
            ∙ sym (
                ap (insert_by f x) old
                ∙ insert_by-append f x (before_place c) (behind_place c) q.low q.high),
        same_key,
      )

  -- In a red-black tree in the order of its keys, with the nodes counted and a comparison of keys that agrees
  -- with a rank, `rbtree_insert` of a node that is not in the tree, and is not NULL, returns. If a node
  -- has its key, it returns NULL and changes nothing; otherwise the nodes are such a tree again, with the
  -- new node at its place in the order.
  pub rbtree_insert-Inserted : Returns (Inserted rank t w x) (rbtree_insert cmp t x)
  unfolding rbtree_insert
  rbtree_insert-Inserted =
      let (h, b) = k.red_black.tree in
      let root : t.root ≡ top w = k.red_black.place.hole in
      let Q : Option (ℕ × Side) → Type 0 = Placed rank t w (rank (t.key x)) in
      let search : Returns Q (find_parent cmp (t.count + 1) t (t.key x) t.root (0, Side.left)) =
        subst (λ y. Returns Q (find_parent cmp (t.count + 1) t (t.key x) y (0, Side.left)))
          (sym root)
          (find_parent-Placed cmp rank ordered t w (t.key x) (t.count + 1) [] w h Side.left
            (start-Searching rank t w (rank (t.key x)) h k b) tt (omega (arith, k.counted))) in
      Returns-bind (Inserted rank t w x)
        (find_parent cmp (t.count + 1) t (t.key x) t.root (0, Side.left)) _ search
        λ found p. found-Inserted found p
    where
      found-Inserted :
          (found : Option (ℕ × Side))
          → Placed rank t w (rank (t.key x)) found
          → Returns (Inserted rank t w x) (elim found [
            | none ↦ done (false, t)
            | some (parent, d) ↦
                rbtree_insert_fixup ((placed t x parent d).count + 1) (placed t x parent d) x
                >>= λ u. done (true, u)
          ])
      found-Inserted none p = (refl, p)
      found-Inserted (some (parent, d)) (c, h, e, i, q) =
          let u = placed t x parent d in
          let gone : occ_path x c ≡ 0 =
            omega (arith, absent, ap (occ x) q.whole, occ-plug_eq c x Tree.leaf) in
          let put = placed-Put t x parent d c e i q.place gone in
          let fixing =
            linked-Fixing t u c x zx q.place gone put.0 k.red_black.sentinel put.1
              (subst (PathBalanced t.color c) q.tree q.path) in
          Returns-bind (Inserted rank t w x) (rbtree_insert_fixup (u.count + 1) u x) _
            (rbtree_insert_fixup-Fixed (u.count + 1) u c (Tree.node Tree.leaf x Tree.leaf) 0 fixing
              (omega (arith, q.room, k.counted, put.3)))
            λ v f. Fixed-Inserted c h u v q put f

-- A new tree has no nodes and is one.
pub rbtree_create-IsTree :
    {K : Type 0} (rank : K → ℕ) (parent : ℕ → ℕ) (child : Side → ℕ → ℕ) (color : ℕ → Color)
    (key : ℕ → K)
    → color 0 ≡ Color.black
    → IsTree rank (rbtree_create parent child color key) Tree.leaf
unfolding rbtree_create
rbtree_create-IsTree rank parent child color key z = record {
  red_black = record {
    place = record { hole = refl; under = tt; rep = tt; rest = tt; apart = λ x. omega arith };
    sentinel = z;
    top_black = z;
    tree = (0, refl);
  };
  ascending = tt;
  counted = refl;
}
