-- ===== src/Rbtree/Link.antt =====
-- The new node of `rbtree_insert`, linked at its place.
use native.Mathlib.Decide.{ℕ_discrete}
use nsd_old.Base.{
  ℕ, ◌+◌, ◌≤◌, ◌≡◌, ◌≢◌, inl, refl, sym, ap, ◌∙◌, true, false, not, List, [], ◌∷◌, ◌==◌,
  if◌then◌else◌, arith,
}
use nsd_old.Rbtree.{Side, opposite_side, same_side, Color, Rbtree, set_parent, set_child, set_color}
use nsd_old.Rbtree.Shape.{
  Tree, join, hits, occ, Frame, holder, plug, occ_path, occ-join, Hole, At, self_hit, SameFar,
  Rest-frame,
}
use nsd_old.Rbtree.Balance.{PathBalanced, PathBalanced-frame}
use nsd_old.Rbtree.Step.{Fixing, painted, painted_other, painted_here}
use nsd_old.Rbtree.Descent.{IsSide}

-- The fields of the new node, and the count
abbrev pub fresh : {K : Type 0} → Rbtree K → ℕ → ℕ → Rbtree K
fresh t x parent =
    let t = set_parent t x parent in
    let t = set_child (set_child t Side.right x 0) Side.left x 0 in
    record (set_color t x Color.red) { count = t.count + 1 }

-- `u` is `t` with the node `x`, without children, at the start of the path.
pub record Linked {K : Type 0} (t u : Rbtree K) (c : List Frame) (x : ℕ) : Type 0 where
  no_left : u.child Side.left x ≡ 0
  no_right : u.child Side.right x ≡ 0
  parent_x : u.parent x ≡ holder c
  children : (d : Side) (y : ℕ) → y ≢ x → y ≢ holder c → u.child d y ≡ t.child d y
  parents : (y : ℕ) → y ≢ x → u.parent y ≡ t.parent y
  root : holder c ≢ 0 → u.root ≡ t.root
  hole : Hole u c x
  far : SameFar t u c

side_self : (d : Side) → same_side d d ≡ true
side_self Side.left = refl
side_self Side.right = refl

side_other : (d : Side) → same_side (opposite_side d) d ≡ false
side_other Side.left = refl
side_other Side.right = refl

root-Linked :
    {K : Type 0} (t : Rbtree K) (x : ℕ) → Linked t (record (fresh t x 0) { root = x }) [] x
root-Linked t x = record {
  no_left = ground arith;
  no_right = ground arith;
  parent_x = ground arith;
  children = λ d y n m. kept d y n;
  parents = λ y n. ground (arith, n);
  root = λ z. absurd (z refl);
  hole = refl;
  far = tt;
}
  where
    kept : (d : Side) (y : ℕ) → y ≢ x → (fresh t x 0).child d y ≡ t.child d y
    kept Side.left y n = ground (arith, n)
    kept Side.right y n = ground (arith, n)

below-Linked :
    {K : Type 0} (t : Rbtree K) (x : ℕ) (f : Frame) (c : List Frame) (d : Side)
    → f.side ≡ d
    → x ≢ f.place
    → Linked t (set_child (fresh t x f.place) d f.place x) (f ∷ c) x
below-Linked t x f c d e n = record {
  no_left = ground (arith, n);
  no_right = ground (arith, n);
  parent_x = ground arith;
  children = λ s y ny nf. children_lem s y ny nf;
  parents = λ y m. ground (arith, m);
  root = λ z. refl;
  hole = rw (e, side_self d) (ground arith);
  far = rw (e, side_other d) (ground (arith, n));
}
  where
    children_lem :
        (s : Side) (y : ℕ)
        → y ≢ x
        → y ≢ f.place
        → (set_child (fresh t x f.place) d f.place x).child s y ≡ t.child s y
    children_lem Side.left y ny nf = ground (arith, ny, nf)
    children_lem Side.right y ny nf = ground (arith, ny, nf)

pub occ-plug_eq : (c : List Frame) (x : ℕ) (s : Tree) → occ x (plug c s) ≡ occ x s + occ_path x c
occ-plug_eq [] x s = omega arith
occ-plug_eq (f ∷ c) x s = omega (
  arith,
  occ-plug_eq c x (join f.side s f.place f.sibling),
  occ-join f.side x s f.place f.sibling,
)

module _ {K : Type 0} (t u : Rbtree K) (c : List Frame) (x : ℕ) (zx : x ≢ 0) (k : At t c Tree.leaf)
    (absent : occ_path x c ≡ 0) (linked : Linked t u c x) where
  elsewhere : (y : ℕ) → 1 ≤ occ_path y c → y ≢ x
  elsewhere y i e = omega (arith, i, absent, ap (λ z. occ_path z c) e)

  linked-At : At u c (Tree.node Tree.leaf x Tree.leaf)
  linked-At = record {
    hole = linked.hole;
    under = linked.parent_x;
    rep = (zx, (linked.no_left, tt, tt), (linked.no_right, tt, tt));
    rest =
        Rest-frame t u c (λ y i d n. linked.children d y (elsewhere y i) n) linked.root linked.far
          (λ y i. linked.parents y (elsewhere y i)) (λ y. omega (arith, k.apart y)) k.rest;
    apart = λ y. once y;
  }
    where
      once : (y : ℕ) → 0 + hits y x + 0 + occ_path y c ≤ 1
      once y = elim (ℕ_discrete y x) [
        | yes e ↦ ground (arith, absent, ap (λ z. occ_path z c) e)
        | no n ↦ ground (arith, n, k.apart y)
      ]

  pub linked-Fixing :
      t.color 0 ≡ Color.black
      → u.color ≡ painted t.color x Color.red
      → PathBalanced t.color c 0
      → Fixing u c (Tree.node Tree.leaf x Tree.leaf) 0
  linked-Fixing z ec path =
      let col = painted t.color x Color.red in
      let c0 : col 0 ≡ t.color 0 = painted_other t.color x Color.red 0 (λ e. zx (sym e)) in
      let red = painted_here t.color x Color.red in
      record {
        place = linked-At;
        sentinel = rw ec (c0 ∙ z);
        tree = rw ec (inl (red, c0 ∙ z, c0 ∙ z, refl, refl));
        path = rw ec (
            PathBalanced-frame t.color col c0 c 0
              (λ y i. painted_other t.color x Color.red y (elsewhere y i)) path);
        filled = zx;
        is_red_top = rw ec red;
      }

-- The node `x`, put below `parent` on the side `d`
abbrev pub placed : {K : Type 0} → Rbtree K → ℕ → ℕ → Side → Rbtree K
placed t x parent d =
    if not (parent == 0)
    then set_child (fresh t x parent) d parent x
    else record (fresh t x parent) { root = x }

-- What `placed` does to the tree, with the other fields
abbrev pub Put : {K : Type 0} → Rbtree K → List Frame → ℕ → Rbtree K → Type 0
Put t c x u =
    Linked t u c x
    × (u.color ≡ painted t.color x Color.red)
    × (u.key ≡ t.key)
    × (u.count ≡ t.count + 1)

pub placed-Put :
    {K : Type 0} (t : Rbtree K) (x parent : ℕ) (d : Side) (c : List Frame)
    → parent ≡ holder c
    → IsSide c d
    → At t c Tree.leaf
    → occ_path x c ≡ 0
    → Put t c x (placed t x parent d)
placed-Put t x parent d [] e i k absent =
    let f : (parent == 0) ≡ true = ground (arith, e) in
    rw (f, e) (root-Linked t x, refl, refl, refl)
placed-Put t x parent d (g ∷ c) e i k absent =
    let z : parent ≢ 0 = λ q. k.rest.0 (sym e ∙ q) in
    let f : (parent == 0) ≡ false = ground (arith, z) in
    let n : x ≢ g.place = λ q. differ q in rw (f, e) (below-Linked t x g c d i n, refl, refl, refl)
  where
    differ : x ≡ g.place → ⊥
    differ q = omega (arith, absent, self_hit g.place, ap (λ y. hits y g.place) q)
