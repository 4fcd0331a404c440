-- ===== src/Rbtree/Round.antt =====
-- The cases of a round of `rbtree_insert_fixup`, by the uncle and the side of the node.
use nsd_old.Base.{
  ℕ, ◌+◌, ◌≤◌, ◌≡◌, ◌≢◌, ◌⊎◌, inl, inr, refl, sym, ap, ◌∙◌, true, false, ◌==◌, List, ◌∷◌, arith,
}
use nsd_old.Rbtree.{Side, opposite_side, Color, Rbtree, set_color, rotate, repaint, repaint_rotate}
use nsd_old.Rbtree.Shape.{
  Tree, top, join, inorder, hits, occ, Frame, occ_path, At, other_place, self_hit, occ-join,
  top-join, Rep-join,
}
use nsd_old.Rbtree.Balance.{
  HasBlackTop, Balanced, PathBalanced, red_join, black_join, black_top, Balanced-frame,
  PathBalanced-frame,
}
use mathlib.Core.List.{append_assoc}
use nsd_old.Rbtree.Step.{recolored-At, Fixing, painted, painted_other, painted_here}

-- The loop is over: the tree at the place is balanced, and the parent of the node is black.
pub record Settled {ℓ} {K : Type ℓ} (t : Rbtree K) (c : List Frame) (s : Tree) (h node : ℕ)
    : Type ℓ where
  pub place : At t c s
  pub sentinel : t.color 0 ≡ Color.black
  pub tree : Balanced t.color s h
  pub path : PathBalanced t.color c h
  pub top_black : HasBlackTop t.color s
  pub parent_black : t.color (t.parent node) ≡ Color.black

-- The tree at the grandparent
abbrev pub family : Frame → Frame → Tree → Tree
family f g s = join g.side (join f.side s f.place f.sibling) g.place g.sibling

-- What a round leaves: the same nodes in the same order, with the grandparent for the next node, or settled.
abbrev pub Stepped {ℓ} : {K : Type ℓ} → Rbtree K → List Frame → Tree → ℕ → Rbtree K × ℕ → Type ℓ
Stepped t c whole h (u, node) =
    (s : Tree) × (inorder s ≡ inorder whole)
    × (u.key ≡ t.key)
    × (u.count ≡ t.count)
    × ((Fixing u c s (h + 1) × (node ≡ top s)) ⊎ Settled u c s (h + 1) node)

pub repaint_lem {ℓ} :
    {K : Type ℓ} (t : Rbtree K) (x p g y : ℕ)
    → t.parent x ≡ p
    → t.parent p ≡ g
    → repaint t x y ≡ record t {
      color = painted (painted (painted t.color p Color.black) y Color.black) g Color.red;
    }
unfolding repaint
repaint_lem t x p g y ex ep = rw (ex, ep) refl

-- A red uncle: parent and uncle become black, and the grandparent red.
module _ {ℓ} {K : Type ℓ} (t : Rbtree K) (c : List Frame) (d : Side) (g : ℕ) (e : Side) (s : Tree)
    (p : ℕ) (m : Tree) (h : ℕ) (sentinel : t.color 0 ≡ Color.black) (ks : Balanced t.color s h)
    (km : Balanced t.color m h) (path : PathBalanced t.color c (h + 1)) where
  abbrev pub repainted : Tree → ℕ → Color
  repainted u = painted (painted (painted t.color p Color.black) (top u) Color.black) g Color.red

  pub painted-Fixing :
      (u : Tree)
      → At t c (join d (join e s p m) g u)
      → Balanced t.color u h
      → t.color (top u) ≡ Color.red
      → Fixing (record t { color = repainted u }) c (join d (join e s p m) g u) (h + 1)
  painted-Fixing Tree.leaf k ku red_u = cc (sentinel, red_u)
  painted-Fixing (Tree.node ul w ur) k (inr (bw, rest)) red_u = cc (bw, red_u)
  painted-Fixing (Tree.node ul w ur) k (inl (rw_, bl, br, kl, kr)) red_u =
      let u = Tree.node ul w ur in
      let col = repainted u in
      let (zg, (ej, uj, rj), (eu, uu, ru)) = Rep-join t d (join e s p m) g u k.rep in
      let (zp, lower, upper) = Rep-join t e s p m rj in
      let o : (x : ℕ)
          → occ x s
              + hits x p
              + occ x m
              + hits x g
              + (occ x ul + hits x w + occ x ur)
              + occ_path x c
            ≤ 1 =
        λ x. omega (arith, k.apart x, occ-join d x (join e s p m) g u, occ-join e x s p m) in
      let still : (x n : ℕ) → n + hits x g + hits x p + hits x w ≤ 1 → 1 ≤ n → col x ≡ t.color x =
        λ x n i j.
          repainted_other p w g x (other_place x p n (omega (arith, i)) j)
            (other_place x w n (omega (arith, i)) j) (other_place x g n (omega (arith, i)) j) in
      let c0 : col 0 ≡ t.color 0 =
        repainted_other p w g 0 (λ q. zp (sym q)) (λ q. ru.0 (sym q)) (λ q. zg (sym q)) in
      let part : (v : Tree)
          → ((x : ℕ) → occ x v + hits x g + hits x p + hits x w ≤ 1)
          → (x : ℕ) → 1 ≤ occ x v
          → col x ≡ t.color x =
        λ v i x j. still x (occ x v) (i x) j in
      let black_p : col p ≡ Color.black =
        painted_other (painted (painted t.color p Color.black) w Color.black) g Color.red p
          (other_place p g (hits p p) (omega (arith, o p)) (omega (arith, self_hit p)))
        ∙ painted_other (painted t.color p Color.black) w Color.black p
            (other_place p w (hits p p) (omega (arith, o p)) (omega (arith, self_hit p)))
        ∙ painted_here t.color p Color.black in
      let black_w : col w ≡ Color.black =
        painted_other (painted (painted t.color p Color.black) w Color.black) g Color.red w
          (other_place w g (hits w w) (omega (arith, o w)) (omega (arith, self_hit w)))
        ∙ painted_here (painted t.color p Color.black) w Color.black in
      let red_g : col g ≡ Color.red =
        painted_here (painted (painted t.color p Color.black) w Color.black) g Color.red in
      let sl = part ul (λ x. omega (arith, o x)) in
      let sr = part ur (λ x. omega (arith, o x)) in
      let low =
        black_join col e s p m h black_p
          (Balanced-frame t.color col c0 s h (part s (λ x. omega (arith, o x))) ks)
          (Balanced-frame t.color col c0 m h (part m (λ x. omega (arith, o x))) km) in
      let uncle =
        black_join col Side.left ul w ur h black_w (Balanced-frame t.color col c0 ul h sl kl)
          (Balanced-frame t.color col c0 ur h sr kr) in
      record {
        place = recolored-At t col c (join d (join e s p m) g u) k;
        sentinel = c0 ∙ sentinel;
        tree =
            red_join col d (join e s p m) g u (h + 1) red_g (black_top col e s p m black_p) black_w
              low uncle;
        path =
            PathBalanced-frame t.color col c0 c (h + 1)
              (λ x i. still x (occ_path x c) (omega (arith, o x)) i) path;
        filled = λ q. zg (sym (top-join d (join e s p m) g u) ∙ q);
        is_red_top = ap col (top-join d (join e s p m) g u) ∙ red_g;
      }
    where
      repainted_other :
          (p w g x : ℕ)
          → x ≢ p
          → x ≢ w
          → x ≢ g
          → painted (painted (painted t.color p Color.black) w Color.black) g Color.red x
            ≡ t.color x
      repainted_other p w g x np nw ng =
          painted_other (painted (painted t.color p Color.black) w Color.black) g Color.red x ng
          ∙ painted_other (painted t.color p Color.black) w Color.black x nw
          ∙ painted_other t.color p Color.black x np

pub turned_order :
    (d : Side) (u : Tree) (g : ℕ) (m : Tree) (p : ℕ) (s : Tree)
    → inorder (join d (join d u g m) p s) ≡ inorder (join d u g (join d m p s))
turned_order Side.left u g m p s = append_assoc (inorder u) (g ∷ inorder m) (p ∷ inorder s)
turned_order Side.right u g m p s = sym (append_assoc (inorder s) (p ∷ inorder m) (g ∷ inorder u))

-- A black uncle
module _ {ℓ} {K : Type ℓ} (t : Rbtree K) (x p g : ℕ) (d : Side) (ex : t.parent x ≡ p) where
  pub outer_lem :
      t.parent p ≡ g
      → x ≢ t.child (opposite_side d) p
      → repaint_rotate d t x
        ≡ (rotate (opposite_side d) (set_color (set_color t p Color.black) g Color.red) g, x)
  unfolding repaint_rotate
  outer_lem ep n =
      let f : (x == t.child (opposite_side d) p) ≡ false = ground (arith, n) in
      rw (ex, f, ex, ep) refl

  pub inner_lem :
      t.child (opposite_side d) p ≡ x
      → (rotate d t p).parent p ≡ x
      → (rotate d t p).parent x ≡ g
      → repaint_rotate d t x ≡ (
        rotate (opposite_side d) (set_color (set_color (rotate d t p) x Color.black) g Color.red) g,
        p,
      )
  unfolding repaint_rotate
  inner_lem ec e1 e2 = let f : (x == x) ≡ true = ground arith in rw (ex, ec, f, e1, e2) refl
