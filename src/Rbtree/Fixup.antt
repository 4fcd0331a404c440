-- ===== src/Rbtree/Fixup.antt =====
-- `rbtree_insert_fixup` keeps the order of the nodes and makes the tree red-black again.
use mathlib.Core.Path.{subst}
use nsd_old.Base.{ℕ, ◌+◌, ◌≤◌, ◌≡◌, ◌≢◌, ◌⊎◌, inl, inr, refl, sym, ap, ◌∙◌, List, ◌∷◌, ◌++◌, arith}
use nsd_old.Rbtree.{Side, opposite_side, Color, Rbtree, rotate, repaint, repaint_rotate, fixup_step}
use nsd_old.Rbtree.Shape.{
  Tree, top, join, inorder, occ, Frame, At, top-join, occ-top, Rep-join, Under-join, Under-top,
}
use nsd_old.Rbtree.Turn.{rotate-At, top_elsewhere}
use nsd_old.Rbtree.Balance.{HasBlackTop, Balanced, PathBalanced, red_join, red_parts}
use nsd_old.Rbtree.Step.{upward-At, Fixing, final, turn-Turned}
use nsd_old.Rbtree.Round.{Stepped, repaint_lem, painted-Fixing, turned_order, outer_lem, inner_lem}

mirror :
    (d : Side) (s : Tree) (p : ℕ) (m : Tree) (g : ℕ) (u : Tree)
    → join d (join d s p m) g u ≡ join (opposite_side d) u g (join (opposite_side d) m p s)
mirror Side.left s p m g u = refl
mirror Side.right s p m g u = refl

pub inorder-join :
    (d : Side) (a b : Tree) (g : ℕ) (u : Tree)
    → inorder a ≡ inorder b
    → inorder (join d a g u) ≡ inorder (join d b g u)
inorder-join Side.left a b g u e = ap (λ l. l ++ g ∷ inorder u) e
inorder-join Side.right a b g u e = ap (λ l. inorder u ++ g ∷ l) e

-- What is known of the trees around the node when the uncle is black
record Around (color : ℕ → Color) (c : List Frame) (s m u : Tree) (h : ℕ) : Type 0 where
  sentinel : color 0 ≡ Color.black
  black_u : HasBlackTop color u
  black_m : HasBlackTop color m
  tree_u : Balanced color u h
  tree_m : Balanced color m h
  tree_s : Balanced color s h
  path : PathBalanced color c (h + 1)

module _ {ℓ} {K : Type ℓ} (t : Rbtree K) (c : List Frame) (d : Side) (s : Tree) (p : ℕ) (m : Tree)
    (g : ℕ) (u : Tree) (h : ℕ) (k : At t c (join d (join d s p m) g u))
    (a : Around t.color c s m u h) (filled : top s ≢ 0) where
  k' : At t c (join (opposite_side d) u g (join (opposite_side d) m p s))
  k' = subst (λ w. At t c w) (mirror d s p m g u) k

  -- The grandparent turned down, away from the node
  abbrev result : Rbtree K
  result = final t (opposite_side d) g p

  turned-Settled : (x : ℕ) → x ≡ top s → Stepped t c (join d (join d s p m) g u) h (result, x)
  turned-Settled x ex =
      let o = opposite_side d in
      let (place, sentinel, black_p, tree, path, key, count) =
        turn-Turned t c o u g m p s h k' a.sentinel a.black_u a.black_m a.tree_u a.tree_m a.tree_s
          a.path in
      let (z, lower, (e, under, rep)) = Rep-join result o (join o u g m) p s place.rep in
      (
        join o (join o u g m) p s,
        turned_order o u g m p s ∙ sym (ap inorder (mirror d s p m g u)),
        key,
        count,
        inr (record {
          place = place;
          sentinel = sentinel;
          tree = tree;
          path = path;
          top_black = ap result.color (top-join o (join o u g m) p s) ∙ black_p;
          parent_black =
              ap (λ y. result.color (result.parent y)) ex
              ∙ ap result.color (Under-top result p s filled under)
              ∙ black_p;
        }),
      )

  outer_case :
      t.parent (top s) ≡ p
      → t.parent p ≡ g
      → t.child (opposite_side d) p ≡ top m
      → top s ≢ top m
      → Stepped t c (join d (join d s p m) g u) h (repaint_rotate d t (top s))
  outer_case ex ep em n =
      rw (outer_lem t (top s) p g d ex ep (λ e. n (e ∙ em))) (turned-Settled (top s) refl)

-- The node on the inner side
module _ {ℓ} {K : Type ℓ} (t : Rbtree K) (c : List Frame) (d : Side) (m : Tree) (p : ℕ) (n : Tree)
    (x : ℕ) (r : Tree) (g : ℕ) (u : Tree) (h : ℕ)
    (k : At t (record { side = d; place = g; sibling = u } ∷ c) (join d m p (join d n x r)))
    (sentinel : t.color 0 ≡ Color.black) (red_p : t.color p ≡ Color.red)
    (red_x : t.color x ≡ Color.red) (bu : HasBlackTop t.color u) (bm : HasBlackTop t.color m)
    (ku : Balanced t.color u h) (km : Balanced t.color m h) (ks : Balanced t.color (join d n x r) h)
    (path : PathBalanced t.color c (h + 1)) where
  inner_case : Stepped t c (join d (join d m p (join d n x r)) g u) h (repaint_rotate d t x)
  inner_case =
      let f : Frame = record { side = d; place = g; sibling = u } in
      let (zp, lower, (ec, under, rep)) = Rep-join t d m p (join d n x r) k.rep in
      let ep = Under-join t d g m p (join d n x r) k.under in
      let (place, turned) = rotate-At t (f ∷ c) d m p n x r k in
      let w = rotate d t p in
      let (bn, br, kn, kr) = red_parts t.color d n x r h red_x ks in
      let around : Around w.color c (join d m p n) r u h = rw turned.same_color (record {
        sentinel = sentinel;
        black_u = bu;
        black_m = br;
        tree_u = ku;
        tree_m = kr;
        tree_s = red_join t.color d m p n h red_p bm bn km kn;
        path = path;
      }) in
      let (s, order, key, count, settled) =
        turned-Settled w c d (join d m p n) x r g u h (upward-At w f c _ place) around
          (λ e. zp (sym (top-join d m p n) ∙ e)) p (sym (top-join d m p n)) in
      rw
        (inner_lem t x p g d (Under-join t d p n x r under) (ec ∙ top-join d n x r) turned.parent_a
          (turned.parent_b ∙ ep))
        (
          s,
          order
              ∙ inorder-join d (join d (join d m p n) x r) (join d m p (join d n x r)) g u
                  (turned_order d m p n x r),
          key ∙ turned.same_key,
          count ∙ turned.same_count,
          settled,
        )

pub color_cases : (c : Color) → (c ≡ Color.red) ⊎ (c ≡ Color.black)
color_cases Color.red = inl refl
color_cases Color.black = inr refl

pub tops_differ : (s m : Tree) → ((x : ℕ) → occ x s + occ x m ≤ 1) → top s ≢ 0 → top s ≢ top m
tops_differ s m o z e =
    top_elsewhere m (top s) (occ (top s) s) (o (top s)) (occ-top s z) (λ q. z (e ∙ q)) e

-- The node below its red parent `p`, which is on the side `d` of the grandparent `g`
module _ {ℓ} {K : Type ℓ} (t : Rbtree K) (c : List Frame) (p : ℕ) (m : Tree) (g : ℕ) (u : Tree)
    (h : ℕ) (red_p : t.color p ≡ Color.red) (bm : HasBlackTop t.color m) (ku : Balanced t.color u h)
    (km : Balanced t.color m h) (path : PathBalanced t.color c (h + 1)) where
  abbrev pub above : Side → Side → List Frame
  above e d =
      record { side = e; place = p; sibling = m } ∷ record { side = d; place = g; sibling = u } ∷ c

  black_outer :
      (d : Side) (s : Tree)
      → HasBlackTop t.color u
      → Fixing t (above d d) s h
      → Stepped t c (join d (join d s p m) g u) h (repaint_rotate d t (top s))
  black_outer d s bu k =
      let (zp, (em, under, rep), ep, hole, rest) = k.place.rest in
      outer_case t c d s p m g u h
        (upward-At t (record { side = d; place = g; sibling = u }) c (join d s p m)
          (upward-At t (record { side = d; place = p; sibling = m })
            (record { side = d; place = g; sibling = u } ∷ c) s k.place))
        (record {
          sentinel = k.sentinel;
          black_u = bu;
          black_m = bm;
          tree_u = ku;
          tree_m = km;
          tree_s = k.tree;
          path = path;
        })
        k.filled (Under-top t p s k.filled k.place.under) ep em
        (tops_differ s m (λ x. omega (arith, k.place.apart x)) k.filled)

  black_uncle :
      (d e : Side) (s : Tree)
      → HasBlackTop t.color u
      → Fixing t (above e d) s h
      → Stepped t c (join d (join e s p m) g u) h (repaint_rotate d t (top s))
  black_uncle Side.left Side.left s bu k = black_outer Side.left s bu k
  black_uncle Side.right Side.right s bu k = black_outer Side.right s bu k
  black_uncle Side.left Side.right Tree.leaf bu k = absurd (k.filled refl)
  black_uncle Side.left Side.right (Tree.node l x r) bu k =
      inner_case t c Side.left m p l x r g u h (upward-At t _ _ _ k.place) k.sentinel red_p
        k.is_red_top bu bm ku km k.tree path
  black_uncle Side.right Side.left Tree.leaf bu k = absurd (k.filled refl)
  black_uncle Side.right Side.left (Tree.node l x r) bu k =
      inner_case t c Side.right m p r x l g u h (upward-At t _ _ _ k.place) k.sentinel red_p
        k.is_red_top bu bm ku km k.tree path

  red_uncle :
      (d e : Side) (s : Tree)
      → t.color (top u) ≡ Color.red
      → Fixing t (above e d) s h
      → Stepped t c (join d (join e s p m) g u) h (
        repaint t (top s) (top u),
        (repaint t (top s) (top u)).parent ((repaint t (top s) (top u)).parent (top s)),
      )
  red_uncle d e s red_u k =
      let (zp, (em, under, rep), ep, hole, rest) = k.place.rest in
      let ex = Under-top t p s k.filled k.place.under in
      rw (repaint_lem t (top s) p g (top u) ex ep, ex, ep)
        (
          join d (join e s p m) g u,
          refl,
          refl,
          refl,
          inl (
            painted-Fixing t c d g e s p m h k.sentinel k.tree km path u
                (upward-At t (record { side = d; place = g; sibling = u }) c (join e s p m)
                  (upward-At t (record { side = e; place = p; sibling = m })
                    (record { side = d; place = g; sibling = u } ∷ c) s k.place))
                ku red_u,
            sym (top-join d (join e s p m) g u),
          ),
        )

  -- A round of the loop
  pub fixup_step-Stepped :
      (d e : Side) (s : Tree)
      → Fixing t (above e d) s h
      → Stepped t c (join d (join e s p m) g u) h (fixup_step d t (top s))
  unfolding fixup_step
  fixup_step-Stepped d e s k =
      let (zp, near, ep, hole, (zg, (eu, under, rep), eg, hole2, rest)) = k.place.rest in
      let ex = Under-top t p s k.filled k.place.under in
      let uncle : t.child (opposite_side d) (t.parent (t.parent (top s))) ≡ top u =
        ap (λ y. t.child (opposite_side d) (t.parent y)) ex
        ∙ ap (t.child (opposite_side d)) ep
        ∙ eu in
      elim (color_cases (t.color (top u))) [
        | inl f ↦ rw (uncle, f) (red_uncle d e s f k)
        | inr f ↦ rw (uncle, f) (black_uncle d e s f k)
      ]
