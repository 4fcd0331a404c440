-- ===== src/Rbtree/Loop.antt =====
-- The loop of `rbtree_insert_fixup`, to its end.
use mathlib.Core.Path.{subst}
use nsd_old.Base.{
  ℕ, zero, suc, ◌+◌, ◌≤◌, ◌<◌, ◌≡◌, ◌≢◌, ◌⊎◌, inl, inr, refl, sym, ap, ◌∙◌, true, false, ◌==◌,
  if◌then◌else◌, Bool-cases, List, [], ◌∷◌, length, arith, Outcome, done, Returns, Returns-map,
}
use nsd_old.Rbtree.{Side, opposite_side, Color, Rbtree, set_color, fixup_step, rbtree_insert_fixup}
use nsd_old.Rbtree.Shape.{
  Tree, top, join, inorder, occ, Frame, holder, plug, occ_path, Rep, Rest, At, other_place,
  self_hit, Under-top,
}
use nsd_old.Rbtree.Turn.{top_other}
use nsd_old.Rbtree.Balance.{HasBlackTop, Balanced, PathBalanced, plug-Balanced, Balanced-frame}
use nsd_old.Rbtree.Step.{recolored-At, upward-At, Fixing, painted, painted_other, painted_here}
use nsd_old.Rbtree.Round.{Settled}
use nsd_old.Rbtree.Fixup.{fixup_step-Stepped, inorder-join}

-- The nodes of `t` are the tree `s`, which is red-black.
pub record IsRedBlack {ℓ} {K : Type ℓ} (t : Rbtree K) (s : Tree) : Type ℓ where
  pub place : At t [] s
  pub sentinel : t.color 0 ≡ Color.black
  pub top_black : HasBlackTop t.color s
  pub tree : (h : ℕ) × Balanced t.color s h

-- What the loop leaves of `t`: a red-black tree of the nodes `l` in their order.
abbrev pub Fixed {ℓ} : {K : Type ℓ} → Rbtree K → List ℕ → Rbtree K → Type ℓ
Fixed t l u = (s : Tree) × IsRedBlack u s × (inorder s ≡ l) × (u.key ≡ t.key) × (u.count ≡ t.count)

whole-At {ℓ} :
    {K : Type ℓ} (t : Rbtree K) (c : List Frame) (s : Tree) → At t c s → At t [] (plug c s)
whole-At t [] s k = k
whole-At t (f ∷ c) s k = whole-At t c (join f.side s f.place f.sibling) (upward-At t f c s k)

-- The root becomes black.
black_root :
    (color : ℕ → Color) (s : Tree) (n : ℕ)
    → color 0 ≡ Color.black
    → ((x : ℕ) → occ x s ≤ 1)
    → (s ≢ Tree.leaf → top s ≢ 0)
    → Balanced color s n
    → (h : ℕ) × Balanced (painted color (top s) Color.black) s h
black_root color Tree.leaf n z o w k = (n, k)
black_root color (Tree.node l a r) n z o w k =
    let col = painted color a Color.black in
    let c0 : col 0 ≡ color 0 = painted_other color a Color.black 0 (λ e. w (λ q. cc q) (sym e)) in
    let black = painted_here color a Color.black in
    let sl : (x : ℕ) → 1 ≤ occ x l → col x ≡ color x = λ x i.
      painted_other color a Color.black x (other_place x a (occ x l) (omega (arith, o x)) i) in
    let sr : (x : ℕ) → 1 ≤ occ x r → col x ≡ color x = λ x i.
      painted_other color a Color.black x (other_place x a (occ x r) (omega (arith, o x)) i) in
    elim k [
      | inl (e, bl, br, kl, kr) ↦ (
        n + 1,
        inr (
          black,
          (n, refl, Balanced-frame color col c0 l n sl kl, Balanced-frame color col c0 r n sr kr),
        ),
      )
      | inr (e, (h, f, kl, kr)) ↦ (
        n,
        inr (
          black,
          (h, f, Balanced-frame color col c0 l h sl kl, Balanced-frame color col c0 r h sr kr),
        ),
      )
    ]

nonempty_top {ℓ} : {K : Type ℓ} (t : Rbtree K) (s : Tree) → Rep t s → s ≢ Tree.leaf → top s ≢ 0
nonempty_top t Tree.leaf k n = absurd (n refl)
nonempty_top t (Tree.node l a r) k n = k.0

painted_sentinel :
    (color : ℕ → Color) (a : ℕ)
    → color 0 ≡ Color.black
    → painted color a Color.black 0 ≡ Color.black
painted_sentinel color a z = elim (Bool-cases (0 == a)) [ inl e ↦ rw e refl | inr e ↦ rw e z ]

-- The end of the loop
finish-Fixed {ℓ} :
    {K : Type ℓ} (t : Rbtree K) (c : List Frame) (s : Tree) (h : ℕ)
    → At t c s
    → t.color 0 ≡ Color.black
    → Balanced t.color s h
    → PathBalanced t.color c h
    → (t.color (holder c) ≡ Color.black) ⊎ HasBlackTop t.color s
    → Fixed t (inorder (plug c s)) (set_color t t.root Color.black)
finish-Fixed t c s h place z k p o =
    let w = plug c s in
    let all = whole-At t c s place in
    let root : t.root ≡ top w = all.hole in
    let (n, b) = plug-Balanced t.color c s h k o p in
    let repainted : (m : ℕ) × Balanced (painted t.color t.root Color.black) w m =
      subst (λ a. (m : ℕ) × Balanced (painted t.color a Color.black) w m) (sym root)
        (black_root t.color w n z (λ x. omega (arith, all.apart x)) (nonempty_top t w all.rep) b) in
    (
      w,
      record {
        place = recolored-At t (painted t.color t.root Color.black) [] w all;
        sentinel = painted_sentinel t.color t.root z;
        top_black =
            ap (painted t.color t.root Color.black) (sym root)
            ∙ painted_here t.color t.root Color.black;
        tree = repainted;
      },
      refl,
      refl,
      refl,
    )

root_on_path {ℓ} :
    {K : Type ℓ} (t : Rbtree K) (f : Frame) (c : List Frame)
    → Rest t (f ∷ c)
    → 1 ≤ occ_path t.root (f ∷ c)
root_on_path t f [] (z, far, up, hole, rest) =
    let e : t.root ≡ f.place = hole in rw e (omega (arith, self_hit f.place))
root_on_path t f (g ∷ c) (z, far, up, hole, rest) = omega (arith, root_on_path t g c rest)

-- A node below another is not the root.
not_root {ℓ} :
    {K : Type ℓ} (t : Rbtree K) (f : Frame) (c : List Frame) (s : Tree)
    → At t (f ∷ c) s
    → top s ≢ 0
    → top s ≢ t.root
not_root t f c Tree.leaf k z e = z refl
not_root t f c (Tree.node l a r) k z e =
    let i = root_on_path t f c k.rest in
    other_place t.root a (occ_path t.root (f ∷ c)) (omega (arith, k.apart t.root)) i (sym e)

-- A round that goes up keeps the order of the whole.
plug-inorder :
    (c : List Frame) (a b : Tree) → inorder a ≡ inorder b → inorder (plug c a) ≡ inorder (plug c b)
plug-inorder [] a b e = e
plug-inorder (f ∷ c) a b e =
    plug-inorder c (join f.side a f.place f.sibling) (join f.side b f.place f.sibling)
      (inorder-join f.side a b f.place f.sibling e)

-- The side of the parent, as the loop finds it
parent_side {ℓ} :
    {K : Type ℓ} (t : Rbtree K) (x p g : ℕ) (d : Side) (u : Tree)
    → t.parent x ≡ p
    → t.parent p ≡ g
    → t.child d g ≡ p
    → t.child (opposite_side d) g ≡ top u
    → p ≢ top u
    → (if t.parent x == t.child Side.left (t.parent (t.parent x)) then Side.left else Side.right)
      ≡ d
parent_side t x p g Side.left u ex ep ed eo n =
    let f : (p == p) ≡ true = ground arith in rw (ex, ep, ed, f) refl
parent_side t x p g Side.right u ex ep ed eo n =
    let f : (p == top u) ≡ false = ground (arith, n) in rw (ex, ep, eo, f) refl

module _ {K : Type 0} where
  -- The test of the loop fails.
  stop_lem :
      (fuel : ℕ) (t : Rbtree K) (node : ℕ)
      → (node ≡ t.root) ⊎ (t.color (t.parent node) ≡ Color.black)
      → rbtree_insert_fixup (suc fuel) t node ≡ done (set_color t t.root Color.black)
  unfolding rbtree_insert_fixup
  stop_lem fuel t node (inl e) = let f : (node == t.root) ≡ true = ground (arith, e) in rw f refl
  stop_lem fuel t node (inr e) = elim (Bool-cases (node == t.root)) [
    | inl f ↦ rw f refl
    | inr f ↦ rw (f, e) refl
  ]

  -- What the rest of the loop comes to holds of the whole.
  chain-Fixed :
      (t u : Rbtree K) (c : List Frame) (a b : Tree) (m : Outcome (Rbtree K))
      → inorder a ≡ inorder b
      → u.key ≡ t.key
      → u.count ≡ t.count
      → Returns (Fixed u (inorder (plug c a))) m
      → Returns (Fixed t (inorder (plug c b))) m
  chain-Fixed t u c a b m e key count =
      Returns-map (Fixed t (inorder (plug c b))) m
        λ v (s, r, order, kv, cv). (s, r, order ∙ plug-inorder c a b e, kv ∙ key, cv ∙ count)

  -- The test of the loop holds.
  go_lem :
      (fuel : ℕ) (t : Rbtree K) (node p g : ℕ) (d : Side) (u : Tree)
      → node ≢ t.root
      → t.color p ≡ Color.red
      → t.parent node ≡ p
      → t.parent p ≡ g
      → t.child d g ≡ p
      → t.child (opposite_side d) g ≡ top u
      → p ≢ top u
      → rbtree_insert_fixup (suc fuel) t node
        ≡ rbtree_insert_fixup fuel (fixup_step d t node).0 (fixup_step d t node).1
  unfolding rbtree_insert_fixup
  go_lem fuel t node p g d u n red ex ep ed eo np =
      let f : (node == t.root) ≡ false = ground (arith, n) in
      let side = parent_side t node p g d u ex ep ed eo np in
      let r : t.color (t.parent node) ≡ Color.red = ap t.color ex ∙ red in rw (f, r, side) refl

  Settled-Fixed :
      (fuel : ℕ) (t : Rbtree K) (c : List Frame) (s : Tree) (h node : ℕ)
      → 0 < fuel
      → Settled t c s h node
      → Returns (Fixed t (inorder (plug c s))) (rbtree_insert_fixup fuel t node)
  Settled-Fixed zero t c s h node n k = absurd (omega (arith, n))
  Settled-Fixed (suc fuel) t c s h node n k =
      rw (stop_lem fuel t node (inr k.parent_black))
        (finish-Fixed t c s h k.place k.sentinel k.tree k.path (inr k.top_black))

  -- With a red parent
  red-Fixed :
      (fuel : ℕ) (t : Rbtree K) (f g : Frame) (c : List Frame) (s : Tree) (h : ℕ)
      → Fixing t (f ∷ g ∷ c) s h
      → t.color f.place ≡ Color.red
      → HasBlackTop t.color f.sibling
      → PathBalanced t.color (g ∷ c) h
      → t.color g.place ≡ Color.black
      → length c + 1 < fuel
      → ((u : Rbtree K) (e : List Frame) (w : Tree) (j : ℕ)
          → Fixing u e w j
          → length e < fuel
          → Returns (Fixed u (inorder (plug e w))) (rbtree_insert_fixup fuel u (top w)))
      → Returns (Fixed t (inorder (plug (f ∷ g ∷ c) s))) (rbtree_insert_fixup (suc fuel) t (top s))
  red-Fixed fuel t f g c s h k red bs (ku, inl (red_g, bu, bh, zh, path)) black n again =
      cc (red_g, black)
  red-Fixed fuel t f g c s h k red bs (ku, inr (black_g, path)) black n again =
      let (zp, near, ep, hole, (zg, (eu, under, rep), eg, hole2, rest)) = k.place.rest in
      let r = fixup_step g.side t (top s) in
      let (w, order, key, count, next) =
        fixup_step-Stepped t c f.place f.sibling g.place g.sibling h red bs ku k.path.0 path g.side
          f.side s k in
      let differ : f.place ≢ top g.sibling =
        λ e. top_other g.sibling f.place zp (λ x. omega (arith, k.place.apart x)) (sym e) in
      rw
        (go_lem fuel t (top s) f.place g.place g.side g.sibling
          (not_root t f (g ∷ c) s k.place k.filled) red
          (Under-top t f.place s k.filled k.place.under) ep hole eu differ)
        (chain-Fixed t r.0 c w (join g.side (join f.side s f.place f.sibling) g.place g.sibling) _
          order key count
          (elim next [
            | inr settled ↦ Settled-Fixed fuel r.0 c w (h + 1) r.1 (omega (arith, n)) settled
            | inl (fixing, e) ↦ rw e (again r.0 c w (h + 1) fixing (omega (arith, n)))
          ]))

  -- `rbtree_insert_fixup` returns when it may go round more often than the node has nodes above it. The node
  -- is red, the tree below it and the rest are balanced, and only the node itself may have a red parent. Then
  -- the nodes are left in their order, as a red-black tree with a black root, with their keys and count.
  pub rbtree_insert_fixup-Fixed :
      (fuel : ℕ) (t : Rbtree K) (c : List Frame) (s : Tree) (h : ℕ)
      → Fixing t c s h
      → length c < fuel
      → Returns (Fixed t (inorder (plug c s))) (rbtree_insert_fixup fuel t (top s))
  rbtree_insert_fixup-Fixed zero t c s h k n = absurd (omega (arith, n))
  rbtree_insert_fixup-Fixed (suc fuel) t [] s h k n =
      rw (stop_lem fuel t (top s) (inl (sym k.place.hole)))
        (finish-Fixed t [] s h k.place k.sentinel k.tree k.path (inl k.sentinel))
  rbtree_insert_fixup-Fixed (suc fuel) t (f ∷ []) s h k n = elim k.path.1 [
    | inr (black, path) ↦
        rw
          (stop_lem fuel t (top s)
            (inr (ap t.color (Under-top t f.place s k.filled k.place.under) ∙ black)))
          (finish-Fixed t (f ∷ []) s h k.place k.sentinel k.tree k.path (inl black))
    | inl (red, bs, bc, z, path) ↦ absurd (z refl)
  ]
  rbtree_insert_fixup-Fixed (suc fuel) t (f ∷ g ∷ c) s h k n = elim k.path.1 [
    | inr (black, path) ↦
        rw
          (stop_lem fuel t (top s)
            (inr (ap t.color (Under-top t f.place s k.filled k.place.under) ∙ black)))
          (finish-Fixed t (f ∷ g ∷ c) s h k.place k.sentinel k.tree k.path (inl black))
    | inl (red, bs, bc, z, path) ↦
        red-Fixed fuel t f g c s h k red bs path bc (omega (arith, n))
          (λ u e w j. rbtree_insert_fixup-Fixed fuel u e w j)
  ]
