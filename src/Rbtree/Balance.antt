-- ===== src/Rbtree/Balance.antt =====
-- The red-black properties of a tree and of the path to a place in it.
use nsd_old.Base.{ℕ, ◌+◌, ◌≤◌, ◌≡◌, ◌≢◌, ◌⊎◌, inl, inr, refl, ◌∙◌, List, [], ◌∷◌, arith}
use nsd_old.Rbtree.{Side, Color}
use nsd_old.Rbtree.Shape.{Tree, top, join, occ, Frame, holder, plug, occ_path, self_hit}

module _ (color : ℕ → Color) where
  abbrev pub HasBlackTop : Tree → Type 0
  HasBlackTop s = color (top s) ≡ Color.black

  -- Each way down the tree has `h` black nodes, and no red node has a red child.
  abbrev pub Balanced : Tree → ℕ → Type 0
  Balanced Tree.leaf h = h ≡ 0
  Balanced (Tree.node l a r) h =
      ((color a ≡ Color.red) × HasBlackTop l × HasBlackTop r × Balanced l h × Balanced r h)
      ⊎ ((color a ≡ Color.black) × ((k : ℕ) × (h ≡ k + 1) × Balanced l k × Balanced r k))

  -- With a tree of `h` black nodes on each way at the place, the whole is balanced, but that the top of
  -- that tree may be red below a red node.
  abbrev pub PathBalanced : List Frame → ℕ → Type 0
  PathBalanced [] h = Unit
  PathBalanced (f ∷ c) h =
      Balanced f.sibling h
      × (((color f.place ≡ Color.red)
            × HasBlackTop f.sibling
            × (color (holder c) ≡ Color.black)
            × (holder c ≢ 0)
            × PathBalanced c h)
          ⊎ ((color f.place ≡ Color.black) × PathBalanced c (h + 1)))

  pub red_join :
      (d : Side) (p : Tree) (a : ℕ) (q : Tree) (h : ℕ)
      → color a ≡ Color.red
      → HasBlackTop p
      → HasBlackTop q
      → Balanced p h
      → Balanced q h
      → Balanced (join d p a q) h
  red_join Side.left p a q h e bp bq kp kq = inl (e, bp, bq, kp, kq)
  red_join Side.right p a q h e bp bq kp kq = inl (e, bq, bp, kq, kp)

  pub black_join :
      (d : Side) (p : Tree) (a : ℕ) (q : Tree) (h : ℕ)
      → color a ≡ Color.black
      → Balanced p h
      → Balanced q h
      → Balanced (join d p a q) (h + 1)
  black_join Side.left p a q h e kp kq = inr (e, (h, refl, kp, kq))
  black_join Side.right p a q h e kp kq = inr (e, (h, refl, kq, kp))

  pub black_top :
      (d : Side) (p : Tree) (a : ℕ) (q : Tree) → color a ≡ Color.black → HasBlackTop (join d p a q)
  black_top Side.left p a q e = e
  black_top Side.right p a q e = e

  -- The parts of a balanced tree with a red top
  pub red_parts :
      (d : Side) (p : Tree) (a : ℕ) (q : Tree) (h : ℕ)
      → color a ≡ Color.red
      → Balanced (join d p a q) h
      → HasBlackTop p × HasBlackTop q × Balanced p h × Balanced q h
  red_parts Side.left p a q h e (inl (k, bp, bq, kp, kq)) = (bp, bq, kp, kq)
  red_parts Side.left p a q h e (inr (k, rest)) = cc (e, k)
  red_parts Side.right p a q h e (inl (k, bq, bp, kq, kp)) = (bp, bq, kp, kq)
  red_parts Side.right p a q h e (inr (k, rest)) = cc (e, k)

  -- A balanced tree at the end of the path makes a balanced tree of the whole.
  pub plug-Balanced :
      (c : List Frame) (s : Tree) (h : ℕ)
      → Balanced s h
      → (color (holder c) ≡ Color.black) ⊎ HasBlackTop s
      → PathBalanced c h
      → (n : ℕ) × Balanced (plug c s) n
  plug-Balanced [] s h k o p = (h, k)
  plug-Balanced (f ∷ c) s h k (inl e) (ks, inl (r, bs, bc, zc, p)) = cc (e, r)
  plug-Balanced (f ∷ c) s h k (inr e) (ks, inl (r, bs, bc, zc, p)) =
      plug-Balanced c (join f.side s f.place f.sibling) h
        (red_join f.side s f.place f.sibling h r e bs k ks) (inl bc) p
  plug-Balanced (f ∷ c) s h k o (ks, inr (b, p)) =
      plug-Balanced c (join f.side s f.place f.sibling) (h + 1)
        (black_join f.side s f.place f.sibling h b k ks)
        (inr (black_top f.side s f.place f.sibling b)) p

-- Other colours, elsewhere
module _ (color color' : ℕ → Color) (sentinel : color' 0 ≡ color 0) where
  pub top-frame :
      (s : Tree)
      → ((x : ℕ) → 1 ≤ occ x s → color' x ≡ color x)
      → HasBlackTop color s
      → HasBlackTop color' s
  top-frame Tree.leaf k e = sentinel ∙ e
  top-frame (Tree.node l a r) k e = k a (omega (arith, self_hit a)) ∙ e

  pub Balanced-frame :
      (s : Tree) (h : ℕ)
      → ((x : ℕ) → 1 ≤ occ x s → color' x ≡ color x)
      → Balanced color s h
      → Balanced color' s h
  Balanced-frame Tree.leaf h k b = b
  Balanced-frame (Tree.node l a r) h k b =
      let place = k a (omega (arith, self_hit a)) in
      let kl : (x : ℕ) → 1 ≤ occ x l → color' x ≡ color x = λ x i. k x (omega (arith, i)) in
      let kr : (x : ℕ) → 1 ≤ occ x r → color' x ≡ color x = λ x i. k x (omega (arith, i)) in
      elim b [
        | inl (e, bl, br, l', r') ↦ inl (
          place ∙ e,
          top-frame l kl bl,
          top-frame r kr br,
          Balanced-frame l h kl l',
          Balanced-frame r h kr r',
        )
        | inr (e, (n, f, l', r')) ↦
            inr (place ∙ e, (n, f, Balanced-frame l n kl l', Balanced-frame r n kr r'))
      ]

  holder-frame :
      (c : List Frame)
      → ((x : ℕ) → 1 ≤ occ_path x c → color' x ≡ color x)
      → color' (holder c) ≡ color (holder c)
  holder-frame [] k = sentinel
  holder-frame (f ∷ c) k = k f.place (omega (arith, self_hit f.place))

  pub PathBalanced-frame :
      (c : List Frame) (h : ℕ)
      → ((x : ℕ) → 1 ≤ occ_path x c → color' x ≡ color x)
      → PathBalanced color c h
      → PathBalanced color' c h
  PathBalanced-frame [] h k b = tt
  PathBalanced-frame (f ∷ c) h k (ks, b) =
      let place = k f.place (omega (arith, self_hit f.place)) in
      let kf : (x : ℕ) → 1 ≤ occ x f.sibling → color' x ≡ color x = λ x i. k x (omega (arith, i)) in
      let kc : (x : ℕ) → 1 ≤ occ_path x c → color' x ≡ color x = λ x i. k x (omega (arith, i)) in
      (
        Balanced-frame f.sibling h kf ks,
        elim b [
          | inl (e, bs, bc, z, p) ↦ inl (
            place ∙ e,
            top-frame f.sibling kf bs,
            holder-frame c kc ∙ bc,
            z,
            PathBalanced-frame c h kc p,
          )
          | inr (e, p) ↦ inr (place ∙ e, PathBalanced-frame c (h + 1) kc p)
        ],
      )
