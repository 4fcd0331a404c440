-- ===== src/Rbtree/Shape.antt =====
-- The binary trees that the nodes make, as inductive trees of their addresses.
use nsd_old.Base.{ℕ, ◌+◌, ◌≤◌, ◌≡◌, ◌≢◌, refl, ◌∙◌, List, [], ◌∷◌, ◌++◌, ◌==◌, if◌then◌else◌, arith}
use nsd_old.Rbtree.{Side, opposite_side, Rbtree}

pub data Tree : Type 0 where
  leaf : Tree
  node : Tree → ℕ → Tree → Tree

-- The address at the top
abbrev pub top : Tree → ℕ
top Tree.leaf = 0
top (Tree.node l a r) = a

-- The tree with `near` on the side `d` of `a`, and `far` on the other
abbrev pub join : Side → Tree → ℕ → Tree → Tree
join Side.left near a far = Tree.node near a far
join Side.right near a far = Tree.node far a near

abbrev pub inorder : Tree → List ℕ
inorder Tree.leaf = []
inorder (Tree.node l a r) = inorder l ++ a ∷ inorder r

-- How often an address occurs
abbrev pub hits : ℕ → ℕ → ℕ
hits x a = if x == a then 1 else 0

abbrev pub occ : ℕ → Tree → ℕ
occ x Tree.leaf = 0
occ x (Tree.node l a r) = occ x l + hits x a + occ x r

-- The way from a place in the tree to the root: the side of each node on which the place is, the node, and
-- the tree on its other side
pub record Frame : Type 0 where
  pub side : Side
  pub place : ℕ
  pub sibling : Tree

abbrev pub holder : List Frame → ℕ
holder [] = 0
holder (f ∷ c) = f.place

abbrev pub plug : List Frame → Tree → Tree
plug [] s = s
plug (f ∷ c) s = plug c (join f.side s f.place f.sibling)

abbrev pub occ_path : ℕ → List Frame → ℕ
occ_path x [] = 0
occ_path x (f ∷ c) = hits x f.place + occ x f.sibling + occ_path x c

module _ {ℓ} {K : Type ℓ} (t : Rbtree K) where
  -- The top of a tree has the parent `a`.
  abbrev pub Under : ℕ → Tree → Type 0
  Under a Tree.leaf = Unit
  Under a (Tree.node l b r) = t.parent b ≡ a

  -- The nodes make the tree `s`, but for the parent of its top.
  abbrev pub Rep : Tree → Type 0
  Rep Tree.leaf = Unit
  Rep (Tree.node l a r) =
      (a ≢ 0)
      × ((t.child Side.left a ≡ top l) × Under a l × Rep l)
      × ((t.child Side.right a ≡ top r) × Under a r × Rep r)

  -- The place at the start of the path has the address `n`.
  abbrev pub Hole : List Frame → ℕ → Type 0
  Hole [] n = t.root ≡ n
  Hole (f ∷ c) n = t.child f.side f.place ≡ n

  -- The nodes make the path.
  abbrev pub Rest : List Frame → Type 0
  Rest [] = Unit
  Rest (f ∷ c) =
      (f.place ≢ 0)
      × ((t.child (opposite_side f.side) f.place ≡ top f.sibling)
          × Under f.place f.sibling
          × Rep f.sibling)
      × (t.parent f.place ≡ holder c)
      × Hole c f.place
      × Rest c

  -- The nodes make the tree `s` at the end of the path `c`, each node in one place.
  pub record At (c : List Frame) (s : Tree) : Type 0 where
    pub hole : Hole c (top s)
    pub under : Under (holder c) s
    pub rep : Rep s
    pub rest : Rest c
    pub apart : (x : ℕ) → occ x s + occ_path x c ≤ 1

-- What occurs elsewhere is another address.
pub other_place : (x a n : ℕ) → hits x a + n ≤ 1 → 1 ≤ n → x ≢ a
other_place x a n h k = ground arith

pub self_hit : (a : ℕ) → hits a a ≡ 1
self_hit a = ground arith

pub occ-join :
    (d : Side) (x : ℕ) (p : Tree) (a : ℕ) (q : Tree)
    → occ x (join d p a q) ≡ occ x p + hits x a + occ x q
occ-join Side.left x p a q = refl
occ-join Side.right x p a q = omega arith

pub top-join : (d : Side) (p : Tree) (a : ℕ) (q : Tree) → top (join d p a q) ≡ a
top-join Side.left p a q = refl
top-join Side.right p a q = refl

pub occ-top : (s : Tree) → top s ≢ 0 → 1 ≤ occ (top s) s
occ-top Tree.leaf h = absurd (h refl)
occ-top (Tree.node l a r) h = ground arith

-- The parts of a tree are represented, and the other way round.
module _ {ℓ} {K : Type ℓ} (t : Rbtree K) where
  pub Rep-join :
      (d : Side) (p : Tree) (a : ℕ) (q : Tree)
      → Rep t (join d p a q)
      → (a ≢ 0)
        × ((t.child d a ≡ top p) × Under t a p × Rep t p)
        × ((t.child (opposite_side d) a ≡ top q) × Under t a q × Rep t q)
  Rep-join Side.left p a q r = r
  Rep-join Side.right p a q (z, l, r) = (z, r, l)

  pub join-Rep :
      (d : Side) (p : Tree) (a : ℕ) (q : Tree)
      → (a ≢ 0)
        × ((t.child d a ≡ top p) × Under t a p × Rep t p)
        × ((t.child (opposite_side d) a ≡ top q) × Under t a q × Rep t q)
      → Rep t (join d p a q)
  join-Rep Side.left p a q r = r
  join-Rep Side.right p a q (z, l, r) = (z, r, l)

  pub join-Under :
      (d : Side) (b : ℕ) (p : Tree) (a : ℕ) (q : Tree) → t.parent a ≡ b → Under t b (join d p a q)
  join-Under Side.left b p a q e = e
  join-Under Side.right b p a q e = e

  pub Under-join :
      (d : Side) (b : ℕ) (p : Tree) (a : ℕ) (q : Tree) → Under t b (join d p a q) → t.parent a ≡ b
  Under-join Side.left b p a q e = e
  Under-join Side.right b p a q e = e

  -- The top of a tree that is not empty is a child of its parent.
  pub Under-top : (b : ℕ) (s : Tree) → top s ≢ 0 → Under t b s → t.parent (top s) ≡ b
  Under-top b Tree.leaf h u = absurd (h refl)
  Under-top b (Tree.node l a r) h u = u

-- Other nodes and the same links
module _ {ℓ} {K : Type ℓ} (t u : Rbtree K) where
  pub Under-frame :
      (a : ℕ) (s : Tree)
      → (top s ≢ 0 → u.parent (top s) ≡ t.parent (top s))
      → Rep t s
      → Under t a s
      → Under u a s
  Under-frame a Tree.leaf h r k = tt
  Under-frame a (Tree.node l b q) h r k = h r.0 ∙ k

  -- A tree whose nodes have the same children, and the same parents but for its top
  pub Rep-frame :
      (s : Tree)
      → ((x : ℕ) → 1 ≤ occ x s → (d : Side) → u.child d x ≡ t.child d x)
      → ((x : ℕ) → 1 ≤ occ x s → x ≢ top s → u.parent x ≡ t.parent x)
      → ((x : ℕ) → occ x s ≤ 1)
      → Rep t s
      → Rep u s
  Rep-frame Tree.leaf c p o r = tt
  Rep-frame (Tree.node l a q) c p o (z, (el, ul, rl), (eq, uq, rq)) =
      let here : 1 ≤ occ a (Tree.node l a q) = omega (arith, self_hit a) in
      (
        z,
        (
          c a here Side.left ∙ el,
          Under-frame a l
              (λ h.
                p (top l) (omega (arith, occ-top l h))
                  (other_place (top l) a (occ (top l) l) (omega (arith, o (top l))) (occ-top l h)))
              rl ul,
          Rep-frame l (λ x i d. c x (omega (arith, i)) d)
              (λ x i n. p x (omega (arith, i)) (other_place x a (occ x l) (omega (arith, o x)) i))
              (λ x. omega (arith, o x)) rl,
        ),
        (
          c a here Side.right ∙ eq,
          Under-frame a q
              (λ h.
                p (top q) (omega (arith, occ-top q h))
                  (other_place (top q) a (occ (top q) q) (omega (arith, o (top q))) (occ-top q h)))
              rq uq,
          Rep-frame q (λ x i d. c x (omega (arith, i)) d)
              (λ x i n. p x (omega (arith, i)) (other_place x a (occ x q) (omega (arith, o x)) i))
              (λ x. omega (arith, o x)) rq,
        ),
      )

  -- The child of the first node of the path that leads away from the place is the same.
  abbrev pub SameFar : List Frame → Type 0
  SameFar [] = Unit
  SameFar (f ∷ c) = u.child (opposite_side f.side) f.place ≡ t.child (opposite_side f.side) f.place

  kept-SameFar :
      (c : List Frame)
      → ((x : ℕ) → 1 ≤ occ_path x c → (d : Side) → u.child d x ≡ t.child d x)
      → SameFar c
  kept-SameFar [] k = tt
  kept-SameFar (f ∷ c) k = k f.place (omega (arith, self_hit f.place)) (opposite_side f.side)

  Hole-frame :
      (c : List Frame) (n : ℕ)
      → u.root ≡ t.root
      → ((x : ℕ) → 1 ≤ occ_path x c → (d : Side) → u.child d x ≡ t.child d x)
      → Hole t c n
      → Hole u c n
  Hole-frame [] n e k h = e ∙ h
  Hole-frame (f ∷ c) n e k h = k f.place (omega (arith, self_hit f.place)) f.side ∙ h

  -- A path whose nodes have the same links, but for the child of the first that leads to the place
  pub Rest-frame :
      (c : List Frame)
      → ((x : ℕ) → 1 ≤ occ_path x c → (d : Side) → x ≢ holder c → u.child d x ≡ t.child d x)
      → (holder c ≢ 0 → u.root ≡ t.root)
      → SameFar c
      → ((x : ℕ) → 1 ≤ occ_path x c → u.parent x ≡ t.parent x)
      → ((x : ℕ) → occ_path x c ≤ 1)
      → Rest t c
      → Rest u c
  Rest-frame [] k e far p o r = tt
  Rest-frame (f ∷ c) k e far p o (z, (es, us, rs), ep, hole, rest) =
      let below : (x : ℕ) → 1 ≤ occ x f.sibling → (d : Side) → u.child d x ≡ t.child d x = λ x i d.
        k x (omega (arith, i)) d (other_place x f.place (occ x f.sibling) (omega (arith, o x)) i) in
      let up : (x : ℕ) → 1 ≤ occ_path x c → (d : Side) → u.child d x ≡ t.child d x = λ x i d.
        k x (omega (arith, i)) d (other_place x f.place (occ_path x c) (omega (arith, o x)) i) in
      let root : u.root ≡ t.root = e z in
      (
        z,
        (
          far ∙ es,
          Under-frame f.place f.sibling
              (λ h. p (top f.sibling) (omega (arith, occ-top f.sibling h))) rs us,
          Rep-frame f.sibling below (λ x i n. p x (omega (arith, i))) (λ x. omega (arith, o x)) rs,
        ),
        p f.place (omega (arith, self_hit f.place)) ∙ ep,
        Hole-frame c f.place root up hole,
        Rest-frame c (λ x i d n. up x i d) (λ n. root) (kept-SameFar c up)
            (λ x i. p x (omega (arith, i))) (λ x. omega (arith, o x)) rest,
      )
