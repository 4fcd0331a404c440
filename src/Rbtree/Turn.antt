-- ===== src/Rbtree/Turn.antt =====
-- A rotation turns the tree at a place, and leaves the rest.
use nsd_old.Base.{ℕ, ◌+◌, ◌≤◌, ◌≡◌, ◌≢◌, refl, sym, ap, ◌∙◌, List, [], ◌∷◌, arith}
use nsd_old.Rbtree.{Side, opposite_side, Rbtree, rotate}
use nsd_old.Rbtree.Shape.{
  Tree, top, join, hits, occ, Frame, holder, occ_path, Under, Rep, Hole, Rest, At, other_place,
  self_hit, occ-join, top-join, occ-top, Rep-join, join-Rep, join-Under, Under-join, Under-frame,
  Rep-frame, SameFar, Rest-frame,
}
use nsd_old.Rbtree.Rotate.{Rotated, rotate-Rotated}

holder_other :
    (c : List Frame) (a : ℕ) → a ≢ 0 → ((x : ℕ) → hits x a + occ_path x c ≤ 1) → holder c ≢ a
holder_other [] a z o = λ e. z (sym e)
holder_other (f ∷ c) a z o =
    other_place f.place a (occ_path f.place (f ∷ c)) (o f.place) (omega (arith, self_hit f.place))

pub top_other : (s : Tree) (a : ℕ) → a ≢ 0 → ((x : ℕ) → hits x a + occ x s ≤ 1) → top s ≢ a
top_other Tree.leaf a z o = λ e. z (sym e)
top_other (Tree.node l b r) a z o =
    other_place b a (occ b (Tree.node l b r)) (o b) (omega (arith, self_hit b))

holder_elsewhere :
    (c : List Frame) (x n : ℕ) → n + occ_path x c ≤ 1 → 1 ≤ n → holder c ≢ 0 → x ≢ holder c
holder_elsewhere [] x n o k z = absurd (z refl)
holder_elsewhere (f ∷ c) x n o k z = other_place x f.place n (omega (arith, o)) k

pub top_elsewhere : (s : Tree) (x n : ℕ) → n + occ x s ≤ 1 → 1 ≤ n → top s ≢ 0 → x ≢ top s
top_elsewhere Tree.leaf x n o k z = absurd (z refl)
top_elsewhere (Tree.node l b r) x n o k z = other_place x b n (omega (arith, o)) k

module _ {ℓ} {K : Type ℓ} (t u : Rbtree K) (c : List Frame) (d : Side) (p : Tree) (a : ℕ) (m : Tree)
    (b : ℕ) (r : Tree) (turned : Rotated d t a b u) (em : t.child d b ≡ top m)
    (ec : t.parent a ≡ holder c)
    (o : (x : ℕ) → occ x p + hits x a + occ x m + hits x b + occ x r + occ_path x c ≤ 1) where
  elsewhere : (x n : ℕ) → n + occ_path x c ≤ 1 → 1 ≤ n → t.parent a ≢ 0 → x ≢ t.parent a
  elsewhere x n h k z = λ e. holder_elsewhere c x n h k (λ q. z (ec ∙ q)) (e ∙ ec)

  not_middle : (x n : ℕ) → n + occ x m ≤ 1 → 1 ≤ n → t.child d b ≢ 0 → x ≢ t.child d b
  not_middle x n h k z = λ e. top_elsewhere m x n h k (λ q. z (em ∙ q)) (e ∙ em)

  -- The trees that hang on the two nodes
  part-Rep :
      (s : Tree)
      → ((x : ℕ) → occ x s + hits x a + hits x b + occ_path x c ≤ 1)
      → ((x : ℕ) → 1 ≤ occ x s → x ≢ top s → t.child d b ≢ 0 → x ≢ t.child d b)
      → Rep t s
      → Rep u s
  part-Rep s h k =
      Rep-frame t u s
        (λ x i e.
          turned.children e x (other_place x a (occ x s) (omega (arith, h x)) i)
            (other_place x b (occ x s) (omega (arith, h x)) i)
            (elsewhere x (occ x s) (omega (arith, h x)) i))
        (λ x i n.
          turned.parents x (other_place x a (occ x s) (omega (arith, h x)) i)
            (other_place x b (occ x s) (omega (arith, h x)) i) (k x i n))
        (λ x. omega (arith, h x))

  part-Under :
      (v : ℕ) (s : Tree)
      → ((x : ℕ) → occ x s + occ x m + hits x a + hits x b ≤ 1)
      → Rep t s
      → Under t v s
      → Under u v s
  part-Under v s h = Under-frame t u v s λ z.
      let i = occ-top s z in
      turned.parents (top s) (other_place (top s) a (occ (top s) s) (omega (arith, h (top s))) i)
        (other_place (top s) b (occ (top s) s) (omega (arith, h (top s))) i)
        (not_middle (top s) (occ (top s) s) (omega (arith, h (top s))) i)

  middle-Under : (s : Tree) → Rep t s → t.child d b ≡ top s → Under u a s
  middle-Under Tree.leaf k e = tt
  middle-Under (Tree.node l n q) k e =
      sym (ap (λ x. u.parent x) e) ∙ turned.parent_middle (λ z. k.0 (sym e ∙ z))

  turned-Rep :
      (t.child d a ≡ top p) × Under t a p × Rep t p
      → Under t b m × Rep t m
      → (a ≢ 0) × (b ≢ 0)
      → (t.child (opposite_side d) b ≡ top r) × Under t b r × Rep t r
      → Rep u (join d (join d p a m) b r)
  turned-Rep (ep, up, rp) (um, rm) (za, zb) (er, ur, rr) =
      let lower : Rep u (join d p a m) = join-Rep u d p a m (
        za,
        (
          turned.near ∙ ep,
          part-Under a p (λ x. omega (arith, o x)) rp up,
          part-Rep p (λ x. omega (arith, o x))
              (λ x i n. not_middle x (occ x p) (omega (arith, o x)) i) rp,
        ),
        (
          turned.middle ∙ em,
          middle-Under m rm em,
          part-Rep m (λ x. omega (arith, o x)) (λ x i n z e. n (e ∙ em)) rm,
        ),
      ) in
      join-Rep u d (join d p a m) b r (
        zb,
        (turned.down ∙ sym (top-join d p a m), join-Under u d b p a m turned.parent_a, lower),
        (
          turned.far ∙ er,
          part-Under b r (λ x. omega (arith, o x)) rr ur,
          part-Rep r (λ x. omega (arith, o x))
              (λ x i n. not_middle x (occ x r) (omega (arith, o x)) i) rr,
        ),
      )

-- The node above gets `b` for `a`, on whichever side that is.
linked_side {ℓ} :
    {K : Type ℓ} (t u : Rbtree K) (d : Side) (a b : ℕ)
    → Rotated d t a b u
    → (e : Side) → t.parent a ≢ 0
    → t.child e (t.parent a) ≡ a
    → t.child (opposite_side e) (t.parent a) ≢ a
    → (u.child e (t.parent a) ≡ b)
      × (u.child (opposite_side e) (t.parent a) ≡ t.child (opposite_side e) (t.parent a))
linked_side t u Side.left a b k Side.left z h n = k.linked z h
linked_side t u Side.left a b k Side.right z h n = k.linked_far z n
linked_side t u Side.right a b k Side.left z h n = k.linked_far z n
linked_side t u Side.right a b k Side.right z h n = k.linked z h

module _ {ℓ} {K : Type ℓ} (t u : Rbtree K) (d : Side) (a b : ℕ) (k : Rotated d t a b u)
    (za : a ≢ 0) where
  turned-Hole :
      (c : List Frame)
      → t.parent a ≡ holder c
      → ((x : ℕ) → hits x a + occ_path x c ≤ 1)
      → Rest t c
      → Hole t c a
      → Hole u c b × SameFar t u c
  turned-Hole [] ec o r h = (k.new_root ec, tt)
  turned-Hole (f ∷ c) ec o (z, (es, us, rs), ep, hole, rest) h =
      let side =
        linked_side t u d a b k f.side (λ e. z (sym ec ∙ e)) (ap (λ n. t.child f.side n) ec ∙ h)
          (λ e.
            top_other f.sibling a za (λ x. omega (arith, o x))
              (sym es ∙ sym (ap (λ n. t.child (opposite_side f.side) n) ec) ∙ e)) in
      (
        sym (ap (λ n. u.child f.side n) ec) ∙ side.0,
        sym (ap (λ n. u.child (opposite_side f.side) n) ec)
            ∙ side.1
            ∙ ap (λ n. t.child (opposite_side f.side) n) ec,
      )

  -- The rest of the path is as it was.
  turned-Rest :
      (c : List Frame) (m : Tree)
      → t.child d b ≡ top m
      → t.parent a ≡ holder c
      → ((x : ℕ) → hits x a + occ x m + hits x b + occ_path x c ≤ 1)
      → SameFar t u c
      → Rest t c
      → Rest u c
  turned-Rest c m em ec o far =
      Rest-frame t u c
        (λ x i e n.
          k.children e x (other_place x a (occ_path x c) (omega (arith, o x)) i)
            (other_place x b (occ_path x c) (omega (arith, o x)) i) (λ z q. n (q ∙ ec)))
        (λ n. k.same_root (λ z. n (sym ec ∙ z))) far
        (λ x i.
          k.parents x (other_place x a (occ_path x c) (omega (arith, o x)) i)
            (other_place x b (occ_path x c) (omega (arith, o x)) i)
            (λ z q.
              top_elsewhere m x (occ_path x c) (omega (arith, o x)) i (λ e. z (em ∙ e)) (q ∙ em)))
        (λ x. omega (arith, o x))

-- If the nodes make a tree at the end of a path, each node in one place, and the child of `a` away from the
-- side `d` is a node `b`, then after `rotate` at `a` they make the turned tree at the end of the same path,
-- `b` in the place of `a` and `a` below it, again each in one place; and the colours, keys and count, and
-- all links but those around `a` and `b`, are as they were.
pub rotate-At {ℓ} :
    {K : Type ℓ} (t : Rbtree K) (c : List Frame) (d : Side) (p : Tree) (a : ℕ) (m : Tree) (b : ℕ)
    (r : Tree)
    → At t c (join d p a (join d m b r))
    → At (rotate d t a) c (join d (join d p a m) b r) × Rotated d t a b (rotate d t a)
rotate-At t c d p a m b r k =
    let (za, (ep, up, rp), (eb, ub, rb)) = Rep-join t d p a (join d m b r) k.rep in
    let (zb, (em, um, rm), (er, ur, rr)) = Rep-join t d m b r rb in
    let o : (x : ℕ) → occ x p + hits x a + occ x m + hits x b + occ x r + occ_path x c ≤ 1 =
      λ x. omega (arith, k.apart x, occ-join d x p a (join d m b r), occ-join d x m b r) in
    let ec = Under-join t d (holder c) p a (join d m b r) k.under in
    let turned : Rotated d t a b (rotate d t a) =
      rotate-Rotated t a d b (top m) (holder c) (eb ∙ top-join d m b r) em ec
        (other_place a b (hits a a) (omega (arith, o a)) (omega (arith, self_hit a)))
        (holder_other c a za (λ x. omega (arith, o x)))
        (holder_other c b zb (λ x. omega (arith, o x))) (top_other m a za (λ x. omega (arith, o x)))
        (top_other m b zb (λ x. omega (arith, o x))) in
    let (hole, far) =
      turned-Hole t (rotate d t a) d a b turned za c ec (λ x. omega (arith, o x)) k.rest
        (subst_top d p a (join d m b r) k.hole) in
    (
      record {
        hole = put_top d (join d p a m) b r hole;
        under = join-Under (rotate d t a) d (holder c) (join d p a m) b r (turned.parent_b ∙ ec);
        rep =
            turned-Rep t (rotate d t a) c d p a m b r turned em ec o (ep, up, rp) (um, rm) (za, zb)
              (er, ur, rr);
        rest =
            turned-Rest t (rotate d t a) d a b turned za c m em ec (λ x. omega (arith, o x)) far
              k.rest;
        apart = λ x. omega (arith, o x, occ-join d x (join d p a m) b r, occ-join d x p a m);
      },
      turned,
    )
  where
    subst_top :
        (e : Side) (s : Tree) (n : ℕ) (q : Tree) → Hole t c (top (join e s n q)) → Hole t c n
    subst_top Side.left s n q h = h
    subst_top Side.right s n q h = h

    put_top :
        (e : Side) (s : Tree) (n : ℕ) (q : Tree)
        → Hole (rotate d t a) c n
        → Hole (rotate d t a) c (top (join e s n q))
    put_top Side.left s n q h = h
    put_top Side.right s n q h = h
