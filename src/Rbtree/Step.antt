-- ===== src/Rbtree/Step.antt =====
-- One round of `rbtree_insert_fixup`.
use nsd_old.Base.{ℕ, ◌+◌, ◌≤◌, ◌≡◌, ◌≢◌, refl, sym, ◌∙◌, ◌==◌, if◌then◌else◌, List, ◌∷◌, arith}
use nsd_old.Rbtree.{Side, opposite_side, Color, Rbtree, set_color, rotate}
use nsd_old.Rbtree.Shape.{
  Tree, top, join, hits, occ, Frame, holder, occ_path, Hole, At, other_place, self_hit, occ-join,
  join-Rep, Rep-join, join-Under,
}
use nsd_old.Rbtree.Turn.{rotate-At}
use nsd_old.Rbtree.Balance.{
  HasBlackTop, Balanced, PathBalanced, red_join, black_join, top-frame, Balanced-frame,
  PathBalanced-frame,
}

-- Colours make no difference to the links.
pub recolored-At {ℓ} :
    {K : Type ℓ} (t : Rbtree K) (color : ℕ → Color) (c : List Frame) (s : Tree)
    → At t c s
    → At (record t { color = color }) c s
recolored-At t color c s k = record {
  hole = k.hole;
  under = k.under;
  rep = k.rep;
  rest = k.rest;
  apart = k.apart;
}

-- One step up the path
pub upward-At {ℓ} :
    {K : Type ℓ} (t : Rbtree K) (f : Frame) (c : List Frame) (s : Tree)
    → At t (f ∷ c) s
    → At t c (join f.side s f.place f.sibling)
upward-At t f c s k =
    let (z, far, up, hole, rest) = k.rest in
    record {
      hole = topped f.side hole;
      under = join-Under t f.side (holder c) s f.place f.sibling up;
      rep = join-Rep t f.side s f.place f.sibling (z, (k.hole, k.under, k.rep), far);
      rest = rest;
      apart = λ x. omega (arith, k.apart x, occ-join f.side x s f.place f.sibling);
    }
  where
    topped : (d : Side) → Hole t c f.place → Hole t c (top (join d s f.place f.sibling))
    topped Side.left h = h
    topped Side.right h = h

-- The state of the loop: the place of the node, with `h` black nodes below it
pub record Fixing {ℓ} {K : Type ℓ} (t : Rbtree K) (c : List Frame) (s : Tree) (h : ℕ) : Type ℓ where
  pub place : At t c s
  pub sentinel : t.color 0 ≡ Color.black
  pub tree : Balanced t.color s h
  pub path : PathBalanced t.color c h
  pub filled : top s ≢ 0
  pub is_red_top : t.color (top s) ≡ Color.red

swap : (d : Side) (p : Tree) (a : ℕ) (q : Tree) → join d p a q ≡ join (opposite_side d) q a p
swap Side.left p a q = refl
swap Side.right p a q = refl

-- The colours of `repaint`
abbrev pub painted : (ℕ → Color) → ℕ → Color → ℕ → Color
painted color a v = λ x. if x == a then v else color x

pub painted_other :
    (color : ℕ → Color) (a : ℕ) (v : Color) (x : ℕ) → x ≢ a → painted color a v x ≡ color x
painted_other color a v x n = ground (arith, n)

pub painted_here : (color : ℕ → Color) (a : ℕ) (v : Color) → painted color a v a ≡ v
painted_here color a v = ground arith

abbrev pub final {ℓ} : {K : Type ℓ} → Rbtree K → Side → ℕ → ℕ → Rbtree K
final t d g p = rotate d (set_color (set_color t p Color.black) g Color.red) g

-- With the parent `p` black and the grandparent `g` red, turned to the other side
module _ {ℓ} {K : Type ℓ} (t : Rbtree K) (c : List Frame) (d : Side) (u : Tree) (g : ℕ) (m : Tree)
    (p : ℕ) (s : Tree) (h : ℕ) (k : At t c (join d u g (join d m p s)))
    (sentinel : t.color 0 ≡ Color.black) (bu : HasBlackTop t.color u) (bm : HasBlackTop t.color m)
    (ku : Balanced t.color u h) (km : Balanced t.color m h) (ks : Balanced t.color s h)
    (path : PathBalanced t.color c (h + 1)) where
  abbrev pub Turned : Type ℓ
  Turned =
      At (final t d g p) c (join d (join d u g m) p s)
      × ((final t d g p).color 0 ≡ Color.black)
      × ((final t d g p).color p ≡ Color.black)
      × Balanced (final t d g p).color (join d (join d u g m) p s) (h + 1)
      × PathBalanced (final t d g p).color c (h + 1)
      × ((final t d g p).key ≡ t.key)
      × ((final t d g p).count ≡ t.count)

  pub turn-Turned : Turned
  turn-Turned =
      let col = painted (painted t.color p Color.black) g Color.red in
      let (zg, lu, lj) = Rep-join t d u g (join d m p s) k.rep in
      let (zp, lm, ls) = Rep-join t d m p s lj.2 in
      let o : (x : ℕ) → occ x u + hits x g + (occ x m + hits x p + occ x s) + occ_path x c ≤ 1 =
        λ x. omega (arith, k.apart x, occ-join d x u g (join d m p s), occ-join d x m p s) in
      let (place, r) =
        rotate-At (set_color (set_color t p Color.black) g Color.red) c d u g m p s
          (recolored-At t col c (join d u g (join d m p s)) k) in
      let still : (x n : ℕ) → n + hits x g + hits x p ≤ 1 → 1 ≤ n → col x ≡ t.color x = λ x n i j.
        painted_other (painted t.color p Color.black) g Color.red x
          (other_place x g n (omega (arith, i)) j)
        ∙ painted_other t.color p Color.black x (other_place x p n (omega (arith, i)) j) in
      let c0 : col 0 ≡ t.color 0 =
        painted_other (painted t.color p Color.black) g Color.red 0 (λ e. zg (sym e))
        ∙ painted_other t.color p Color.black 0 (λ e. zp (sym e)) in
      let su : (x : ℕ) → 1 ≤ occ x u → col x ≡ t.color x =
        λ x i. still x (occ x u) (omega (arith, o x)) i in
      let sm : (x : ℕ) → 1 ≤ occ x m → col x ≡ t.color x =
        λ x i. still x (occ x m) (omega (arith, o x)) i in
      let ss : (x : ℕ) → 1 ≤ occ x s → col x ≡ t.color x =
        λ x i. still x (occ x s) (omega (arith, o x)) i in
      let sc : (x : ℕ) → 1 ≤ occ_path x c → col x ≡ t.color x =
        λ x i. still x (occ_path x c) (omega (arith, o x)) i in
      let black_p : col p ≡ Color.black =
        painted_other (painted t.color p Color.black) g Color.red p
          (other_place p g (hits p p) (omega (arith, o p)) (omega (arith, self_hit p)))
        ∙ painted_here t.color p Color.black in
      let low =
        red_join col d u g m h (painted_here (painted t.color p Color.black) g Color.red)
          (top-frame t.color col c0 u su bu) (top-frame t.color col c0 m sm bm)
          (Balanced-frame t.color col c0 u h su ku) (Balanced-frame t.color col c0 m h sm km) in
      let whole =
        black_join col d (join d u g m) p s h black_p low
          (Balanced-frame t.color col c0 s h ss ks) in
      (
        place,
        rw r.same_color (c0 ∙ sentinel),
        rw r.same_color black_p,
        rw r.same_color whole,
        rw r.same_color (PathBalanced-frame t.color col c0 c (h + 1) sc path),
        r.same_key,
        r.same_count,
      )
