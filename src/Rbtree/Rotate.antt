-- ===== src/Rbtree/Rotate.antt =====
-- What a rotation does to the fields of the nodes.
use nsd_old.Base.{ℕ, ◌≡◌, ◌≢◌, arith}
use nsd_old.Rbtree.{Side, opposite_side, Rbtree, relink, rotate}

-- `u` is `t` with the node `a` below `b`, which was its child away from the side `d`.
pub record Rotated {ℓ} {K : Type ℓ} (d : Side) (t : Rbtree K) (a b : ℕ) (u : Rbtree K)
    : Type ℓ where
  pub same_color : u.color ≡ t.color
  pub same_key : u.key ≡ t.key
  pub same_count : u.count ≡ t.count
  pub down : u.child d b ≡ a
  pub middle : u.child (opposite_side d) a ≡ t.child d b
  pub far : u.child (opposite_side d) b ≡ t.child (opposite_side d) b
  pub near : u.child d a ≡ t.child d a
  pub children :
      (e : Side) (x : ℕ)
      → x ≢ a
      → x ≢ b
      → (t.parent a ≢ 0 → x ≢ t.parent a)
      → u.child e x ≡ t.child e x
  pub parent_a : u.parent a ≡ b
  pub parent_b : u.parent b ≡ t.parent a
  pub parent_middle : t.child d b ≢ 0 → u.parent (t.child d b) ≡ a
  pub parents :
      (x : ℕ) → x ≢ a → x ≢ b → (t.child d b ≢ 0 → x ≢ t.child d b) → u.parent x ≡ t.parent x
  pub new_root : t.parent a ≡ 0 → u.root ≡ b
  pub same_root : t.parent a ≢ 0 → u.root ≡ t.root
  pub linked :
      t.parent a ≢ 0
      → t.child d (t.parent a) ≡ a
      → (u.child d (t.parent a) ≡ b)
        × (u.child (opposite_side d) (t.parent a) ≡ t.child (opposite_side d) (t.parent a))
  pub linked_far :
      t.parent a ≢ 0
      → t.child d (t.parent a) ≢ a
      → (u.child (opposite_side d) (t.parent a) ≡ b)
        × (u.child d (t.parent a) ≡ t.child d (t.parent a))

module _ {ℓ} {K : Type ℓ} (t : Rbtree K) (a : ℕ) where
  rotate_left :
      (b m p : ℕ)
      → t.child Side.right a ≡ b
      → t.child Side.left b ≡ m
      → t.parent a ≡ p
      → a ≢ b
      → p ≢ a
      → p ≢ b
      → m ≢ a
      → m ≢ b
      → Rotated Side.left t a b (rotate Side.left t a)
  unfolding rotate relink
  rotate_left b m p eb em ep ab pa pb ma mb = record {
    same_color = ground arith;
    same_key = ground arith;
    same_count = ground arith;
    down = ground arith;
    middle = ground arith;
    far = ground arith;
    near = ground arith;
    children = λ e x xa xb xp. ground arith;
    parent_a = ground arith;
    parent_b = ground arith;
    parent_middle = λ h. ground arith;
    parents = λ x xa xb xm. ground arith;
    new_root = λ h. ground arith;
    same_root = λ h. ground arith;
    linked = λ h k. ground arith;
    linked_far = λ h k. ground arith;
  }

  rotate_right :
      (b m p : ℕ)
      → t.child Side.left a ≡ b
      → t.child Side.right b ≡ m
      → t.parent a ≡ p
      → a ≢ b
      → p ≢ a
      → p ≢ b
      → m ≢ a
      → m ≢ b
      → Rotated Side.right t a b (rotate Side.right t a)
  unfolding rotate relink
  rotate_right b m p eb em ep ab pa pb ma mb = record {
    same_color = ground arith;
    same_key = ground arith;
    same_count = ground arith;
    down = ground arith;
    middle = ground arith;
    far = ground arith;
    near = ground arith;
    children = λ e x xa xb xp. ground arith;
    parent_a = ground arith;
    parent_b = ground arith;
    parent_middle = λ h. ground arith;
    parents = λ x xa xb xm. ground arith;
    new_root = λ h. ground arith;
    same_root = λ h. ground arith;
    linked = λ h k. ground arith;
    linked_far = λ h k. ground arith;
  }

  -- A rotation at `a`, whose child away from the side `d` is a node of its own
  pub rotate-Rotated :
      (d : Side) (b m p : ℕ)
      → t.child (opposite_side d) a ≡ b
      → t.child d b ≡ m
      → t.parent a ≡ p
      → a ≢ b
      → p ≢ a
      → p ≢ b
      → m ≢ a
      → m ≢ b
      → Rotated d t a b (rotate d t a)
  rotate-Rotated Side.left = rotate_left
  rotate-Rotated Side.right = rotate_right
