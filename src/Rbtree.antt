-- ===== src/Rbtree.antt =====
-- rbtree.c: the red-black tree, with its nodes at addresses. The address 0 is RBTREE_NULL, which is a
-- node of its own. The fields of the nodes are functions of the address; `child` has left and right,
-- so that what the code says twice, with left and right exchanged, is said once.
pub mod Shape
pub mod Rotate
pub mod Turn
pub mod Balance
pub mod Step
pub mod Round
pub mod Fixup
pub mod Loop
pub mod Ordered
pub mod Descent
pub mod Link
pub mod Insert
pub mod Find
pub mod Next
pub mod Walk
mod Tests
use nsd_old.Base.{
  List, [], ◌∷◌, Comparison, before, same, after, ℕ, zero, suc, ◌+◌, Bool, true, false, not, ◌&&◌,
  Option, none, some, ◌==◌, if◌then◌else◌, Outcome, done, stuck, ◌>>=◌,
}

pub data Side : Type 0 where
  left right : Side

abbrev pub opposite_side : Side → Side
opposite_side Side.left = Side.right
opposite_side Side.right = Side.left

abbrev pub same_side : Side → Side → Bool
same_side Side.left Side.left = true
same_side Side.right Side.right = true
same_side _ _ = false

-- `RED` and `BLACK`
pub data Color : Type 0 where
  red black : Color

abbrev pub is_red : Color → Bool
is_red Color.red = true
is_red Color.black = false

-- `rbtree_type`, with the nodes it can reach
pub record Rbtree {ℓ} (K : Type ℓ) : Type ℓ where
  pub root : ℕ
  pub count : ℕ
  pub parent : ℕ → ℕ
  pub child : Side → ℕ → ℕ
  pub color : ℕ → Color
  pub key : ℕ → K

-- Writes to a field of the node at `a`
abbrev pub set_parent {ℓ} : {K : Type ℓ} → Rbtree K → ℕ → ℕ → Rbtree K
set_parent t a v = record t { parent = λ x. if x == a then v else t.parent x }

abbrev pub set_child {ℓ} : {K : Type ℓ} → Rbtree K → Side → ℕ → ℕ → Rbtree K
set_child t d a v = record t { child = λ e x. if same_side e d && x == a then v else t.child e x }

abbrev pub set_color {ℓ} : {K : Type ℓ} → Rbtree K → ℕ → Color → Rbtree K
set_color t a v = record t { color = λ x. if x == a then v else t.color x }

-- `parent` has the child `node`, which gives way to `by`; the empty parent is that of the root.
unfoldable pub relink {ℓ} : {K : Type ℓ} → Rbtree K → Side → ℕ → ℕ → ℕ → Rbtree K
relink t d parent node by =
    if not (parent == 0)
    then (if node == t.child d parent
        then set_child t d parent by
        else set_child t (opposite_side d) parent by)
    else record t { root = by }

-- `rbtree_rotate_left`, and `rbtree_rotate_right`: the node goes down to the side `d`.
unfoldable pub rotate {ℓ} : {K : Type ℓ} → Side → Rbtree K → ℕ → Rbtree K
rotate d t node =
    let up = t.child (opposite_side d) node in
    let t1 = set_child t (opposite_side d) node (t.child d up) in
    let t2 = if not (t1.child d up == 0) then set_parent t1 (t1.child d up) node else t1 in
    let t3 = set_parent t2 up (t2.parent node) in
    let t4 = relink t3 d (t3.parent node) node up in set_parent (set_child t4 d up node) node up

-- The parent of `node` and its uncle become black, its grandparent red.
unfoldable pub repaint {ℓ} : {K : Type ℓ} → Rbtree K → ℕ → ℕ → Rbtree K
repaint t node uncle =
    let t1 = set_color t (t.parent node) Color.black in
    let t2 = set_color t1 uncle Color.black in set_color t2 (t2.parent (t2.parent node)) Color.red

-- The parent of `node` is on the side `d` of its grandparent, its uncle is black.
unfoldable pub repaint_rotate {ℓ} : {K : Type ℓ} → Side → Rbtree K → ℕ → Rbtree K × ℕ
repaint_rotate d t node =
    let inner = node == t.child (opposite_side d) (t.parent node) in
    let node1 = if inner then t.parent node else node in
    let t1 = if inner then rotate d t node1 else t in
    let t2 = set_color t1 (t1.parent node1) Color.black in
    let t3 = set_color t2 (t2.parent (t2.parent node1)) Color.red in
    (rotate (opposite_side d) t3 (t3.parent (t3.parent node1)), node1)

-- The body of the loop of `rbtree_insert_fixup`
unfoldable pub fixup_step {ℓ} : {K : Type ℓ} → Side → Rbtree K → ℕ → Rbtree K × ℕ
fixup_step d t node =
    let uncle = t.child (opposite_side d) (t.parent (t.parent node)) in
    if is_red (t.color uncle)
    then (repaint t node uncle, (repaint t node uncle).parent ((repaint t node uncle).parent node))
    else repaint_rotate d t node

-- `rbtree_insert_fixup`
unfoldable pub rbtree_insert_fixup {ℓ} : {K : Type ℓ} → ℕ → Rbtree K → ℕ → Outcome (Rbtree K)
rbtree_insert_fixup zero t node = stuck
rbtree_insert_fixup (suc fuel) t node =
    if not (node == t.root) && is_red (t.color (t.parent node))
    then (do
      let d =
          if t.parent node == t.child Side.left (t.parent (t.parent node))
          then Side.left
          else Side.right
      let (t, node) = fixup_step d t node
      rbtree_insert_fixup fuel t node)
    else done (set_color t t.root Color.black)

-- The search of `rbtree_insert` for the parent of the new node, and the side below it. Nothing is left
-- when a node has the key.
unfoldable pub find_parent {ℓ} :
    {K : Type ℓ}
    → (K → K → Comparison)
    → ℕ
    → Rbtree K
    → K
    → ℕ
    → ℕ × Side
    → Outcome (Option (ℕ × Side))
find_parent cmp zero t key node found = stuck
find_parent cmp (suc fuel) t key node found =
    let lower = find_parent cmp fuel t key (t.child Side.left node) (node, Side.left) in
    let higher = find_parent cmp fuel t key (t.child Side.right node) (node, Side.right) in
    if node == 0
    then done (some found)
    else elim (cmp key (t.key node)) [ same ↦ done none | before ↦ lower | after ↦ higher ]

-- `rbtree_insert`
unfoldable pub rbtree_insert {ℓ} :
    {K : Type ℓ} → (K → K → Comparison) → Rbtree K → ℕ → Outcome (Bool × Rbtree K)
rbtree_insert cmp t data_ = do
  found ← find_parent cmp (t.count + 1) t (t.key data_) t.root (0, Side.left)
  elim found [
    | none ↦ done (false, t)
    | some (parent, d) ↦ do
      let t = set_parent t data_ parent
      let t = set_child (set_child t Side.right data_ 0) Side.left data_ 0
      let t = record (set_color t data_ Color.red) { count = t.count + 1 }
      let t = if not (parent == 0) then set_child t d parent data_ else record t { root = data_ }
      t ← rbtree_insert_fixup (t.count + 1) t data_
      done (true, t)
  ]

-- The loop of `rbtree_find_less_equal`, with the result so far. The flag is its return value.
unfoldable pub descend {ℓ} :
    {K : Type ℓ} → (K → K → Comparison) → ℕ → Rbtree K → K → ℕ → ℕ → Outcome (Bool × ℕ)
descend cmp zero t key node found = stuck
descend cmp (suc fuel) t key node found =
    let lower = descend cmp fuel t key (t.child Side.left node) found in
    let higher = descend cmp fuel t key (t.child Side.right node) node in
    if node == 0
    then done (false, found)
    else elim (cmp key (t.key node)) [ same ↦ done (true, node) | before ↦ lower | after ↦ higher ]

-- `rbtree_find_less_equal`, with 0 for NULL
unfoldable pub rbtree_find_less_equal {ℓ} :
    {K : Type ℓ} → (K → K → Comparison) → Rbtree K → K → Outcome (Bool × ℕ)
rbtree_find_less_equal cmp t key = descend cmp (t.count + 1) t key t.root 0

-- `rbtree_search`, with 0 for NULL
unfoldable pub rbtree_search {ℓ} : {K : Type ℓ} → (K → K → Comparison) → Rbtree K → K → Outcome ℕ
rbtree_search cmp t key = do
  (found, node) ← rbtree_find_less_equal cmp t key
  done (if found then node else 0)

-- `rbtree_create`, less the memory; the nodes are those of the memory.
unfoldable pub rbtree_create {ℓ} :
    {K : Type ℓ} → (ℕ → ℕ) → (Side → ℕ → ℕ) → (ℕ → Color) → (ℕ → K) → Rbtree K
rbtree_create parent child color key = record {
  root = 0;
  count = 0;
  parent = parent;
  child = child;
  color = color;
  key = key;
}

-- The loop that goes to the side `d` as far as there are children
unfoldable pub outermost {ℓ} : {K : Type ℓ} → Side → ℕ → Rbtree K → ℕ → Outcome ℕ
outermost d zero t node = stuck
outermost d (suc fuel) t node =
    let further = outermost d fuel t (t.child d node) in
    if not (t.child d node == 0) then further else done node

-- `rbtree_first` and `rbtree_last`
unfoldable pub rbtree_end {ℓ} : {K : Type ℓ} → Side → Rbtree K → Outcome ℕ
rbtree_end d t = outermost d (t.count + 1) t t.root

-- The loop up from a node that is the child of its parent on the side `d`
unfoldable pub climb {ℓ} : {K : Type ℓ} → Side → ℕ → Rbtree K → ℕ → ℕ → Outcome ℕ
climb d zero t node parent = stuck
climb d (suc fuel) t node parent =
    let further = climb d fuel t parent (t.parent parent) in
    if not (parent == 0) && node == t.child d parent then further else done parent

-- `rbtree_next` for the side `right`, and `rbtree_previous` for `left`
unfoldable pub rbtree_step {ℓ} : {K : Type ℓ} → Side → ℕ → Rbtree K → ℕ → Outcome ℕ
rbtree_step d fuel t node =
    if not (t.child d node == 0)
    then outermost (opposite_side d) fuel t (t.child d node)
    else climb d fuel t node (t.parent node)

-- The nodes that the loop of RBTREE_FOR comes to from `node` on
unfoldable pub visited_from {ℓ} : {K : Type ℓ} → ℕ → Rbtree K → ℕ → Outcome (List ℕ)
visited_from zero t node = stuck
visited_from (suc fuel) t node = if node == 0 then done [] else do
  next ← rbtree_step Side.right t.count t node
  rest ← visited_from fuel t next
  done (node ∷ rest)

-- The nodes that RBTREE_FOR comes to
unfoldable pub rbtree_for {ℓ} : {K : Type ℓ} → Rbtree K → Outcome (List ℕ)
rbtree_for t = do node ← rbtree_end Side.left t; visited_from (t.count + 1) t node
