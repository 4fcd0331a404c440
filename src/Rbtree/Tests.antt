-- ===== src/Rbtree/Tests.antt =====
-- Runs over small trees.
use nsd_old.Base.{
  arith, inl, inr, ◌++◌, ◌==◌, ◌&&◌, if◌then◌else◌, Returns, ℕ, ◌≡◌, refl, List, [], ◌∷◌,
  compare_num, done, Outcome, ◌>>=◌,
}
use nsd_old.Rbtree.Shape.{Tree, Frame, inorder, At}
use nsd_old.Rbtree.Rotate.{Rotated}
use nsd_old.Rbtree.Turn.{rotate-At}
use nsd_old.Rbtree.Step.{Fixing}
use nsd_old.Rbtree.Loop.{Fixed, rbtree_insert_fixup-Fixed}
use nsd_old.Rbtree.Insert.{IsTree, Inserted, rbtree_insert-Inserted}
use nsd_old.Rbtree.Find.{Nearest, rbtree_find_less_equal-Nearest}
use nsd_old.Rbtree.Walk.{rbtree_for-inorder}
use nsd_old.Rbtree.Next.{first_of, rbtree_step-next}
use nsd_old.Rbtree.{
  rbtree_for, same_side, rbtree_step, Side, Color, Rbtree, relink, rotate, repaint, repaint_rotate,
  fixup_step, rbtree_insert_fixup, find_parent, rbtree_insert, rbtree_find_less_equal,
  rbtree_create,
}

abbrev empty : Rbtree ℕ
empty = rbtree_create (λ x. 0) (λ d x. 0) (λ x. Color.black) (λ x. x)

-- 1 to 4 in ascending order: the root moves to 2.
abbrev insert_all : List ℕ → Rbtree ℕ → Outcome (Rbtree ℕ)
insert_all [] t = done t
insert_all (a ∷ rest) t = do (new, t) ← rbtree_insert compare_num t a; insert_all rest t

abbrev view : Outcome (Rbtree ℕ) → Outcome (ℕ × ℕ × ℕ × Color)
view m = do t ← m; done (t.root, t.count, t.child Side.right 3, t.color 4)

ascending : view (insert_all (1 ∷ 2 ∷ 3 ∷ 4 ∷ 3 ∷ []) empty) ≡ done (2, 4, 4, Color.red)
unfolding relink rotate repaint repaint_rotate fixup_step rbtree_insert_fixup find_parent
    rbtree_insert rbtree_create
ascending = refl

-- The root 1, black, with the red child 2 on the right
abbrev two : Rbtree ℕ
two = record {
  root = 1;
  count = 2;
  parent = λ x. if x == 2 then 1 else 0;
  child = λ d x. if same_side d Side.right && x == 1 then 2 else 0;
  color = λ x. if x == 2 then Color.red else Color.black;
  key = λ x. x;
}

abbrev shape_two : Tree
shape_two = Tree.node Tree.leaf 1 (Tree.node Tree.leaf 2 Tree.leaf)

two-At : At two [] shape_two
two-At = record {
  hole = refl;
  under = refl;
  rep = (
    λ e. omega (arith, e),
    (refl, tt, tt),
    (refl, refl, (λ e. omega (arith, e), (refl, tt, tt), (refl, tt, tt))),
  );
  rest = tt;
  apart = λ x. ground arith;
}

two-IsTree : IsTree (λ x. x) two shape_two
two-IsTree = record {
  red_black = record {
    place = two-At;
    sentinel = refl;
    top_black = refl;
    tree = (1, inr (refl, (0, refl, refl, inl (refl, refl, refl, refl, refl))));
  };
  ascending = ((omega arith, tt), (tt, tt));
  counted = refl;
}

-- The node 3, red, below the red node 2
abbrev chain : Rbtree ℕ
chain = record two {
  count = 3;
  parent = λ x. if x == 3 then 2 else if x == 2 then 1 else 0;
  child = λ d x.
      if same_side d Side.right && x == 1
      then 2
      else if same_side d Side.right && x == 2
      then 3
      else 0;
  color = λ x. if x == 2 then Color.red else if x == 3 then Color.red else Color.black;
}

abbrev chain_path : List Frame
chain_path =
    record { side = Side.right; place = 2; sibling = Tree.leaf }
    ∷ record { side = Side.right; place = 1; sibling = Tree.leaf }
    ∷ []

chain-Fixing : Fixing chain chain_path (Tree.node Tree.leaf 3 Tree.leaf) 0
chain-Fixing = record {
  place = record {
    hole = refl;
    under = refl;
    rep = (λ e. omega (arith, e), (refl, tt, tt), (refl, tt, tt));
    rest = (
      λ e. omega (arith, e),
      (refl, tt, tt),
      refl,
      refl,
      (λ e. omega (arith, e), (refl, tt, tt), refl, refl, tt),
    );
    apart = λ x. ground arith;
  };
  sentinel = refl;
  tree = inl (refl, refl, refl, refl, refl);
  path = (refl, inl (refl, refl, refl, λ e. omega (arith, e), (refl, inr (refl, tt))));
  filled = λ e. omega (arith, e);
  is_red_top = refl;
}

rbtree_insert-Inserted_example :
    Returns (Inserted (λ x. x) two shape_two 3) (rbtree_insert compare_num two 3)
rbtree_insert-Inserted_example =
    rbtree_insert-Inserted compare_num (λ x. x) (λ a b. refl) two shape_two two-IsTree 3
      (λ e. omega (arith, e)) refl

rbtree_insert_fixup-Fixed_example :
    Returns (Fixed chain (1 ∷ 2 ∷ 3 ∷ [])) (rbtree_insert_fixup 3 chain 3)
rbtree_insert_fixup-Fixed_example =
    rbtree_insert_fixup-Fixed 3 chain chain_path (Tree.node Tree.leaf 3 Tree.leaf) 0 chain-Fixing
      (omega arith)

rotate-At_example :
    At (rotate Side.left two 1) [] (Tree.node (Tree.node Tree.leaf 1 Tree.leaf) 2 Tree.leaf)
    × Rotated Side.left two 1 2 (rotate Side.left two 1)
rotate-At_example = rotate-At two [] Side.left Tree.leaf 1 Tree.leaf 2 Tree.leaf two-At

rbtree_find_less_equal-Nearest_example :
    Returns (Nearest (λ x. x) two shape_two 5) (rbtree_find_less_equal compare_num two 5)
rbtree_find_less_equal-Nearest_example =
    rbtree_find_less_equal-Nearest compare_num (λ x. x) (λ a b. refl) two shape_two 5 two-IsTree

rbtree_step-next_example :
    Returns
      (λ n. (xs : List ℕ) × (ys : List ℕ) × (inorder shape_two ≡ xs ++ 1 ∷ ys) × (n ≡ first_of ys))
      (rbtree_step Side.right 2 two 1)
rbtree_step-next_example =
    rbtree_step-next (λ x. x) two shape_two 1 2 two-IsTree (omega arith) (omega arith)

rbtree_for-inorder_example : Returns (λ l. l ≡ 1 ∷ 2 ∷ []) (rbtree_for two)
rbtree_for-inorder_example = rbtree_for-inorder (λ x. x) two shape_two two-IsTree refl
