-- ===== src/Rbtree/Ordered.antt =====
-- Lists of addresses in the order of the keys, and the lists on both sides of a place in a tree.
use mathlib.Core.List.{append_assoc, append-nil}
use nsd_old.Base.{
  ℕ, ◌≤◌, ◌<◌, ◌≡◌, refl, sym, ap, ◌∙◌, true, false, List, [], ◌∷◌, ◌++◌, ltb, if◌then◌else◌, arith,
}
use nsd_old.Rbtree.{Side}
use nsd_old.Rbtree.Shape.{Tree, join, inorder, Frame, plug}

module _ (rank : ℕ → ℕ) where
  abbrev pub AllBelow : ℕ → List ℕ → Type 0
  AllBelow v [] = Unit
  AllBelow v (x ∷ xs) = (rank x < v) × AllBelow v xs

  abbrev pub AllAbove : ℕ → List ℕ → Type 0
  AllAbove v [] = Unit
  AllAbove v (x ∷ xs) = (v < rank x) × AllAbove v xs

  abbrev pub Ascending : List ℕ → Type 0
  Ascending [] = Unit
  Ascending (x ∷ xs) = AllAbove (rank x) xs × Ascending xs

  -- An address put at its place in a list in ascending order
  abbrev pub insert_by : ℕ → List ℕ → List ℕ
  insert_by x [] = x ∷ []
  insert_by x (y ∷ ys) =
      let rest = insert_by x ys in if ltb (rank x) (rank y) then x ∷ y ∷ ys else y ∷ rest

  pub AllBelow-append :
      (v : ℕ) (xs ys : List ℕ) → AllBelow v xs → AllBelow v ys → AllBelow v (xs ++ ys)
  AllBelow-append v [] ys k m = m
  AllBelow-append v (x ∷ xs) ys (h, k) m = (h, AllBelow-append v xs ys k m)

  pub AllAbove-append :
      (v : ℕ) (xs ys : List ℕ) → AllAbove v xs → AllAbove v ys → AllAbove v (xs ++ ys)
  AllAbove-append v [] ys k m = m
  AllAbove-append v (x ∷ xs) ys (h, k) m = (h, AllAbove-append v xs ys k m)

  pub AllAbove-parts :
      (v : ℕ) (xs ys : List ℕ) → AllAbove v (xs ++ ys) → AllAbove v xs × AllAbove v ys
  AllAbove-parts v [] ys k = (tt, k)
  AllAbove-parts v (x ∷ xs) ys (h, k) = let (a, b) = AllAbove-parts v xs ys k in ((h, a), b)

  pub AllBelow-trans : (v w : ℕ) (xs : List ℕ) → v ≤ w → AllBelow v xs → AllBelow w xs
  AllBelow-trans v w [] h k = tt
  AllBelow-trans v w (x ∷ xs) h (e, k) = (omega (arith, e, h), AllBelow-trans v w xs h k)

  pub AllAbove-trans : (v w : ℕ) (xs : List ℕ) → v ≤ w → AllAbove w xs → AllAbove v xs
  AllAbove-trans v w [] h k = tt
  AllAbove-trans v w (x ∷ xs) h (e, k) = (omega (arith, e, h), AllAbove-trans v w xs h k)

  -- An ascending list around one of its elements
  pub Ascending-parts :
      (xs : List ℕ) (a : ℕ) (ys : List ℕ)
      → Ascending (xs ++ a ∷ ys)
      → Ascending xs × AllBelow (rank a) xs × AllAbove (rank a) ys × Ascending ys
  Ascending-parts [] a ys (k, m) = (tt, tt, k, m)
  Ascending-parts (x ∷ xs) a ys (k, m) =
      let (ax, bx, ay, by_) = Ascending-parts xs a ys m in
      let (low, (h, high)) = AllAbove-parts (rank x) xs (a ∷ ys) k in ((low, ax), (h, bx), ay, by_)

  -- The place of an address is behind what is below it.
  pub insert_by-append :
      (x : ℕ) (xs ys : List ℕ)
      → AllBelow (rank x) xs
      → AllAbove (rank x) ys
      → insert_by x (xs ++ ys) ≡ xs ++ x ∷ ys
  insert_by-append x [] [] k m = refl
  insert_by-append x [] (y ∷ ys) k (h, m) =
      let e : ltb (rank x) (rank y) ≡ true = ground (arith, h) in rw e refl
  insert_by-append x (z ∷ xs) ys (h, k) m =
      let e : ltb (rank x) (rank z) ≡ false = ground (arith, h) in
      rw e (ap (λ l. z ∷ l) (insert_by-append x xs ys k m))

  -- Ascending lists on both sides of an address
  pub Ascending-around :
      (xs : List ℕ) (a : ℕ) (ys : List ℕ)
      → Ascending (xs ++ ys)
      → AllBelow (rank a) xs
      → AllAbove (rank a) ys
      → Ascending (xs ++ a ∷ ys)
  Ascending-around [] a ys k b m = (m, k)
  Ascending-around (x ∷ xs) a ys (k, rest) (h, b) m =
      let (low, high) = AllAbove-parts (rank x) xs ys k in
      (AllAbove-append (rank x) xs (a ∷ ys) low (h, high), Ascending-around xs a ys rest b m)

-- What is before the place at the start of the path, and what is behind it
abbrev pub before_place : List Frame → List ℕ
before_place [] = []
before_place (f ∷ c) = elim f.side [
  | Side.left ↦ before_place c
  | Side.right ↦ before_place c ++ (inorder f.sibling ++ f.place ∷ [])
]

abbrev pub behind_place : List Frame → List ℕ
behind_place [] = []
behind_place (f ∷ c) = elim f.side [
  | Side.left ↦ f.place ∷ (inorder f.sibling ++ behind_place c)
  | Side.right ↦ behind_place c
]

pub inorder-plug :
    (c : List Frame) (s : Tree)
    → inorder (plug c s) ≡ before_place c ++ (inorder s ++ behind_place c)
inorder-plug [] s = sym (append-nil (inorder s))
inorder-plug (f ∷ c) s = inorder-plug c (join f.side s f.place f.sibling) ∙ sided f.side
  where
    sided :
        (d : Side)
        → before_place c ++ (inorder (join d s f.place f.sibling) ++ behind_place c)
          ≡ before_place (record { side = d; place = f.place; sibling = f.sibling } ∷ c)
            ++ (inorder s
                ++ behind_place (record { side = d; place = f.place; sibling = f.sibling } ∷ c))
    sided Side.left =
        ap (λ l. before_place c ++ l)
          (append_assoc (inorder s) (f.place ∷ inorder f.sibling) (behind_place c))
    sided Side.right =
        ap (λ l. before_place c ++ l)
          (append_assoc (inorder f.sibling) (f.place ∷ inorder s) (behind_place c))
        ∙ sym (
            append_assoc (before_place c) (inorder f.sibling ++ f.place ∷ [])
              (inorder s ++ behind_place c)
            ∙ ap (λ l. before_place c ++ l)
                (append_assoc (inorder f.sibling) (f.place ∷ []) (inorder s ++ behind_place c)))
