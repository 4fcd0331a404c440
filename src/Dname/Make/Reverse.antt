-- ===== src/Dname/Make/Reverse.antt =====
-- The loop of `dname_make` that reverses the label offsets in place.
use native.Mathlib.Decide.{dec_lt, ℕ_discrete}
use nsd_old.Base.{
  ℕ, zero, suc, ◌+◌, ◌-◌, ◌/◌, ◌≤◌, ◌<◌, ◌≡◌, ◌≢◌, ◌⊎◌, inl, inr, refl, sym, ap, ◌∙◌, List, [], ◌∷◌,
  length, get_or, overwrite, length-overwrite, get_or-overwrite_in, get_or-overwrite_out, arith,
}
use nsd_old.Dname.Make.{swap_loop}

-- `ys` is `xs` with the first `i` elements and the last `i` in each other's places, `n` in all.
record Swapped (i n : ℕ) (xs ys : List ℕ) : Type 0 where
  same_length : length ys ≡ n
  outer : (j : ℕ) → j < n → (j < i) ⊎ (n ≤ j + i) → get_or ys j 0 ≡ get_or xs (n - j - 1) 0
  inner : (j : ℕ) → i ≤ j → j + i < n → get_or ys j 0 ≡ get_or xs j 0

module _ (ys : List ℕ) (i o u v : ℕ) (hi : i < o) (ho : o < length ys) where
  abbrev swapped : List ℕ
  swapped = overwrite (overwrite ys i (u ∷ [])) o (v ∷ [])

  low : get_or swapped i 0 ≡ u
  low =
      get_or-overwrite_out (overwrite ys i (u ∷ [])) o (v ∷ []) i 0 (inl hi)
      ∙ (let e : i + 0 ≡ i = omega arith in
          sym (ap (λ k. get_or (overwrite ys i (u ∷ [])) k 0) e)
          ∙ get_or-overwrite_in ys i (u ∷ []) 0 0 (omega arith) (omega arith))

  high : get_or swapped o 0 ≡ v
  high =
      let e : o + 0 ≡ o = omega arith in
      let n = length-overwrite ys i (u ∷ []) in
      sym (ap (λ k. get_or swapped k 0) e)
      ∙ get_or-overwrite_in (overwrite ys i (u ∷ [])) o (v ∷ []) 0 0 (omega (arith, n, ho))
          (omega arith)

  other : (j : ℕ) → j ≢ i → j ≢ o → get_or swapped j 0 ≡ get_or ys j 0
  other j p q =
      get_or-overwrite_out (overwrite ys i (u ∷ [])) o (v ∷ []) j 0 (omega arith)
      ∙ get_or-overwrite_out ys i (u ∷ []) j 0 (omega arith)

  length-swapped : length swapped ≡ length ys
  length-swapped =
      length-overwrite (overwrite ys i (u ∷ [])) o (v ∷ []) ∙ length-overwrite ys i (u ∷ [])

module _ {i n : ℕ} {xs ys : List ℕ} (s : Swapped i n xs ys) (h : i + i + 2 ≤ n) where
  abbrev top : ℕ
  top = n - i - 1

  abbrev next : List ℕ
  next = overwrite (overwrite ys i (get_or ys top 0 ∷ [])) top (get_or ys i 0 ∷ [])

  above : i < top
  above = omega (arith, h)

  within : top < length ys
  within = omega (arith, h, s.same_length)

  next_outer :
      (j : ℕ) → j < n → (j < i + 1) ⊎ (n ≤ j + (i + 1)) → get_or next j 0 ≡ get_or xs (n - j - 1) 0
  next_outer j lt w = elim (ℕ_discrete j i) [
    | yes p ↦
        let e : n - j - 1 ≡ top = omega (arith, p) in
        ap (λ k. get_or next k 0) p
        ∙ low ys i top (get_or ys top 0) (get_or ys i 0) above within
        ∙ s.inner top (omega (arith, above)) (omega (arith, h))
        ∙ ap (λ k. get_or xs k 0) (sym e)
    | no p ↦ elim (ℕ_discrete j top) [
      | yes q ↦
          let e : n - j - 1 ≡ i = omega (arith, q, h) in
          ap (λ k. get_or next k 0) q
          ∙ high ys i top (get_or ys top 0) (get_or ys i 0) above within
          ∙ s.inner i (omega arith) (omega (arith, h))
          ∙ ap (λ k. get_or xs k 0) (sym e)
      | no q ↦
          other ys i top (get_or ys top 0) (get_or ys i 0) above within j p q
          ∙ s.outer j lt (still p q w)
    ]
  ]
    where
      still : j ≢ i → j ≢ top → (j < i + 1) ⊎ (n ≤ j + (i + 1)) → (j < i) ⊎ (n ≤ j + i)
      still p q (inl a) = inl (omega (arith, p, a))
      still p q (inr a) = inr (omega (arith, q, a, lt))

  next-Swapped : Swapped (i + 1) n xs next
  next-Swapped = record {
    same_length =
        length-swapped ys i top (get_or ys top 0) (get_or ys i 0) above within ∙ s.same_length;
    outer = next_outer;
    inner = λ j a b.
        other ys i top (get_or ys top 0) (get_or ys i 0) above within j (omega (arith, a))
          (omega (arith, b))
        ∙ s.inner j (omega (arith, a)) (omega (arith, b));
  }

swap_loop-Swapped :
    (rounds i n : ℕ) (xs ys : List ℕ)
    → Swapped i n xs ys
    → i + rounds + (i + rounds) ≤ n
    → Swapped (i + rounds) n xs (swap_loop rounds i n ys)
unfolding swap_loop
swap_loop-Swapped zero i n xs ys s h = let e : i + 0 ≡ i = omega arith in rw e s
swap_loop-Swapped (suc rounds) i n xs ys s h =
    let e : i + suc rounds ≡ i + 1 + rounds = omega arith in
    rw e (
      swap_loop-Swapped rounds (i + 1) n xs (next s (omega (arith, h)))
        (next-Swapped s (omega (arith, h))) (omega (arith, h)))

-- The loop reverses the list.
pub swap_loop-reversed :
    (xs : List ℕ)
    → (length (swap_loop (length xs / 2) 0 (length xs) xs) ≡ length xs)
      × ((j : ℕ)
          → j < length xs
          → get_or (swap_loop (length xs / 2) 0 (length xs) xs) j 0
            ≡ get_or xs (length xs - j - 1) 0)
swap_loop-reversed xs = (s.same_length, all)
  where
    start : Swapped 0 (length xs) xs xs
    start = record {
      same_length = refl;
      outer = λ j lt w. absurd (omega (arith, lt, w));
      inner = λ j a b. refl;
    }

    s : Swapped (0 + length xs / 2) (length xs) xs (swap_loop (length xs / 2) 0 (length xs) xs)
    s = swap_loop-Swapped (length xs / 2) 0 (length xs) xs xs start (omega arith)

    all :
        (j : ℕ)
        → j < length xs
        → get_or (swap_loop (length xs / 2) 0 (length xs) xs) j 0 ≡ get_or xs (length xs - j - 1) 0
    all j lt = elim (dec_lt j (length xs / 2)) [
      | yes p ↦ s.outer j lt (inl (omega (arith, p)))
      | no p ↦ elim (dec_lt (j + length xs / 2) (length xs)) [
        | yes q ↦
            let e : length xs - j - 1 ≡ j = omega (arith, p, q) in
            s.inner j (omega (arith, p)) (omega (arith, q)) ∙ ap (λ k. get_or xs k 0) (sym e)
        | no q ↦ s.outer j lt (inr (omega (arith, q)))
      ]
    ]
