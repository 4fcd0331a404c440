-- ===== src/Query/Copied.antt =====
-- The loop of `packet_read_query_section` copies labels.
use Prim.Native.Nat.{bit_and}
use mathlib.Core.List.{append_assoc, append-nil}
use nsd_old.Base.{
  ℕ, zero, suc, ◌+◌, ◌-◌, ◌≤◌, ◌<◌, ◌≡◌, refl, sym, ap, ◌∙◌, Bool, true, not, ◌||◌, Bool-cases, inl,
  inr, List, [], ◌∷◌, ◌++◌, All, ltb, lt→ltb, ◌==◌, length, get_or, take, drop, drop-add,
  length-take, length-drop, take_one-drop, take-append-take-drop, arith, done, Returns,
}
use nsd_old.Buffer.{Buffer}
use nsd_old.Buffer.Valid.{IsValid}
use nsd_old.Packet.{max_domain_len, peek, copy_labels}
use nsd_old.Dname.Make.Wire.{IsLabelText, wire}

-- The labels without the root label.
abbrev pub flat : List (List ℕ) → List ℕ
flat [] = []
flat (x ∷ xs) = length x ∷ (x ++ flat xs)

flat-snoc : (xs : List (List ℕ)) (x : List ℕ) → flat (xs ++ (x ∷ [])) ≡ flat xs ++ (length x ∷ x)
flat-snoc [] x = ap (λ l. length x ∷ l) (append-nil x)
flat-snoc (y ∷ ys) x =
    ap (λ l. length y ∷ (y ++ l)) (flat-snoc ys x)
    ∙ ap (λ l. length y ∷ l) (sym (append_assoc y (flat ys) (length x ∷ x)))

flat-wire : (xs : List (List ℕ)) → flat xs ++ (0 ∷ []) ≡ wire xs
flat-wire [] = refl
flat-wire (x ∷ xs) =
    ap (λ l. length x ∷ l) (append_assoc x (flat xs) (0 ∷ []) ∙ ap (λ l. x ++ l) (flat-wire xs))

All-snoc :
    (xs : List (List ℕ)) (x : List ℕ)
    → All IsLabelText xs
    → IsLabelText x
    → All IsLabelText (xs ++ (x ∷ []))
All-snoc [] x l p = (p, tt)
All-snoc (y ∷ ys) x (q, l) p = (q, All-snoc ys x l p)

-- What the loop copied, when it reached the root label, is labels.
abbrev pub Copied : Buffer → Bool × ℕ × List ℕ → Type 0
Copied b (root, src, dst) =
    root ≡ true
    → (ys : List (List ℕ)) × (dst ++ (get_or b.bytes src 0 ∷ []) ≡ wire ys) × All IsLabelText ys

one_label :
    (d : List ℕ) (src : ℕ)
    → src < length d
    → take (get_or d src 0 + 1) (drop src d)
      ≡ get_or d src 0 ∷ take (get_or d src 0) (drop (src + 1) d)
one_label d src h =
    let n = get_or d src 0 in
    let k : n + 1 ≡ 1 + n = omega arith in
    ap (λ m. take m (drop src d)) k
    ∙ sym (take-append-take-drop 1 n (drop src d))
    ∙ ap (λ l. l ++ take n (drop 1 (drop src d))) (take_one-drop src d 0 h)
    ∙ ap (λ l. n ∷ take n l) (sym (drop-add src 1 d))

pub peek_lem :
    {b : Buffer} → IsValid b → (at : ℕ) → at < b.limit → peek b at ≡ done (get_or b.bytes at 0)
unfolding peek
peek_lem {b} v at h =
    let inside : ltb at (length b.bytes) ≡ true = lt→ltb _ _ (omega (arith, v, h)) in rw inside refl

pub copy_labels-Copied :
    (fuel : ℕ) {b : Buffer} (start src : ℕ) (dst : List ℕ) (xs : List (List ℕ))
    → IsValid b
    → src < b.limit
    → dst ≡ flat xs
    → All IsLabelText xs
    → b.limit - src < fuel
    → Returns (Copied b) (copy_labels fuel b start src dst)
unfolding copy_labels
copy_labels-Copied zero start src dst xs v i e l f = absurd (omega arith)
copy_labels-Copied (suc fuel) {b} start src dst xs v i e l f =
    let n = get_or b.bytes src 0 in
    let here = peek_lem v src (omega (arith, v, i)) in
    rw here (elim (Bool-cases (n == 0)) [
      | inl z ↦
          let zero_octet : n ≡ 0 = ground (arith, z) in
          rw (Returns, z)
            (λ r. (
              xs,
              ap (λ k. dst ++ (k ∷ [])) zero_octet ∙ ap (λ k. k ++ (0 ∷ [])) e ∙ flat-wire xs,
              l,
            ))
      | inr z ↦
          elim (Bool-cases (
            not (bit_and n 0xc0 == 0)
            || ltb b.limit (src + n + 2)
            || ltb (start + max_domain_len) (src + n + 2))) [
              | inl g ↦ rw (Returns, z, g) (λ r. cc r)
              | inr g ↦
                  let x = take n (drop (src + 1) b.bytes) in
                  let room : src + n + 2 ≤ b.limit = ground (arith, g) in
                  let normal : bit_and n 0xc0 ≡ 0 = ground (arith, g) in
                  let some_octets : 0 < n = ground (arith, z) in
                  let size : length x ≡ n = omega (
                    arith,
                    length-take n (drop (src + 1) b.bytes),
                    length-drop (src + 1) b.bytes,
                    v,
                    room,
                  ) in
                  let more : dst ++ take (n + 1) (drop src b.bytes) ≡ flat (xs ++ (x ∷ [])) =
                    ap (λ k. k ++ take (n + 1) (drop src b.bytes)) e
                    ∙ ap (λ k. flat xs ++ k) (one_label b.bytes src (omega (arith, v, i)))
                    ∙ ap (λ k. flat xs ++ (k ∷ x)) (sym size)
                    ∙ sym (flat-snoc xs x) in
                  rw (Returns, z, g)
                    (copy_labels-Copied fuel start (src + n + 1)
                      (dst ++ take (n + 1) (drop src b.bytes)) (xs ++ (x ∷ [])) v
                      (omega (arith, room)) more
                      (All-snoc xs x l
                        (omega (arith, size, some_octets), ap (λ m. bit_and m 0xc0) size ∙ normal))
                      (omega (arith, room, f)))
            ]
    ])
