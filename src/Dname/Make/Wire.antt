-- ===== src/Dname/Make/Wire.antt =====
-- The wire format of a list of labels, and the loops of `dname_make` over it.
use Prim.Native.Nat.{bit_and}
use mathlib.Core.Path.{ap₂}
use mathlib.Core.List.{append_assoc}
use nsd_old.Base.{
  ℕ, zero, suc, ◌+◌, ◌%◌, ◌≤◌, ◌<◌, ◌≡◌, refl, sym, ap, ◌∙◌, Bool, true, false, some, List, [], ◌∷◌,
  ◌++◌, map, All, length, get_or, take, drop, drop-cons, drop-append, drop-add, take-append,
  length-append, length-drop, length-map, done, arith,
}
use nsd_old.Packet.{max_domain_len}
use nsd_old.Dname.Name.{at, label_length}
use nsd_old.Dname.Make.{span, make_loop, normalize_loop, copy_name, tolower}

-- The labels of a name, as the wire format has them: some octets each, at most 63.
abbrev pub IsLabelText : List ℕ → Type 0
IsLabelText x = (0 < length x) × (bit_and (length x) 0xc0 ≡ 0)

-- The wire format: each label behind its length, and the root label.
abbrev pub wire : List (List ℕ) → List ℕ
wire [] = 0 ∷ []
wire (x ∷ xs) = length x ∷ (x ++ wire xs)

-- The offsets of the labels, the root label with them.
abbrev pub starts : ℕ → List (List ℕ) → List ℕ
starts i [] = i ∷ []
starts i (x ∷ xs) = i ∷ starts (i + length x + 1) xs

pub length-wire :
    (x : List ℕ) (xs : List (List ℕ)) → length (wire (x ∷ xs)) ≡ length x + 1 + length (wire xs)
length-wire x xs = omega (arith, length-append x (wire xs))

pub length-le-wire : (xs : List (List ℕ)) → length xs < length (wire xs)
length-le-wire [] = omega arith
length-le-wire (x ∷ xs) = omega (arith, length-wire x xs, length-le-wire xs)

-- What stands behind a label in the octets.
pub behind_label :
    (d : List ℕ) (i : ℕ) (x : List ℕ) (xs : List (List ℕ)) (rest : List ℕ)
    → drop i d ≡ wire (x ∷ xs) ++ rest
    → (i < length d)
      × (get_or d i 0 ≡ length x)
      × (drop (i + 1) d ≡ x ++ (wire xs ++ rest))
      × (drop (i + length x + 1) d ≡ wire xs ++ rest)
behind_label d i x xs rest e =
    let (lt, g, r) = drop-cons i d (length x) 0 ((x ++ wire xs) ++ rest) e in
    let r' : drop (i + 1) d ≡ x ++ (wire xs ++ rest) = r ∙ append_assoc x (wire xs) rest in
    let k : i + length x + 1 ≡ i + 1 + length x = omega arith in
    (
      lt,
      g,
      r',
      rw k (
          drop-add (i + 1) (length x) d
          ∙ ap (drop (length x)) r'
          ∙ drop-append x (wire xs ++ rest)),
    )

-- One round over a label.
make_loop-round :
    (fuel : ℕ) (d : List ℕ) (i : ℕ) (offsets : List ℕ) (name_size : ℕ) (x : List ℕ)
    → i < length d
    → get_or d i 0 ≡ length x
    → IsLabelText x
    → length offsets < max_domain_len
    → make_loop (suc fuel) d i offsets name_size
      ≡ make_loop fuel d (i + length x + 1) (offsets ++ (i % 256 ∷ [])) (name_size + (length x + 1))
unfolding make_loop at label_length
make_loop-round fuel d i offsets name_size x lt g (p, q) o = ground (arith, lt, g, p, q, o)

make_loop-last :
    (fuel : ℕ) (d : List ℕ) (i : ℕ) (offsets : List ℕ) (name_size : ℕ)
    → i < length d
    → get_or d i 0 ≡ 0
    → length offsets < max_domain_len
    → make_loop (suc fuel) d i offsets name_size
      ≡ done (some (offsets ++ (i % 256 ∷ []), name_size + 1))
unfolding make_loop at label_length
make_loop-last fuel d i offsets name_size lt g o = ground (arith, lt, g, o)

pub make_loop-wire :
    (fuel : ℕ) (d : List ℕ) (i : ℕ) (offsets : List ℕ) (name_size : ℕ) (xs : List (List ℕ))
    (rest : List ℕ)
    → drop i d ≡ wire xs ++ rest
    → All IsLabelText xs
    → i + length (wire xs) ≤ max_domain_len
    → length offsets ≤ i
    → length xs < fuel
    → make_loop fuel d i offsets name_size
      ≡ done (some (offsets ++ starts i xs, name_size + length (wire xs)))
make_loop-wire zero d i offsets name_size xs rest e l s o f = absurd (omega (arith, f))
make_loop-wire (suc fuel) d i offsets name_size [] rest e l s o f =
    let (lt, g, r) = drop-cons i d 0 0 rest e in
    let w : i % 256 ≡ i = omega (arith, s) in
    make_loop-last fuel d i offsets name_size lt g (omega (arith, s, o))
    ∙ ap (λ k. done (some (offsets ++ (k ∷ []), name_size + 1))) w
make_loop-wire (suc fuel) d i offsets name_size (x ∷ xs) rest e (p, l) s o f =
    let (lt, g, r, r') = behind_label d i x xs rest e in
    let n = length-wire x xs in
    let w : i % 256 ≡ i = omega (arith, s, n) in
    let total : name_size + (length x + 1) + length (wire xs) ≡ name_size + length (wire (x ∷ xs)) =
      omega (arith, n) in
    make_loop-round fuel d i offsets name_size x lt g p (omega (arith, s, o, n))
    ∙ make_loop-wire fuel d (i + length x + 1) (offsets ++ (i % 256 ∷ []))
        (name_size + (length x + 1)) xs rest r' l (omega (arith, s, n))
        (omega (arith, o, length-append offsets (i % 256 ∷ []))) (omega (arith, f))
    ∙ ap (λ k. done (some (k, name_size + (length x + 1) + length (wire xs))))
        (append_assoc offsets (i % 256 ∷ []) (starts (i + length x + 1) xs))
    ∙ ap₂ (λ k m. done (some (offsets ++ k ∷ starts (i + length x + 1) xs, m))) w total

-- One round of the loop that copies in lower case.
normalize_loop-round :
    (fuel : ℕ) (d : List ℕ) (i : ℕ) (x : List ℕ) (behind rest : List ℕ)
    → i < length d
    → get_or d i 0 ≡ length x
    → IsLabelText x
    → drop (i + 1) d ≡ x ++ behind
    → normalize_loop fuel d (i + length x + 1) ≡ done rest
    → normalize_loop (suc fuel) d i ≡ done (length x ∷ (map tolower x ++ rest))
unfolding normalize_loop at label_length span
normalize_loop-round fuel d i x behind rest lt g (p, q) e again =
    let whole : i + 1 + length x ≤ length d =
      omega (arith, length-drop (i + 1) d, ap length e, length-append x behind) in
    let t : take (length x) (drop (i + 1) d) ≡ x = ap (take (length x)) e ∙ take-append x behind in
    ground (arith, lt, g, p, q, again, whole, t)

normalize_loop-last :
    (fuel : ℕ) (d : List ℕ) (i : ℕ)
    → i < length d
    → get_or d i 0 ≡ 0
    → normalize_loop (suc fuel) d i ≡ done (0 ∷ [])
unfolding normalize_loop at
normalize_loop-last fuel d i lt g = ground (arith, lt, g)

normalize_loop-wire :
    (fuel : ℕ) (d : List ℕ) (i : ℕ) (xs : List (List ℕ)) (rest : List ℕ)
    → drop i d ≡ wire xs ++ rest
    → All IsLabelText xs
    → length xs < fuel
    → normalize_loop fuel d i ≡ done (wire (map (map tolower) xs))
normalize_loop-wire zero d i xs rest e l f = absurd (omega (arith, f))
normalize_loop-wire (suc fuel) d i [] rest e l f =
    let (lt, g, r) = drop-cons i d 0 0 rest e in normalize_loop-last fuel d i lt g
normalize_loop-wire (suc fuel) d i (x ∷ xs) rest e (p, l) f =
    let (lt, g, r, r') = behind_label d i x xs rest e in
    normalize_loop-round fuel d i x (wire xs ++ rest) (wire (map (map tolower) xs)) lt g p r
      (normalize_loop-wire fuel d (i + length x + 1) xs rest r' l (omega (arith, f)))
    ∙ ap (λ k. done (k ∷ (map tolower x ++ wire (map (map tolower) xs))))
        (sym (length-map tolower x))

-- The labels as `dname_make` keeps them.
abbrev pub kept : Bool → List (List ℕ) → List (List ℕ)
kept true xs = map (map tolower) xs
kept false xs = xs

pub copy_name-wire :
    (normalize : Bool) (xs : List (List ℕ)) (rest : List ℕ)
    → All IsLabelText xs
    → copy_name (wire xs ++ rest) normalize (length (wire xs)) ≡ done (wire (kept normalize xs))
unfolding copy_name span
copy_name-wire true xs rest l =
    normalize_loop-wire (length (wire xs ++ rest) + 1) (wire xs ++ rest) 0 xs rest refl l
      (omega (arith, length-le-wire xs, length-append (wire xs) rest))
copy_name-wire false xs rest l =
    ground (arith, length-append (wire xs) rest, take-append (wire xs) rest)
