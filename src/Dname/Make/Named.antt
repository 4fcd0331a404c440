-- ===== src/Dname/Make/Named.antt =====
-- `dname_make` builds the name of the labels that the wire format lists, and
-- `dname_make_from_packet` that of the labels that a packet spells.
use mathlib.Core.List.{reverse, reverse_aux, append-nil}
use nsd_old.Base.{
  ℕ, suc, ◌+◌, ◌-◌, ◌/◌, ◌≤◌, ◌<◌, ◌≡◌, refl, sym, ap, ◌∙◌, Bool, true, false, some, List, [], ◌∷◌,
  ◌++◌, map, All, length, get_or, drop, drop-cons, length-map, length-append, leb, ltb, done, arith,
}
use nsd_old.Packet.{max_domain_len}
use nsd_old.Dname.Name.{Name}
use nsd_old.Dname.Name.Labels.{Stands, IsLabel, Labels, IsName}
use nsd_old.Dname.Make.{swap_loop, dname_make, tolower}
use nsd_old.Dname.Make.Wire.{
  IsLabelText, wire, starts, kept, length-wire, length-le-wire, behind_label, make_loop-wire,
  copy_name-wire,
}
use nsd_old.Dname.Make.Reverse.{swap_loop-reversed}

drop-Stands : (d : List ℕ) (i : ℕ) (xs rest : List ℕ) → drop i d ≡ xs ++ rest → Stands d i xs
drop-Stands d i [] rest e = tt
drop-Stands d i (x ∷ xs) rest e =
    let (lt, g, r) = drop-cons i d x 0 (xs ++ rest) e in (lt, g, drop-Stands d (i + 1) xs rest r)

kept-IsLabelText :
    (normalize : Bool) (xs : List (List ℕ))
    → All IsLabelText xs
    → All IsLabelText (kept normalize xs)
kept-IsLabelText false xs l = l
kept-IsLabelText true [] l = tt
kept-IsLabelText true (x ∷ xs) ((p, q), l) =
    let n = length-map tolower x in ((rw n p, rw n q), kept-IsLabelText true xs l)

starts-kept :
    (normalize : Bool) (i : ℕ) (xs : List (List ℕ)) → starts i (kept normalize xs) ≡ starts i xs
starts-kept false i xs = refl
starts-kept true i [] = refl
starts-kept true i (x ∷ xs) =
    rw (length-map tolower x) (ap (λ l. i ∷ l) (starts-kept true (i + length x + 1) xs))

pub length-wire_kept :
    (normalize : Bool) (xs : List (List ℕ)) → length (wire (kept normalize xs)) ≡ length (wire xs)
length-wire_kept false xs = refl
length-wire_kept true [] = refl
length-wire_kept true (x ∷ xs) = omega (
  arith,
  length-wire (map tolower x) (map (map tolower) xs),
  length-wire x xs,
  length-map tolower x,
  length-wire_kept true xs,
)

length-kept : (normalize : Bool) (xs : List (List ℕ)) → length (kept normalize xs) ≡ length xs
length-kept false xs = refl
length-kept true xs = length-map (map tolower) xs

length-starts : (i : ℕ) (xs : List (List ℕ)) → length (starts i xs) ≡ length xs + 1
length-starts i [] = refl
length-starts i (x ∷ xs) = omega (arith, length-starts (i + length x + 1) xs)

-- The labels from the `j`-th on, which start at the octet `i`, come in front of those before them.
module _ (n : Name) (offsets : List ℕ) (count : n.label_count ≡ length offsets)
    (listed : length n.label_offsets ≡ length offsets)
    (reversed : (j : ℕ)
      → j < length offsets
      → get_or n.label_offsets j 0 ≡ get_or offsets (length offsets - j - 1) 0)
    (size : n.name_size ≡ length n.octets) where
  in_front :
      (xs : List (List ℕ)) (j i : ℕ) (seen : List (List ℕ))
      → drop j offsets ≡ starts i xs
      → drop i n.octets ≡ wire xs
      → All IsLabelText xs
      → j + length xs + 1 ≡ length offsets
      → Labels n (length xs + 1) seen
      → Labels n 1 (reverse_aux xs seen)
  in_front [] j i seen e w l k r = r
  in_front (x ∷ xs) j i seen e w ((p, q), l) k r =
      let (lj, gj, rj) = drop-cons j offsets i 0 (starts (i + length x + 1) xs) e in
      let w' : drop i n.octets ≡ wire (x ∷ xs) ++ [] = w ∙ sym (append-nil (wire (x ∷ xs))) in
      let (li, gi, ri, next) = behind_label n.octets i x xs [] w' in
      let index : length offsets - (length xs + 1) - 1 ≡ j = omega (arith, k) in
      let place : get_or n.label_offsets (length xs + 1) 0 ≡ i =
        reversed (length xs + 1) (omega (arith, k)) ∙ ap (λ m. get_or offsets m 0) index ∙ gj in
      let more : length xs + 1 + 1 ≡ suc (length xs) + 1 = omega arith in
      let label : IsLabel n (length xs + 1) x = record {
        counted = omega (arith, count, k);
        listed = omega (arith, listed, k);
        inside = omega (arith, place, size, li);
        normal = q;
        stands = rw place (drop-Stands n.octets i (length x ∷ x) (wire xs) w);
      } in
      in_front xs (j + 1) (i + length x + 1) (x ∷ seen) rj (next ∙ append-nil (wire xs)) l
        (omega (arith, k)) (Labels.one_more label (rw more r))

-- What `dname_make` leaves for labels in the wire format.
pub record IsMade (normalize : Bool) (xs : List (List ℕ)) (n : Name) : Type 0 where
  pub named : IsName n (reverse (kept normalize xs))
  pub stored : n.octets ≡ wire (kept normalize xs)
  pub size : n.name_size ≡ length (wire xs)
  pub counted : n.label_count ≡ length xs + 1

-- The name that `dname_make` allocates.
abbrev made : Bool → List (List ℕ) → Name
made normalize xs = record {
  name_size = length (wire xs);
  label_count = length (starts 0 xs);
  label_offsets = swap_loop (length (starts 0 xs) / 2) 0 (length (starts 0 xs)) (starts 0 xs);
  octets = wire (kept normalize xs);
}

made-IsMade :
    (normalize : Bool) (xs : List (List ℕ))
    → All IsLabelText xs
    → IsMade normalize xs (made normalize xs)
made-IsMade normalize xs l = record {
  named =
      in_front (made normalize xs) (starts 0 xs) refl listed reversed
        (sym (length-wire_kept normalize xs)) (kept normalize xs) 0 0 []
        (sym (starts-kept normalize 0 xs)) refl (kept-IsLabelText normalize xs l)
        (omega (arith, count)) (Labels.no_more count);
  stored = refl;
  size = refl;
  counted = length-starts 0 xs;
}
  where
    listed : length (made normalize xs).label_offsets ≡ length (starts 0 xs)
    listed = (swap_loop-reversed (starts 0 xs)).0

    reversed :
        (j : ℕ)
        → j < length (starts 0 xs)
        → get_or (made normalize xs).label_offsets j 0
          ≡ get_or (starts 0 xs) (length (starts 0 xs) - j - 1) 0
    reversed = (swap_loop-reversed (starts 0 xs)).1

    count : length (kept normalize xs) + 1 ≡ length (starts 0 xs)
    count = omega (arith, length-kept normalize xs, length-starts 0 xs)

half-wire : (xs : List (List ℕ)) → All IsLabelText xs → length xs + length xs + 1 ≤ length (wire xs)
half-wire [] l = omega arith
half-wire (x ∷ xs) ((p, q), l) = omega (arith, length-wire x xs, half-wire xs l, p)

-- `dname_make` of labels in the wire format, of at most MAXDOMAINLEN octets, makes the name of these
-- labels, the most significant first, whatever octets follow; with `normalize` their letters are in
-- lower case.
pub dname_make-IsMade :
    (normalize : Bool) (xs : List (List ℕ)) (rest : List ℕ)
    → All IsLabelText xs
    → length (wire xs) ≤ max_domain_len
    → (n : Name) × (dname_make (wire xs ++ rest) normalize ≡ done (some n)) × IsMade normalize xs n
unfolding dname_make
dname_make-IsMade normalize xs rest l h =
    let walk =
      make_loop-wire (length (wire xs ++ rest) + 1) (wire xs ++ rest) 0 [] 0 xs rest refl l
        (omega (arith, h)) (omega arith)
        (omega (arith, length-le-wire xs, length-append (wire xs) rest)) in
    let copy = copy_name-wire normalize xs rest l in
    let total : 0 + length (wire xs) ≡ length (wire xs) = omega arith in
    let short : ltb max_domain_len (length (wire xs)) ≡ false = ground (arith, h) in
    let few : leb (length (starts 0 xs)) (max_domain_len / 2 + 1) ≡ true =
      ground (arith, length-starts 0 xs, half-wire xs l, h) in
    (made normalize xs, rw (walk, total, short, few, copy) refl, made-IsMade normalize xs l)
