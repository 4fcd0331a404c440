-- ===== src/Tsig/Table.antt =====
-- tsig.c: the table of algorithms with the largest digest size, and the lookup by a short name.
use nsd_old.Base.{
  ℕ, ◌≤◌, ◌≡◌, refl, sym, ap, ◌↔◌, ◌++◌, inl, inr, Bool-cases, Bool, true, ◌&&◌, ◌||◌, Option, none,
  some, List, [], ◌∷◌, ltb, if◌then◌else◌, take, drop, arith,
}
use nsd_old.Dname.Name.{is_same}
use nsd_old.Tsig.{Algorithm, tsig_strlowercmp}
use nsd_old.Tsig.Auth.{same_octets}
use nsd_old.Tsig.Auth.Mac.{same_octets_iff}
use nsd_old.Tsig.Names.{hmac_prefix, tsig_strlowercmp_same, Denotes, tests-Denotes}

-- `tsig_algorithm_table`, the newest first, and `max_algo_digest_size`
pub record Algorithms : Type 0 where
  pub table : List Algorithm
  pub max_algo_digest_size : ℕ

-- Both as the program starts
abbrev pub no_algorithms : Algorithms
no_algorithms = record { table = []; max_algo_digest_size = 0 }

-- `tsig_add_algorithm`
unfoldable pub tsig_add_algorithm : Algorithms → Algorithm → Algorithms
tsig_add_algorithm t a = record {
  table = a ∷ t.table;
  max_algo_digest_size =
      if ltb t.max_algo_digest_size a.maximum_digest_size
      then a.maximum_digest_size
      else t.max_algo_digest_size;
}

-- The tests of one entry in `tsig_get_algorithm_by_name`
unfoldable pub has_name : List ℕ → Algorithm → Bool
has_name name a =
    is_same (tsig_strlowercmp name a.short_name)
    || (same_octets (b'h' ∷ b'm' ∷ b'a' ∷ b'c' ∷ b'-' ∷ []) (take 5 a.short_name)
        && is_same (tsig_strlowercmp name (drop 5 a.short_name)))

-- `tsig_get_algorithm_by_name`
unfoldable pub tsig_get_algorithm_by_name : List Algorithm → List ℕ → Option Algorithm
tsig_get_algorithm_by_name [] name = none
tsig_get_algorithm_by_name (a ∷ rest) name =
    let found = tsig_get_algorithm_by_name rest name in if has_name name a then some a else found

-- The algorithms that were added one by one
abbrev pub added : Algorithms → List Algorithm → Algorithms
added t [] = t
added t (a ∷ more) = added (tsig_add_algorithm t a) more

-- No algorithm of the table makes a longer digest than the largest.
abbrev pub IsBounded : ℕ → List Algorithm → Type 0
IsBounded most [] = Unit
IsBounded most (a ∷ rest) = (a.maximum_digest_size ≤ most) × IsBounded most rest

IsBounded-mono : (m n : ℕ) (t : List Algorithm) → m ≤ n → IsBounded m t → IsBounded n t
IsBounded-mono m n [] h k = tt
IsBounded-mono m n (a ∷ rest) h (p, k) = (omega (arith, h, p), IsBounded-mono m n rest h k)

tsig_add_algorithm-IsBounded :
    (t : Algorithms) (a : Algorithm)
    → IsBounded t.max_algo_digest_size t.table
    → IsBounded (tsig_add_algorithm t a).max_algo_digest_size (tsig_add_algorithm t a).table
unfolding tsig_add_algorithm
tsig_add_algorithm-IsBounded t a k =
    let most =
      if ltb t.max_algo_digest_size a.maximum_digest_size
      then a.maximum_digest_size
      else t.max_algo_digest_size in
    let old : t.max_algo_digest_size ≤ most = ground arith in
    let new : a.maximum_digest_size ≤ most = ground arith in
    (new, IsBounded-mono t.max_algo_digest_size most t.table old k)

added-IsBounded :
    (more : List Algorithm) (t : Algorithms)
    → IsBounded t.max_algo_digest_size t.table
    → IsBounded (added t more).max_algo_digest_size (added t more).table
added-IsBounded [] t k = k
added-IsBounded (a ∷ more) t k =
    added-IsBounded more (tsig_add_algorithm t a) (tsig_add_algorithm-IsBounded t a k)

-- `has_name` is what it means for a text to denote the algorithm.
has_name-Denotes :
    (name : List ℕ) (a : Algorithm) → (has_name name a ≡ true) ↔ Denotes name a.short_name
unfolding has_name
has_name-Denotes name a =
    let start = same_octets_iff hmac_prefix (take 5 a.short_name) in
    tests-Denotes name a.short_name (is_same (tsig_strlowercmp name a.short_name))
      (is_same (tsig_strlowercmp name (drop 5 a.short_name)))
      (same_octets hmac_prefix (take 5 a.short_name)) (tsig_strlowercmp_same name a.short_name)
      (tsig_strlowercmp_same name (drop 5 a.short_name))
      (λ h. sym (start.0 h), λ h. start.1 (sym h))

-- The text denotes no algorithm of the list.
abbrev pub Unknown : List ℕ → List Algorithm → Type 0
Unknown name [] = Unit
Unknown name (a ∷ rest) = (¬ Denotes name a.short_name) × Unknown name rest

-- The first algorithm of the table that the text denotes, with no larger digest size than `most`
abbrev pub LookedUp : ℕ → List ℕ → List Algorithm → Option Algorithm → Type 0
LookedUp most name t none = Unknown name t
LookedUp most name t (some b) =
    (newer : List Algorithm) × (older : List Algorithm) × (t ≡ newer ++ b ∷ older)
    × Unknown name newer
    × Denotes name b.short_name
    × (b.maximum_digest_size ≤ most)

-- The entry at hand is passed over.
behind-LookedUp :
    (most : ℕ) (name : List ℕ) (a : Algorithm) (rest : List Algorithm) (found : Option Algorithm)
    → ¬ Denotes name a.short_name
    → LookedUp most name rest found
    → LookedUp most name (a ∷ rest) found
behind-LookedUp most name a rest none u k = (u, k)
behind-LookedUp most name a rest (some b) u (newer, older, e, k, d, fits) =
    (a ∷ newer, older, ap (λ l. a ∷ l) e, (u, k), d, fits)

found-LookedUp :
    (most : ℕ) (t : List Algorithm) (name : List ℕ)
    → IsBounded most t
    → LookedUp most name t (tsig_get_algorithm_by_name t name)
unfolding tsig_get_algorithm_by_name
found-LookedUp most [] name k = tt
found-LookedUp most (a ∷ rest) name (p, k) =
    let behind = found-LookedUp most rest name k in
    let iff = has_name-Denotes name a in
    elim (Bool-cases (has_name name a)) [
      | inl e ↦ rw e ([], rest, refl, tt, iff.0 e, p)
      | inr e ↦ rw e (
          behind-LookedUp most name a rest (tsig_get_algorithm_by_name rest name)
            (λ d. cc (iff.1 d, e)) behind)
    ]

-- Whatever algorithms were added, in any order, `tsig_get_algorithm_by_name` returns the first of the
-- table whose short name is the name asked for, in upper or lower case, whole or without a leading
-- `hmac-`, and none only if there is no such algorithm. The `maximum_digest_size` that this algorithm
-- declares is at most `max_algo_digest_size`, the room that `tsig_reserved_space` keeps for a digest.
pub tsig_get_algorithm_by_name-fits :
    (more : List Algorithm) (name : List ℕ)
    → LookedUp
        (added no_algorithms more).max_algo_digest_size
        name
        (added no_algorithms more).table
        (tsig_get_algorithm_by_name (added no_algorithms more).table name)
tsig_get_algorithm_by_name-fits more name =
    found-LookedUp (added no_algorithms more).max_algo_digest_size (added no_algorithms more).table
      name (added-IsBounded more no_algorithms tt)
