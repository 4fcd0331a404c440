-- ===== src/Acl/Range.antt =====
-- Address ranges: `acl_addr_match_range` compares addresses as numbers of several words.
use nsd_old.Base.{
  Comparison, after, compare_num, lex, ℕ, ◌≡◌, ◌≢◌, ◌↔◌, Bool, true, false, not, ◌&&◌, ◌||◌, List,
  [], ◌∷◌, length, arith, ◌==◌,
}
use nsd_old.Acl.{match_range, acl_addr_match_range}

abbrev not_after : Comparison → Bool
not_after after = false
not_after _ = true

match_range_lem :
    (checkmin checkmax : Bool) (mins xs maxs : List ℕ)
    → length mins ≡ length xs
    → length maxs ≡ length xs
    → match_range checkmin checkmax mins xs maxs
      ≡ (not checkmin || not_after (lex compare_num mins xs))
        && (not checkmax || not_after (lex compare_num xs maxs))
unfolding match_range lex
match_range_lem c d [] [] [] p q = ground arith
match_range_lem c d [] [] (z ∷ zs) p q = absurd (omega (arith, q))
match_range_lem c d [] (y ∷ ys) zs p q = absurd (omega (arith, p))
match_range_lem c d (x ∷ xs) [] zs p q = absurd (omega (arith, p))
match_range_lem c d (x ∷ xs) (y ∷ ys) [] p q = absurd (omega (arith, q))
match_range_lem c d (x ∷ xs) (y ∷ ys) (z ∷ zs) p q = ground (
  arith,
  match_range_lem (c && x == y) (d && z == y) xs ys zs (omega (arith, p)) (omega (arith, q)),
)

-- `acl_addr_match_range` holds exactly of the addresses from `minval` to `maxval`, both included, where
-- addresses of as many words compare by the first word that differs, and words as the host reads them.
pub acl_addr_match_range-between :
    (minval x maxval : List ℕ)
    → length minval ≡ length x
    → length maxval ≡ length x
    → (acl_addr_match_range minval x maxval ≡ true)
      ↔ ((lex compare_num minval x ≢ after) × (lex compare_num x maxval ≢ after))
unfolding acl_addr_match_range
acl_addr_match_range-between minval x maxval p q =
    rw (match_range_lem true true minval x maxval p q) (
      (λ h. (λ a. ground (arith, h, a), λ a. ground (arith, h, a)), λ (a, b). ground (arith, a, b)))
