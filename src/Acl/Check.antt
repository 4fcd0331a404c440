-- ===== src/Acl/Check.antt =====
-- The decision of `acl_check_incoming` over the whole list.
use nsd_old.Base.{
  ℕ, suc, ◌≡◌, refl, ap, ◌∙◌, Bool, ◌&&◌, Option, none, some, List, [], ◌∷◌, done, arith,
  if◌then◌else◌,
}
use nsd_old.Acl.{Acl, Query, acl_matches, first_match, reason_of, check_loop, acl_check_incoming}

-- `m` says which elements of the list match the query.
abbrev pub Decides : (Acl → Bool) → Query → List Acl → Type 0
Decides m q [] = Unit
Decides m q (a ∷ rest) = (acl_matches a q ≡ done (m a)) × Decides m q rest

-- The first element that matches and is blocked
abbrev pub first_blocked : (Acl → Bool) → List Acl → Option Acl
first_blocked m [] = none
first_blocked m (a ∷ rest) = if m a && a.blocked then some a else first_blocked m rest

-- The first element that matches, with its number
abbrev pub first_matching : (Acl → Bool) → ℕ → List Acl → Option (ℕ × Acl)
first_matching m number [] = none
first_matching m number (a ∷ rest) =
    if m a then some (number, a) else first_matching m (suc number) rest

abbrev or_else : Option (ℕ × Acl) → Option (ℕ × Acl) → Option (ℕ × Acl)
or_else none y = y
or_else (some x) y = some x

abbrev decision : Option (ℕ × Acl) → Option Acl → Option (ℕ × Acl) × Option Acl
decision found none = (found, reason_of found)
decision found (some b) = (none, some b)

check_loop_lem :
    (m : Acl → Bool) (number : ℕ) (match_ : Option (ℕ × Acl)) (acl : List Acl) (q : Query)
    → Decides m q acl
    → check_loop number match_ acl q
      ≡ done (decision (or_else match_ (first_matching m number acl)) (first_blocked m acl))
unfolding check_loop
check_loop_lem m number none [] q d = refl
check_loop_lem m number (some x) [] q d = refl
check_loop_lem m number match_ (a ∷ rest) q (e, d) = ground (
  arith,
  e,
  check_loop_lem m (suc number) (first_match match_ number a) rest q d,
  check_loop_lem m (suc number) match_ rest q d,
)

-- If the match tests of all elements return, `acl_check_incoming` refuses a query that an element of
-- the list that is blocked matches, wherever that stands, and gives the first such element as the
-- reason. If none does, its result is the number of the first element that matches, counted from 0,
-- and that element is the reason; or -1 without a reason if no element matches.
pub acl_check_incoming-decision :
    (m : Acl → Bool) (acl : List Acl) (q : Query)
    → Decides m q acl
    → ((b : Acl) → first_blocked m acl ≡ some b → acl_check_incoming acl q ≡ done (none, some b))
      × (first_blocked m acl ≡ none
          → acl_check_incoming acl q
            ≡ done (first_matching m 0 acl, reason_of (first_matching m 0 acl)))
unfolding acl_check_incoming
acl_check_incoming-decision m acl q d = (
  λ b h. check_loop_lem m 0 none acl q d ∙ ap (λ x. done (decision (first_matching m 0 acl) x)) h,
  λ h. check_loop_lem m 0 none acl q d ∙ ap (λ x. done (decision (first_matching m 0 acl) x)) h,
)
