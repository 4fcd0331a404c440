-- ===== src/Acl.antt =====
-- options.c: access control lists, which a query is checked against by address and key. An address is
-- the list of its 32-bit words as the host reads them, one for IPv4 and four for IPv6. Log messages
-- are left out.
pub mod Range
pub mod Key
pub mod Check
mod Tests
use Prim.Native.Nat.{bit_and}
use nsd_old.Base.{
  Comparison, before, same, after, compare_num, ℕ, suc, ◌+◌, Bool, true, false, not, ◌&&◌, ◌||◌,
  Option, none, some, List, [], ◌∷◌, leb, ltb, ◌==◌, if◌then◌else◌, drop, Outcome, done, ◌>>=◌,
}
use nsd_old.Tsig.{TsigStatus, tsig_strlowercmp}
use nsd_old.Dname.Name.{Name, dname_compare, is_same}

-- The `rangetype` of `struct acl_options`
pub data RangeType : Type 0 where
  single mask subnet minmax : RangeType

-- `struct key_options`, with the name of its `tsig_key`, if that is set
pub record KeyOptions : Type 0 where
  pub algorithm : List ℕ
  pub tsig_key : Option Name

-- `struct acl_options`; the list that `next` makes is a list.
pub record Acl : Type 0 where
  pub is_ipv6 : Bool
  pub port : ℕ
  pub addr : List ℕ
  pub range_mask : List ℕ
  pub rangetype : RangeType
  pub nokey : Bool
  pub blocked : Bool
  pub key_options : KeyOptions

-- What is read of `struct query` and its TSIG record
pub record Query : Type 0 where
  pub is_ipv6 : Bool
  pub addr : List ℕ
  pub port : ℕ
  pub status : TsigStatus
  pub error_code : ℕ
  pub key_name : Name
  pub short_name : List ℕ

-- `memcmp` of two addresses of one family is 0.
pub same_words : List ℕ → List ℕ → Bool
same_words [] [] = true
same_words (x ∷ xs) (y ∷ ys) = x == y && same_words xs ys
same_words [] (y ∷ ys) = false
same_words (x ∷ xs) [] = false

-- `acl_addr_match_mask`
pub acl_addr_match_mask : List ℕ → List ℕ → List ℕ → Bool
acl_addr_match_mask (a ∷ xs) (b ∷ ys) (m ∷ ms) =
    let rest = acl_addr_match_mask xs ys ms in
    if not (bit_and a m == bit_and b m) then false else rest
acl_addr_match_mask _ _ _ = true

-- The loop of `acl_addr_match_range`
pub match_range : Bool → Bool → List ℕ → List ℕ → List ℕ → Bool
match_range checkmin checkmax (minval ∷ mins) (x ∷ xs) (maxval ∷ maxs) =
    let checkmin' = checkmin && minval == x in
    let checkmax' = checkmax && maxval == x in
    let rest = match_range checkmin' checkmax' mins xs maxs in
    if checkmin && ltb x minval
    then false
    else if checkmax && ltb maxval x
    then false
    else if not checkmin' && not checkmax'
    then true
    else rest
match_range _ _ _ _ _ = true

-- `acl_addr_match_range`
pub acl_addr_match_range : List ℕ → List ℕ → List ℕ → Bool
acl_addr_match_range minval x maxval = match_range true true minval x maxval

-- `acl_addr_matches_ipv4host` and `acl_addr_matches_ipv6host`
pub acl_addr_matches_host : Acl → List ℕ → ℕ → Bool
acl_addr_matches_host acl addr port =
    if not (acl.port == 0) && not (acl.port == port) then false else elim acl.rangetype [
      | single ↦ same_words addr acl.addr
      | minmax ↦ acl_addr_match_range acl.addr addr acl.range_mask
      | _ ↦ acl_addr_match_mask acl.addr addr acl.range_mask
    ]

abbrev pub same_family : Bool → Bool → Bool
same_family true b = b
same_family false b = not b

-- `acl_addr_matches`
pub acl_addr_matches : Acl → Query → Bool
acl_addr_matches acl q =
    if same_family acl.is_ipv6 q.is_ipv6 then acl_addr_matches_host acl q.addr q.port else false

-- `strncmp(prefix, s, strlen(prefix)) == 0`
pub starts_with : List ℕ → List ℕ → Bool
starts_with [] s = true
starts_with (p ∷ ps) [] = false
starts_with (p ∷ ps) (c ∷ cs) = p == c && starts_with ps cs

-- The comparison of the algorithms at the end of `acl_key_matches`
pub same_algorithm : List ℕ → List ℕ → Bool
same_algorithm short_name algorithm =
    is_same (tsig_strlowercmp short_name algorithm)
    || (starts_with (b'h' ∷ b'm' ∷ b'a' ∷ b'c' ∷ b'-' ∷ []) short_name
        && is_same (tsig_strlowercmp (drop 5 short_name) algorithm))

-- `acl_key_matches`, for a list element that is not blocked and has a key: the key names are no equal
-- pointers.
pub tsig_matches : KeyOptions → Query → Outcome Bool
tsig_matches k q = elim q.status [
  | TsigStatus.tsig_ok ↦ if not (q.error_code == 0) then done false else elim k.tsig_key [
    | none ↦ done false
    | some name ↦ do
      c ← dname_compare false q.key_name name
      done (is_same c && same_algorithm q.short_name k.algorithm)
  ]
  | _ ↦ done false
]

pub is_absent : TsigStatus → Bool
is_absent TsigStatus.tsig_not_present = true
is_absent _ = false

-- `acl_key_matches`
pub acl_key_matches : Acl → Query → Outcome Bool
acl_key_matches acl q =
    if acl.blocked
    then done true
    else if acl.nokey
    then done (is_absent q.status)
    else tsig_matches acl.key_options q

-- The condition of the loop of `acl_check_incoming`
pub acl_matches : Acl → Query → Outcome Bool
acl_matches acl q = if acl_addr_matches acl q then acl_key_matches acl q else done false

-- `if(!match)`
abbrev pub first_match : Option (ℕ × Acl) → ℕ → Acl → Option (ℕ × Acl)
first_match none number acl = some (number, acl)
first_match (some m) number acl = some m

-- `*reason = match`
abbrev pub reason_of : Option (ℕ × Acl) → Option Acl
reason_of none = none
reason_of (some (n, m)) = some m

-- The loop of `acl_check_incoming`: the number of the element at hand, and the first match with its
-- number.
pub check_loop : ℕ → Option (ℕ × Acl) → List Acl → Query → Outcome (Option (ℕ × Acl) × Option Acl)
check_loop number match_ [] q = done (match_, reason_of match_)
check_loop number match_ (acl ∷ rest) q = do
  matches ← acl_matches acl q
  elim matches [
    | false ↦ check_loop (suc number) match_ rest q
    | true ↦ elim acl.blocked [
      | true ↦ done (none, some acl)
      | false ↦ check_loop (suc number) (first_match match_ number acl) rest q
    ]
  ]

-- `acl_check_incoming`: the number of the element that allows the query with that element, `none` for
-- -1, and `*reason`.
pub acl_check_incoming : List Acl → Query → Outcome (Option (ℕ × Acl) × Option Acl)
acl_check_incoming acl q = check_loop 0 none acl q
