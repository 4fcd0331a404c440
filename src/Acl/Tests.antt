-- ===== src/Acl/Tests.antt =====
-- Runs over a list of two elements, and the theorems at concrete elements and queries.
use nsd_old.Base.{
  after, compare_num, lex, ℕ, ◌≡◌, ◌≢◌, ◌↔◌, refl, Bool, true, false, none, some, List, [], ◌∷◌,
  done, arith,
}
use nsd_old.Dname.Name.{Name}
use nsd_old.Dname.Make.{tolower}
use nsd_old.Tsig.{TsigStatus, tsig_strlowercmp}
use nsd_old.Dname.Name.Labels.{Labels, IsName}
use nsd_old.Acl.{
  RangeType, KeyOptions, Acl, Query, acl_addr_match_mask, acl_addr_match_range, same_words,
  acl_addr_matches_host, acl_addr_matches, is_absent, acl_key_matches, acl_matches, reason_of,
  check_loop, acl_check_incoming, same_algorithm, starts_with,
}
use nsd_old.Acl.Range.{acl_addr_match_range-between}
use nsd_old.Tsig.Names.{Denotes}
use nsd_old.Acl.Key.{acl_key_matches-verified}
use nsd_old.Acl.Check.{Decides, first_blocked, first_matching, acl_check_incoming-decision}

-- The key name `a.`
abbrev name : Name
name = record {
  name_size = 3;
  label_count = 2;
  label_offsets = 2 ∷ 0 ∷ [];
  octets = 1 ∷ b'a' ∷ 0 ∷ [];
}

abbrev label : List ℕ
label = b'a' ∷ []

name-IsName : IsName name (label ∷ [])
name-IsName =
    Labels.one_more {i = 1} {x = label}
      (record {
        counted = omega arith;
        listed = omega arith;
        inside = omega arith;
        normal = refl;
        stands = (omega arith, refl, (omega arith, refl, tt));
      })
      (Labels.no_more refl)

abbrev keys : KeyOptions
keys = record { algorithm = b'm' ∷ b'd' ∷ b'5' ∷ []; tsig_key = some name }

-- 192.0.2.0/24 without a key
abbrev subnet : Acl
subnet = record {
  is_ipv6 = false;
  port = 0;
  addr = 0xc0000200 ∷ [];
  range_mask = 0xffffff00 ∷ [];
  rangetype = RangeType.subnet;
  nokey = true;
  blocked = false;
  key_options = keys;
}

-- 192.0.2.7 BLOCKED
abbrev bad_host : Acl
bad_host = record subnet {
  addr = 0xc0000207 ∷ [];
  rangetype = RangeType.single;
  nokey = false;
  blocked = true;
}

-- A query from 192.0.2.5 with a TSIG under the key `a.`, of `HMAC-MD5`
abbrev signed : Query
signed = record {
  is_ipv6 = false;
  addr = 0xc0000205 ∷ [];
  port = 53;
  status = TsigStatus.tsig_ok;
  error_code = 0;
  key_name = name;
  short_name = b'h' ∷ b'm' ∷ b'a' ∷ b'c' ∷ b'-' ∷ b'M' ∷ b'D' ∷ b'5' ∷ [];
}

abbrev unsigned : Query
unsigned = record signed { status = TsigStatus.tsig_not_present }

abbrev from_bad_host : Query
from_bad_host = record unsigned { addr = 0xc0000207 ∷ [] }

prefixed_algorithm : same_algorithm signed.short_name keys.algorithm ≡ true
unfolding same_algorithm tsig_strlowercmp tolower starts_with
prefixed_algorithm = refl

blocked_later :
    acl_check_incoming (subnet ∷ bad_host ∷ []) from_bad_host ≡ done (none, some bad_host)
unfolding acl_check_incoming check_loop acl_matches acl_addr_matches acl_addr_matches_host
    acl_addr_match_mask same_words acl_key_matches is_absent
blocked_later = refl

abbrev matching : Acl → Bool
matching a = acl_addr_match_mask a.addr unsigned.addr a.range_mask

one-Decides : Decides matching unsigned (subnet ∷ [])
unfolding acl_matches acl_addr_matches acl_addr_matches_host acl_addr_match_mask acl_key_matches
    is_absent
one-Decides = (refl, tt)

acl_check_incoming-decision_example :
    ((b : Acl)
      → first_blocked matching (subnet ∷ []) ≡ some b
      → acl_check_incoming (subnet ∷ []) unsigned ≡ done (none, some b))
    × (first_blocked matching (subnet ∷ []) ≡ none
        → acl_check_incoming (subnet ∷ []) unsigned
          ≡ done (
            first_matching matching 0 (subnet ∷ []),
            reason_of (first_matching matching 0 (subnet ∷ [])),
          ))
acl_check_incoming-decision_example =
    acl_check_incoming-decision matching (subnet ∷ []) unsigned one-Decides

acl_addr_match_range-between_example :
    (acl_addr_match_range (1 ∷ 5 ∷ []) (2 ∷ 3 ∷ []) (2 ∷ 4 ∷ []) ≡ true) ↔ (
      (lex compare_num (1 ∷ 5 ∷ []) (2 ∷ 3 ∷ []) ≢ after)
      × (lex compare_num (2 ∷ 3 ∷ []) (2 ∷ 4 ∷ []) ≢ after))
acl_addr_match_range-between_example =
    acl_addr_match_range-between (1 ∷ 5 ∷ []) (2 ∷ 3 ∷ []) (2 ∷ 4 ∷ []) refl refl

acl_key_matches-verified_example :
    (acl_key_matches (record subnet { nokey = false }) signed ≡ done true) ↔ (
      (signed.status ≡ TsigStatus.tsig_ok)
      × (signed.error_code ≡ 0)
      × (label ∷ [] ≡ label ∷ [])
      × Denotes keys.algorithm signed.short_name)
acl_key_matches-verified_example =
    acl_key_matches-verified (record subnet { nokey = false }) signed name (label ∷ []) (label ∷ [])
      refl refl refl name-IsName name-IsName
