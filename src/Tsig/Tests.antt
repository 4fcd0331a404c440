-- ===== src/Tsig/Tests.antt =====
-- Runs over a message that ends in a TSIG record, and the theorems at it.
use nsd_old.Base.{
  ℕ, ◌+◌, ◌≤◌, ◌≡◌, ◌≢◌, ◌↔◌, refl, true, none, some, List, [], ◌∷◌, ◌++◌, arith, ltb, done,
  Returns,
}
use nsd_old.Buffer.{Buffer, be16, be32}
use nsd_old.Dname.Name.{
  Name, dname_compare, compare_loop, compare_at, dname_label, label_compare, label_length, at,
  memcmp,
}
use nsd_old.Tsig.{TsigStatus, Key, Algorithm, Tsig, tsig_strlowercmp, tsig_parse_rr, tsig_find_rr}
use nsd_old.Dname.Make.{tolower}
use nsd_old.Tsig.Table.{
  no_algorithms, added, tsig_add_algorithm, has_name, tsig_get_algorithm_by_name, LookedUp,
  tsig_get_algorithm_by_name-fits,
}
use nsd_old.Tsig.Parse.{Parsed, tsig_parse_rr-Parsed}
use nsd_old.Tsig.Find.{Found, tsig_find_rr-Found}
use nsd_old.Tsig.Send.{octets_of, name_space, tsig_append_rr, tsig_reserved_space}
use nsd_old.Tsig.Send.Space.{Appended, tsig_append_rr-Appended}
use nsd_old.Tsig.Auth.{
  name_octets, deref, digest_octets, find_algorithm, same_octets, tsig_sign, tsig_verify,
  tsig_from_query,
}
use nsd_old.Tsig.Auth.Mac.{timed, signed, tsig_verify-digest, tsig_sign-tsig_verify}
use nsd_old.Tsig.Auth.Window.{signed_time, tsig_from_query-window}

-- The names `k.` and `m.`
abbrev key_name : Name
key_name = record {
  name_size = 3;
  label_count = 2;
  label_offsets = 2 ∷ 0 ∷ [];
  octets = 1 ∷ b'k' ∷ 0 ∷ [];
}

abbrev algorithm_name : Name
algorithm_name = record key_name { octets = 1 ∷ b'm' ∷ 0 ∷ [] }

abbrev key : Key
key = record { name = key_name; data_ = 5 ∷ [] }

-- A digest that keeps the secret and all octets.
abbrev algorithm : Algorithm
algorithm = record {
  short_name = b'm' ∷ [];
  wireformat_name = algorithm_name;
  maximum_digest_size = 64;
  digest = λ k d. k.data_ ++ d;
}

abbrev fresh : Tsig
fresh = record {
  status = TsigStatus.tsig_not_present;
  position = 0;
  response_count = 0;
  updates_since_last_prepare = 0;
  context = none;
  algorithm = none;
  key = none;
  prior_mac_data = [];
  key_name = none;
  algorithm_name = none;
  signed_time_high = 0;
  signed_time_low = 0;
  signed_time_fudge = 0;
  mac_size = 0;
  mac_data = none;
  original_query_id = 0;
  error_code = 0;
  other_size = 0;
  other_data = none;
}

-- A header that counts one additional record, and the record of the key `k.`, signed at 1000 with
-- the fudge 300 and a MAC of two octets
abbrev octets : List ℕ
octets =
    1 ∷ 2 ∷ 0 ∷ 0 ∷ 0 ∷ 0 ∷ 0 ∷ 0 ∷ 0 ∷ 0 ∷ 0 ∷ 1 ∷ 1 ∷ b'K' ∷ 0 ∷ 0 ∷ 250 ∷ 0 ∷ 255 ∷ 0 ∷ 0 ∷ 0 ∷ 0
    ∷ 0 ∷ 21 ∷ 1 ∷ b'm' ∷ 0 ∷ 0 ∷ 0 ∷ 0 ∷ 0 ∷ 3 ∷ 232 ∷ 1 ∷ 44 ∷ 0 ∷ 2 ∷ 8 ∷ 9 ∷ 1 ∷ 2 ∷ 0 ∷ 0 ∷ 0
    ∷ 0 ∷ []

abbrev message : Buffer
message = record { bytes = octets; position = 0; limit = 46; capacity = 46; is_fixed = true }

abbrev at_record : Buffer
at_record = record message { position = 12 }

tsig_parse_rr-Parsed_example : Returns (Parsed at_record) (tsig_parse_rr fresh at_record)
tsig_parse_rr-Parsed_example =
    tsig_parse_rr-Parsed {b = at_record} fresh (omega arith) (omega arith)

tsig_find_rr-Found_example : Returns (Found message) (tsig_find_rr fresh message)
tsig_find_rr-Found_example =
    tsig_find_rr-Found {b = message} fresh (omega arith) (omega arith) (omega arith)

-- The record of the message as read
abbrev parsed : Tsig
parsed = record fresh {
  status = TsigStatus.tsig_ok;
  position = 12;
  key_name = some key_name;
  algorithm_name = some algorithm_name;
  signed_time_low = 1000;
  signed_time_fudge = 300;
  mac_size = 2;
  mac_data = some (8 ∷ 9 ∷ []);
  original_query_id = 258;
  other_data = some [];
}

-- A packet with 80 octets behind the position
abbrev space : Buffer
space = record message {
  bytes = octets ++ (octets ++ octets);
  position = 20;
  limit = 110;
  capacity = 138;
}

tsig_append_rr-Appended_example :
    Returns
      (λ c. Appended parsed space c × (c.position ≤ space.position + tsig_reserved_space 32 parsed))
      (tsig_append_rr parsed space)
unfolding tsig_reserved_space name_space
tsig_append_rr-Appended_example =
    tsig_append_rr-Appended 32 parsed {b = space} (omega arith) (omega arith)
      (record {
        key_stored = omega arith;
        algorithm_stored = omega arith;
        mac_stored = omega arith;
        other_stored = omega arith;
      })
      (λ e. cc e) (omega arith) (omega arith)

-- The record in use, after the octets of a message
abbrev opened : Tsig
opened = record parsed { context = some (key, 7 ∷ []); algorithm = some algorithm }

-- The octets of the variables
abbrev variables : List ℕ
variables =
    1 ∷ b'k' ∷ 0 ∷ 0 ∷ 255 ∷ 0 ∷ 0 ∷ 0 ∷ 0 ∷ 1 ∷ b'm' ∷ 0 ∷ 0 ∷ 0 ∷ 0 ∷ 0 ∷ 3 ∷ 232 ∷ 1 ∷ 44 ∷ 0 ∷ 0
    ∷ 0 ∷ 0 ∷ []

opened-variables : digest_octets opened (ltb 1 opened.response_count) ≡ done variables
unfolding digest_octets name_octets deref octets_of be16 be32
opened-variables = refl

tsig_verify-digest_example :
    Returns
      (λ r. (r.0 ≡ true) ↔ (8 ∷ 9 ∷ [] ≡ algorithm.digest key (7 ∷ [] ++ variables)))
      (tsig_verify opened)
tsig_verify-digest_example =
    tsig_verify-digest opened algorithm key (7 ∷ []) variables (8 ∷ 9 ∷ []) refl refl
      opened-variables refl refl

timed-variables : digest_octets (timed opened 1000) (ltb 1 opened.response_count) ≡ done variables
unfolding digest_octets name_octets deref octets_of be16 be32
timed-variables = refl

abbrev mac : List ℕ
mac = algorithm.digest key (7 ∷ [] ++ variables)

abbrev received : Tsig
received = record (signed opened 1000 key (7 ∷ [] ++ variables) mac) {
  context = some (key, 7 ∷ []);
}

tsig_sign-tsig_verify_example :
    (tsig_sign opened 1000 ≡ done (signed opened 1000 key (7 ∷ [] ++ variables) mac))
    × Returns (λ v. v.0 ≡ true) (tsig_verify received)
tsig_sign-tsig_verify_example =
    tsig_sign-tsig_verify opened received 1000 algorithm key (7 ∷ []) variables refl refl
      timed-variables
      (record {
        key_name = refl;
        algorithm_name = refl;
        signed_time_high = refl;
        signed_time_low = refl;
        signed_time_fudge = refl;
        error_code = refl;
        other_size = refl;
        other_data = refl;
        mac_size = refl;
        mac_data = refl;
      })
      refl refl refl (omega arith)

known : find_algorithm (algorithm ∷ []) algorithm_name ≡ done (some algorithm)
unfolding find_algorithm dname_compare compare_loop compare_at dname_label label_compare
    label_length at memcmp
known = refl

tsig_from_query-window_example :
    Returns
      (λ r. (r.0 ≡ true) ↔ (
        (some algorithm ≢ none)
        × (some key ≢ none)
        × (300 ≤ signed_time parsed)
        × (signed_time parsed ≤ 1100 + 300)
        × (1100 ≤ signed_time parsed + 300)))
      (tsig_from_query (λ n. some key) (algorithm ∷ []) parsed 1100)
tsig_from_query-window_example =
    tsig_from_query-window (λ n. some key) (algorithm ∷ []) parsed 1100 key_name algorithm_name
      (some algorithm)
      (record { high = omega arith; low = omega arith; fudge = omega arith; clock = omega arith })
      refl refl refl refl refl known

-- The short name `hmac-m`
abbrev hmac : Algorithm
hmac = record algorithm { short_name = b'h' ∷ b'm' ∷ b'a' ∷ b'c' ∷ b'-' ∷ b'm' ∷ [] }

abbrev other : Algorithm
other = record algorithm { short_name = b's' ∷ []; maximum_digest_size = 20 }

by_short_name :
    tsig_get_algorithm_by_name (added no_algorithms (hmac ∷ other ∷ [])).table (b'M' ∷ [])
    ≡ some hmac
unfolding tsig_get_algorithm_by_name tsig_add_algorithm has_name same_octets tsig_strlowercmp
    tolower
by_short_name = refl

tsig_get_algorithm_by_name-fits_example :
    LookedUp 64
      (b'M' ∷ [])
      (other ∷ hmac ∷ [])
      (tsig_get_algorithm_by_name (other ∷ hmac ∷ []) (b'M' ∷ []))
unfolding tsig_add_algorithm
tsig_get_algorithm_by_name-fits_example =
    tsig_get_algorithm_by_name-fits (hmac ∷ other ∷ []) (b'M' ∷ [])
