-- ===== src/Query/Tests.antt =====
-- The theorems at a query for the name `A.`, and runs over it.
use nsd_old.Base.{
  inl, inr, ◌≡◌, refl, true, false, none, [], ◌∷◌, ◌++◌, ℕ, List, length, ◌+◌, arith, replicate,
  Returns,
}
use nsd_old.Buffer.{Buffer, read_uint16}
use nsd_old.Edns.{Status}
use nsd_old.Tsig.{TsigStatus, Tsig}
use nsd_old.Query.{
  NsdRc, QueryType, Nsd, Host, query_error, query_ratelimit_err, query_formerr,
  process_query_section,
}
use nsd_old.Query.Process.{query_process}
use nsd_old.Query.Error.{Erred, query_error-IsError}
use nsd_old.Query.Formerr.{Refused, query_formerr-Refused}
use nsd_old.Query.Question.{Questioned, process_query_section-Questioned}
use nsd_old.Query.Signature.{AreNamed}
use nsd_old.Dname.Name.{Name}
use nsd_old.Dname.Name.Labels.{Labels}
use nsd_old.Query.Decided.{Handled, query_process-Decided}

abbrev tsig : Tsig
tsig = record {
  status = TsigStatus.tsig_not_present;
  position = 0;
  response_count = 0;
  updates_since_last_prepare = 0;
  context = none;
  algorithm = none;
  key = none;
  prior_mac_data = [];
  key_name = none;
  algorithm_name = none;
  signed_time_high = 0;
  signed_time_low = 0;
  signed_time_fudge = 0;
  mac_size = 0;
  mac_data = none;
  original_query_id = 0;
  error_code = 0;
  other_size = 0;
  other_data = none;
}

-- A header with RD and one question, for `A.` of type A and class IN
abbrev packet : Buffer
packet = record {
  bytes =
      1 ∷ 2 ∷ 1 ∷ 0 ∷ 0 ∷ 1 ∷ 0 ∷ 0 ∷ 0 ∷ 0 ∷ 0 ∷ 0 ∷ 1 ∷ b'A' ∷ 0 ∷ 0 ∷ 1 ∷ 0 ∷ 1 ∷ replicate 11 7;
  position = 0;
  limit = 19;
  capacity = 30;
  is_fixed = true;
}

abbrev query : QueryType
query = record {
  packet = packet;
  maxlen = 512;
  reserved_space = 0;
  edns = record {
    status = Status.not_present;
    position = 0;
    maxlen = 0;
    opt_reserved_space = 0;
    dnssec_ok = 0;
    nsid = 0;
  };
  tsig = tsig;
  tcp = false;
  is_ipv6 = false;
  qname = none;
  qtype = 0;
  qclass = 0;
  opcode = 0;
}

abbrev nsd : Nsd
nsd = record {
  nsid_len = 0;
  ipv4_edns_size = 4096;
  ipv6_edns_size = 4096;
  err_limit_time = 5;
  err_limit_count = 100;
}

abbrev host : Host
host = record {
  tsig_find_key = λ n. none;
  tsig_algorithm_table = [];
  max_algo_digest_size = 64;
  current_time = 5;
}

last_error : query_ratelimit_err 5 nsd ≡ (false, record nsd { err_limit_count = 101 })
unfolding query_ratelimit_err
last_error = refl

limited :
    query_ratelimit_err 5 (record nsd { err_limit_count = 101 })
    ≡ (true, record nsd { err_limit_count = 102 })
unfolding query_ratelimit_err
limited = refl

next_second :
    query_ratelimit_err 6 (record nsd { err_limit_count = 102 })
    ≡ (false, record nsd { err_limit_time = 6; err_limit_count = 1 })
unfolding query_ratelimit_err
next_second = refl

query_error-IsError_example :
    Returns (Erred query NsdRc.rc_refuse) (query_error query NsdRc.rc_refuse)
query_error-IsError_example = query_error-IsError query NsdRc.rc_refuse (omega arith) (omega arith)

query_formerr-Refused_example :
    Returns (Refused 5 nsd packet NsdRc.rc_format) (query_formerr 5 query nsd)
query_formerr-Refused_example = query_formerr-Refused 5 query nsd (omega arith) (omega arith)

process_query_section-Questioned_example : Returns (Questioned query) (process_query_section query)
process_query_section-Questioned_example =
    process_query_section-Questioned query (omega arith) (omega arith) (omega arith)

-- The query with a record behind the question: OPT of 4096 octets, or TSIG
abbrev with_record : List ℕ → QueryType
with_record d = record query {
  packet = record {
    bytes =
        1
        ∷ 2
        ∷ 1
        ∷ 0
        ∷ 0
        ∷ 1
        ∷ 0
        ∷ 0
        ∷ 0
        ∷ 0
        ∷ 0
        ∷ 1
        ∷ 1
        ∷ b'A'
        ∷ 0
        ∷ 0
        ∷ 1
        ∷ 0
        ∷ 1
        ∷ (d ++ replicate 11 7);
    position = 0;
    limit = 19 + length d;
    capacity = 30 + length d;
    is_fixed = true;
  };
}

abbrev query_opt : QueryType
query_opt = with_record (0 ∷ 0 ∷ 41 ∷ 16 ∷ 0 ∷ 0 ∷ 0 ∷ 0 ∷ 0 ∷ 0 ∷ 0 ∷ [])

-- The name `m.`
abbrev algorithm_name : Name
algorithm_name = record {
  name_size = 3;
  label_count = 2;
  label_offsets = 2 ∷ 0 ∷ [];
  octets = 1 ∷ b'm' ∷ 0 ∷ [];
}

abbrev host_m : Host
host_m = record host {
  tsig_algorithm_table =
      record {
        short_name = b'm' ∷ [];
        wireformat_name = algorithm_name;
        maximum_digest_size = 64;
        digest = λ k d. d;
      }
      ∷ [];
}

host_m-AreNamed : AreNamed host_m.tsig_algorithm_table
host_m-AreNamed = (
  (
    (b'm' ∷ []) ∷ [],
    Labels.one_more {i = 1} {x = b'm' ∷ []}
        (record {
          counted = omega arith;
          listed = omega arith;
          inside = omega arith;
          normal = refl;
          stands = (omega arith, refl, (omega arith, refl, tt));
        })
        (Labels.no_more refl),
  ),
  tt,
)

query_process-Decided_example :
    Returns (Handled query_opt.packet host_m.current_time nsd) (query_process host_m nsd query_opt)
unfolding read_uint16
query_process-Decided_example =
    elim (query_process-Decided host_m nsd query_opt (omega arith) (omega arith) (omega arith)
      host_m-AreNamed refl refl refl refl) [
        | inl handled ↦ handled
        | inr misplaced ↦ absurd (omega (arith, misplaced.0))
      ]
