-- ===== src/Query.antt =====
-- query.c: what `query_process` does with a packet before the database is asked: the checks of the
-- header, the question, the additional section, the signature and EDNS, and the error answers. The
-- masks of packet.h are written as quotients and remainders of an octet.
pub mod Process
pub mod Error
pub mod Formerr
pub mod Copied
pub mod Question
pub mod Signature
pub mod Checked
pub mod Counted
pub mod Gathered
pub mod Prepared
pub mod Authenticated
pub mod Additional
pub mod Sections
pub mod Decided
mod Tests
use nsd_old.Base.{
  ℕ, zero, suc, ◌+◌, ◌-◌, ◌*◌, ◌/◌, ◌%◌, ◌^◌, Bool, true, false, not, ◌&&◌, ◌||◌, Option, none,
  some, List, [], ◌∷◌, leb, ltb, ◌==◌, if◌then◌else◌, length, get_or, overwrite, Outcome, done,
  fault, ◌>>=◌,
}
use nsd_old.Buffer.{Buffer, clear, read_u16_at, write_u16_at, set_position, set_limit}
use nsd_old.Packet.{
  header_size, class_in, qdcount, ancount, nscount, arcount, peek, skip_rr, read_query_section,
}
use nsd_old.Dname.Name.{Name}
use nsd_old.Dname.Make.{dname_make}
use nsd_old.Edns
use nsd_old.Edns.{Status, Record, init_record}
use nsd_old.Tsig.{TsigStatus, Key, Algorithm, Tsig, class_any, tsig_parse_rr}
use nsd_old.Tsig.Send.{tsig_reserved_space}
use nsd_old.Tsig.Auth.{
  tsig_init_record, qr, tsig_from_query, tsig_prepare, tsig_update, tsig_verify,
}

abbrev pub opcode_query : ℕ
opcode_query = 0

abbrev pub opcode_notify : ℕ
opcode_notify = 4

abbrev pub class_ch : ℕ
class_ch = 3

abbrev pub type_ixfr : ℕ
type_ixfr = 251

abbrev pub udp_max_message_len : ℕ
udp_max_message_len = 512

abbrev pub error_ratelimit : ℕ
error_ratelimit = 100

-- `nsd_rc_type`
pub data NsdRc : Type 0 where
  rc_discard rc_ok rc_format rc_servfail rc_nxdomain rc_impl rc_refuse rc_notauth : NsdRc

-- The number of the code; -1 as its 32-bit pattern
abbrev pub rc_number : NsdRc → ℕ
rc_number NsdRc.rc_discard = 2 ^ 32 - 1
rc_number NsdRc.rc_ok = 0
rc_number NsdRc.rc_format = 1
rc_number NsdRc.rc_servfail = 2
rc_number NsdRc.rc_nxdomain = 3
rc_number NsdRc.rc_impl = 4
rc_number NsdRc.rc_refuse = 5
rc_number NsdRc.rc_notauth = 9

-- `struct query`, the fields that these functions use
pub record QueryType : Type 0 where
  pub packet : Buffer
  pub maxlen : ℕ
  pub reserved_space : ℕ
  pub edns : Record
  pub tsig : Tsig
  pub tcp : Bool
  pub is_ipv6 : Bool
  pub qname : Option Name
  pub qtype : ℕ
  pub qclass : ℕ
  pub opcode : ℕ

-- `struct nsd`, the fields that these functions use
pub record Nsd : Type 0 where
  pub nsid_len : ℕ
  pub ipv4_edns_size : ℕ
  pub ipv6_edns_size : ℕ
  pub err_limit_time : ℕ
  pub err_limit_count : ℕ

-- What tsig.c and the C library give: keys, algorithms, `max_algo_digest_size` and the time.
pub record Host : Type 0 where
  pub tsig_find_key : Name → Option Key
  pub tsig_algorithm_table : List Algorithm
  pub max_algo_digest_size : ℕ
  pub current_time : ℕ

-- What `query_process` comes to: a result of its own, or the function that it calls next.
pub data Next : Type 0 where
  query_processed query_discarded answer_notify answer_chaos answer_query : Next

-- `*buffer_at(packet, at) = value`
unfoldable pub poke : Buffer → ℕ → ℕ → Outcome Buffer
poke b at value =
    if ltb at (length b.bytes)
    then done (record b { bytes = overwrite b.bytes at (value ∷ []) })
    else fault

-- `OPCODE(packet)`
unfoldable pub opcode_of : Buffer → Outcome ℕ
opcode_of b = do x ← peek b 2; done (x / 8 % 16)

-- `OPCODE_SET(packet, opcode)`
unfoldable pub opcode_set : Buffer → ℕ → Outcome Buffer
opcode_set b opcode = do x ← peek b 2; poke b 2 (x / 128 % 2 * 128 + opcode * 8 + x % 8)

-- `RCODE(packet)`
unfoldable pub rcode_of : Buffer → Outcome ℕ
rcode_of b = do x ← peek b 3; done (x % 16)

-- `QR_SET`, `AD_CLR` and `RCODE_SET`
unfoldable pub error_flags : Buffer → NsdRc → Outcome Buffer
error_flags b rcode = do
  x ← peek b 2
  b ← poke b 2 (x % 128 + 128)
  y ← peek b 3
  b ← poke b 3 (y / 64 * 64 + y % 32)
  z ← peek b 3
  poke b 3 (z / 16 * 16 + rc_number rcode)

-- The counts of `query_error`, and the position behind the header
unfoldable pub clear_counts : Buffer → Outcome Buffer
clear_counts b = do
  b ← write_u16_at b 4 0
  b ← write_u16_at b 6 0
  b ← write_u16_at b 8 0
  b ← write_u16_at b 10 0
  set_position b header_size

-- `rcode == NSD_RC_DISCARD`
abbrev pub is_discard : NsdRc → Bool
is_discard NsdRc.rc_discard = true
is_discard _ = false

-- `query_error`
pub query_error : QueryType → NsdRc → Outcome (Next × QueryType)
query_error q rcode = if is_discard rcode then done (Next.query_discarded, q) else do
  b ← clear q.packet
  b ← error_flags b rcode
  b ← clear_counts b
  done (Next.query_processed, record q { packet = b })

-- `query_ratelimit_err`; the counter is an `unsigned int`.
unfoldable pub query_ratelimit_err : ℕ → Nsd → Bool × Nsd
query_ratelimit_err now nsd =
    if nsd.err_limit_time == now
    then (
      ltb error_ratelimit nsd.err_limit_count,
      record nsd { err_limit_count = (nsd.err_limit_count + 1) % 2 ^ 32 },
    )
    else (false, record nsd { err_limit_time = now; err_limit_count = 1 })

-- `if(query_ratelimit_err(nsd)) return QUERY_DISCARDED; return query_error(...)`
unfoldable pub limited_error : ℕ → QueryType → Nsd → NsdRc → Outcome (Next × QueryType × Nsd)
limited_error now q nsd rcode = do
  let limited = query_ratelimit_err now nsd
  if limited.0
      then done (Next.query_discarded, q, limited.1)
      else do (next, q) ← query_error q rcode; done (next, q, limited.1)

-- The flags of `query_formerr`: RD and the opcode are kept.
unfoldable pub formerr_flags : Buffer → ℕ → Outcome Buffer
formerr_flags b opcode = do
  flags ← read_u16_at b 2
  b ← write_u16_at b 2 (flags / 256 % 2 * 256)
  opcode_set b opcode

-- `query_formerr`
pub query_formerr : ℕ → QueryType → Nsd → Outcome (Next × QueryType × Nsd)
query_formerr now q nsd = do
  opcode ← opcode_of q.packet
  let limited = query_ratelimit_err now nsd
  if limited.0 then done (Next.query_discarded, q, limited.1) else do
    b ← formerr_flags q.packet opcode
    (next, q) ← query_error (record q { packet = b }) NsdRc.rc_format
    done (next, q, limited.1)

-- `process_query_section`
pub process_query_section : QueryType → Outcome (Bool × QueryType)
process_query_section q = do
  b ← set_position q.packet header_size
  (question, b) ← read_query_section b
  elim question.found [
    | none ↦ done (false, record q { packet = b })
    | some (qtype, qclass) ↦ do
      qname ← dname_make question.dst true
      done (true, record q { packet = b; qtype = qtype; qclass = qclass; qname = qname })
  ]

-- The size of an answer over UDP, where `IPV6_MTU` is defined
abbrev pub answer_maxlen : Nsd → QueryType → ℕ
answer_maxlen nsd q =
    let edns_size = if q.is_ipv6 then nsd.ipv6_edns_size else nsd.ipv4_edns_size in
    if not q.tcp && ltb udp_max_message_len q.edns.maxlen
    then (if ltb q.edns.maxlen edns_size then q.edns.maxlen else edns_size)
    else q.maxlen

-- `process_edns`
pub process_edns : Nsd → QueryType → Outcome (NsdRc × QueryType)
process_edns nsd q = elim q.edns.status [
  | Status.error ↦ done (NsdRc.rc_format, q)
  | Status.not_present ↦ done (NsdRc.rc_ok, q)
  | Status.ok ↦ do
    b ← set_position q.packet q.edns.position
    b ← set_limit b q.edns.position
    ar ← arcount b
    b ← write_u16_at b 10 (ar + (2 ^ 16 - 1))
    done (NsdRc.rc_ok, record q { packet = b; maxlen = answer_maxlen nsd q })
]

-- `process_tsig` with a record that was read well
pub check_tsig : Host → QueryType → Outcome (NsdRc × QueryType)
check_tsig host q = do
  (known, t) ← tsig_from_query host.tsig_find_key host.tsig_algorithm_table q.tsig host.current_time
  if not known then done (NsdRc.rc_notauth, record q { tsig = t }) else do
    b ← set_limit q.packet t.position
    ar ← arcount b
    b ← write_u16_at b 10 (ar + (2 ^ 16 - 1))
    t ← tsig_prepare t
    t ← tsig_update t b b.limit
    (good, t) ← tsig_verify t
    done (if good then NsdRc.rc_ok else NsdRc.rc_notauth, record q { packet = b; tsig = t })

-- `process_tsig`
pub process_tsig : Host → QueryType → Outcome (NsdRc × QueryType)
process_tsig host q = elim q.tsig.status [
  | TsigStatus.tsig_error ↦ done (NsdRc.rc_format, q)
  | TsigStatus.tsig_ok ↦ check_tsig host q
  | TsigStatus.tsig_not_present ↦ done (NsdRc.rc_ok, q)
]

-- `query_prepare_response`
pub query_prepare_response : ℕ → QueryType → Outcome QueryType
query_prepare_response max_algo_digest_size q = do
  b ← set_position q.packet q.packet.limit
  b ← set_limit b b.capacity
  flags ← read_u16_at b 2
  b ← write_u16_at b 2 (flags / 256 % 2 * 256 + 0x8000)
  done (record q {
    packet = b;
    reserved_space =
        nsd_old.Edns.reserved_space q.edns + tsig_reserved_space max_algo_digest_size q.tsig;
  })

-- `query_reset`, before a packet is received
pub query_reset : QueryType → ℕ → Bool → Outcome QueryType
query_reset q maxlen is_tcp = do
  b ← clear q.packet
  done (record q {
    maxlen = maxlen;
    reserved_space = 0;
    packet = b;
    edns = init_record;
    tsig = tsig_init_record q.tsig none none;
    tcp = is_tcp;
    qname = none;
    qtype = 0;
    qclass = 0;
    opcode = 0;
  })
