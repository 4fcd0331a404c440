-- ===== src/Query/Process.antt =====
-- query.c: `query_process`, up to the functions that it calls to answer.
use nsd_old.Base.{
  ℕ, zero, suc, ◌-◌, Bool, true, false, not, ◌&&◌, ◌||◌, ltb, ◌==◌, if◌then◌else◌, Outcome, done,
  ◌>>=◌,
}
use nsd_old.Buffer.{Buffer, write_u16_at, set_limit}
use nsd_old.Packet.{header_size, class_in, qdcount, ancount, nscount, arcount, skip_rr}
use nsd_old.Edns.{parse_record}
use nsd_old.Tsig.{TsigStatus, class_any, tsig_parse_rr}
use nsd_old.Tsig.Auth.{qr}
use nsd_old.Query.{
  opcode_query, opcode_notify, class_ch, type_ixfr, NsdRc, QueryType, Nsd, Host, Next, opcode_of,
  rcode_of, query_error, limited_error, query_formerr, process_query_section, process_edns,
  process_tsig, query_prepare_response,
}

-- The loop over the authority section of an IXFR, with the rounds that are left
unfoldable pub skip_authority : ℕ → Buffer → Outcome (Bool × Buffer)
skip_authority zero b = done (true, b)
skip_authority (suc rounds) b = do
  (good, b) ← skip_rr b false
  elim good [ true ↦ skip_authority rounds b | false ↦ done (false, b) ]

abbrev pub is_absent : TsigStatus → Bool
is_absent TsigStatus.tsig_not_present = true
is_absent _ = false

-- `if (!tsig_parse_rr(...)) ...; if(q->tsig.status != TSIG_NOT_PRESENT) --arcount;` when the test
-- before it says so; the flag is false when the query is malformed.
unfoldable pub read_tsig : Bool → ℕ → QueryType → Outcome (Bool × ℕ × QueryType)
read_tsig false arcount q = done (true, arcount, q)
read_tsig true arcount q = do
  (good, t, b) ← tsig_parse_rr q.tsig q.packet
  done
      (good, if is_absent t.status then arcount else arcount - 1, record q { tsig = t; packet = b })

-- `if (edns_parse_record(...)) --arcount;` under its test
unfoldable pub read_opt : Bool → ℕ → ℕ → QueryType → Outcome (ℕ × QueryType)
read_opt false nsid_len arcount q = done (arcount, q)
read_opt true nsid_len arcount q = do
  (taken, e, b) ← parse_record nsid_len q.edns q.packet
  done (if taken then arcount - 1 else arcount, record q { edns = e; packet = b })

-- The additional section; the flag is false when the query is malformed.
unfoldable pub additional : ℕ → QueryType → Outcome (Bool × QueryType)
additional nsid_len q = do
  count ← arcount q.packet
  (good, count, q) ← read_tsig (ltb 0 count) count q
  if not good then done (false, q) else do
    (count, q) ← read_opt (ltb 0 count) nsid_len count q
    (good, count, q) ← read_tsig (ltb 0 count && is_absent q.tsig.status) count q
    done (good && count == 0, q)

abbrev pub is_rc_ok : NsdRc → Bool
is_rc_ok NsdRc.rc_ok = true
is_rc_ok _ = false

-- The tests of the class, with the answer prepared
unfoldable pub by_class : QueryType → Outcome (Next × QueryType)
by_class q =
    if not (q.qclass == class_in) && not (q.qclass == class_any)
    then (if q.qclass == class_ch
        then done (Next.answer_chaos, q)
        else query_error q NsdRc.rc_refuse)
    else done (Next.answer_query, q)

-- From `process_tsig` on
unfoldable pub authenticated : Host → Nsd → QueryType → Outcome (Next × QueryType)
authenticated host nsd q = do
  (rc, q) ← process_tsig host q
  if not (is_rc_ok rc) then query_error q rc else do
    (rc, q) ← process_edns nsd q
    if not (is_rc_ok rc)
        then query_error q NsdRc.rc_ok
        else do q ← query_prepare_response host.max_algo_digest_size q; by_class q

-- From the additional section on
unfoldable pub process_additional : Host → Nsd → QueryType → Outcome (Next × QueryType × Nsd)
process_additional host nsd q = do
  (good, q) ← additional nsd.nsid_len q
  if not good then query_formerr host.current_time q nsd else do
    b ← set_limit q.packet q.packet.position
    (next, q) ← authenticated host nsd (record q { packet = b })
    done (next, q, nsd)

-- A query of one question: the counts of the header, and the records of the authority section
unfoldable pub process_counts : Host → Nsd → QueryType → Outcome (Next × QueryType × Nsd)
process_counts host nsd q = do
  qd ← qdcount q.packet
  if not (qd == 1)
      then (do
        b ← write_u16_at q.packet 2 0
        query_formerr host.current_time (record q { packet = b }) nsd)
      else do
        an ← ancount q.packet
        ns ← nscount q.packet
        let ixfr = q.qtype == type_ixfr
        if not (an == 0) || (not ixfr && not (ns == 0))
            then query_formerr host.current_time q nsd
            else do
              (skipped, b) ← skip_authority (if ixfr then ns else 0) q.packet
              let q = record q { packet = b }
              if not skipped
                  then query_formerr host.current_time q nsd
                  else process_additional host nsd q

-- With the question read
unfoldable pub by_opcode : Host → Nsd → QueryType → Outcome (Next × QueryType × Nsd)
by_opcode host nsd q =
    if not (q.opcode == opcode_query)
    then (if q.opcode == opcode_notify
        then done (Next.answer_notify, q, nsd)
        else limited_error host.current_time q nsd NsdRc.rc_impl)
    else process_counts host nsd q

-- A query whose opcode is known
unfoldable pub process_question : Host → Nsd → QueryType → Outcome (Next × QueryType × Nsd)
process_question host nsd q = do
  rcode ← rcode_of q.packet
  (good, q) ← if rcode == 0 then process_query_section q else done (false, q)
  if not good then query_formerr host.current_time q nsd else by_opcode host nsd q

-- `query_process`
unfoldable pub query_process : Host → Nsd → QueryType → Outcome (Next × QueryType × Nsd)
query_process host nsd q =
    if ltb q.packet.limit header_size then done (Next.query_discarded, q, nsd) else do
      response ← qr q.packet
      if response then done (Next.query_discarded, q, nsd) else do
        opcode ← opcode_of q.packet
        let q = record q { opcode = opcode }
        if not (opcode == opcode_query) && not (opcode == opcode_notify)
            then limited_error host.current_time q nsd NsdRc.rc_impl
            else process_question host nsd q
