-- ===== src/Query/Decided.antt =====
-- What `query_process` does with any packet.
use Prim.Native.Nat.{bit_and}
use native.Mathlib.Decide.{dec_lt}
use nsd_old.Base.{
  ℕ, ◌/◌, ◌%◌, ◌≤◌, ◌<◌, ◌≡◌, ◌≢◌, inl, inr, refl, ap, ◌⊎◌, none, Returns-bind_or, ◌∙◌, Bool, true,
  false, not, ◌&&◌, Bool-cases, ltb, ◌==◌, if◌then◌else◌, length, get_or, arith, done, Ensures-run,
  Returns-Ensures, Returns, Returns-map,
}
use nsd_old.Buffer.{Buffer, read_uint16}
use nsd_old.Buffer.Valid.{IsValid}
use nsd_old.Packet.{peek}
use nsd_old.Dname.Steps.{Same}
use nsd_old.Edns.{Status}
use nsd_old.Tsig.{TsigStatus}
use nsd_old.Tsig.Auth.{qr}
use nsd_old.Edns.{init_record}
use nsd_old.Tsig.Auth.{tsig_init_record}
use nsd_old.Query.{
  query_reset, NsdRc, QueryType, Nsd, Host, Next, opcode_of, rcode_of, query_formerr, limited_error,
  opcode_query, opcode_notify, process_query_section,
}
use nsd_old.Query.Process.{by_opcode, process_question, query_process}
use nsd_old.Query.Error.{clear_lem}
use nsd_old.Query.Formerr.{limited_error-Refused, query_formerr-Refused}
use nsd_old.Query.Prepared.{Decided, Refused-Decided}
use nsd_old.Query.Signature.{AreNamed}
use nsd_old.Dname.{max_packet_size}
use nsd_old.Query.Sections.{process_counts-Decided}
use nsd_old.Query.Question.{Questioned, process_query_section-Questioned}
use nsd_old.Query.Additional.{Ready, Reached, Misplaced}

-- From the question on, with the opcode known.
module _ (host : Host) (nsd : Nsd) (q : QueryType) (v : IsValid q.packet) (h : 12 ≤ q.packet.limit)
    (room : 12 < q.packet.capacity) (names : AreNamed host.tsig_algorithm_table)
    (small : q.packet.limit ≤ max_packet_size) (no_opt : q.edns.status ≡ Status.not_present)
    (no_tsig : q.tsig.status ≡ TsigStatus.tsig_not_present) (no_algorithm : q.tsig.algorithm ≡ none)
    (no_key : q.tsig.key ≡ none) where
  by_opcode-Decided :
      (p : QueryType)
      → Ready q.packet p
      → Returns (Decided q.packet host.current_time nsd) (by_opcode host nsd p) ⊎ Misplaced q.packet
  unfolding by_opcode
  by_opcode-Decided p k = elim (Bool-cases (not (p.opcode == opcode_query))) [
    | inr e ↦ rw (Returns, e) (process_counts-Decided q.packet host nsd names small p k)
    | inl e ↦ elim (Bool-cases (p.opcode == opcode_notify)) [
      | inl f ↦ rw (Returns, e, f) (inl k.name)
      | inr f ↦
          rw (Returns, e, f)
            (inl (
              Returns-map (Decided q.packet host.current_time nsd)
                (limited_error host.current_time p nsd NsdRc.rc_impl)
                (λ r d.
                  Refused-Decided q.packet p.packet host.current_time nsd NsdRc.rc_impl r
                    (ap (λ d. read_uint16 d 0) k.octets_kept) d)
                (limited_error-Refused host.current_time p nsd k.valid NsdRc.rc_impl (λ x. cc x)
                  (omega (arith, k.header, k.valid)))))
    ]
  ]

  questioned-Ready :
      (p : QueryType)
      → Questioned q (true, p)
      → process_query_section q ≡ done (true, p)
      → Ready q.packet p
  questioned-Ready p k run = record {
    reached = Reached.behind_question q p refl run;
    valid = k.same.valid;
    header = k.onward refl;
    octets_kept = k.same.same_bytes;
    limit_kept = k.same.same_limit;
    name = k.named refl;
    no_opt = ap (λ e. e.status) k.same_edns ∙ no_opt;
    no_tsig = ap (λ t. t.status) k.same_tsig ∙ no_tsig;
    no_algorithm = ap (λ t. t.algorithm) k.same_tsig ∙ no_algorithm;
    no_key = ap (λ t. t.key) k.same_tsig ∙ no_key;
  }

  formerr_at-Decided :
      (p : QueryType)
      → Same q.packet p.packet
      → Returns (Decided q.packet host.current_time nsd) (query_formerr host.current_time p nsd)
  formerr_at-Decided p s =
      Returns-map (Decided q.packet host.current_time nsd) (query_formerr host.current_time p nsd)
        (λ r d.
          Refused-Decided q.packet p.packet host.current_time nsd NsdRc.rc_format r
            (ap (λ d. read_uint16 d 0) s.same_bytes) d)
        (query_formerr-Refused host.current_time p nsd s.valid (omega (arith, h, s.same_limit)))

  process_question-Decided :
      Returns (Decided q.packet host.current_time nsd) (process_question host nsd q)
      ⊎ Misplaced q.packet
  unfolding process_question rcode_of peek
  process_question-Decided =
      let inside : ltb 3 (length q.packet.bytes) ≡ true = ground (arith, v, h) in
      rw inside (elim (Bool-cases (get_or q.packet.bytes 3 0 % 16 == 0)) [
        | inr e ↦
            rw (Returns, e)
              (inl
                (formerr_at-Decided q (record { valid = v; same_bytes = refl; same_limit = refl })))
        | inl e ↦
            rw (Returns, e)
              (Returns-bind_or (Decided q.packet host.current_time nsd) (Misplaced q.packet)
                (process_query_section q) _
                (Returns-Ensures (Questioned q) (λ r. process_query_section q ≡ done r)
                  (process_query_section q) (process_query_section-Questioned q v h room)
                  (Ensures-run (process_query_section q)))
                λ (good, p) (k, run). decided good p k run)
      ])
    where
      decided :
          (good : Bool) (p : QueryType)
          → Questioned q (good, p)
          → process_query_section q ≡ done (good, p)
          → Returns
              (Decided q.packet host.current_time nsd)
              (if not good then query_formerr host.current_time p nsd else by_opcode host nsd p)
            ⊎ Misplaced q.packet
      decided true p k run = by_opcode-Decided p (questioned-Ready p k run)
      decided false p k run = inl (formerr_at-Decided p k.same)

-- The packet has a whole header, and its QR bit is clear.
abbrev pub IsQuery : Buffer → Type 0
IsQuery b = (12 ≤ b.limit) × (bit_and (get_or b.bytes 2 0) 0x80 ≡ 0)

-- What becomes of any packet: what is no query is dropped, and not counted.
abbrev pub Handled : Buffer → ℕ → Nsd → Next × QueryType × Nsd → Type 0
Handled b now nsd r =
    (IsQuery b × Decided b now nsd r) ⊎ ((¬ IsQuery b) × (r.0 ≡ Next.query_discarded) × (r.2 ≡ nsd))

-- A packet that is a query, with the opcode known
query-Decided :
    (host : Host) (nsd : Nsd) (q : QueryType)
    → IsValid q.packet
    → 12 ≤ q.packet.limit
    → 12 < q.packet.capacity
    → q.packet.limit ≤ max_packet_size
    → AreNamed host.tsig_algorithm_table
    → q.edns.status ≡ Status.not_present
    → q.tsig.status ≡ TsigStatus.tsig_not_present
    → q.tsig.algorithm ≡ none
    → q.tsig.key ≡ none
    → Returns (Decided q.packet host.current_time nsd) (
        if not (q.opcode == opcode_query) && not (q.opcode == opcode_notify)
        then limited_error host.current_time q nsd NsdRc.rc_impl
        else process_question host nsd q)
      ⊎ Misplaced q.packet
query-Decided host nsd q v h room small names no_opt no_tsig no_algorithm no_key =
    elim (Bool-cases (not (q.opcode == opcode_query) && not (q.opcode == opcode_notify))) [
      | inl f ↦
          rw (Returns, f)
            (inl (
              Returns-map (Decided q.packet host.current_time nsd)
                (limited_error host.current_time q nsd NsdRc.rc_impl)
                (λ r d.
                  Refused-Decided q.packet q.packet host.current_time nsd NsdRc.rc_impl r refl d)
                (limited_error-Refused host.current_time q nsd v NsdRc.rc_impl (λ x. cc x)
                  (omega (arith, room)))))
      | inr f ↦
          rw (Returns, f)
            (process_question-Decided host nsd q v h room names small no_opt no_tsig no_algorithm
              no_key)
    ]

-- `query_process` of a query that was reset, over a valid packet of at most MAX_PACKET_SIZE octets with room
-- behind its header, where the names in the table of algorithms are names, returns, unless the packet has an
-- ARCOUNT of 2 or more, a record with the type, class and ttl of a TSIG that `tsig_parse_rr` accepts behind
-- its question (and the records that are skipped there), and an OPT record directly behind that. A packet
-- without a whole header or with the QR bit set is dropped, and no error is counted. Any other is
-- dropped only when more than ERROR_RATELIMIT errors were counted in this second; or there is an error
-- answer, with the id of the query; or it goes on to a notify, to a query of class CHAOS, or to a query of
-- class IN or ANY. Then the name of the query is that behind the header, in lower case, and, but for a
-- notify, the packet is open for the answer up to its capacity.
pub query_process-Decided :
    (host : Host) (nsd : Nsd) (q : QueryType)
    → IsValid q.packet
    → 12 < q.packet.capacity
    → q.packet.limit ≤ max_packet_size
    → AreNamed host.tsig_algorithm_table
    → q.edns.status ≡ Status.not_present
    → q.tsig.status ≡ TsigStatus.tsig_not_present
    → q.tsig.algorithm ≡ none
    → q.tsig.key ≡ none
    → Returns (Handled q.packet host.current_time nsd) (query_process host nsd q)
      ⊎ Misplaced q.packet
unfolding query_process opcode_of qr peek
query_process-Decided host nsd q v room small names no_opt no_tsig no_algorithm no_key =
    elim (dec_lt q.packet.limit 12) [
      | yes s ↦
          let short : ltb q.packet.limit 12 ≡ true = ground (arith, s) in
          rw (Returns, short) (inl (inr (λ k. omega (arith, k.0, s), refl, refl)))
      | no s ↦
          let h : 12 ≤ q.packet.limit = omega (arith, s) in
          let long : ltb q.packet.limit 12 ≡ false = ground (arith, s) in
          let inside : ltb 2 (length q.packet.bytes) ≡ true = ground (arith, v, h) in
          let flag = bit_and (get_or q.packet.bytes 2 0) 0x80 in
          let p = record q { opcode = get_or q.packet.bytes 2 0 / 8 % 16 } in
          rw (Returns, long, inside)
            (elim (Bool-cases (not (flag == 0))) [
              | inl e ↦
                  let set : flag ≢ 0 = ground (arith, e) in
                  rw (Returns, e) (inl (inr (λ k. set k.1, refl, refl)))
              | inr e ↦
                  let clear_flag : flag ≡ 0 = ground (arith, e) in
                  rw (Returns, e)
                    (elim (query-Decided host nsd p v h room small names no_opt no_tsig no_algorithm
                      no_key) [
                        | inr m ↦ inr m
                        | inl d ↦ inl (
                            Returns-map (Handled q.packet host.current_time nsd) _
                              (λ r k. inl ((h, clear_flag), k)) d)
                      ])
            ])
    ]

-- `query_reset` of a query with a valid packet returns, with the whole packet free and with no
-- EDNS and no signature, as `query_process` expects it.
pub query_reset-open :
    (q : QueryType) (maxlen : ℕ) (is_tcp : Bool)
    → IsValid q.packet
    → Returns
        (λ p.
          IsValid p.packet
          × (p.packet.position ≡ 0)
          × (p.packet.limit ≡ q.packet.capacity)
          × (p.edns.status ≡ Status.not_present)
          × (p.tsig.status ≡ TsigStatus.tsig_not_present)
          × (p.tsig.algorithm ≡ none)
          × (p.tsig.key ≡ none))
        (query_reset q maxlen is_tcp)
unfolding query_reset tsig_init_record init_record
query_reset-open q maxlen is_tcp v =
    rw (clear_lem v) (omega (arith, v), refl, refl, refl, refl, refl, refl)
