-- ===== src/Query/Additional.antt =====
-- What `query_process` does from the additional section on.
use nsd_old.Base.{
  Returns-Ensures, ◌≤◌, ◌<◌, ◌≡◌, inl, inr, refl, ap, ◌⊎◌, none, Returns-bind_or, ◌>>=◌, ◌∙◌, true,
  false, not, Bool-cases, leb, ltb, arith, done, Returns, Returns-bind, Returns-map,
}
use nsd_old.Buffer.{Buffer, set_limit, read_uint16}
use nsd_old.Buffer.Valid.{IsValid}
use nsd_old.Edns.{Status}
use nsd_old.Packet.{skip_rr}
use nsd_old.Tsig.{TsigStatus, tsig_parse_rr}
use nsd_old.Query.{NsdRc, QueryType, Nsd, Host, query_formerr, process_query_section}
use nsd_old.Query.Process.{additional, authenticated, process_additional}
use nsd_old.Query.Formerr.{query_formerr-Refused}
use nsd_old.Query.Prepared.{Named, Decided, Refused-Decided}
use nsd_old.Query.Signature.{AreNamed}
use nsd_old.Query.Counted.{BothCounted, additional-BothCounted}
use nsd_old.Query.Gathered.{Ahead, SignedAt, OptAt, Gathered, additional-Gathered, Gathered-IsOpen}
use nsd_old.Query.Authenticated.{Crossed, authenticated-Decided}
use nsd_old.Dname.{max_packet_size}
use nsd_old.Tsig.{Tsig}

-- The places of the packet in `b` behind its question, and behind records that `packet_skip_rr` passes
-- from there.
pub data Reached (b : Buffer) : Buffer → Type 0 where
  behind_question :
      (q p : QueryType)
      → q.packet ≡ b
      → process_query_section q ≡ done (true, p)
      → Reached b p.packet
  behind_record : {c d : Buffer} → Reached b c → skip_rr c false ≡ done (true, d) → Reached b d

-- A query in `b` whose name was read, with the packet behind the question or further.
pub record Ready (b : Buffer) (q : QueryType) : Type 0 where
  pub valid : IsValid q.packet
  pub header : 12 ≤ q.packet.position
  pub reached : Reached b q.packet
  pub octets_kept : q.packet.bytes ≡ b.bytes
  pub limit_kept : q.packet.limit ≡ b.limit
  pub name : Named b q
  pub no_opt : q.edns.status ≡ Status.not_present
  pub no_tsig : q.tsig.status ≡ TsigStatus.tsig_not_present
  pub no_algorithm : q.tsig.algorithm ≡ none
  pub no_key : q.tsig.key ≡ none

-- The packet has an ARCOUNT of 2 or more. Directly behind the question, or behind records that were skipped
-- from there, `tsig_parse_rr` reads a record, of the type, class and ttl of a TSIG; and directly behind
-- that stands a whole OPT record.
abbrev pub Misplaced : Buffer → Type 0
Misplaced b =
    (1 < read_uint16 b.bytes 10)
    × (c : Buffer) × (old : Tsig) × (t : Tsig) × (d : Buffer) × Reached b c
    × (tsig_parse_rr old c ≡ done (true, t, d))
    × (t.status ≡ TsigStatus.tsig_ok)
    × SignedAt b t t.position
    × OptAt b d.position

Gathered-Misplaced :
    (b : Buffer) (q r : QueryType)
    → Ready b q
    → Gathered q.packet r
    → (r.tsig.status ≡ TsigStatus.tsig_ok → r.edns.status ≡ Status.ok → 1 < read_uint16 b.bytes 10)
    → Ahead q r
    → Crossed r
    → Misplaced b
Gathered-Misplaced b q r k g two ahead (signed, present, before) =
    let (lo, hi, (c, (cb, cl, cp), s, typed), read) = g.signed signed in
    let (lo2, hi2, (d, (db, dl, dp), o)) = g.opt present in
    let (e, run, at) = ahead signed present before in
    (
      two signed present,
      q.packet,
      q.tsig,
      r.tsig,
      e,
      k.reached,
      run,
      signed,
      (c, (cb ∙ k.octets_kept, cl ∙ k.limit_kept, cp), s, typed),
      (d, (db ∙ k.octets_kept, dl ∙ k.limit_kept, dp ∙ at), o),
    )

pub malformed-Decided :
    (b : Buffer) (host : Host) (nsd : Nsd) (p : QueryType)
    → IsValid p.packet
    → 12 ≤ p.packet.limit
    → p.packet.bytes ≡ b.bytes
    → Returns (Decided b host.current_time nsd) (query_formerr host.current_time p nsd)
malformed-Decided b host nsd p v h e =
    Returns-map (Decided b host.current_time nsd) (query_formerr host.current_time p nsd)
      (λ r d.
        Refused-Decided b p.packet host.current_time nsd NsdRc.rc_format r
          (ap (λ d. read_uint16 d 0) e) d)
      (query_formerr-Refused host.current_time p nsd v h)

module _ (b : Buffer) (host : Host) (nsd : Nsd) (names : AreNamed host.tsig_algorithm_table)
    (small : b.limit ≤ max_packet_size) where
  start-Gathered : (q : QueryType) → Ready b q → Gathered q.packet q
  start-Gathered q k = record {
    forward = record {
      valid = k.valid;
      same_bytes = refl;
      same_limit = refl;
      onward = omega arith;
    };
    opt = λ e. cc (e, k.no_opt);
    no_algorithm = k.no_algorithm;
    no_key = k.no_key;
    signed = λ e. cc (e, k.no_tsig);
  }

  -- With the additional section read, the packet is cut behind it.
  gathered-Decided :
      (q p : QueryType)
      → Ready b q
      → Gathered q.packet p
      → p.qname ≡ q.qname
      → (p.tsig.status ≡ TsigStatus.tsig_ok
          → p.edns.status ≡ Status.ok
          → 1 < read_uint16 b.bytes 10)
      → Ahead q p
      → Returns (Decided b host.current_time nsd) (
          set_limit p.packet p.packet.position >>= λ c.
          authenticated host nsd (record p { packet = c }) >>= λ (next, r). done (next, r, nsd))
        ⊎ Misplaced b
  unfolding set_limit
  gathered-Decided q p k g e two ahead =
      let n = p.packet.position in
      let whole : leb n p.packet.capacity ≡ true = ground (arith, g.forward.valid) in
      let behind : ltb n n ≡ false = ground arith in
      let c : Buffer = record p.packet { limit = n } in
      let i : read_uint16 p.packet.bytes 0 ≡ read_uint16 b.bytes 0 =
        ap (λ d. read_uint16 d 0) (g.forward.same_bytes ∙ k.octets_kept) in
      let r : QueryType = record p { packet = c } in
      let name : Named b r =
        let (m, xs, f, made, octets) = k.name in (m, xs, e ∙ f, made, octets) in
      rw (whole, behind)
        (elim (authenticated-Decided b host nsd names r name i
          (λ ok. Gathered-IsOpen p c g k.header refl ok) (λ ok. omega (arith, g.opt ok, k.header))
          (λ ok. omega (arith, g.opt ok)) (omega (arith, g.forward.valid))
          (omega (arith, k.header, g.forward.onward))) [
            | inr crossed ↦ inr (Gathered-Misplaced b q p k g two ahead crossed)
            | inl d ↦ inl (
                Returns-bind (Decided b host.current_time nsd) (authenticated host nsd r) _ d
                  λ r d. d)
          ])

  pub process_additional-Decided :
      (q : QueryType)
      → Ready b q
      → Returns (Decided b host.current_time nsd) (process_additional host nsd q) ⊎ Misplaced b
  unfolding process_additional
  process_additional-Decided q k =
      Returns-bind_or (Decided b host.current_time nsd) (Misplaced b) (additional nsd.nsid_len q) _
        (Returns-Ensures _ (BothCounted (read_uint16 q.packet.bytes 10)) (additional nsd.nsid_len q)
          (additional-Gathered q.packet (omega (arith, k.limit_kept, small)) nsd.nsid_len q
            (start-Gathered q k) k.header k.no_opt k.no_tsig)
          (additional-BothCounted nsd.nsid_len q k.no_opt k.no_tsig))
        λ (good, p) ((g, e, ahead), two).
          let two' : p.tsig.status ≡ TsigStatus.tsig_ok
              → p.edns.status ≡ Status.ok
              → 1 < read_uint16 b.bytes 10 =
            λ ok opt. omega (arith, two ok opt, ap (λ d. read_uint16 d 10) k.octets_kept) in
          elim (Bool-cases (not good)) [
            | inl f ↦
                rw (Returns, f)
                  (inl (
                    malformed-Decided b host nsd p g.forward.valid
                      (omega (arith, k.header, g.forward.onward, g.forward.valid))
                      (g.forward.same_bytes ∙ k.octets_kept)))
            | inr f ↦ rw (Returns, f) (gathered-Decided q p k g e two' ahead)
          ]
