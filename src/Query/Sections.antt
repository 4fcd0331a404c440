-- ===== src/Query/Sections.antt =====
-- What `query_process` does with the counts of the header and the authority section.
use nsd_old.Base.{
  ℕ, zero, suc, ◌≤◌, ◌≡◌, inl, inr, refl, ap, ◌⊎◌, Returns-bind_or, ◌∙◌, true, false, not, ◌&&◌,
  ◌||◌, Bool-cases, [], ◌∷◌, ◌==◌, if◌then◌else◌, overwrite, arith, done, Ensures, Ensures-bind,
  Ensures-run, Returns-Ensures, Returns, Returns-bind, Returns-map,
}
use nsd_old.Buffer.{Buffer, read_uint16}
use nsd_old.Buffer.Valid.{IsValid}
use nsd_old.Buffer.Access.{read_u16_at_lem}
use nsd_old.Packet.{qdcount, ancount, nscount, skip_rr}
use nsd_old.Packet.Skip.{Forward, Forward-trans, skip_rr-Forward}
use nsd_old.Query.{NsdRc, QueryType, Nsd, Host, type_ixfr, query_formerr}
use nsd_old.Query.Process.{skip_authority, process_counts}
use nsd_old.Query.Error.{write_u16_at_lem, rewritten-IsValid}
use nsd_old.Query.Formerr.{query_formerr-Refused}
use nsd_old.Query.Prepared.{same_id, Decided, Refused-Decided}
use nsd_old.Query.Signature.{AreNamed}
use nsd_old.Dname.{max_packet_size}
use nsd_old.Query.Additional.{
  Ready, Reached, Misplaced, malformed-Decided, process_additional-Decided,
}

skip_authority-Forward :
    (rounds : ℕ) {b : Buffer} → IsValid b → Returns (λ r. Forward b r.1) (skip_authority rounds b)
unfolding skip_authority
skip_authority-Forward zero v = record {
  valid = v;
  same_bytes = refl;
  same_limit = refl;
  onward = omega arith;
}
skip_authority-Forward (suc rounds) {b} v =
    Returns-bind (λ r. Forward b r.1) (skip_rr b false) _ (skip_rr-Forward false v)
      λ (good, c) f. elim (Bool-cases good) [
        | inl e ↦
            rw (Returns, e)
              (Returns-map (λ r. Forward b r.1) (skip_authority rounds c) (λ r g. Forward-trans f g)
                (skip_authority-Forward rounds f.valid))
        | inr e ↦ rw (Returns, e) f
      ]

skip_authority-Reached :
    (rounds : ℕ) {b c : Buffer}
    → Reached b c
    → Ensures (λ r. r.0 ≡ true → Reached b r.1) (skip_authority rounds c)
unfolding skip_authority
skip_authority-Reached zero k = λ _. k
skip_authority-Reached (suc rounds) {b} {c} k =
    Ensures-bind (λ r. skip_rr c false ≡ done r) (λ r. r.0 ≡ true → Reached b r.1) (skip_rr c false)
      _ (Ensures-run (skip_rr c false))
      λ (good, d) e. elim (Bool-cases good) [
        | inl t ↦
            rw (Ensures, t)
              (skip_authority-Reached rounds
                (Reached.behind_record k (e ∙ ap (λ g. done (g, d)) t)))
        | inr f ↦ rw (Ensures, f) (λ x. cc x)
      ]

module _ (b : Buffer) (host : Host) (nsd : Nsd) (names : AreNamed host.tsig_algorithm_table)
    (small : b.limit ≤ max_packet_size) where
  formerr-Decided :
      (q : QueryType)
      → Ready b q
      → Returns (Decided b host.current_time nsd) (query_formerr host.current_time q nsd)
  formerr-Decided q k =
      malformed-Decided b host nsd q k.valid (omega (arith, k.valid.within, k.header)) k.octets_kept

  -- With the flags cleared, as for a query of no question or several
  wrong_count :
      (q : QueryType)
      → Ready b q
      → 12 ≤ q.packet.limit
      → Returns (Decided b host.current_time nsd) (
          query_formerr host.current_time
            (record q {
              packet = record q.packet { bytes = overwrite q.packet.bytes 2 (0 ∷ 0 ∷ []) };
            })
            nsd)
  wrong_count q k h =
      let c : Buffer = record q.packet { bytes = overwrite q.packet.bytes 2 (0 ∷ 0 ∷ []) } in
      let i : read_uint16 c.bytes 0 ≡ read_uint16 b.bytes 0 =
        same_id q.packet.bytes 0 0 ∙ ap (λ d. read_uint16 d 0) k.octets_kept in
      Returns-map (Decided b host.current_time nsd)
        (query_formerr host.current_time (record q { packet = c }) nsd)
        (λ r d. Refused-Decided b c host.current_time nsd NsdRc.rc_format r i d)
        (query_formerr-Refused host.current_time (record q { packet = c }) nsd
          (rewritten-IsValid 2 (0 ∷ 0 ∷ []) k.valid) h)

  pub process_counts-Decided :
      (q : QueryType)
      → Ready b q
      → Returns (Decided b host.current_time nsd) (process_counts host nsd q) ⊎ Misplaced b
  unfolding process_counts qdcount ancount nscount
  process_counts-Decided q k =
      let h : 12 ≤ q.packet.limit = omega (arith, k.valid.within, k.header) in
      let ns = read_uint16 q.packet.bytes 8 in
      let rounds = if q.qtype == type_ixfr then ns else 0 in
      rw
        (
          read_u16_at_lem k.valid 4 (omega (arith, h)),
          read_u16_at_lem k.valid 6 (omega (arith, h)),
          read_u16_at_lem k.valid 8 (omega (arith, h)),
        )
        (elim (Bool-cases (not (read_uint16 q.packet.bytes 4 == 1))) [
          | inl e ↦
              rw (Returns, e, write_u16_at_lem 2 0 k.valid (omega (arith, h)))
                (inl (wrong_count q k h))
          | inr e ↦
              elim (Bool-cases (
                not (read_uint16 q.packet.bytes 6 == 0)
                || (not (q.qtype == type_ixfr) && not (ns == 0)))) [
                  | inl f ↦ rw (Returns, e, f) (inl (formerr-Decided q k))
                  | inr f ↦
                      rw (Returns, e, f)
                        (Returns-bind_or (Decided b host.current_time nsd) (Misplaced b)
                          (skip_authority rounds q.packet) _
                          (Returns-Ensures (λ r. Forward q.packet r.1)
                            (λ r. r.0 ≡ true → Reached b r.1) (skip_authority rounds q.packet)
                            (skip_authority-Forward rounds k.valid)
                            (skip_authority-Reached rounds k.reached))
                          λ (skipped, c) (g, there). elim (Bool-cases skipped) [
                            | inl s ↦
                                rw (Returns, s)
                                  (process_additional-Decided b host nsd names small
                                    (record q { packet = c }) (further q c k g (there s)))
                            | inr s ↦
                                rw (Returns, s)
                                  (inl (
                                    malformed-Decided b host nsd (record q { packet = c }) g.valid
                                      (omega (arith, h, g.same_limit))
                                      (g.same_bytes ∙ k.octets_kept)))
                          ])
                ]
        ])
    where
      further :
          (q : QueryType) (c : Buffer)
          → Ready b q
          → Forward q.packet c
          → Reached b c
          → Ready b (record q { packet = c })
      further q c k g there = record {
        reached = there;
        valid = g.valid;
        header = omega (arith, g.onward, k.header);
        octets_kept = g.same_bytes ∙ k.octets_kept;
        limit_kept = g.same_limit ∙ k.limit_kept;
        name = k.name;
        no_opt = k.no_opt;
        no_tsig = k.no_tsig;
        no_algorithm = k.no_algorithm;
        no_key = k.no_key;
      }
