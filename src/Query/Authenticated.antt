-- ===== src/Query/Authenticated.antt =====
-- `query_process` from the check of the signature on.
use native.Mathlib.Decide.{dec_lt}
use nsd_old.Base.{
  ◌≤◌, ◌<◌, ◌≡◌, ◌≢◌, ◌⊎◌, inl, inr, refl, sym, ap, ◌∙◌, not, Bool-cases, arith, ◌>>=◌,
  if◌then◌else◌, Returns, Returns-bind, Returns-map, Returns-bind_or,
}
use nsd_old.Buffer.{Buffer, read_uint16}
use nsd_old.Buffer.Valid.{IsValid, at-IsValid}
use nsd_old.Buffer.Access.{set_position_lem}
use nsd_old.Edns.{Status}
use nsd_old.Tsig.{TsigStatus}
use nsd_old.Query.{
  process_tsig, NsdRc, QueryType, Nsd, Host, Next, process_edns, query_error,
  query_prepare_response,
}
use nsd_old.Query.Process.{is_rc_ok, authenticated, by_class}
use nsd_old.Query.Error.{query_error-answers}
use nsd_old.Query.Signature.{AreNamed, Returns-drop}
use nsd_old.Query.Checked.{Checked, IsOpen, process_tsig-Checked}
use nsd_old.Query.Prepared.{
  Named, Decided, answered-Decided, by_class-Decided, query_prepare_response-IsPrepared,
}

opt_cases : (s : Status) → (s ≡ Status.error) ⊎ ((s ≡ Status.ok) ⊎ (s ≡ Status.not_present))
opt_cases Status.error = inl refl
opt_cases Status.ok = inr (inl refl)
opt_cases Status.not_present = inr (inr refl)

-- What the check of the signature and that of EDNS leave of the query.
record Stripped (q : QueryType) (r : NsdRc × QueryType) : Type 0 where
  valid : IsValid r.1.packet
  header : 12 ≤ r.1.packet.limit
  same_id : read_uint16 r.1.packet.bytes 0 ≡ read_uint16 q.packet.bytes 0
  same_qname : r.1.qname ≡ q.qname

module _ (nsd : Nsd) (q : QueryType) (v : IsValid q.packet) (h : 12 ≤ q.packet.limit) where
  same-Stripped : (rc : NsdRc) → Stripped q (rc, q)
  same-Stripped rc = record { valid = v; header = h; same_id = refl; same_qname = refl }

  -- With the OPT record in front of the limit
  process_edns-Stripped :
      (q.edns.status ≡ Status.ok → (12 ≤ q.edns.position) × (q.edns.position ≤ q.packet.limit))
      → Returns (Stripped q) (process_edns nsd q)
  unfolding process_edns
  process_edns-Stripped inside = elim (opt_cases q.edns.status) [
    | inl e ↦ rw (Returns, e) (same-Stripped NsdRc.rc_format)
    | inr (inr e) ↦ rw (Returns, e) (same-Stripped NsdRc.rc_ok)
    | inr (inl e) ↦
        let (lo, hi) = inside e in
        rw (Returns, e, set_position_lem v q.edns.position hi)
          (Returns-drop q.edns.position (Stripped q) _ (at-IsValid q.edns.position v hi) lo hi
            λ c (w, l, z, i). record {
              valid = w;
              header = omega (arith, l, lo);
              same_id = i;
              same_qname = refl;
            })
  ]

-- The TSIG record of the query stands in front of its OPT record.
abbrev pub Crossed : QueryType → Type 0
Crossed q =
    (q.tsig.status ≡ TsigStatus.tsig_ok)
    × (q.edns.status ≡ Status.ok)
    × (q.tsig.position < q.edns.position)

-- Behind `process_tsig`, the OPT record is in the packet, unless the TSIG record stood before it.
placed_cases :
    (q p : QueryType) (rc : NsdRc)
    → Checked q (rc, p)
    → (q.edns.status ≡ Status.ok → q.edns.position ≤ q.packet.limit)
    → (q.edns.status ≡ Status.ok → q.edns.position ≤ p.packet.limit) ⊎ Crossed q
placed_cases q p rc k inside = elim k.cut [
  | inl kept ↦ inl λ ok. omega (arith, inside ok, kept)
  | inr (signed, cut) ↦ elim (dec_lt q.tsig.position q.edns.position) [
    | no f ↦ inl λ ok. omega (arith, f, cut)
    | yes t ↦ elim (opt_cases q.edns.status) [
      | inr (inl e) ↦ inr (signed, e, t)
      | inl e ↦ inl λ ok. cc (e, ok)
      | inr (inr e) ↦ inl λ ok. cc (e, ok)
    ]
  ]
]

-- From `process_tsig` on, with a query whose records are in front of the limit
module _ (b : Buffer) (host : Host) (nsd : Nsd) (names : AreNamed host.tsig_algorithm_table)
    (q : QueryType) (n : Named b q) (i : read_uint16 q.packet.bytes 0 ≡ read_uint16 b.bytes 0)
    (open_ : q.tsig.status ≡ TsigStatus.tsig_ok → IsOpen q)
    (header : q.edns.status ≡ Status.ok → 12 ≤ q.edns.position)
    (inside : q.edns.status ≡ Status.ok → q.edns.position ≤ q.packet.limit) where
  abbrev Q : Next × QueryType → Type 0
  Q r = Decided b host.current_time nsd (r.0, r.1, nsd)

  error-Decided :
      (c : QueryType) (rc : NsdRc)
      → rc ≢ NsdRc.rc_discard
      → IsValid c.packet
      → 12 ≤ c.packet.limit
      → read_uint16 c.packet.bytes 0 ≡ read_uint16 b.bytes 0
      → Returns Q (query_error c rc)
  error-Decided c rc u v h j =
      Returns-map Q (query_error c rc)
        (λ r d. answered-Decided b c.packet host.current_time rc nsd r j d)
        (query_error-answers c rc u v (omega (arith, v, h)))

  named : (r : QueryType) → r.qname ≡ q.qname → Named b r
  named r e = let (m, xs, f, made, octets) = n in (m, xs, e ∙ f, made, octets)

  prepared-Decided :
      (c : QueryType)
      → IsValid c.packet
      → 12 ≤ c.packet.limit
      → read_uint16 c.packet.bytes 0 ≡ read_uint16 b.bytes 0
      → c.qname ≡ q.qname
      → Returns Q (query_prepare_response host.max_algo_digest_size c >>= by_class)
  prepared-Decided c v h j e =
      Returns-bind Q (query_prepare_response host.max_algo_digest_size c) _
        (query_prepare_response-IsPrepared host.max_algo_digest_size c v h)
        λ r (p, f, k). by_class-Decided b host.current_time nsd r (named r (f ∙ e)) p (k ∙ j)

  stripped-Decided :
      (c : QueryType)
      → IsValid c.packet
      → 12 ≤ c.packet.limit
      → read_uint16 c.packet.bytes 0 ≡ read_uint16 b.bytes 0
      → c.qname ≡ q.qname
      → (c.edns.status ≡ Status.ok → (12 ≤ c.edns.position) × (c.edns.position ≤ c.packet.limit))
      → Returns Q (
          process_edns nsd c >>= λ (rc, c).
          if not (is_rc_ok rc)
          then query_error c NsdRc.rc_ok
          else (query_prepare_response host.max_algo_digest_size c >>= by_class))
  stripped-Decided c v h j e fits =
      Returns-bind Q (process_edns nsd c) _ (process_edns-Stripped nsd c v h fits) λ (rc, d) s.
        elim (Bool-cases (not (is_rc_ok rc))) [
          | inl f ↦
              rw (Returns, f)
                (error-Decided d NsdRc.rc_ok (λ x. cc x) s.valid s.header (s.same_id ∙ j))
          | inr f ↦
              rw (Returns, f)
                (prepared-Decided d s.valid s.header (s.same_id ∙ j) (s.same_qname ∙ e))
        ]

  pub authenticated-Decided :
      IsValid q.packet → 12 ≤ q.packet.limit → Returns Q (authenticated host nsd q) ⊎ Crossed q
  unfolding authenticated
  authenticated-Decided v h =
      Returns-bind_or Q (Crossed q) (process_tsig host q) _
        (process_tsig-Checked host q v names open_)
        λ (rc, c) k.
          let low : 12 ≤ c.packet.limit = elim k.cut [
            | inl kept ↦ omega (arith, kept, h)
            | inr (ok, cut) ↦ omega (arith, cut, (open_ ok).header)
          ] in
          elim (Bool-cases (not (is_rc_ok rc))) [
            | inl f ↦
                rw (Returns, f) (inl (error-Decided c rc k.answerable k.valid low (k.same_id ∙ i)))
            | inr f ↦
                rw (Returns, f)
                  (elim (placed_cases q c rc k inside) [
                    | inr crossed ↦ inr crossed
                    | inl place ↦ inl (
                        stripped-Decided c k.valid low (k.same_id ∙ i) k.same_qname λ ok.
                          let s = sym (ap (λ e. e.status) k.same_edns) ∙ ok in
                          let at = ap (λ e. e.position) k.same_edns in
                          (omega (arith, at, header s), omega (arith, at, place s)))
                  ])
          ]
