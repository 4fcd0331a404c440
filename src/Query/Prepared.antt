-- ===== src/Query/Prepared.antt =====
-- The end of `query_process`, with the answer prepared, and what it may come to.
use nsd_old.Base.{
  ℕ, ◌+◌, ◌*◌, ◌/◌, ◌%◌, ◌≤◌, ◌≡◌, ◌⊎◌, inl, inr, refl, true, false, not, ◌&&◌, Bool-cases, some,
  List, [], ◌∷◌, leb, ltb, ◌==◌, length, take, drop, overwrite, get_or-overwrite_out, ==_iff, arith,
  Returns, Returns-map,
}
use nsd_old.Buffer.{Buffer, set_limit, read_uint16}
use nsd_old.Buffer.Valid.{IsValid}
use nsd_old.Buffer.Access.{set_position_lem, read_u16_at_lem}
use nsd_old.Packet.{class_in}
use nsd_old.Dname.Name.{Name}
use nsd_old.Dname.Make.Wire.{wire}
use nsd_old.Dname.Make.Named.{IsMade}
use nsd_old.Tsig.{class_any}
use nsd_old.Query.{
  NsdRc, rc_number, QueryType, Nsd, Next, query_error, query_prepare_response, class_ch,
}
use nsd_old.Query.Process.{by_class}
use nsd_old.Query.Error.{IsError, query_error-answers, write_u16_at_lem, rewritten-IsValid}
use nsd_old.Query.Formerr.{Refused, OverLimit}

-- Flags that are written leave the id.
pub same_id : (d : List ℕ) (x y : ℕ) → read_uint16 (overwrite d 2 (x ∷ y ∷ [])) 0 ≡ read_uint16 d 0
unfolding read_uint16
same_id d x y = ground (
  arith,
  get_or-overwrite_out d 2 (x ∷ y ∷ []) 0 0 (inl (omega arith)),
  get_or-overwrite_out d 2 (x ∷ y ∷ []) 1 0 (inl (omega arith)),
)

-- The rest of the packet is free for the answer, and the flags say that it is one.
pub record IsPrepared (q : QueryType) : Type 0 where
  pub valid : IsValid q.packet
  pub open_end : q.packet.limit ≡ q.packet.capacity
  pub header : 12 ≤ q.packet.position

module _ (most : ℕ) (q : QueryType) (v : IsValid q.packet) (h : 12 ≤ q.packet.limit) where
  pub query_prepare_response-IsPrepared :
      Returns
        (λ r.
          IsPrepared r
          × (r.qname ≡ q.qname)
          × (read_uint16 r.packet.bytes 0 ≡ read_uint16 q.packet.bytes 0))
        (query_prepare_response most q)
  unfolding query_prepare_response set_limit
  query_prepare_response-IsPrepared =
      let b : Buffer = record q.packet { position = q.packet.limit; limit = q.packet.capacity } in
      let w : IsValid b = omega (arith, v) in
      let flags = read_uint16 q.packet.bytes 2 / 256 % 2 * 256 + 0x8000 in
      let late : ltb q.packet.capacity q.packet.limit ≡ false = ground (arith, v) in
      let whole : leb q.packet.capacity q.packet.capacity ≡ true = ground arith in
      let room : 4 ≤ b.limit = omega (arith, v, h) in
      rw
        (
          set_position_lem v q.packet.limit (omega arith),
          whole,
          late,
          read_u16_at_lem w 2 (omega (arith, room)),
          write_u16_at_lem 2 flags w (omega (arith, room)),
        )
        (
          record {
            valid = rewritten-IsValid 2 (flags / 256 % 256 ∷ flags % 256 ∷ []) w;
            open_end = refl;
            header = h;
          },
          refl,
          same_id q.packet.bytes (flags / 256 % 256) (flags % 256),
        )

-- An error answer to the query in `b`, as it was or with other flags
abbrev pub Answered : Buffer → Buffer → Type 0
Answered b p =
    (c : Buffer) × (rcode : NsdRc) × (read_uint16 c.bytes 0 ≡ read_uint16 b.bytes 0)
    × IsError c (rc_number rcode) p

-- The name of the query is that behind the header of `b`.
abbrev pub Named : Buffer → QueryType → Type 0
Named b q =
    (n : Name) × (xs : List (List ℕ)) × (q.qname ≡ some n)
    × IsMade true xs n
    × (wire xs ≡ take (length (wire xs)) (drop 12 b.bytes))

-- What the query in `b` comes to at the time `now`: it is dropped only when the limit on the rate of
-- errors is passed.
abbrev pub Decided : Buffer → ℕ → Nsd → Next × QueryType × Nsd → Type 0
Decided b now nsd (Next.query_discarded, q, n) = OverLimit now nsd
Decided b now nsd (Next.query_processed, q, n) = Answered b q.packet
Decided b now nsd (Next.answer_notify, q, n) = Named b q
Decided b now nsd (Next.answer_chaos, q, n) = Named b q × IsPrepared q × (q.qclass ≡ class_ch)
Decided b now nsd (Next.answer_query, q, n) =
    Named b q × IsPrepared q × ((q.qclass ≡ class_in) ⊎ (q.qclass ≡ class_any))

-- An error answer to a packet with the same id decides.
pub answered-Decided :
    (b c : Buffer) (now : ℕ) (rcode : NsdRc) (nsd : Nsd) (r : Next × QueryType)
    → read_uint16 c.bytes 0 ≡ read_uint16 b.bytes 0
    → (r.0 ≡ Next.query_processed) × IsError c (rc_number rcode) r.1.packet
    → Decided b now nsd (r.0, r.1, nsd)
answered-Decided b c now rcode nsd (Next.query_processed, p) i (e, k) = (c, rcode, i, k)
answered-Decided b c now rcode nsd (Next.query_discarded, p) i (e, k) = cc e
answered-Decided b c now rcode nsd (Next.answer_notify, p) i (e, k) = cc e
answered-Decided b c now rcode nsd (Next.answer_chaos, p) i (e, k) = cc e
answered-Decided b c now rcode nsd (Next.answer_query, p) i (e, k) = cc e

pub Refused-Decided :
    (b c : Buffer) (now : ℕ) (nsd : Nsd) (rcode : NsdRc) (r : Next × QueryType × Nsd)
    → read_uint16 c.bytes 0 ≡ read_uint16 b.bytes 0
    → Refused now nsd c rcode r
    → Decided b now nsd r
Refused-Decided b c now nsd rcode (Next.query_processed, p, n) i k = (c, rcode, i, k.2)
Refused-Decided b c now nsd rcode (Next.query_discarded, p, n) i k = k.0
Refused-Decided b c now nsd rcode (Next.answer_notify, p, n) i k = absurd k
Refused-Decided b c now nsd rcode (Next.answer_chaos, p, n) i k = absurd k
Refused-Decided b c now nsd rcode (Next.answer_query, p, n) i k = absurd k

module _ (b : Buffer) (now : ℕ) (nsd : Nsd) (q : QueryType) (n : Named b q) (p : IsPrepared q)
    (i : read_uint16 q.packet.bytes 0 ≡ read_uint16 b.bytes 0) where
  pub by_class-Decided : Returns (λ r. Decided b now nsd (r.0, r.1, nsd)) (by_class q)
  unfolding by_class
  by_class-Decided = elim (Bool-cases (not (q.qclass == class_in) && not (q.qclass == class_any))) [
    | inr e ↦
        let known : (q.qclass ≡ class_in) ⊎ (q.qclass ≡ class_any) = ground (arith, e) in
        rw (Returns, e) (n, p, known)
    | inl e ↦ elim (Bool-cases (q.qclass == class_ch)) [
      | inl k ↦ rw (Returns, e, k) (n, p, (==_iff q.qclass class_ch).0 k)
      | inr k ↦
          rw (Returns, e, k)
            (Returns-map (λ r. Decided b now nsd (r.0, r.1, nsd)) (query_error q NsdRc.rc_refuse)
              (λ r d. answered-Decided b q.packet now NsdRc.rc_refuse nsd r i d)
              (query_error-answers q NsdRc.rc_refuse (λ e. cc e) p.valid
                (omega (arith, p.header, p.valid, p.valid.within))))
    ]
  ]
