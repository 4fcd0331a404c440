-- ===== src/Query/Gathered.antt =====
-- The additional section of a query: the records that are read from it, and where they stand.
use nsd_old.Base.{
  ℕ, ◌≤◌, ◌<◌, ◌≡◌, inl, inr, refl, sym, ap, ◌∙◌, Bool, true, false, not, ◌&&◌, Bool-cases, none,
  ltb, arith, done, Returns, Returns-bind, Returns-Ensures, Returns-done,
}
use nsd_old.Buffer.{Buffer, read_uint16}
use nsd_old.Buffer.Valid.{IsValid}
use nsd_old.Buffer.Access.{read_u16_at_lem}
use nsd_old.Packet.{arcount}
use nsd_old.Packet.Skip.{Forward, Forward-trans}
use nsd_old.Dname.{max_packet_size}
use nsd_old.Edns.{Status, Record, parse_record}
use nsd_old.Edns.Options.{seen}
use nsd_old.Edns.Parse.{parse_record-Forward}
use nsd_old.Edns.Accept.{IsOpt, parse_record-Accepted}
use nsd_old.Edns.Kept.{NotTaken, parse_record-NotTaken}
use nsd_old.Tsig.{TsigStatus, Tsig, tsig_parse_rr}
use nsd_old.Tsig.Parse.{Signed, Parsed, tsig_parse_rr-Parsed}
use nsd_old.Tsig.Onward.{Onward, tsig_parse_rr-Onward}
use nsd_old.Tsig.Typed.{Typed, tsig_parse_rr-Typed}
use nsd_old.Query.{QueryType}
use nsd_old.Query.Process.{is_absent, read_tsig, read_opt, additional}
use nsd_old.Query.Checked.{IsRead, Signed-IsRead, IsOpen}

-- `c` is the packet `b` with the position `at`.
abbrev SetTo : Buffer → ℕ → Buffer → Type 0
SetTo b at c = (c.bytes ≡ b.bytes) × (c.limit ≡ b.limit) × (c.position ≡ at)

-- The record `t` was read from the packet at the offset `at`, where a record with the type, the class and
-- the ttl of a TSIG stands.
abbrev pub SignedAt : Buffer → Tsig → ℕ → Type 0
SignedAt b t at = (c : Buffer) × SetTo b at c × Signed c t × Typed c

-- A whole OPT record stands in the packet at the offset `at`.
abbrev pub OptAt : Buffer → ℕ → Type 0
OptAt b at = (c : Buffer) × SetTo b at c × ((count : ℕ) × IsOpt c count)

-- The records that a query has, when the packet was at `start`
pub record Gathered (start : Buffer) (q : QueryType) : Type 0 where
  pub forward : Forward start q.packet
  pub opt :
      q.edns.status ≡ Status.ok
      → (start.position ≤ q.edns.position)
        × (q.edns.position ≤ q.packet.position)
        × OptAt start q.edns.position
  pub no_algorithm : q.tsig.algorithm ≡ none
  pub no_key : q.tsig.key ≡ none
  pub signed :
      q.tsig.status ≡ TsigStatus.tsig_ok
      → (start.position ≤ q.tsig.position)
        × (q.tsig.position ≤ q.packet.position)
        × SignedAt start q.tsig q.tsig.position
        × IsRead q.tsig

-- What `tsig_parse_rr` read for a query.
parsed-Gathered :
    {start : Buffer} (q : QueryType) (good : Bool) (t : Tsig) (c : Buffer)
    → Gathered start q
    → Parsed q.packet (good, t, c)
    → Onward q.packet.position q.tsig (good, t, c)
    → (t.status ≡ TsigStatus.tsig_ok → Typed q.packet)
    → Gathered start (record q { tsig = t; packet = c })
parsed-Gathered {start} q good t c g p ((at, ea, ek), o) typed =
    let past : q.packet.position ≤ c.position = elim (Bool-cases good) [
      | inl e ↦ o e
      | inr e ↦ omega (arith, p.back e)
    ] in
    record {
      forward = Forward-trans g.forward (record {
        valid = p.same.valid;
        same_bytes = p.same.same_bytes;
        same_limit = p.same.same_limit;
        onward = past;
      });
      opt = λ e. let (lo, hi, x) = g.opt e in (lo, omega (arith, hi, past), x);
      no_algorithm = ea ∙ g.no_algorithm;
      no_key = ek ∙ g.no_key;
      signed = λ e.
          let (u, s) = p.signed e in
          (
            omega (arith, at, g.forward.onward),
            omega (arith, at, past),
            (q.packet, (g.forward.same_bytes, g.forward.same_limit, sym at), s, typed e),
            Signed-IsRead t g.forward.valid s,
          );
    }

seen_position : (nsid_len count : ℕ) (e : Record) → (seen nsid_len count e).position ≡ e.position
seen_position nsid_len count e = elim (Bool-cases (ltb 0 nsid_len && ltb 0 count)) [
  | inl f ↦ rw f refl
  | inr f ↦ rw f refl
]

-- The OPT record that `edns_parse_record` read for a query that had none
place_read :
    (nsid_len : ℕ) (q : QueryType) (taken : Bool) (e : Record) (c : Buffer)
    → IsValid q.packet
    → q.edns.status ≡ Status.not_present
    → parse_record nsid_len q.edns q.packet ≡ done (taken, e, c)
    → NotTaken q.edns (taken, e, c)
    → e.status ≡ Status.ok
    → (e.position ≡ q.packet.position) × ((count : ℕ) × IsOpt q.packet count)
place_read nsid_len q taken e c v absent run n ok = elim (Bool-cases taken) [
  | inr f0 ↦ cc (n f0, ok, absent)
  | inl t0 ↦
      let (count, o, er, ec) =
        (parse_record-Accepted nsid_len q.edns v e c).0 (run ∙ ap (λ x. done (x, e, c)) t0, ok) in
      (
        ap (λ x. x.position) er
            ∙ seen_position nsid_len count (record q.edns { position = q.packet.position }),
        (count, o),
      )
]

-- What `edns_parse_record` read for it.
opt-Gathered :
    {start : Buffer} (nsid_len : ℕ) (q : QueryType) (taken : Bool) (e : Record) (c : Buffer)
    → Gathered start q
    → q.edns.status ≡ Status.not_present
    → parse_record nsid_len q.edns q.packet ≡ done (taken, e, c)
    → Forward q.packet c
    → NotTaken q.edns (taken, e, c)
    → Gathered start (record q { edns = e; packet = c })
opt-Gathered {start} nsid_len q taken e c g absent run f n = record {
  forward = Forward-trans g.forward f;
  opt = λ ok.
      let (at, o) = place_read nsid_len q taken e c g.forward.valid absent run n ok in
      (
        omega (arith, at, g.forward.onward),
        omega (arith, at, f.onward),
        (q.packet, (g.forward.same_bytes, g.forward.same_limit, sym at), o),
      );
  no_algorithm = g.no_algorithm;
  no_key = g.no_key;
  signed = λ ok. let (lo, hi, s, r) = g.signed ok in (lo, omega (arith, hi, f.onward), s, r);
}

-- What `read_tsig` leaves of a query, and the run of `tsig_parse_rr` that it took.
record TsigRead (start : Buffer) (flag : Bool) (q : QueryType) (r : Bool × ℕ × QueryType)
    : Type 0 where
  gathered : Gathered start r.2
  keeps_qname : r.2.qname ≡ q.qname
  keeps_edns : r.2.edns ≡ q.edns
  run : flag ≡ true → tsig_parse_rr q.tsig q.packet ≡ done (r.0, r.2.tsig, r.2.packet)
  place : flag ≡ true → r.2.tsig.position ≡ q.packet.position
  unread : flag ≡ false → r.2.tsig ≡ q.tsig

-- What `read_opt` leaves of it.
record OptRead (start : Buffer) (q : QueryType) (r : ℕ × QueryType) : Type 0 where
  with_opt : Gathered start r.1
  still_qname : r.1.qname ≡ q.qname
  still_tsig : r.1.tsig ≡ q.tsig
  opt_place : r.1.edns.status ≡ Status.ok → r.1.edns.position ≡ q.packet.position

-- If `r` has a TSIG record before an OPT record, the TSIG record is what `tsig_parse_rr` read for `q`, and
-- the OPT record stands where that left the packet.
abbrev pub Ahead : QueryType → QueryType → Type 0
Ahead q r =
    r.tsig.status ≡ TsigStatus.tsig_ok
    → r.edns.status ≡ Status.ok
    → r.tsig.position < r.edns.position
    → (d : Buffer) × (tsig_parse_rr q.tsig q.packet ≡ done (true, r.tsig, d))
      × (r.edns.position ≡ d.position)

-- The second look for a TSIG record finds none before the OPT record.
second-Ahead :
    {start : Buffer} (q p u r : QueryType) (first second good fine : Bool) (count left rest : ℕ)
    → q.tsig.status ≡ TsigStatus.tsig_not_present
    → good ≡ true
    → TsigRead start first q (good, count, p)
    → OptRead start p (left, u)
    → TsigRead start second u (fine, rest, r)
    → Ahead q r
second-Ahead q p u r first second good fine count left rest absent g k1 k2 k3 ok opt before =
    let opt_u : u.edns.status ≡ Status.ok = ap (λ e. e.status) (sym k3.keeps_edns) ∙ opt in
    let same_place = ap (λ e. e.position) k3.keeps_edns in
    elim (Bool-cases second) [
      | inl t ↦ absurd (omega (arith, before, same_place, k3.place t, (k2.with_opt.opt opt_u).1))
      | inr f ↦
          let same_tsig : r.tsig ≡ p.tsig = k3.unread f ∙ k2.still_tsig in
          elim (Bool-cases first) [
            | inr f1 ↦ cc (k1.unread f1, same_tsig, ok, absent)
            | inl t1 ↦ (
              p.packet,
              k1.run t1
                  ∙ ap (λ x. done (x, p.tsig, p.packet)) g
                  ∙ ap (λ t. done (true, t, p.packet)) (sym same_tsig),
              same_place ∙ k2.opt_place opt_u,
            )
          ]
    ]

module _ (start : Buffer) (small : start.limit ≤ max_packet_size) where
  read_tsig-TsigRead :
      (flag : Bool) (count : ℕ) (q : QueryType)
      → Gathered start q
      → Returns (TsigRead start flag q) (read_tsig flag count q)
  unfolding read_tsig
  read_tsig-TsigRead false count q g = record {
    gathered = g;
    keeps_qname = refl;
    keeps_edns = refl;
    run = λ e. cc e;
    place = λ e. cc e;
    unread = λ e. refl;
  }
  read_tsig-TsigRead true count q g =
      let near : q.packet.limit ≤ max_packet_size = omega (arith, g.forward.same_limit, small) in
      let ((good, t, c), eq, ((p, o), typed)) = Returns-done (tsig_parse_rr q.tsig q.packet) (
        Returns-Ensures _ (λ r. r.1.status ≡ TsigStatus.tsig_ok → Typed q.packet)
          (tsig_parse_rr q.tsig q.packet)
          (Returns-Ensures (Parsed q.packet) (Onward q.packet.position q.tsig)
            (tsig_parse_rr q.tsig q.packet) (tsig_parse_rr-Parsed q.tsig g.forward.valid near)
            (tsig_parse_rr-Onward q.tsig q.packet (omega (arith, near))))
          (tsig_parse_rr-Typed q.tsig q.packet)) in
      rw eq (record {
        gathered = parsed-Gathered q good t c g p o typed;
        keeps_qname = refl;
        keeps_edns = refl;
        run = λ _. eq;
        place = λ _. o.0.0;
        unread = λ e. cc e;
      })

  read_opt-OptRead :
      (flag : Bool) (nsid_len count : ℕ) (q : QueryType)
      → Gathered start q
      → q.edns.status ≡ Status.not_present
      → Returns (OptRead start q) (read_opt flag nsid_len count q)
  unfolding read_opt
  read_opt-OptRead false nsid_len count q g absent = record {
    with_opt = g;
    still_qname = refl;
    still_tsig = refl;
    opt_place = λ ok. cc (ok, absent);
  }
  read_opt-OptRead true nsid_len count q g absent =
      let run =
        Returns-Ensures (λ r. Forward q.packet r.2) (NotTaken q.edns)
          (parse_record nsid_len q.edns q.packet)
          (parse_record-Forward nsid_len q.edns g.forward.valid)
          (parse_record-NotTaken nsid_len q.edns q.packet) in
      let ((taken, e, c), eq, (f, n)) = Returns-done (parse_record nsid_len q.edns q.packet) run in
      rw eq (record {
        with_opt = opt-Gathered nsid_len q taken e c g absent eq f n;
        still_qname = refl;
        still_tsig = refl;
        opt_place = λ ok. (place_read nsid_len q taken e c g.forward.valid absent eq n ok).0;
      })

  pub additional-Gathered :
      (nsid_len : ℕ) (q : QueryType)
      → Gathered start q
      → 12 ≤ start.position
      → q.edns.status ≡ Status.not_present
      → q.tsig.status ≡ TsigStatus.tsig_not_present
      → Returns
          (λ r. Gathered start r.1 × (r.1.qname ≡ q.qname) × Ahead q r.1)
          (additional nsid_len q)
  unfolding additional arcount
  additional-Gathered nsid_len q g h absent no_tsig =
      let n = read_uint16 q.packet.bytes 10 in
      let Q : Bool × QueryType → Type 0 =
        λ r. Gathered start r.1 × (r.1.qname ≡ q.qname) × Ahead q r.1 in
      rw
        (read_u16_at_lem g.forward.valid 10
          (omega (arith, h, g.forward.onward, g.forward.valid.within)))
        (Returns-bind Q (read_tsig (ltb 0 n) n q) _ (read_tsig-TsigRead (ltb 0 n) n q g)
          λ (good, count, p) k1.
            let no_opt : p.edns.status ≡ Status.not_present =
              ap (λ e. e.status) k1.keeps_edns ∙ absent in
            elim (Bool-cases (not good)) [
              | inl e ↦ rw (Returns, e) (k1.gathered, k1.keeps_qname, λ _ opt. cc (no_opt, opt))
              | inr e ↦
                  let true_good : good ≡ true = ground (arith, e) in
                  rw (Returns, e)
                    (Returns-bind Q (read_opt (ltb 0 count) nsid_len count p) _
                      (read_opt-OptRead (ltb 0 count) nsid_len count p k1.gathered no_opt)
                      λ (left, u) k2.
                        let flag = ltb 0 left && is_absent u.tsig.status in
                        Returns-bind Q (read_tsig flag left u) _
                          (read_tsig-TsigRead flag left u k2.with_opt)
                          λ (fine, rest, r) k3. (
                            k3.gathered,
                            k3.keeps_qname ∙ k2.still_qname ∙ k1.keeps_qname,
                            second-Ahead q p u r (ltb 0 n) flag good fine count left rest no_tsig
                                true_good k1 k2 k3,
                          ))
            ])

-- What is gathered is open for `process_tsig`, once the packet is cut at its position.
pub Gathered-IsOpen :
    {start : Buffer} (q : QueryType) (c : Buffer)
    → Gathered start q
    → 12 ≤ start.position
    → c.limit ≡ q.packet.position
    → q.tsig.status ≡ TsigStatus.tsig_ok
    → IsOpen (record q { packet = c })
Gathered-IsOpen q c g h l ok =
    let (lo, hi, s, r) = g.signed ok in
    record {
      no_algorithm = g.no_algorithm;
      no_key = g.no_key;
      header = omega (arith, lo, h);
      inside = omega (arith, hi, l);
      is_read = r;
    }
