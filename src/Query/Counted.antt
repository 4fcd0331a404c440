-- ===== src/Query/Counted.antt =====
-- The additional section: a query with a TSIG and an OPT record has an ARCOUNT of 2 or more.
use nsd_old.Base.{
  ℕ, ◌-◌, ◌≤◌, ◌<◌, ◌≡◌, refl, ap, ◌∙◌, Bool, true, false, not, ◌&&◌, Bool-cases, inl, inr, ltb,
  if◌then◌else◌, arith, Ensures, Ensures-bind,
}
use nsd_old.Buffer.{Buffer, read_uint16, read_u16_at}
use nsd_old.Packet.{arcount}
use nsd_old.Dname.Onward.{anything}
use nsd_old.Edns.{Status, parse_record}
use nsd_old.Edns.Kept.{NotTaken, parse_record-NotTaken}
use nsd_old.Tsig.{TsigStatus, tsig_parse_rr}
use nsd_old.Query.{QueryType}
use nsd_old.Query.Process.{is_absent, read_tsig, read_opt, additional}

-- The count that is left, and the record of EDNS, when a TSIG record was looked for
record AfterTsig (flag : Bool) (count : ℕ) (q : QueryType) (r : Bool × ℕ × QueryType) : Type 0 where
  same_edns : r.2.edns ≡ q.edns
  no_more : r.1 ≤ count
  read_one : flag ≡ true → r.2.tsig.status ≡ TsigStatus.tsig_ok → r.1 ≡ count - 1
  not_read : flag ≡ false → r.2.tsig ≡ q.tsig

read_tsig-AfterTsig :
    (flag : Bool) (count : ℕ) (q : QueryType)
    → Ensures (AfterTsig flag count q) (read_tsig flag count q)
unfolding read_tsig
read_tsig-AfterTsig false count q = record {
  same_edns = refl;
  no_more = omega arith;
  read_one = λ e. cc e;
  not_read = λ e. refl;
}
read_tsig-AfterTsig true count q =
    Ensures-bind (λ r. Unit) (AfterTsig true count q) (tsig_parse_rr q.tsig q.packet) _
      (anything (tsig_parse_rr q.tsig q.packet))
      λ (good, t, b) _. record {
        same_edns = refl;
        no_more = ground arith;
        read_one = λ e ok. ap (λ s. if is_absent s then count else count - 1) ok;
        not_read = λ e. cc e;
      }

-- The same when an OPT record was looked for
record AfterOpt (flag : Bool) (count : ℕ) (q : QueryType) (r : ℕ × QueryType) : Type 0 where
  same_tsig : r.1.tsig ≡ q.tsig
  no_more_left : r.0 ≤ count
  opt_read : r.1.edns.status ≡ Status.ok → (flag ≡ true) × (r.0 ≡ count - 1)

read_opt-AfterOpt :
    (flag : Bool) (nsid_len count : ℕ) (q : QueryType)
    → q.edns.status ≡ Status.not_present
    → Ensures (AfterOpt flag count q) (read_opt flag nsid_len count q)
unfolding read_opt
read_opt-AfterOpt false nsid_len count q absent = record {
  same_tsig = refl;
  no_more_left = omega arith;
  opt_read = λ ok. cc (absent, ok);
}
read_opt-AfterOpt true nsid_len count q absent =
    Ensures-bind (NotTaken q.edns) (AfterOpt true count q) (parse_record nsid_len q.edns q.packet) _
      (parse_record-NotTaken nsid_len q.edns q.packet)
      λ (taken, e, b) n. elim (Bool-cases taken) [
        | inl t ↦
            rw t (record {
              same_tsig = refl;
              no_more_left = omega arith;
              opt_read = λ ok. (refl, refl);
            })
        | inr f ↦ rw f (record {
          same_tsig = refl;
          no_more_left = omega arith;
          opt_read = λ ok. cc (n f, ok, absent);
        })
      ]

-- Both records are read only from a section that counts two.
abbrev pub BothCounted : ℕ → Bool × QueryType → Type 0
BothCounted n (good, q) = q.tsig.status ≡ TsigStatus.tsig_ok → q.edns.status ≡ Status.ok → 1 < n

arcount_value : (b : Buffer) → Ensures (λ n. n ≡ read_uint16 b.bytes 10) (arcount b)
unfolding arcount read_u16_at
arcount_value b = ground arith

pub additional-BothCounted :
    (nsid_len : ℕ) (q : QueryType)
    → q.edns.status ≡ Status.not_present
    → q.tsig.status ≡ TsigStatus.tsig_not_present
    → Ensures (BothCounted (read_uint16 q.packet.bytes 10)) (additional nsid_len q)
unfolding additional
additional-BothCounted nsid_len q no_opt no_tsig =
    let n = read_uint16 q.packet.bytes 10 in
    Ensures-bind (λ m. m ≡ n) (BothCounted n) (arcount q.packet) _ (arcount_value q.packet)
      λ m same_count.
        Ensures-bind (AfterTsig (ltb 0 m) m q) (BothCounted n) (read_tsig (ltb 0 m) m q) _
          (read_tsig-AfterTsig (ltb 0 m) m q)
          λ (good, count, p) kp.
            let absent : p.edns.status ≡ Status.not_present =
              ap (λ e. e.status) kp.same_edns ∙ no_opt in
            let first : p.tsig.status ≡ TsigStatus.tsig_ok → count < m = λ ok.
              elim (Bool-cases (ltb 0 m)) [
                | inl t ↦ ground (arith, t, kp.read_one t ok)
                | inr f ↦ cc (kp.not_read f, ok, no_tsig)
              ] in
            elim (Bool-cases (not good)) [
              | inl e ↦ rw (Ensures, e) (λ ok opt. cc (absent, opt))
              | inr e ↦
                  rw (Ensures, e)
                    (Ensures-bind (AfterOpt (ltb 0 count) count p) (BothCounted n)
                      (read_opt (ltb 0 count) nsid_len count p) _
                      (read_opt-AfterOpt (ltb 0 count) nsid_len count p absent)
                      λ (left, u) ku.
                        let flag = ltb 0 left && is_absent u.tsig.status in
                        Ensures-bind (AfterTsig flag left u) (BothCounted n) (read_tsig flag left u)
                          _ (read_tsig-AfterTsig flag left u)
                          λ (fine, rest, r) kr ok opt.
                            let counted : (ltb 0 count ≡ true) × (left ≡ count - 1) =
                              ku.opt_read (cc (kr.same_edns, opt)) in
                            elim (Bool-cases flag) [
                              | inl t ↦ ground (arith, t, counted, kp.no_more, same_count)
                              | inr f ↦
                                  let ok' : p.tsig.status ≡ TsigStatus.tsig_ok =
                                    cc (kr.not_read f, ku.same_tsig, ok) in
                                  ground (arith, counted, first ok', same_count)
                            ])
            ]
