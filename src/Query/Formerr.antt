-- ===== src/Query/Formerr.antt =====
-- The answers that `query_formerr` makes of a query, and the limit on their rate.
use nsd_old.Base.{
  ℕ, ◌^◌, ◌+◌, ◌*◌, ◌/◌, ◌%◌, ◌≤◌, ◌<◌, ◌≡◌, refl, ◌≢◌, ◌⊎◌, ◌==◌, true, false, Bool-cases, inl,
  inr, List, [], ◌∷◌, ltb, length, get_or, overwrite, get_or-overwrite_in, get_or-overwrite_out,
  ◌∙◌, arith, Returns, Returns-bind,
}
use nsd_old.Buffer.{Buffer, read_uint16}
use nsd_old.Buffer.Valid.{IsValid}
use nsd_old.Buffer.Access.{read_u16_at_lem}
use nsd_old.Packet.{peek}
use nsd_old.Query.{
  NsdRc, rc_number, QueryType, Nsd, Next, poke, opcode_of, opcode_set, query_error,
  query_ratelimit_err, error_ratelimit, limited_error, formerr_flags, query_formerr,
}
use nsd_old.Query.Error.{IsError, query_error-answers, write_u16_at_lem, rewritten-IsValid}

-- More than ERROR_RATELIMIT errors were counted in this second.
abbrev pub OverLimit : ℕ → Nsd → Type 0
OverLimit now nsd = (nsd.err_limit_time ≡ now) × (error_ratelimit < nsd.err_limit_count)

-- In `n` one more error is counted than in `nsd`, or the first of a new second.
abbrev pub CountedIn : ℕ → Nsd → Nsd → Type 0
CountedIn now nsd n =
    (n.err_limit_time ≡ now)
    × (((nsd.err_limit_time ≡ now) × (n.err_limit_count ≡ (nsd.err_limit_count + 1) % 2 ^ 32))
        ⊎ ((nsd.err_limit_time ≢ now) × (n.err_limit_count ≡ 1)))

-- What becomes of a query in `b` that is not answered from the data: an error while the limit of the
-- server is not passed, and nothing when it is.
abbrev pub Refused : ℕ → Nsd → Buffer → NsdRc → Next × QueryType × Nsd → Type 0
Refused now nsd b rcode (Next.query_processed, q, n) =
    (¬ OverLimit now nsd) × CountedIn now nsd n × IsError b (rc_number rcode) q.packet
Refused now nsd b rcode (Next.query_discarded, q, n) =
    OverLimit now nsd × CountedIn now nsd n × (q.packet ≡ b)
Refused now nsd b rcode (_, q, n) = ⊥

ratelimit_over : (now : ℕ) (nsd : Nsd) → (query_ratelimit_err now nsd).0 ≡ true → OverLimit now nsd
unfolding query_ratelimit_err
ratelimit_over now nsd e = ground (arith, e)

ratelimit_under :
    (now : ℕ) (nsd : Nsd) → (query_ratelimit_err now nsd).0 ≡ false → ¬ OverLimit now nsd
unfolding query_ratelimit_err
ratelimit_under now nsd e o = ground (arith, e, o)

ratelimit-CountedIn : (now : ℕ) (nsd : Nsd) → CountedIn now nsd (query_ratelimit_err now nsd).1
unfolding query_ratelimit_err
ratelimit-CountedIn now nsd = elim (Bool-cases (nsd.err_limit_time == now)) [
  | inl e ↦ let same : nsd.err_limit_time ≡ now = ground (arith, e) in rw e (same, inl (same, refl))
  | inr e ↦
      let other : nsd.err_limit_time ≢ now = ground (arith, e) in rw e (refl, inr (other, refl))
]

-- An error answer is a refusal.
refused_lem :
    (now : ℕ) (nsd : Nsd) (rcode : NsdRc) (n : Nsd) (r : Next × QueryType) (b : Buffer)
    → ¬ OverLimit now nsd
    → CountedIn now nsd n
    → (r.0 ≡ Next.query_processed) × IsError b (rc_number rcode) r.1.packet
    → Refused now nsd b rcode (r.0, r.1, n)
refused_lem now nsd rcode n (Next.query_processed, p) b u c (e, k) = (u, c, k)
refused_lem now nsd rcode n (Next.query_discarded, p) b u c (e, k) = cc e
refused_lem now nsd rcode n (Next.answer_notify, p) b u c (e, k) = cc e
refused_lem now nsd rcode n (Next.answer_chaos, p) b u c (e, k) = cc e
refused_lem now nsd rcode n (Next.answer_query, p) b u c (e, k) = cc e

-- Behind the limit on the rate of errors.
module _ (now : ℕ) (q : QueryType) (nsd : Nsd) (v : IsValid q.packet) where
  pub limited_error-Refused :
      (rcode : NsdRc)
      → rcode ≢ NsdRc.rc_discard
      → 12 ≤ q.packet.capacity
      → Returns (Refused now nsd q.packet rcode) (limited_error now q nsd rcode)
  unfolding limited_error
  limited_error-Refused rcode u h =
      let counted = ratelimit-CountedIn now nsd in
      elim (Bool-cases (query_ratelimit_err now nsd).0) [
        | inl e ↦ rw e (ratelimit_over now nsd e, counted, refl)
        | inr e ↦ rw e (
            Returns-bind (Refused now nsd q.packet rcode) (query_error q rcode) _
              (query_error-answers q rcode u v h)
              λ r k.
                refused_lem now nsd rcode (query_ratelimit_err now nsd).1 r q.packet
                  (ratelimit_under now nsd e) counted k)
      ]

-- The packet `c` differs from `b` in octets behind the id, and has the opcode `opcode`.
record Reflagged (b : Buffer) (opcode : ℕ) (c : Buffer) : Type 0 where
  valid : IsValid c
  same_capacity : c.capacity ≡ b.capacity
  same_id : read_uint16 c.bytes 0 ≡ read_uint16 b.bytes 0
  new_opcode : get_or c.bytes 2 0 / 8 % 16 ≡ opcode

formerr_flags-Reflagged :
    {b : Buffer} (opcode : ℕ)
    → IsValid b
    → 12 ≤ b.limit
    → opcode < 16
    → Returns (Reflagged b opcode) (formerr_flags b opcode)
unfolding formerr_flags opcode_set peek poke read_uint16
formerr_flags-Reflagged {b} opcode v h small =
    let flags = read_uint16 b.bytes 2 / 256 % 2 * 256 in
    let d : List ℕ = flags / 256 % 256 ∷ flags % 256 ∷ [] in
    let w = rewritten-IsValid 2 d v in
    let x = get_or (overwrite b.bytes 2 d) 2 0 in
    let y = x / 128 % 2 * 128 + opcode * 8 + x % 8 in
    let octets = overwrite b.bytes 2 d in
    let inside : ltb 2 (length octets) ≡ true = ground (arith, w.stored, v.fits, h) in
    rw
      (
        read_u16_at_lem v 2 (omega (arith, h)),
        write_u16_at_lem 2 flags v (omega (arith, h)),
        inside,
      )
      (record {
        valid = rewritten-IsValid 2 (y ∷ []) w;
        same_capacity = refl;
        same_id = ground (
          arith,
          get_or-overwrite_out octets 2 (y ∷ []) 0 0 (inl (omega arith)),
          get_or-overwrite_out octets 2 (y ∷ []) 1 0 (inl (omega arith)),
          get_or-overwrite_out b.bytes 2 d 0 0 (inl (omega arith)),
          get_or-overwrite_out b.bytes 2 d 1 0 (inl (omega arith)),
        );
        new_opcode = omega (
          arith,
          small,
          get_or-overwrite_in octets 2 (y ∷ []) 0 0 (omega (arith, w.stored, v.fits, h))
              (omega arith),
        );
      })

Reflagged-IsError :
    {b c d : Buffer} {rcode : ℕ}
    → Reflagged b (get_or b.bytes 2 0 / 8 % 16) c
    → IsError c rcode d
    → IsError b rcode d
Reflagged-IsError g k = record {
  valid = k.valid;
  behind_header = k.behind_header;
  open_end = k.open_end ∙ g.same_capacity;
  same_id = k.same_id ∙ g.same_id;
  answer = k.answer;
  same_opcode = k.same_opcode ∙ g.new_opcode;
  code = k.code;
  no_question = k.no_question;
  no_answer = k.no_answer;
  no_authority = k.no_authority;
  no_additional = k.no_additional;
}

-- `query_formerr` of a query with a whole header returns, and counts the error. When the second is the
-- one of the last error and more than ERROR_RATELIMIT errors were counted in it, it drops the query and
-- leaves the packet; else it makes an answer with the code FORMERR, the id and the opcode of the query.
pub query_formerr-Refused :
    (now : ℕ) (q : QueryType) (nsd : Nsd)
    → IsValid q.packet
    → 12 ≤ q.packet.limit
    → Returns (Refused now nsd q.packet NsdRc.rc_format) (query_formerr now q nsd)
unfolding query_formerr opcode_of peek
query_formerr-Refused now q nsd v h =
    let inside : ltb 2 (length q.packet.bytes) ≡ true = ground (arith, v, h) in
    let opcode = get_or q.packet.bytes 2 0 / 8 % 16 in
    let counted = ratelimit-CountedIn now nsd in
    rw inside (elim (Bool-cases (query_ratelimit_err now nsd).0) [
      | inl e ↦ rw e (ratelimit_over now nsd e, counted, refl)
      | inr e ↦ rw e (
          Returns-bind (Refused now nsd q.packet NsdRc.rc_format) (formerr_flags q.packet opcode) _
            (formerr_flags-Reflagged opcode v h (omega arith))
            λ c g.
              Returns-bind (Refused now nsd q.packet NsdRc.rc_format)
                (query_error (record q { packet = c }) NsdRc.rc_format) _
                (query_error-answers (record q { packet = c }) NsdRc.rc_format (λ x. cc x) g.valid
                  (omega (arith, g.same_capacity, v.fits, h)))
                λ r (p, k).
                  refused_lem now nsd NsdRc.rc_format (query_ratelimit_err now nsd).1 r q.packet
                    (ratelimit_under now nsd e) counted (p, Reflagged-IsError g k))
    ])
