-- ===== src/Query/Error.antt =====
-- The answer that `query_error` makes of a query.
use nsd_old.Base.{
  ℕ, ◌+◌, ◌*◌, ◌/◌, ◌%◌, ◌≤◌, ◌<◌, ◌≡◌, ◌≢◌, ◌⊎◌, inl, inr, refl, Bool, false, Returns-map, List,
  [], ◌∷◌, length, get_or, overwrite, length-overwrite, arith, done, Returns,
}
use nsd_old.Buffer.{Buffer, invariant, clear, be16, read_uint16, write_u16_at}
use nsd_old.Buffer.Valid.{IsValid}
use nsd_old.Buffer.Access.{write_at_lem, set_position_lem}
use nsd_old.Packet.{peek}
use nsd_old.Query.{
  NsdRc, rc_number, is_discard, QueryType, Next, poke, error_flags, clear_counts, query_error,
}

is_discard-no : (rcode : NsdRc) → rcode ≢ NsdRc.rc_discard → is_discard rcode ≡ false
is_discard-no NsdRc.rc_discard u = absurd (u refl)
is_discard-no NsdRc.rc_ok u = refl
is_discard-no NsdRc.rc_format u = refl
is_discard-no NsdRc.rc_servfail u = refl
is_discard-no NsdRc.rc_nxdomain u = refl
is_discard-no NsdRc.rc_impl u = refl
is_discard-no NsdRc.rc_refuse u = refl
is_discard-no NsdRc.rc_notauth u = refl

-- A list of as many octets as the header has
pub data HasHeader : List ℕ → Type 0 where
  header :
      {a b c d e f g h i j k l : ℕ} {rest : List ℕ}
      → HasHeader (a ∷ b ∷ c ∷ d ∷ e ∷ f ∷ g ∷ h ∷ i ∷ j ∷ k ∷ l ∷ rest)

pub has_header : (d : List ℕ) → 12 ≤ length d → HasHeader d
has_header (a ∷ b ∷ c ∷ d ∷ e ∷ f ∷ g ∷ h ∷ i ∷ j ∷ k ∷ l ∷ rest) n = header
has_header [] n = absurd (omega arith)
has_header (a ∷ []) n = absurd (omega arith)
has_header (a ∷ b ∷ []) n = absurd (omega arith)
has_header (a ∷ b ∷ c ∷ []) n = absurd (omega arith)
has_header (a ∷ b ∷ c ∷ d ∷ []) n = absurd (omega arith)
has_header (a ∷ b ∷ c ∷ d ∷ e ∷ []) n = absurd (omega arith)
has_header (a ∷ b ∷ c ∷ d ∷ e ∷ f ∷ []) n = absurd (omega arith)
has_header (a ∷ b ∷ c ∷ d ∷ e ∷ f ∷ g ∷ []) n = absurd (omega arith)
has_header (a ∷ b ∷ c ∷ d ∷ e ∷ f ∷ g ∷ h ∷ []) n = absurd (omega arith)
has_header (a ∷ b ∷ c ∷ d ∷ e ∷ f ∷ g ∷ h ∷ i ∷ []) n = absurd (omega arith)
has_header (a ∷ b ∷ c ∷ d ∷ e ∷ f ∷ g ∷ h ∷ i ∷ j ∷ []) n = absurd (omega arith)
has_header (a ∷ b ∷ c ∷ d ∷ e ∷ f ∷ g ∷ h ∷ i ∷ j ∷ k ∷ []) n = absurd (omega arith)

-- The packet `c` is an answer with the code `rcode` to the query in `b`: a header without records,
-- with the id and the opcode of the query.
pub record IsError (b : Buffer) (rcode : ℕ) (c : Buffer) : Type 0 where
  pub valid : IsValid c
  pub behind_header : c.position ≡ 12
  pub open_end : c.limit ≡ b.capacity
  pub same_id : read_uint16 c.bytes 0 ≡ read_uint16 b.bytes 0
  pub answer : get_or c.bytes 2 0 / 128 % 2 ≡ 1
  pub same_opcode : get_or c.bytes 2 0 / 8 % 16 ≡ get_or b.bytes 2 0 / 8 % 16
  pub code : get_or c.bytes 3 0 % 16 ≡ rcode
  pub no_question : read_uint16 c.bytes 4 ≡ 0
  pub no_answer : read_uint16 c.bytes 6 ≡ 0
  pub no_authority : read_uint16 c.bytes 8 ≡ 0
  pub no_additional : read_uint16 c.bytes 10 ≡ 0

rc_number-lt : (rcode : NsdRc) → rcode ≢ NsdRc.rc_discard → rc_number rcode < 16
rc_number-lt NsdRc.rc_discard u = absurd (u refl)
rc_number-lt NsdRc.rc_ok u = omega arith
rc_number-lt NsdRc.rc_format u = omega arith
rc_number-lt NsdRc.rc_servfail u = omega arith
rc_number-lt NsdRc.rc_nxdomain u = omega arith
rc_number-lt NsdRc.rc_impl u = omega arith
rc_number-lt NsdRc.rc_refuse u = omega arith
rc_number-lt NsdRc.rc_notauth u = omega arith

pub write_u16_at_lem :
    {b : Buffer} (at x : ℕ)
    → IsValid b
    → at + 2 ≤ b.limit
    → write_u16_at b at x
      ≡ done (record b { bytes = overwrite b.bytes at (x / 256 % 256 ∷ x % 256 ∷ []) })
unfolding write_u16_at be16
write_u16_at_lem {b} at x v h = write_at_lem v at (x / 256 % 256 ∷ x % 256 ∷ []) (omega (arith, h))

pub rewritten-IsValid :
    {b : Buffer} (at : ℕ) (d : List ℕ)
    → IsValid b
    → IsValid (record b { bytes = overwrite b.bytes at d })
rewritten-IsValid {b} at d v = omega (arith, length-overwrite b.bytes at d, v)

pub clear_lem :
    {b : Buffer} → IsValid b → clear b ≡ done (record b { position = 0; limit = b.capacity })
unfolding clear invariant
clear_lem v = ground (arith, v.within, v.fits)

clear_counts_lem :
    {b : Buffer}
    → IsValid b
    → 12 ≤ b.limit
    → clear_counts b
      ≡ done (record b {
        bytes =
            overwrite
              (overwrite
                (overwrite (overwrite b.bytes 4 (0 ∷ 0 ∷ [])) 6 (0 ∷ 0 ∷ []))
                8
                (0 ∷ 0 ∷ []))
              10
              (0 ∷ 0 ∷ []);
        position = 12;
      })
unfolding clear_counts
clear_counts_lem {b} v h =
    let v4 = rewritten-IsValid 4 (0 ∷ 0 ∷ []) v in
    let v6 = rewritten-IsValid 6 (0 ∷ 0 ∷ []) v4 in
    let v8 = rewritten-IsValid 8 (0 ∷ 0 ∷ []) v6 in
    let v10 = rewritten-IsValid 10 (0 ∷ 0 ∷ []) v8 in
    rw
      (
        write_u16_at_lem 4 0 v (omega (arith, h)),
        write_u16_at_lem 6 0 v4 (omega (arith, h)),
        write_u16_at_lem 8 0 v6 (omega (arith, h)),
        write_u16_at_lem 10 0 v8 (omega (arith, h)),
      )
      (set_position_lem v10 12 h)

header-IsError :
    (q : QueryType) (rcode : NsdRc) {d : List ℕ} {position limit capacity : ℕ} {is_fixed : Bool}
    → rcode ≢ NsdRc.rc_discard
    → HasHeader d
    → IsValid (record {
      bytes = d;
      position = position;
      limit = limit;
      capacity = capacity;
      is_fixed = is_fixed;
    })
    → Returns
        (λ r.
          (r.0 ≡ Next.query_processed)
          × IsError
              (record {
                bytes = d;
                position = position;
                limit = limit;
                capacity = capacity;
                is_fixed = is_fixed;
              })
              (rc_number rcode)
              r.1.packet)
        (query_error
          (record q {
            packet = record {
              bytes = d;
              position = position;
              limit = limit;
              capacity = capacity;
              is_fixed = is_fixed;
            };
          })
          rcode)
unfolding query_error error_flags poke peek read_uint16
header-IsError q rcode {position = position} {limit = limit} {capacity = capacity}
      {is_fixed = is_fixed} u
      (header {a = a} {b = b} {c = c} {d = x} {e = e} {f = f} {g = g} {h = h} {i = i} {j = j}
        {k = k} {l = l} {rest = rest})
      v =
    let room : 12 ≤ capacity = omega (arith, v.stored) in
    let flags : List ℕ =
      a
      ∷ b
      ∷ (c % 128 + 128)
      ∷ ((x / 64 * 64 + x % 32) / 16 * 16 + rc_number rcode)
      ∷ e
      ∷ f
      ∷ g
      ∷ h
      ∷ i
      ∷ j
      ∷ k
      ∷ l
      ∷ rest in
    let w : IsValid (record {
      bytes = flags;
      position = 0;
      limit = capacity;
      capacity = capacity;
      is_fixed = is_fixed;
    }) =
      omega (arith, v.stored, v.small) in
    let cleared : IsValid (record {
      bytes = a ∷ b ∷ c ∷ x ∷ e ∷ f ∷ g ∷ h ∷ i ∷ j ∷ k ∷ l ∷ rest;
      position = 0;
      limit = capacity;
      capacity = capacity;
      is_fixed = is_fixed;
    }) =
      omega (arith, v.stored, v.small) in
    let flagged : error_flags
          (record {
            bytes = a ∷ b ∷ c ∷ x ∷ e ∷ f ∷ g ∷ h ∷ i ∷ j ∷ k ∷ l ∷ rest;
            position = 0;
            limit = capacity;
            capacity = capacity;
            is_fixed = is_fixed;
          })
          rcode
        ≡ done (record {
          bytes = flags;
          position = 0;
          limit = capacity;
          capacity = capacity;
          is_fixed = is_fixed;
        }) =
      ground arith in
    rw (is_discard-no rcode u, clear_lem v, flagged, clear_counts_lem w room)
      (
        refl,
        record {
          valid = omega (arith, v.stored, v.small, room, length-overwrite rest 0 []);
          behind_header = refl;
          open_end = refl;
          same_id = refl;
          answer = omega arith;
          same_opcode = omega arith;
          code = omega (arith, rc_number-lt rcode u);
          no_question = refl;
          no_answer = refl;
          no_authority = refl;
          no_additional = refl;
        },
      )

-- An answer with any code but the one to discard
pub query_error-answers :
    (q : QueryType) (rcode : NsdRc)
    → rcode ≢ NsdRc.rc_discard
    → IsValid q.packet
    → 12 ≤ q.packet.capacity
    → Returns
        (λ r. (r.0 ≡ Next.query_processed) × IsError q.packet (rc_number rcode) r.1.packet)
        (query_error q rcode)
query_error-answers q rcode u v h =
    header-IsError q rcode u (has_header q.packet.bytes (omega (arith, v.stored, h))) v

-- What `query_error` comes to, for every code.
abbrev pub Erred : QueryType → NsdRc → Next × QueryType → Type 0
Erred q rcode r =
    ((rcode ≡ NsdRc.rc_discard) × (r ≡ (Next.query_discarded, q)))
    ⊎ ((rcode ≢ NsdRc.rc_discard)
        × (r.0 ≡ Next.query_processed)
        × IsError q.packet (rc_number rcode) r.1.packet)

-- `query_error` of a query whose packet is valid and has room for a header returns. With the code
-- NSD_RC_DISCARD it returns QUERY_DISCARDED and leaves the query. With any other code it returns
-- QUERY_PROCESSED with the packet turned into an answer: a header with QR and the code set, id and opcode
-- as they were and all counts 0, the position behind it, and the limit at the capacity.
pub query_error-IsError :
    (q : QueryType) (rcode : NsdRc)
    → IsValid q.packet
    → 12 ≤ q.packet.capacity
    → Returns (Erred q rcode) (query_error q rcode)
query_error-IsError q rcode v h = elim (discard_cases rcode) [
  | inl e ↦ rw e (unfold query_error in inl (refl, refl))
  | inr u ↦
      Returns-map (Erred q rcode) (query_error q rcode) (λ r k. inr (u, k.0, k.1))
        (query_error-answers q rcode u v h)
]
  where
    discard_cases : (c : NsdRc) → (c ≡ NsdRc.rc_discard) ⊎ (c ≢ NsdRc.rc_discard)
    discard_cases NsdRc.rc_discard = inl refl
    discard_cases NsdRc.rc_ok = inr (λ e. cc e)
    discard_cases NsdRc.rc_format = inr (λ e. cc e)
    discard_cases NsdRc.rc_servfail = inr (λ e. cc e)
    discard_cases NsdRc.rc_nxdomain = inr (λ e. cc e)
    discard_cases NsdRc.rc_impl = inr (λ e. cc e)
    discard_cases NsdRc.rc_refuse = inr (λ e. cc e)
    discard_cases NsdRc.rc_notauth = inr (λ e. cc e)
