-- ===== src/Edns/Accept.antt =====
-- `edns_parse_record` accepts exactly the OPT records.
use Prim.Native.Nat.{bit_and}
use native.Mathlib.Decide.{dec_lt, ℕ_discrete}
use nsd_old.Base.{
  ℕ, ◌+◌, ◌≤◌, ◌<◌, ◌≡◌, ◌≢◌, ◌↔◌, inl, inr, refl, ap, ◌∙◌, Bool, true, arith, get_or, done,
  Returns-done,
}
use nsd_old.Buffer.{Buffer, read_uint16}
use nsd_old.Buffer.Valid.{IsValid}
use nsd_old.Buffer.Access.{available_lem}
use nsd_old.Edns.{
  Status, Record, parse_options, parse_rdata, parse_record, type_opt, dnssec_ok_mask,
}
use nsd_old.Edns.Options.{Options, seen, parse_options-Forward, parse_options_sound}
use nsd_old.Edns.Parse.{too_short, not_opt, is_opt, fixed_lem, rdata_complete}

-- The octets at the position of `b` are a whole OPT record of version 0, with `count` NSID options.
pub record IsOpt (b : Buffer) (count : ℕ) : Type 0 where
  pub fits : b.position + 11 + read_uint16 b.bytes (b.position + 9) ≤ b.limit
  pub root_owner : get_or b.bytes b.position 0 ≡ 0
  pub opt_type : read_uint16 b.bytes (b.position + 1) ≡ type_opt
  pub version : get_or b.bytes (b.position + 6) 0 ≡ 0
  pub options : Options b.bytes (b.position + 11) (read_uint16 b.bytes (b.position + 9)) count

-- The record that an accepted OPT record leaves.
abbrev pub accepted : ℕ → ℕ → Record → Buffer → Record
accepted nsid_len count e b = record (seen nsid_len count (record e { position = b.position })) {
  status = Status.ok;
  maxlen = read_uint16 b.bytes (b.position + 3);
  dnssec_ok = bit_and (read_uint16 b.bytes (b.position + 7)) dnssec_ok_mask;
}

-- What `edns_parse_record` leaves, `e'` and `c`, when it takes an OPT record.
abbrev pub Accepted : ℕ → Record → Buffer → Record → Buffer → Type 0
Accepted nsid_len e b e' c =
    (count : ℕ) × IsOpt b count
    × (e' ≡ accepted nsid_len count e b)
    × (c ≡ record b { position = b.position + 11 + read_uint16 b.bytes (b.position + 9) })

-- Rdata that is accepted is before the limit, and a list of options.
module _ (nsid_len class flags len : ℕ) (e : Record) {b : Buffer} (v : IsValid b) where
  refused :
      {e' : Record} {c : Buffer}
      → b.limit < b.position + len
      → parse_rdata nsid_len class flags len e b ≢ done (true, e', c)
  unfolding parse_rdata
  refused h q = ground (arith, available_lem v len)

  ended :
      (whole : Bool) (e1 : Record) (c1 : Buffer)
      → b.position + len ≤ b.limit
      → parse_options (len + 1) nsid_len len e b ≡ done (whole, e1, c1)
      → (e' : Record) (c : Buffer) → parse_rdata nsid_len class flags len e b ≡ done (true, e', c)
      → (whole ≡ true)
        × (e' ≡ record e1 {
          status = Status.ok;
          maxlen = class;
          dnssec_ok = bit_and flags dnssec_ok_mask;
        })
        × (c ≡ c1)
  unfolding parse_rdata
  ended whole e1 c1 h run e' c q = ground (arith, available_lem v len)

  rdata_sound :
      (e' : Record) (c : Buffer)
      → parse_rdata nsid_len class flags len e b ≡ done (true, e', c)
      → (b.position + len ≤ b.limit)
        × ((count : ℕ) × Options b.bytes b.position len count
            × (e' ≡ record (seen nsid_len count e) {
              status = Status.ok;
              maxlen = class;
              dnssec_ok = bit_and flags dnssec_ok_mask;
            })
            × (c ≡ record b { position = b.position + len }))
  rdata_sound e' c q = elim (dec_lt b.limit (b.position + len)) [
    | yes h ↦ absurd (refused h q)
    | no h ↦
        let ((whole, e1, c1), run, _) =
          Returns-done (parse_options (len + 1) nsid_len len e b)
            (parse_options-Forward (len + 1) nsid_len len e v (omega arith) (omega arith)) in
        let taken : Record → Record = λ x. record x {
          status = Status.ok;
          maxlen = class;
          dnssec_ok = bit_and flags dnssec_ok_mask;
        } in
        let (w, ee, ec) = ended whole e1 c1 (omega arith) run e' c q in
        let (count, o, er, ep) =
          parse_options_sound (len + 1) nsid_len len e e1 c1 v (omega arith)
            (run ∙ ap (λ x. done (x, e1, c1)) w) in
        (omega arith, (count, o, ee ∙ ap taken er, ec ∙ ep))
  ]

module _ (nsid_len : ℕ) (e : Record) {b : Buffer} (v : IsValid b) where
  parse_record_complete :
      (count : ℕ)
      → IsOpt b count
      → parse_record nsid_len e b
        ≡ done (
          true,
          accepted nsid_len count e b,
          record b { position = b.position + 11 + read_uint16 b.bytes (b.position + 9) },
        )
  parse_record_complete count o =
      let w : IsValid (record b { position = b.position + 3 }) = omega arith in
      let u : IsValid (record b { position = b.position + 11 }) = omega arith in
      let e6 : b.position + 3 + 3 ≡ b.position + 6 = omega arith in
      let e7 : b.position + 3 + 4 ≡ b.position + 7 = omega arith in
      let e9 : b.position + 3 + 6 ≡ b.position + 9 = omega arith in
      let e11 : b.position + 3 + 8 ≡ b.position + 11 = omega arith in
      rw
        (
          is_opt nsid_len e v (omega arith) o.root_owner o.opt_type,
          fixed_lem nsid_len (record e { position = b.position }) w (omega arith),
          e6,
          e7,
          e9,
          e11,
          o.version,
        )
        (rdata_complete nsid_len (read_uint16 b.bytes (b.position + 3))
          (read_uint16 b.bytes (b.position + 7)) (read_uint16 b.bytes (b.position + 9))
          (record e { position = b.position }) u count o.fits o.options)

  -- With owner and type read, the record has version 0 and takes the rdata, or its status is EDNS_ERROR.
  accepts_version :
      {e' : Record} {c : Buffer}
      → b.position + 11 ≤ b.limit
      → get_or b.bytes b.position 0 ≡ 0
      → read_uint16 b.bytes (b.position + 1) ≡ type_opt
      → parse_record nsid_len e b ≡ done (true, e', c)
      → e'.status ≡ Status.ok
      → (get_or b.bytes (b.position + 6) 0 ≡ 0)
        × (parse_rdata nsid_len
              (read_uint16 b.bytes (b.position + 3))
              (read_uint16 b.bytes (b.position + 7))
              (read_uint16 b.bytes (b.position + 9))
              (record e { position = b.position })
              (record b { position = b.position + 11 })
            ≡ done (true, e', c))
  accepts_version {e'} {c} h o t q k =
      let w : IsValid (record b { position = b.position + 3 }) = omega arith in
      let e6 : b.position + 3 + 3 ≡ b.position + 6 = omega arith in
      let e7 : b.position + 3 + 4 ≡ b.position + 7 = omega arith in
      let e9 : b.position + 3 + 6 ≡ b.position + 9 = omega arith in
      let e11 : b.position + 3 + 8 ≡ b.position + 11 = omega arith in
      ground (
        arith,
        is_opt nsid_len e v h o t,
        fixed_lem nsid_len (record e { position = b.position }) w (omega arith),
        e6,
        e7,
        e9,
        e11,
      )

  parse_record_sound :
      (e' : Record) (c : Buffer)
      → parse_record nsid_len e b ≡ done (true, e', c)
      → e'.status ≡ Status.ok
      → Accepted nsid_len e b e' c
  parse_record_sound e' c q k = elim (dec_lt b.limit (b.position + 11)) [
    | yes s ↦ cc (too_short nsid_len e v s)
    | no s ↦ elim (ℕ_discrete (get_or b.bytes b.position 0) 0) [
      | no o ↦ cc (not_opt nsid_len e v (omega arith) (inl o))
      | yes o ↦ elim (ℕ_discrete (read_uint16 b.bytes (b.position + 1)) type_opt) [
        | no t ↦ cc (not_opt nsid_len e v (omega arith) (inr t))
        | yes t ↦
            let (version, run) = accepts_version (omega arith) o t q k in
            let u : IsValid (record b { position = b.position + 11 }) = omega arith in
            let (fits, (count, options, er, ec)) =
              rdata_sound nsid_len (read_uint16 b.bytes (b.position + 3))
                (read_uint16 b.bytes (b.position + 7)) (read_uint16 b.bytes (b.position + 9))
                (record e { position = b.position }) u e' c run in
            (
              count,
              record {
                fits = fits;
                root_owner = o;
                opt_type = t;
                version = version;
                options = options;
              },
              er,
              ec,
            )
      ]
    ]
  ]

  -- On a valid packet `edns_parse_record` returns 1 with the state EDNS_OK exactly at a whole OPT
  -- record of version 0 whose rdata is a list of options. Then the position is behind the record,
  -- the payload size is its class, and the DO bit that of its flags. If the server has an NSID and
  -- there are NSID options, NSID is set, and four octets and the NSID are reserved for each.
  pub parse_record-Accepted :
      (e' : Record) (c : Buffer)
      → ((parse_record nsid_len e b ≡ done (true, e', c)) × (e'.status ≡ Status.ok))
        ↔ Accepted nsid_len e b e' c
  parse_record-Accepted e' c = (
    λ (q, k). parse_record_sound e' c q k,
    λ (count, o, er, ec). (parse_record_complete count o ∙ rw (er, ec) refl, ap (λ x. x.status) er),
  )
