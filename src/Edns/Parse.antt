-- ===== src/Edns/Parse.antt =====
-- The parts of `edns_parse_record`, and that it never leaves the packet.
use Prim.Native.Nat.{bit_and}
use native.Mathlib.Decide.{dec_lt, ℕ_discrete}
use nsd_old.Base.{
  ℕ, ◌+◌, ◌≤◌, ◌<◌, ◌≡◌, ◌≢◌, ◌⊎◌, inl, inr, refl, true, false, arith, get_or, done, Returns, ◌==◌,
  if◌then◌else◌,
}
use nsd_old.Buffer.{Buffer, moved, read_uint16}
use nsd_old.Buffer.Valid.{IsValid, moved-IsValid}
use nsd_old.Buffer.Access.{available_lem, read_u8_lem, read_u16_lem, set_position_lem}
use nsd_old.Packet.Skip.{Forward}
use nsd_old.Edns.{Status, Record, parse_rdata, parse_fixed, parse_record, type_opt, dnssec_ok_mask}
use nsd_old.Edns.Options.{Options, seen, parse_options-Forward, parse_options_complete}

module _ (nsid_len : ℕ) (e : Record) {b : Buffer} (v : IsValid b) where
  pub too_short :
      b.limit < b.position + 11
      → parse_record nsid_len e b ≡ done (false, record e { position = b.position }, b)
  unfolding parse_record
  too_short h = ground (arith, available_lem v 11)

  module _ (h : b.position + 11 ≤ b.limit) where
    pub not_opt :
        (get_or b.bytes b.position 0 ≢ 0) ⊎ (read_uint16 b.bytes (b.position + 1) ≢ type_opt)
        → parse_record nsid_len e b ≡ done (false, record e { position = b.position }, b)
    unfolding parse_record
    not_opt o =
        let w : IsValid (moved b 1) = moved-IsValid 1 v (omega arith) in
        let u : IsValid (moved (moved b 1) 2) = moved-IsValid 2 w (omega arith) in
        ground
          (arith, available_lem v 11, read_u8_lem v, read_u16_lem w, set_position_lem u b.position)

    -- With owner and type read.
    pub is_opt :
        get_or b.bytes b.position 0 ≡ 0
        → read_uint16 b.bytes (b.position + 1) ≡ type_opt
        → parse_record nsid_len e b
          ≡ parse_fixed nsid_len
              (record e { position = b.position })
              (record b { position = b.position + 3 })
    unfolding parse_record
    is_opt o t =
        let w : IsValid (moved b 1) = moved-IsValid 1 v (omega arith) in
        ground (arith, available_lem v 11, read_u8_lem v, read_u16_lem w)

-- The fixed part, from the class on.
module _ (nsid_len : ℕ) (e : Record) {b : Buffer} (v : IsValid b)
    (h : b.position + 8 ≤ b.limit) where
  pub fixed_lem : parse_fixed nsid_len e b ≡ (
      if get_or b.bytes (b.position + 3) 0 == 0
      then parse_rdata nsid_len
          (read_uint16 b.bytes b.position)
          (read_uint16 b.bytes (b.position + 4))
          (read_uint16 b.bytes (b.position + 6))
          e
          (record b { position = b.position + 8 })
      else done (true, record e { status = Status.error }, record b { position = b.position + 8 }))
  unfolding parse_fixed
  fixed_lem =
      let v2 : IsValid (moved b 2) = moved-IsValid 2 v (omega arith) in
      let v3 : IsValid (moved (moved b 2) 1) = moved-IsValid 1 v2 (omega arith) in
      let v4 : IsValid (moved (moved (moved b 2) 1) 1) = moved-IsValid 1 v3 (omega arith) in
      let v6 : IsValid (moved (moved (moved (moved b 2) 1) 1) 2) =
        moved-IsValid 2 v4 (omega arith) in
      ground
        (arith, read_u16_lem v, read_u8_lem v2, read_u8_lem v3, read_u16_lem v4, read_u16_lem v6)

-- The rdata.
module _ (nsid_len class flags len : ℕ) (e : Record) {b : Buffer} (v : IsValid b) where
  parse_rdata-Forward : Returns (λ r. Forward b r.2) (parse_rdata nsid_len class flags len e b)
  unfolding parse_rdata
  parse_rdata-Forward = elim (dec_lt b.limit (b.position + len)) [
    | yes h ↦ ground (arith, available_lem v len)
    | no h ↦ ground (
      arith,
      available_lem v len,
      parse_options-Forward (len + 1) nsid_len len e v (omega arith) (omega arith),
    )
  ]

  pub rdata_complete :
      (count : ℕ)
      → b.position + len ≤ b.limit
      → Options b.bytes b.position len count
      → parse_rdata nsid_len class flags len e b
        ≡ done (
          true,
          record (seen nsid_len count e) {
            status = Status.ok;
            maxlen = class;
            dnssec_ok = bit_and flags dnssec_ok_mask;
          },
          record b { position = b.position + len },
        )
  unfolding parse_rdata
  rdata_complete count h o =
      ground
        (arith, available_lem v len, parse_options_complete o (len + 1) nsid_len e b v refl refl h)

fixed-Forward :
    (nsid_len : ℕ) (start : Record) {b : Buffer}
    → IsValid b
    → b.position + 11 ≤ b.limit
    → Returns
        (λ r. Forward b r.2)
        (parse_fixed nsid_len start (record b { position = b.position + 3 }))
fixed-Forward nsid_len start {b} v h =
    let w : IsValid (record b { position = b.position + 3 }) = omega arith in
    let u : IsValid (record b { position = b.position + 3 + 8 }) = omega arith in
    rw (fixed_lem nsid_len start w (omega arith)) (
      ground (
        arith,
        parse_rdata-Forward nsid_len (read_uint16 b.bytes (b.position + 3))
            (read_uint16 b.bytes (b.position + 3 + 4)) (read_uint16 b.bytes (b.position + 3 + 6))
            start u,
      ))

module _ (nsid_len : ℕ) (e : Record) {b : Buffer} (v : IsValid b) where
  -- On a valid packet `edns_parse_record` returns, and leaves the packet as it was but for a
  -- position that has moved forward inside the limit: no option can lead it out of the packet.
  pub parse_record-Forward : Returns (λ r. Forward b r.2) (parse_record nsid_len e b)
  parse_record-Forward = elim (dec_lt b.limit (b.position + 11)) [
    | yes s ↦ rw (too_short nsid_len e v s) (ground arith)
    | no s ↦ elim (ℕ_discrete (get_or b.bytes b.position 0) 0) [
      | no o ↦ rw (not_opt nsid_len e v (omega arith) (inl o)) (ground arith)
      | yes o ↦ elim (ℕ_discrete (read_uint16 b.bytes (b.position + 1)) type_opt) [
        | no t ↦ rw (not_opt nsid_len e v (omega arith) (inr t)) (ground arith)
        | yes t ↦
            rw (is_opt nsid_len e v (omega arith) o t)
              (fixed-Forward nsid_len (record e { position = b.position }) v (omega arith))
      ]
    ]
  ]
