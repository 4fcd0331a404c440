-- ===== src/Tsig/Parse.antt =====
-- What `tsig_parse_rr` reads: it stays in the packet, and what it accepts stands there.
use native.Mathlib.Decide.{dec_lt}
use nsd_old.Base.{
  ℕ, ◌+◌, ◌≤◌, ◌<◌, ◌≡◌, ◌≢◌, ◌⊎◌, inl, inr, refl, ap, ◌∙◌, Bool, true, false, Option, none, some,
  List, arith, take, drop, ◌>>=◌, Returns, Returns-bind,
}
use nsd_old.Buffer.{Buffer, moved, read_uint16, read_uint32}
use nsd_old.Buffer.Valid.{IsValid, moved-IsValid, at-IsValid}
use nsd_old.Buffer.Access.{
  available_lem, read_u16_lem, read_u32_lem, read_at_lem, skip_lem, set_position_lem,
}
use nsd_old.Dname.{max_packet_size}
use nsd_old.Dname.Steps.{Spells, Same}
use nsd_old.Dname.Name.{Name}
use nsd_old.Dname.Make.{dname_make_from_packet}
use nsd_old.Dname.Make.Wire.{wire}
use nsd_old.Dname.Make.Named.{IsMade}
use nsd_old.Dname.Make.Packet.{FromPacket, dname_make_from_packet-FromPacket}
use nsd_old.Tsig.{
  TsigStatus, Tsig, refuse, parse_other, parse_mac, parse_algorithm, parse_fixed, tsig_parse_rr,
  with_algorithm, with_key, rcode_format,
}

-- The name has the labels, in lower case, that the packet spells at the offset.
abbrev pub NameAt : Buffer → ℕ → Option Name → Type 0
NameAt b at none = ⊥
NameAt b at (some n) = (xs : List (List ℕ)) × Spells b.bytes b.limit at (wire xs) × IsMade true xs n

-- The octets are `size` of those of the packet, before the limit.
abbrev pub OctetsIn : Buffer → ℕ → Option (List ℕ) → Type 0
OctetsIn b size none = ⊥
OctetsIn b size (some d) = (at : ℕ) × (at + size ≤ b.limit) × (d ≡ take size (drop at b.bytes))

-- The record was read from the packet `b`, whose position is at its owner.
abbrev pub Signed : Buffer → Tsig → Type 0
Signed b t =
    NameAt b b.position t.key_name
    × ((at : ℕ) × NameAt b at t.algorithm_name)
    × OctetsIn b t.mac_size t.mac_data
    × OctetsIn b t.other_size t.other_data
    × (t.other_size ≤ 16)

-- What `tsig_parse_rr` does at the packet `b`.
pub record Parsed (b : Buffer) (r : Bool × Tsig × Buffer) : Type 0 where
  pub same : Same b r.2
  pub back : r.0 ≡ false → r.2.position ≡ b.position
  pub signed : r.1.status ≡ TsigStatus.tsig_ok → (r.0 ≡ true) × Signed b r.1

module _ {b c : Buffer} (t : Tsig) (w : IsValid b) (s : Same b c) (p : t.position ≡ b.position)
    (u : t.status ≢ TsigStatus.tsig_ok) where
  refuse-Parsed : Returns (Parsed b) (refuse t c)
  unfolding refuse
  refuse-Parsed =
      rw (set_position_lem s.valid t.position (omega (arith, p, s.same_limit))) (record {
        same = record {
          valid = at-IsValid t.position s.valid (omega (arith, p, s.same_limit));
          same_bytes = s.same_bytes;
          same_limit = s.same_limit;
        };
        back = λ _. p;
        signed = λ q. absurd (u q);
      })

moved-Same : {b c : Buffer} (n : ℕ) → Same b c → c.position + n ≤ c.limit → Same b (moved c n)
moved-Same n s h = record {
  valid = moved-IsValid n s.valid h;
  same_bytes = s.same_bytes;
  same_limit = s.same_limit;
}

refused_or :
    (d : Buffer) (size : ℕ)
    → ((d.limit < d.position + size) ⊎ (16 < size)) ⊎ ((d.position + size ≤ d.limit) × (size ≤ 16))
refused_or d size = elim (dec_lt d.limit (d.position + size)) [
  | yes h ↦ inl (inl h)
  | no h ↦ elim (dec_lt 16 size) [
    | yes g ↦ inl (inr g)
    | no g ↦ inr (omega (arith, h), omega (arith, g))
  ]
]

module _ {b c : Buffer} (t : Tsig) (w : IsValid b) (s : Same b c) (p : t.position ≡ b.position)
    (u : t.status ≢ TsigStatus.tsig_ok) (k : NameAt b b.position t.key_name)
    (a : (at : ℕ) × NameAt b at t.algorithm_name) where
  parse_other-Parsed : OctetsIn b t.mac_size t.mac_data → Returns (Parsed b) (parse_other t c)
  unfolding parse_other
  parse_other-Parsed m = elim (dec_lt c.limit (c.position + 6)) [
    | yes h ↦ ground (arith, available_lem s.valid 6, refuse-Parsed t w s p u)
    | no h ↦
        let s2 = moved-Same 2 s (omega arith) in
        let s4 = moved-Same 2 s2 (omega arith) in
        let s6 = moved-Same 2 s4 (omega arith) in
        let d = moved (moved (moved c 2) 2) 2 in
        let size = read_uint16 c.bytes (c.position + 2 + 2) in
        let t1 = record t {
          original_query_id = read_uint16 c.bytes c.position;
          error_code = read_uint16 c.bytes (c.position + 2);
          other_size = size;
        } in
        let t0 = record t1 { other_size = 0 } in
        elim (refused_or d size) [
          | inl o ↦ ground (
            arith,
            available_lem s.valid 6,
            read_u16_lem s.valid,
            read_u16_lem s2.valid,
            read_u16_lem s4.valid,
            available_lem s6.valid size,
            refuse-Parsed t0 w s6 p u,
          )
          | inr (fits, small) ↦
              let other = take size (drop d.position d.bytes) in
              let read : take size (drop d.position d.bytes) ≡ take size (drop d.position b.bytes) =
                ap (λ l. take size (drop d.position l)) s.same_bytes in
              let end : Parsed b (
                true,
                record t1 { other_data = some other; status = TsigStatus.tsig_ok },
                moved d size,
              ) =
                record {
                  same = moved-Same size s6 fits;
                  back = λ q. cc q;
                  signed = λ q. (
                    refl,
                    (k, a, m, (d.position, omega (arith, fits, s6.same_limit), read), small),
                  );
                } in
              ground (
                arith,
                available_lem s.valid 6,
                read_u16_lem s.valid,
                read_u16_lem s2.valid,
                read_u16_lem s4.valid,
                available_lem s6.valid size,
                read_at_lem s6.valid d.position size,
                skip_lem s6.valid size,
                end,
              )
        ]
  ]

module _ {b c : Buffer} (t : Tsig) (w : IsValid b) (s : Same b c) (p : t.position ≡ b.position)
    (u : t.status ≢ TsigStatus.tsig_ok) (k : NameAt b b.position t.key_name)
    (a : (at : ℕ) × NameAt b at t.algorithm_name) where
  parse_mac-Parsed : Returns (Parsed b) (parse_mac t c)
  unfolding parse_mac
  parse_mac-Parsed = elim (dec_lt c.limit (c.position + 10)) [
    | yes h ↦ ground (arith, available_lem s.valid 10, refuse-Parsed t w s p u)
    | no h ↦
        let s2 = moved-Same 2 s (omega arith) in
        let s6 = moved-Same 4 s2 (omega arith) in
        let s8 = moved-Same 2 s6 (omega arith) in
        let s10 = moved-Same 2 s8 (omega arith) in
        let d = moved (moved (moved (moved c 2) 4) 2) 2 in
        let size = read_uint16 c.bytes (c.position + 2 + 4 + 2) in
        let t1 = record t {
          signed_time_high = read_uint16 c.bytes c.position;
          signed_time_low = read_uint32 c.bytes (c.position + 2);
          signed_time_fudge = read_uint16 c.bytes (c.position + 2 + 4);
          mac_size = size;
        } in
        elim (dec_lt d.limit (d.position + size)) [
          | yes o ↦ ground (
            arith,
            available_lem s.valid 10,
            read_u16_lem s.valid,
            read_u32_lem s2.valid,
            read_u16_lem s6.valid,
            read_u16_lem s8.valid,
            available_lem s10.valid size,
            refuse-Parsed (record t1 { mac_size = 0 }) w s10 p u,
          )
          | no o ↦
              let mac = take size (drop d.position d.bytes) in
              let read : mac ≡ take size (drop d.position b.bytes) =
                ap (λ l. take size (drop d.position l)) s.same_bytes in
              let rest =
                parse_other-Parsed (record t1 { mac_data = some mac }) w
                  (moved-Same size s10 (omega arith)) p u k a
                  (d.position, omega (arith, o, s10.same_limit), read) in
              ground (
                arith,
                available_lem s.valid 10,
                read_u16_lem s.valid,
                read_u32_lem s2.valid,
                read_u16_lem s6.valid,
                read_u16_lem s8.valid,
                available_lem s10.valid size,
                read_at_lem s10.valid d.position size,
                skip_lem s10.valid size,
                rest,
              )
        ]
  ]

-- With the owner read, and the name of the algorithm, if that is one.
module _ {b : Buffer} (t : Tsig) (w : IsValid b) (p : t.position ≡ b.position)
    (k : NameAt b b.position t.key_name) where
  with_algorithm-Parsed :
      (e : Buffer) (algorithm_name : Option Name) (d : Buffer)
      → t.status ≢ TsigStatus.tsig_ok
      → Same b e
      → FromPacket true e (algorithm_name, d)
      → Returns (Parsed b) (with_algorithm (record t { algorithm_name = algorithm_name }) d)
  with_algorithm-Parsed e none d u se (v, eb, el) =
      refuse-Parsed (record t { algorithm_name = none }) w
        (record { valid = v; same_bytes = eb ∙ se.same_bytes; same_limit = el ∙ se.same_limit }) p u
  with_algorithm-Parsed e (some a) d u se (v, eb, el, (xs, sp, short, made)) =
      parse_mac-Parsed (record t { algorithm_name = some a }) w
        (record { valid = v; same_bytes = eb ∙ se.same_bytes; same_limit = el ∙ se.same_limit }) p u
        k (e.position, (xs, rw (← se.same_bytes, ← se.same_limit) sp, made))

module _ {b c : Buffer} (t : Tsig) (w : IsValid b) (s : Same b c) (p : t.position ≡ b.position)
    (k : NameAt b b.position t.key_name) (small : b.limit ≤ max_packet_size) where
  parse_algorithm-Parsed : c.position + 6 ≤ c.limit → Returns (Parsed b) (parse_algorithm t c)
  unfolding parse_algorithm
  parse_algorithm-Parsed h =
      let s4 = moved-Same 4 s (omega (arith, h)) in
      let s6 = moved-Same 2 s4 (omega (arith, h)) in
      let d = moved (moved c 4) 2 in
      let size = read_uint16 c.bytes (c.position + 4) in
      let t1 = record t { status = TsigStatus.tsig_error; error_code = rcode_format } in
      let bad : TsigStatus.tsig_error ≢ TsigStatus.tsig_ok = λ q. cc q in
      let rest : Returns (Parsed b) (
          dname_make_from_packet d true true >>= λ r.
          with_algorithm (record t1 { algorithm_name = r.0 }) r.1) =
        Returns-bind (Parsed b) (dname_make_from_packet d true true) _
          (dname_make_from_packet-FromPacket true true s6.valid
            (omega (arith, small, s6.same_limit)))
          λ (algorithm_name, e) f. with_algorithm-Parsed t1 w p k d algorithm_name e bad s6 f in
      ground (
        arith,
        read_u32_lem s.valid,
        read_u16_lem s4.valid,
        available_lem s6.valid size,
        refuse-Parsed t1 w s6 p bad,
        rest,
      )

module _ {b c : Buffer} (t : Tsig) (w : IsValid b) (s : Same b c) (p : t.position ≡ b.position)
    (k : NameAt b b.position t.key_name) (small : b.limit ≤ max_packet_size) where
  parse_fixed-Parsed : t.status ≢ TsigStatus.tsig_ok → Returns (Parsed b) (parse_fixed t c)
  unfolding parse_fixed
  parse_fixed-Parsed u = elim (dec_lt c.limit (c.position + 10)) [
    | yes h ↦ ground (arith, available_lem s.valid 10, refuse-Parsed t w s p u)
    | no h ↦
        let s2 = moved-Same 2 s (omega arith) in
        let s4 = moved-Same 2 s2 (omega arith) in
        let inside : t.position ≤ c.limit = omega (arith, p, s.same_limit, w.within) in
        let other : Parsed b (true, t, record c { position = t.position }) = record {
          same = record {
            valid = at-IsValid t.position s.valid inside;
            same_bytes = s.same_bytes;
            same_limit = s.same_limit;
          };
          back = λ q. p;
          signed = λ q. absurd (u q);
        } in
        let rest = parse_algorithm-Parsed t w s4 p k small (omega (arith, h)) in
        ground (
          arith,
          available_lem s.valid 10,
          read_u16_lem s.valid,
          read_u16_lem s2.valid,
          set_position_lem s4.valid t.position inside,
          other,
          rest,
        )
  ]

-- The record before anything is read.
abbrev blank : Tsig → Buffer → Tsig
blank t b = record t {
  status = TsigStatus.tsig_not_present;
  position = b.position;
  key_name = none;
  algorithm_name = none;
  mac_data = none;
  other_data = none;
}

with_key-Parsed :
    {b : Buffer} (t : Tsig) (key_name : Option Name) (c : Buffer)
    → IsValid b
    → b.limit ≤ max_packet_size
    → FromPacket true b (key_name, c)
    → Returns (Parsed b) (with_key (record (blank t b) { key_name = key_name }) c)
with_key-Parsed {b} t none c w small (v, eb, el) =
    refuse-Parsed (blank t b) w (record { valid = v; same_bytes = eb; same_limit = el }) refl
      (λ q. cc q)
with_key-Parsed {b} t (some n) c w small (v, eb, el, (xs, sp, short, made)) =
    parse_fixed-Parsed (record (blank t b) { key_name = some n }) w
      (record { valid = v; same_bytes = eb; same_limit = el }) refl (xs, sp, made) small (λ q. cc q)

-- On a valid packet of at most MAX_PACKET_SIZE octets `tsig_parse_rr` returns, with the octets and the
-- limit as they were, and when it returns 0 the position too. If it leaves the status TSIG_OK, it
-- returns 1; the names of key and algorithm are those that the packet spells at the position and at
-- another offset, in lower case; and MAC and other data are runs of octets of the packet before the
-- limit, of the sizes that the record gives, other data at most 16.
pub tsig_parse_rr-Parsed :
    {b : Buffer} (t : Tsig)
    → IsValid b
    → b.limit ≤ max_packet_size
    → Returns (Parsed b) (tsig_parse_rr t b)
unfolding tsig_parse_rr
tsig_parse_rr-Parsed {b} t w small =
    Returns-bind (Parsed b) (dname_make_from_packet b true true) _
      (dname_make_from_packet-FromPacket true true w small)
      λ (key_name, c) f. with_key-Parsed t key_name c w small f
