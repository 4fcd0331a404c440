-- ===== src/Edns/Options.antt =====
-- The options of an OPT record: which octets are a list of options, and that the loop takes these.
use native.Mathlib.Decide.{dec_lt, ℕ_discrete}
use nsd_old.Base.{
  ℕ, zero, suc, ◌+◌, ◌-◌, ◌*◌, ◌≤◌, ◌<◌, ◌≡◌, ◌≢◌, refl, sym, ◌∙◌, true, false, ◌&&◌, if◌then◌else◌,
  ◌==◌, List, arith, ltb, done, Returns,
}
use nsd_old.Buffer.{Buffer, moved, read_uint16}
use nsd_old.Buffer.Valid.{IsValid, moved-IsValid}
use nsd_old.Buffer.Access.{skip_lem, read_u16_lem}
use nsd_old.Packet.Skip.{Forward}
use nsd_old.Edns.{Record, nsid_seen, nsid_code, handle_option, parse_options}

-- The `len` octets from `at` on are options, each a code, a length and as many octets, and `count`
-- of them have the code of NSID.
pub data Options (d : List ℕ) : ℕ → ℕ → ℕ → Type 0 where
  none_left : {at len count : ℕ} → len ≡ 0 → count ≡ 0 → Options d at len count
  option :
      {at len count : ℕ} (rest size : ℕ)
      → size ≡ read_uint16 d (at + 2)
      → len ≡ 4 + size + rest
      → read_uint16 d at ≢ nsid_code
      → Options d (at + 2 + 2 + size) rest count
      → Options d at len count
  nsid_option :
      {at len count : ℕ} (rest size others : ℕ)
      → size ≡ read_uint16 d (at + 2)
      → len ≡ 4 + size + rest
      → read_uint16 d at ≡ nsid_code
      → count ≡ suc others
      → Options d (at + 2 + 2 + size) rest others
      → Options d at len count

-- The record after `count` NSID options, by a server whose NSID has `nsid_len` octets: the space
-- that is reserved grows with each of them.
abbrev pub seen : ℕ → ℕ → Record → Record
seen nsid_len count e =
    if ltb 0 nsid_len && ltb 0 count
    then record e { nsid = 1; opt_reserved_space = e.opt_reserved_space + count * (4 + nsid_len) }
    else e

-- What one option does to the record.
abbrev after : ℕ → ℕ → Record → Record
after nsid_len code e = if code == nsid_code && ltb 0 nsid_len then nsid_seen nsid_len e else e

-- The packet behind the option at hand.
abbrev behind : Buffer → Buffer
behind b = moved (moved (moved b 2) 2) (read_uint16 b.bytes (b.position + 2))

-- One round of the loop, with the rest of the rdata before the limit.
module _ (fuel nsid_len len : ℕ) (e : Record) {b : Buffer} (v : IsValid b)
    (h : b.position + len ≤ b.limit) where
  round_end : len < 4 → parse_options (suc fuel) nsid_len len e b ≡ done (len == 0, e, b)
  unfolding parse_options
  round_end s = ground arith

  round_overrun :
      4 ≤ len
      → len < 4 + read_uint16 b.bytes (b.position + 2)
      → parse_options (suc fuel) nsid_len len e b ≡ done (false, e, moved (moved b 2) 2)
  unfolding parse_options
  round_overrun s l =
      let w : IsValid (moved b 2) = moved-IsValid 2 v (omega arith) in
      ground (arith, read_u16_lem v, read_u16_lem w)

  round_option :
      4 + read_uint16 b.bytes (b.position + 2) ≤ len
      → parse_options (suc fuel) nsid_len len e b
        ≡ parse_options fuel nsid_len
            (len - (4 + read_uint16 b.bytes (b.position + 2)))
            (after nsid_len (read_uint16 b.bytes b.position) e)
            (behind b)
  unfolding parse_options handle_option
  round_option l =
      let w : IsValid (moved b 2) = moved-IsValid 2 v (omega arith) in
      let u : IsValid (moved (moved b 2) 2) = moved-IsValid 2 w (omega arith) in
      ground
        (arith, read_u16_lem v, read_u16_lem w, skip_lem u (read_uint16 b.bytes (b.position + 2)))

-- The loop with fuel for every octet returns, inside the packet.
pub parse_options-Forward :
    (fuel nsid_len len : ℕ) (e : Record) {b : Buffer}
    → IsValid b
    → b.position + len ≤ b.limit
    → len < fuel
    → Returns (λ r. Forward b r.2) (parse_options fuel nsid_len len e b)
parse_options-Forward zero n len e v h f = elim f [ ]
parse_options-Forward (suc fuel) n len e {b} v h f = elim (dec_lt len 4) [
  | yes s ↦ rw (round_end fuel n len e v h s) (ground arith)
  | no s ↦ elim (dec_lt len (4 + read_uint16 b.bytes (b.position + 2))) [
    | yes l ↦ rw (round_overrun fuel n len e v h (omega arith) l) (ground arith)
    | no l ↦
        let w : IsValid (behind b) = omega arith in
        rw (round_option fuel n len e v h (omega arith)) (
          ground (
            arith,
            parse_options-Forward fuel n (len - (4 + read_uint16 b.bytes (b.position + 2)))
                (after n (read_uint16 b.bytes b.position) e) {b = behind b} w,
          ))
  ]
]

-- If the option loop of `edns_parse_record` accepts rdata before the limit of a valid packet, the
-- rdata is a list of options; the position is behind it, and the state is as the number of NSID
-- options in it says: NSID is set and its space reserved for each, if the server has an NSID.
pub parse_options_sound :
    (fuel nsid_len len : ℕ) (e : Record) {b : Buffer} (e' : Record) (c : Buffer)
    → IsValid b
    → b.position + len ≤ b.limit
    → parse_options fuel nsid_len len e b ≡ done (true, e', c)
    → (count : ℕ) × Options b.bytes b.position len count
      × (e' ≡ seen nsid_len count e)
      × (c ≡ record b { position = b.position + len })
parse_options_sound zero n len e e' c v h q = unfold parse_options in cc
parse_options_sound (suc fuel) n len e {b} e' c v h q = elim (dec_lt len 4) [
  | yes s ↦
      let z : len ≡ 0 = ground (arith, round_end fuel n len e v h s) in
      (
        0,
        Options.none_left z refl,
        ground (arith, round_end fuel n len e v h s),
        ground (arith, round_end fuel n len e v h s),
      )
  | no s ↦ elim (dec_lt len (4 + read_uint16 b.bytes (b.position + 2))) [
    | yes l ↦ cc (round_overrun fuel n len e v h (omega arith) l)
    | no l ↦
        let size = read_uint16 b.bytes (b.position + 2) in
        let rest = len - (4 + size) in
        let w : IsValid (behind b) = omega arith in
        let (count, o, r, d) =
          parse_options_sound fuel n rest (after n (read_uint16 b.bytes b.position) e)
            {b = behind b} e' c w (omega arith)
            (sym (round_option fuel n len e v h (omega arith)) ∙ q) in
        elim (ℕ_discrete (read_uint16 b.bytes b.position) nsid_code) [
          | yes y ↦ (
            suc count,
            Options.nsid_option rest size count refl (omega arith) y refl o,
            ground arith,
            ground arith,
          )
          | no y ↦
              (count, Options.option rest size refl (omega arith) y o, ground arith, ground arith)
        ]
  ]
]

seen-nsid :
    (n others : ℕ) (e : Record) → seen n others (after n nsid_code e) ≡ seen n (suc others) e
seen-nsid n others e =
    let more : suc others * (4 + n) ≡ others * (4 + n) + (4 + n) = omega arith in
    ground (arith, more)

after-plain : (n code : ℕ) (e : Record) → code ≢ nsid_code → after n code e ≡ e
after-plain n code e h = ground arith

-- One option in front of those that the loop accepts.
module _ (fuel n len rest : ℕ) (e : Record) {b : Buffer} (v : IsValid b)
    (h : b.position + len ≤ b.limit)
    (l : len ≡ 4 + read_uint16 b.bytes (b.position + 2) + rest) where
  step_to :
      (e' : Record)
      → parse_options fuel n rest (after n (read_uint16 b.bytes b.position) e) (behind b)
        ≡ done (true, e', record b { position = (behind b).position + rest })
      → parse_options (suc fuel) n len e b
        ≡ done (true, e', record b { position = b.position + len })
  step_to e' q =
      let r : len - (4 + read_uint16 b.bytes (b.position + 2)) ≡ rest = omega arith in
      let p : (behind b).position + rest ≡ b.position + len = omega arith in
      rw (round_option fuel n len e v h (omega arith), r, q, p)

-- A list of options is accepted, with the record and the position as it says.
pub parse_options_complete :
    {d : List ℕ} {at len count : ℕ}
    → Options d at len count
    → (fuel nsid_len : ℕ) (e : Record) (b : Buffer) → IsValid b
    → b.bytes ≡ d
    → b.position ≡ at
    → b.position + len ≤ b.limit
    → len < fuel
    → parse_options fuel nsid_len len e b
      ≡ done (true, seen nsid_len count e, record b { position = b.position + len })
parse_options_complete o zero n e b v ed ea h f = elim f [ ]
parse_options_complete {len = len} (Options.none_left z k) (suc fuel) n e b v ed ea h f =
    ground (arith, round_end fuel n len e v h)
parse_options_complete {d = d} {at = at} {len = len} {count = count}
      (Options.option rest size s l c o) (suc fuel) n e b v ed ea h f =
    let q : read_uint16 b.bytes (b.position + 2) ≡ size = rw (ed, ea) (sym s) in
    let w : IsValid (behind b) = omega (arith, q, l) in
    step_to fuel n len rest e v h (rw q l) (seen n count e) (
      rw (after-plain n (read_uint16 b.bytes b.position) e (rw (ed, ea) c)) (
        parse_options_complete {at = at + 2 + 2 + size} {len = rest} {count = count} o fuel n e
          (behind b) w ed (omega arith) (omega arith) (omega arith)))
parse_options_complete {d = d} {at = at} {len = len} {count = count}
      (Options.nsid_option rest size others s l c k o) (suc fuel) n e b v ed ea h f =
    let q : read_uint16 b.bytes (b.position + 2) ≡ size = rw (ed, ea) (sym s) in
    let w : IsValid (behind b) = omega (arith, q, l) in
    let code : read_uint16 b.bytes b.position ≡ nsid_code = rw (ed, ea) c in
    step_to fuel n len rest e v h (rw q l) (seen n count e) (
      rw (code, k, ← seen-nsid n others e)
        (parse_options_complete {at = at + 2 + 2 + size} {len = rest} {count = others} o fuel n
          (after n nsid_code e) (behind b) w ed (omega arith) (omega arith) (omega arith)))
