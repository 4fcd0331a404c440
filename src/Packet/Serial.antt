-- ===== src/Packet/Serial.antt =====
-- `packet_find_notify_serial`: it ends, never leaves the packet, and puts the position back.
use native.Mathlib.Decide.{dec_lt}
use nsd_old.Base.{
  ℕ, zero, suc, ◌+◌, ◌-◌, ◌≤◌, ◌≡◌, refl, Bool, true, false, not, if◌then◌else◌, ◌>>=◌, Option,
  none, some, arith, leb, le→leb, Outcome, done, Bool-cases, inl, inr, ◌∙◌, Returns, Returns-bind,
}
use nsd_old.Buffer.{Buffer, set_position, moved, read_uint16, read_uint32}
use nsd_old.Buffer.Valid.{IsValid, moved-IsValid, at-IsValid}
use nsd_old.Buffer.Access.{
  available_lem, skip_lem, read_u16_lem, read_u32_lem, read_u16_at_lem, set_position_lem,
}
use nsd_old.Packet.{
  Round, skip_dname, skip_rr, skip_questions, soa_end, soa_names, soa_record, other_record,
  notify_round, find_soa, find_notify_serial, ancount, nscount, arcount, qdcount, header_size,
}
use nsd_old.Packet.Skip.{Forward, Forward-trans, skip_dname-Forward, skip_rr-Forward}

-- A serial that was found is a 32-bit number that stands in the packet before its limit.
abbrev pub StandsIn : Buffer → Option ℕ → Type 0
StandsIn b none = Unit
StandsIn b (some s) = (at : ℕ) × (at + 4 ≤ b.limit) × (s ≡ read_uint32 b.bytes at)

abbrev RoundKeeps : Buffer → Round → Type 0
RoundKeeps b (Round.stop c) = Forward b c
RoundKeeps b (Round.serial s c) = Forward b c × StandsIn b (some s)
RoundKeeps b (Round.next c) = Forward b c

RoundKeeps-trans : {b c : Buffer} (r : Round) → Forward b c → RoundKeeps c r → RoundKeeps b r
RoundKeeps-trans (Round.stop d) f k = Forward-trans f k
RoundKeeps-trans (Round.serial s d) f (k, (at, h, e)) =
    (Forward-trans f k, (at, omega arith, ground arith))
RoundKeeps-trans (Round.next d) f k = Forward-trans f k

Returns-trans :
    {b c : Buffer} (m : Outcome Round)
    → Forward b c
    → Returns (RoundKeeps c) m
    → Returns (RoundKeeps b) m
Returns-trans (done r) f k = RoundKeeps-trans r f k
Returns-trans Outcome.fault f k = absurd k
Returns-trans Outcome.stuck f k = absurd k

skip_questions-Forward :
    (n : ℕ) {b : Buffer} → IsValid b → Returns (λ r. Forward b r.1) (skip_questions n b)
unfolding skip_questions
skip_questions-Forward zero v = ground arith
skip_questions-Forward (suc n) {b} v =
    Returns-bind (λ r. Forward b r.1) (skip_rr b true) _ (skip_rr-Forward true v)
      λ r f. ground (arith, skip_questions-Forward n f.valid)

soa_end-Keeps : {b : Buffer} → IsValid b → Returns (RoundKeeps b) (soa_end b)
unfolding soa_end
soa_end-Keeps {b} v = elim (dec_lt b.limit (b.position + 4)) [
  | yes h ↦ ground (arith, available_lem v 4)
  | no h ↦
      let fits : b.position + 4 ≤ b.limit = omega arith in
      let enough : leb 4 (b.limit - b.position) ≡ true = le→leb _ _ (omega arith) in
      rw (available_lem v 4, enough, read_u32_lem v fits) ((ground arith), (b.position, fits, refl))
]

soa_names-Keeps : {b : Buffer} → IsValid b → Returns (RoundKeeps b) (soa_names b)
unfolding soa_names
soa_names-Keeps {b} v =
    Returns-bind (RoundKeeps b) (skip_dname b) _ (skip_dname-Forward v)
      λ (named, c) f. soa_mailbox f named
  where
    soa_mailbox :
        {c : Buffer} (f : Forward b c) (named : Bool)
        → Returns (RoundKeeps b) (
            if not named
            then done (Round.stop c)
            else (skip_dname c >>= λ r. if not r.0 then done (Round.stop r.1) else soa_end r.1))
    soa_mailbox f false = f
    soa_mailbox {c} f true =
        Returns-bind (RoundKeeps b) (skip_dname c) _ (skip_dname-Forward f.valid) λ r g.
          elim r.0
            as (λ x.
              Returns (RoundKeeps b) (if not x then done (Round.stop r.1) else soa_end r.1)) [
                | false ↦ Forward-trans f g
                | true ↦ Returns-trans (soa_end r.1) (Forward-trans f g) (soa_end-Keeps g.valid)
              ]

module _ {b : Buffer} (v : IsValid b) (room : b.position + 8 ≤ b.limit) where
  soa_record-Keeps : Returns (RoundKeeps b) (soa_record b)
  unfolding soa_record
  soa_record-Keeps =
      let w : IsValid (moved b 2) = moved-IsValid 2 v (omega arith) in
      let u : IsValid (moved (moved b 2) 4) = moved-IsValid 4 w (omega arith) in
      let c = moved (moved (moved b 2) 4) 2 in
      let f : Forward b c = ground arith in
      ground (
        arith,
        read_u16_lem v,
        skip_lem w 4,
        read_u16_lem u,
        available_lem f.valid (read_uint16 b.bytes (b.position + 2 + 4)),
        Returns-trans (soa_names c) f (soa_names-Keeps f.valid),
      )

  other_record-Keeps : Returns (RoundKeeps b) (other_record b)
  unfolding other_record
  other_record-Keeps =
      let w : IsValid (moved b 6) = moved-IsValid 6 v (omega arith) in
      let n = read_uint16 b.bytes (b.position + 6) in
      let f : Forward b (moved (moved b 6) 2) = ground arith in
      ground (arith, skip_lem v 6, read_u16_lem w, available_lem f.valid n, skip_lem f.valid n)

-- The round behind the owner name, with `c` the packet there.
module _ {b c : Buffer} (f : Forward b c) where
  behind_name-Keeps :
      c.position + 10 ≤ c.limit
      → Returns (RoundKeeps b) (soa_record (moved c 2))
        × Returns (RoundKeeps b) (other_record (moved c 2))
  behind_name-Keeps h =
      let w : IsValid (moved c 2) = moved-IsValid 2 f.valid (omega arith) in
      let g : Forward b (moved c 2) = ground arith in
      (
        Returns-trans (soa_record (moved c 2)) g (soa_record-Keeps w (omega arith)),
        Returns-trans (other_record (moved c 2)) g (other_record-Keeps w (omega arith)),
      )

notify_round-Keeps : {b : Buffer} → IsValid b → Returns (RoundKeeps b) (notify_round b)
unfolding notify_round
notify_round-Keeps {b} v =
    Returns-bind (RoundKeeps b) (skip_dname b) _ (skip_dname-Forward v) λ (named, c) f.
      elim (dec_lt c.limit (c.position + 10)) [
        | yes h ↦ ground (arith, available_lem f.valid 10)
        | no h ↦ ground (
          arith,
          available_lem f.valid 10,
          read_u16_lem f.valid,
          behind_name-Keeps f (omega arith),
        )
      ]

abbrev SearchKeeps : Buffer → Option ℕ × Buffer → Type 0
SearchKeeps b r = Forward b r.1 × StandsIn b r.0

SearchKeeps-trans :
    {b c : Buffer} (m : Outcome (Option ℕ × Buffer))
    → Forward b c
    → Returns (SearchKeeps c) m
    → Returns (SearchKeeps b) m
SearchKeeps-trans (done (none, d)) f k = (Forward-trans f k.0, tt)
SearchKeeps-trans (done (some s, d)) f (k, (at, h, e)) =
    (Forward-trans f k, (at, omega arith, ground arith))
SearchKeeps-trans Outcome.fault f k = absurd k
SearchKeeps-trans Outcome.stuck f k = absurd k

find_soa-Keeps : (n : ℕ) {b : Buffer} → IsValid b → Returns (SearchKeeps b) (find_soa n b)
unfolding find_soa
find_soa-Keeps zero v = (ground arith, tt)
find_soa-Keeps (suc n) {b} v =
    Returns-bind (SearchKeeps b) (notify_round b) _ (notify_round-Keeps v) (elim [
      | Round.stop c ↦ λ f. (f, tt)
      | Round.serial s c ↦ λ f. f
      | Round.next c ↦ λ f. SearchKeeps-trans (find_soa n c) f (find_soa-Keeps n f.valid)
    ])

-- What `packet_find_notify_serial` leaves of the packet `b`: everything as it was, the position
-- too, and a serial, if it gives one, that stands in the packet.
pub record SerialFound (b : Buffer) (r : Option ℕ × Buffer) : Type 0 where
  pub valid : IsValid r.1
  pub same_bytes : r.1.bytes ≡ b.bytes
  pub same_limit : r.1.limit ≡ b.limit
  pub position_back : r.1.position ≡ b.position
  pub stands : StandsIn b r.0

-- The position is put back, with `c` any packet of the same octets.
put_back :
    {b c : Buffer} (o : Option ℕ)
    → IsValid b
    → IsValid c
    → c.bytes ≡ b.bytes
    → c.limit ≡ b.limit
    → StandsIn b o
    → Returns (SerialFound b) (set_position c b.position >>= λ d. done (o, d))
put_back {b} o v w e l s = rw (set_position_lem w b.position (omega arith)) (record {
  valid = at-IsValid b.position w (omega arith);
  same_bytes = e;
  same_limit = l;
  position_back = refl;
  stands = s;
})

StandsIn-same :
    (b c : Buffer) (o : Option ℕ)
    → c.bytes ≡ b.bytes
    → c.limit ≡ b.limit
    → StandsIn c o
    → StandsIn b o
StandsIn-same b c none e l s = tt
StandsIn-same b c (some n) e l (at, h, q) = (at, omega arith, ground arith)

-- On a valid packet that holds a whole header `packet_find_notify_serial` returns, whatever the
-- counts of the header and the records are: no read or move passes the limit, the octets, limit and
-- position are what they were, and the serial, if it finds one, is a 32-bit number in the packet.
pub find_notify_serial-SerialFound :
    {b : Buffer}
    → IsValid b
    → header_size ≤ b.limit
    → Returns (SerialFound b) (find_notify_serial b)
unfolding find_notify_serial ancount nscount arcount qdcount
find_notify_serial-SerialFound {b} v h =
    rw
      (
        read_u16_at_lem v 6 (omega arith),
        read_u16_at_lem v 8 (omega arith),
        read_u16_at_lem v 10 (omega arith),
        set_position_lem v 12 h,
        read_u16_at_lem (at-IsValid 12 v h) 4 (omega arith),
      )
      (Returns-bind (SerialFound b) (skip_questions qd start) _ (skip_questions-Forward qd w) λ r f.
        elim (Bool-cases r.0) [
          | inl e ↦ rw e (
              Returns-bind (SerialFound b) (find_soa count r.1) _ (find_soa-Keeps count f.valid)
                λ q g.
                  put_back q.0 v g.0.valid (g.0.same_bytes ∙ f.same_bytes)
                    (g.0.same_limit ∙ f.same_limit)
                    (StandsIn-same b r.1 q.0 f.same_bytes f.same_limit g.1))
          | inr e ↦ rw e (put_back none v f.valid f.same_bytes f.same_limit tt)
        ])
  where
    start : Buffer
    start = record b { position = 12 }

    w : IsValid start
    w = at-IsValid 12 v h

    qd : ℕ
    qd = read_uint16 b.bytes 4

    count : ℕ
    count = read_uint16 b.bytes 6 + read_uint16 b.bytes 8 + read_uint16 b.bytes 10
