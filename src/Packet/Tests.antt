-- ===== src/Packet/Tests.antt =====
-- Runs over a small notify, and the theorems at it.
use nsd_old.Base.{ℕ, ◌≡◌, refl, true, false, some, List, [], ◌∷◌, arith, done, Returns}
use nsd_old.Buffer.{Buffer, available, read_u8, read_u16, read_u32, skip, set_position, read_u16_at}
use nsd_old.Buffer.Valid.{IsValid}
use nsd_old.Packet.{
  skip_dname_loop, skip_dname, skip_room, skip_body, skip_rr, skip_questions, find_notify_serial,
  find_soa, notify_round, soa_record, soa_names, soa_end, other_record, qdcount, ancount, nscount,
  arcount,
}
use nsd_old.Packet.Skip.{Forward, EncodedName, skip_rr-Forward}
use nsd_old.Packet.Serial.{SerialFound, find_notify_serial-SerialFound}

-- A header with one question and one answer, the question `b SOA IN`, and an SOA record of the
-- name at offset 12 with serial 0x01020304.
abbrev octets : List ℕ
octets =
    0 ∷ 1 ∷ 0 ∷ 0 ∷ 0 ∷ 1 ∷ 0 ∷ 1 ∷ 0 ∷ 0 ∷ 0 ∷ 0 ∷ 1 ∷ b'b' ∷ 0 ∷ 0 ∷ 6 ∷ 0 ∷ 1 ∷ 0xc0 ∷ 12 ∷ 0 ∷ 6
    ∷ 0 ∷ 1 ∷ 0 ∷ 0 ∷ 0 ∷ 9 ∷ 0 ∷ 6 ∷ 0 ∷ 0 ∷ 1 ∷ 2 ∷ 3 ∷ 4 ∷ []

abbrev notify : Buffer
notify = record { bytes = octets; position = 12; limit = 37; capacity = 37; is_fixed = true }

-- At the owner name of the SOA record.
abbrev at_record : Buffer
at_record = record notify { position = 19 }

notify-IsValid : IsValid notify
notify-IsValid = omega arith

serial_found : find_notify_serial notify ≡ done (some 0x01020304, notify)
unfolding find_notify_serial qdcount ancount nscount arcount skip_questions find_soa notify_round
    soa_record soa_names soa_end other_record skip_rr skip_room skip_body skip_dname skip_dname_loop
    available read_u8 read_u16 read_u32 skip set_position read_u16_at
serial_found = refl

pointer_name : EncodedName octets 37 19 21
pointer_name = EncodedName.pointer (omega arith) (omega arith) refl (omega arith)

skip_rr-Forward_example : Returns (λ r. Forward at_record r.1) (skip_rr at_record false)
skip_rr-Forward_example = skip_rr-Forward {b = at_record} false (omega arith)

find_notify_serial-SerialFound_example : Returns (SerialFound notify) (find_notify_serial notify)
find_notify_serial-SerialFound_example =
    find_notify_serial-SerialFound {b = notify} notify-IsValid (omega arith)
