-- ===== src/Dname/Tests.antt =====
-- Runs over a packet with a compressed name and with a loop of pointers, and the theorem at it.
use nsd_old.Base.{ℕ, ◌≡◌, refl, true, none, some, List, [], ◌∷◌, arith, done, Returns}
use nsd_old.Buffer.{Buffer, available, read, skip, set_position}
use nsd_old.Packet.{peek}
use nsd_old.Dname.{set_bit, get_bit, follow, copy, round, wire_loop, restore, make_wire_from_packet}
use nsd_old.Dname.Decode.{Decoded, make_wire_from_packet-Decoded}

-- The name `b.` at 0, the name `a.b.` at 3 by a pointer to 0, and a pointer to itself at 7.
abbrev octets : List ℕ
octets = 1 ∷ b'b' ∷ 0 ∷ 1 ∷ b'a' ∷ 0xc0 ∷ 0 ∷ 0xc0 ∷ 7 ∷ []

abbrev packet : Buffer
packet = record { bytes = octets; position = 3; limit = 9; capacity = 9; is_fixed = true }

compressed :
    make_wire_from_packet packet true
    ≡ done (some (1 ∷ b'a' ∷ 1 ∷ b'b' ∷ 0 ∷ []), record packet { position = 7 })
unfolding make_wire_from_packet wire_loop round follow copy restore set_bit get_bit peek available
    read skip set_position
compressed = refl

looping :
    make_wire_from_packet (record packet { position = 7 }) true
    ≡ done (none, record packet { position = 7 })
unfolding make_wire_from_packet wire_loop round follow copy restore set_bit get_bit peek available
    read skip set_position
looping = refl

make_wire_from_packet-Decoded_example : Returns (Decoded packet) (make_wire_from_packet packet true)
make_wire_from_packet-Decoded_example =
    make_wire_from_packet-Decoded {b = packet} true (omega arith) (omega arith)
