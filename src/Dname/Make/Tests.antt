-- ===== src/Dname/Make/Tests.antt =====
-- Runs over the wire format of `Ba.` and over one whose first label is a pointer, and the theorems at
-- it and at a packet with a compressed name.
use nsd_old.Base.{ℕ, ◌≡◌, refl, true, none, some, List, [], ◌∷◌, ◌++◌, arith, done, Returns}
use nsd_old.Buffer.{Buffer}
use nsd_old.Dname.Name.{Name, at, label_length}
use nsd_old.Dname.Make.{
  make_loop, swap_loop, normalize_loop, copy_name, span, tolower, dname_make,
  dname_make_from_packet,
}
use nsd_old.Dname.Make.Wire.{wire}
use nsd_old.Dname.Make.Named.{IsMade, dname_make-IsMade}
use nsd_old.Dname.Make.Packet.{FromPacket, dname_make_from_packet-FromPacket}

-- The labels `Ba` and `c`
abbrev labels : List (List ℕ)
labels = (b'B' ∷ b'a' ∷ []) ∷ (b'c' ∷ []) ∷ []

abbrev stored : Name
stored = record {
  name_size = 6;
  label_count = 3;
  label_offsets = 5 ∷ 3 ∷ 0 ∷ [];
  octets = 2 ∷ b'b' ∷ b'a' ∷ 1 ∷ b'c' ∷ 0 ∷ [];
}

lower_case : dname_make (2 ∷ b'B' ∷ b'a' ∷ 1 ∷ b'c' ∷ 0 ∷ 7 ∷ []) true ≡ done (some stored)
unfolding dname_make make_loop swap_loop copy_name normalize_loop span tolower at label_length
lower_case = refl

pointer : dname_make (0xc0 ∷ 0 ∷ []) true ≡ done none
unfolding dname_make make_loop at
pointer = refl

dname_make-IsMade_example :
    (n : Name) × (dname_make (wire labels ++ (7 ∷ [])) true ≡ done (some n)) × IsMade true labels n
dname_make-IsMade_example =
    dname_make-IsMade true labels (7 ∷ []) ((omega arith, refl), ((omega arith, refl), tt))
      (omega arith)

-- The name `b.` at 0, and the name `a.b.` at 3 by a pointer to 0
abbrev packet : Buffer
packet = record {
  bytes = 1 ∷ b'B' ∷ 0 ∷ 1 ∷ b'a' ∷ 0xc0 ∷ 0 ∷ [];
  position = 3;
  limit = 7;
  capacity = 7;
  is_fixed = true;
}

dname_make_from_packet-FromPacket_example :
    Returns (FromPacket true packet) (dname_make_from_packet packet true true)
dname_make_from_packet-FromPacket_example =
    dname_make_from_packet-FromPacket {b = packet} true true (omega arith) (omega arith)
