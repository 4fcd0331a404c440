-- ===== src/Edns/Tests.antt =====
-- Runs over a small OPT record, and the theorems at it.
use nsd_old.Base.{ℕ, ◌≡◌, ◌↔◌, refl, true, List, [], ◌∷◌, arith, done}
use nsd_old.Buffer.{Buffer, available, read_u8, read_u16, skip, set_position, read_uint16}
use nsd_old.Edns.{
  Status, Record, handle_option, parse_options, parse_rdata, parse_fixed, parse_record,
}
use nsd_old.Edns.Options.{Options}
use nsd_old.Edns.Accept.{IsOpt, Accepted, parse_record-Accepted}

-- Root owner, type 41, class 4096, version 0, DO, and two options: NSID of no octets, and code 10
-- of one octet.
abbrev octets : List ℕ
octets = 0 ∷ 0 ∷ 41 ∷ 16 ∷ 0 ∷ 0 ∷ 0 ∷ 0x80 ∷ 0 ∷ 0 ∷ 9 ∷ 0 ∷ 3 ∷ 0 ∷ 0 ∷ 0 ∷ 10 ∷ 0 ∷ 1 ∷ 7 ∷ []

abbrev packet : Buffer
packet = record { bytes = octets; position = 0; limit = 20; capacity = 20; is_fixed = true }

abbrev blank : Record
blank = record {
  status = Status.not_present;
  position = 0;
  maxlen = 0;
  opt_reserved_space = 0;
  dnssec_ok = 0;
  nsid = 0;
}

parsed :
    parse_record 5 blank packet
    ≡ done (
      true,
      record {
        status = Status.ok;
        position = 0;
        maxlen = 4096;
        opt_reserved_space = 9;
        dnssec_ok = 0x8000;
        nsid = 1;
      },
      record packet { position = 20 },
    )
unfolding parse_record parse_fixed parse_rdata parse_options handle_option available read_u8
    read_u16 skip set_position
parsed = refl

octets-Options : Options octets 11 9 1
unfolding read_uint16
octets-Options =
    Options.nsid_option 5 0 0 refl refl refl refl
      (Options.option 0 1 refl refl (omega arith) (Options.none_left refl refl))

packet-IsOpt : IsOpt packet 1
unfolding read_uint16
packet-IsOpt = record {
  fits = omega arith;
  root_owner = refl;
  opt_type = refl;
  version = refl;
  options = octets-Options;
}

loop_runs :
    parse_options 10 5 9 blank (record packet { position = 11 })
    ≡ done
        (true, record blank { opt_reserved_space = 9; nsid = 1 }, record packet { position = 20 })
unfolding parse_options handle_option read_u16 skip
loop_runs = refl

abbrev result : Record
result = record {
  status = Status.ok;
  position = 0;
  maxlen = 4096;
  opt_reserved_space = 9;
  dnssec_ok = 0x8000;
  nsid = 1;
}

parse_record-Accepted_example :
    ((parse_record 5 blank packet ≡ done (true, result, record packet { position = 20 }))
      × (result.status ≡ Status.ok))
    ↔ Accepted 5 blank packet result (record packet { position = 20 })
parse_record-Accepted_example =
    parse_record-Accepted 5 blank {b = packet} (omega arith) result
      (record packet { position = 20 })
