-- ===== src/Edns.antt =====
-- edns.c: the EDNS state of a query, and the parsing of the OPT record that sets it.
-- `struct nsd` enters by `nsid_len`, the only field that edns.c reads.
pub mod Options
pub mod Parse
pub mod Accept
pub mod Kept
mod Tests
use Prim.Native.Nat.{bit_and}
use nsd_old.Base.{
  ℕ, zero, suc, ◌+◌, ◌-◌, ◌/◌, ◌%◌, Bool, true, false, not, ◌&&◌, ◌||◌, List, [], ◌∷◌, ltb, ◌==◌,
  if◌then◌else◌, Outcome, done, stuck, ◌>>=◌, ◌>>◌,
}
use nsd_old.Buffer.{Buffer, available, read_u8, read_u16, skip, set_position}

abbrev pub opt_len : ℕ
opt_len = 9

abbrev pub opt_rdata : ℕ
opt_rdata = 2

abbrev pub opt_hdr : ℕ
opt_hdr = 4

abbrev pub nsid_code : ℕ
nsid_code = 3

abbrev pub dnssec_ok_mask : ℕ
dnssec_ok_mask = 0x8000

abbrev pub type_opt : ℕ
type_opt = 41

-- `edns_status_type`
pub data Status : Type 0 where
  not_present ok error : Status

-- `edns_record_type`
pub record Record : Type 0 where
  pub status : Status
  pub position : ℕ
  pub maxlen : ℕ
  pub opt_reserved_space : ℕ
  pub dnssec_ok : ℕ
  pub nsid : ℕ

-- `edns_init_record`
unfoldable pub init_record : Record
init_record = record {
  status = not_present;
  position = 0;
  maxlen = 0;
  opt_reserved_space = 0;
  dnssec_ok = 0;
  nsid = 0;
}

-- `edns_data_type`
pub record Data : Type 0 where
  pub ok_octets : List ℕ
  pub error_octets : List ℕ
  pub rdata_none : List ℕ
  pub rdata_nsid : List ℕ
  pub nsid_hdr : List ℕ

-- `edns_init_data`: `& 0xff00) >> 8` and `& 0x00ff` of a 16-bit number.
pub init_data : ℕ → Data
init_data max_length = record {
  ok_octets = 0 ∷ 0 ∷ type_opt ∷ max_length / 256 % 256 ∷ max_length % 256 ∷ 0 ∷ 0 ∷ 0 ∷ 0 ∷ [];
  error_octets = 0 ∷ 0 ∷ type_opt ∷ max_length / 256 % 256 ∷ max_length % 256 ∷ 1 ∷ 0 ∷ 0 ∷ 0 ∷ [];
  rdata_none = 0 ∷ 0 ∷ [];
  rdata_nsid = 0 ∷ 0 ∷ [];
  nsid_hdr = 0 ∷ 0 ∷ 0 ∷ 0 ∷ [];
}

-- `edns_init_nsid`
pub init_nsid : Data → ℕ → Data
init_nsid d nsid_len = record d {
  rdata_nsid = (opt_hdr + nsid_len) / 256 % 256 ∷ (opt_hdr + nsid_len) % 256 ∷ [];
  nsid_hdr = 0 ∷ nsid_code ∷ nsid_len / 256 % 256 ∷ nsid_len % 256 ∷ [];
}

-- What one more NSID option does to the record when the server has an NSID.
abbrev pub nsid_seen : ℕ → Record → Record
nsid_seen nsid_len e = record e {
  nsid = 1;
  opt_reserved_space = e.opt_reserved_space + (opt_hdr + nsid_len);
}

-- `edns_handle_option`, which always returns 1.
pub handle_option : ℕ → ℕ → ℕ → Buffer → Record → Outcome (Record × Buffer)
handle_option nsid_len optcode optlen b e = do
  b ← skip b optlen
  done (if optcode == nsid_code && ltb 0 nsid_len then nsid_seen nsid_len e else e, b)

-- The loop over the options of `edns_parse_record` and the test behind it; each round takes four
-- octets at least from `opt_rdlen`.
pub parse_options : ℕ → ℕ → ℕ → Record → Buffer → Outcome (Bool × Record × Buffer)
parse_options zero nsid_len opt_rdlen e b = stuck
parse_options (suc fuel) nsid_len opt_rdlen e b = elim (ltb opt_rdlen 4) [
  | true ↦ done (opt_rdlen == 0, e, b)
  | false ↦ do
    (optcode, b) ← read_u16 b
    (optlen, b) ← read_u16 b
    elim (ltb opt_rdlen (4 + optlen)) [
      | true ↦ done (false, e, b)
      | false ↦ do
        (e, b) ← handle_option nsid_len optcode optlen b e
        parse_options fuel nsid_len (opt_rdlen - (4 + optlen)) e b
    ]
]

-- The end of `edns_parse_record`, with class, flags and rdata length read.
pub parse_rdata : ℕ → ℕ → ℕ → ℕ → Record → Buffer → Outcome (Bool × Record × Buffer)
parse_rdata nsid_len opt_class opt_flags opt_rdlen e b = do
  room ← available b opt_rdlen
  if not room && ltb 0 opt_rdlen then done (false, e, b) else do
    (whole, e, b) ← parse_options (opt_rdlen + 1) nsid_len opt_rdlen e b
    if not whole
        then done (false, e, b)
        else done (
          true,
          record e {
            status = ok;
            maxlen = opt_class;
            dnssec_ok = bit_and opt_flags dnssec_ok_mask;
          },
          b,
        )

-- The fixed part behind owner and type of `edns_parse_record`.
pub parse_fixed : ℕ → Record → Buffer → Outcome (Bool × Record × Buffer)
parse_fixed nsid_len e b = do
  (opt_class, b) ← read_u16 b
  (extended_rcode, b) ← read_u8 b
  (opt_version, b) ← read_u8 b
  (opt_flags, b) ← read_u16 b
  (opt_rdlen, b) ← read_u16 b
  if not (opt_version == 0)
      then done (true, record e { status = error }, b)
      else parse_rdata nsid_len opt_class opt_flags opt_rdlen e b

-- `edns_parse_record`: its result, the record, and the packet.
pub parse_record : ℕ → Record → Buffer → Outcome (Bool × Record × Buffer)
parse_record nsid_len e b = do
  let e = record e { position = b.position }
  room ← available b (opt_len + opt_rdata)
  if not room then done (false, e, b) else do
    (opt_owner, b) ← read_u8 b
    (opt_type, b) ← read_u16 b
    if not (opt_owner == 0) || not (opt_type == type_opt)
        then (do b ← set_position b e.position; done (false, e, b))
        else parse_fixed nsid_len e b

-- `edns_reserved_space`
pub reserved_space : Record → ℕ
reserved_space e = elim e.status [
  | not_present ↦ 0
  | _ ↦ opt_len + opt_rdata + e.opt_reserved_space
]
