-- ===== src/Tsig.antt =====
-- tsig.c: the TSIG record of a packet, and its parsing. Pointers that may be NULL are options; the
-- memory of `rr_region` is fresh. `context` is the key and the octets that the HMAC was given.
pub mod Parse
pub mod Find
pub mod Onward
pub mod Typed
pub mod Send
pub mod Auth
pub mod Names
pub mod Table
mod Tests
use nsd_old.Base.{
  Comparison, before, same, after, compare_num, ℕ, zero, suc, ◌+◌, ◌-◌, Bool, true, false, not,
  ◌||◌, Option, none, some, List, [], ◌∷◌, ltb, ◌==◌, if◌then◌else◌, Outcome, done, ◌>>=◌,
}
use nsd_old.Buffer.{Buffer, available, read_u16, read_u32, read_at, skip, set_position}
use nsd_old.Packet.{header_size, qdcount, ancount, nscount, arcount, skip_rr}
use nsd_old.Dname.Name.{Name}
use nsd_old.Dname.Make.{dname_make_from_packet, tolower}

abbrev pub type_tsig : ℕ
type_tsig = 250

abbrev pub class_any : ℕ
class_any = 255

abbrev pub rcode_format : ℕ
rcode_format = 1

-- `tsig_status_type`
pub data TsigStatus : Type 0 where
  tsig_not_present tsig_ok tsig_error : TsigStatus

-- `tsig_strlowercmp` of two strings
unfoldable pub tsig_strlowercmp : List ℕ → List ℕ → Comparison
tsig_strlowercmp [] [] = same
tsig_strlowercmp [] (y ∷ ys) = before
tsig_strlowercmp (x ∷ xs) [] = after
tsig_strlowercmp (x ∷ xs) (y ∷ ys) =
    let rest = tsig_strlowercmp xs ys in
    if tolower x == tolower y then rest else compare_num (tolower x) (tolower y)

-- `struct tsig_key`
pub record Key : Type 0 where
  pub name : Name
  pub data_ : List ℕ

-- `struct tsig_algorithm`: `digest` is what `hmac_final` gives for a key and the octets since
-- `hmac_init_context`.
pub record Algorithm : Type 0 where
  pub short_name : List ℕ
  pub wireformat_name : Name
  pub maximum_digest_size : ℕ
  pub digest : Key → List ℕ → List ℕ

-- `struct tsig_record`
pub record Tsig : Type 0 where
  pub status : TsigStatus
  pub position : ℕ
  pub response_count : ℕ
  pub updates_since_last_prepare : ℕ
  pub context : Option (Key × List ℕ)
  pub algorithm : Option Algorithm
  pub key : Option Key
  pub prior_mac_data : List ℕ
  pub key_name : Option Name
  pub algorithm_name : Option Name
  pub signed_time_high : ℕ
  pub signed_time_low : ℕ
  pub signed_time_fudge : ℕ
  pub mac_size : ℕ
  pub mac_data : Option (List ℕ)
  pub original_query_id : ℕ
  pub error_code : ℕ
  pub other_size : ℕ
  pub other_data : Option (List ℕ)

-- `buffer_set_position(packet, tsig->position); return 0;`
unfoldable pub refuse : Tsig → Buffer → Outcome (Bool × Tsig × Buffer)
refuse t b = do b ← set_position b t.position; done (false, t, b)

-- The end of `tsig_parse_rr`, behind the MAC.
unfoldable pub parse_other : Tsig → Buffer → Outcome (Bool × Tsig × Buffer)
parse_other t b = do
  room ← available b 6
  if not room then refuse t b else do
    (original_query_id, b) ← read_u16 b
    (error_code, b) ← read_u16 b
    (other_size, b) ← read_u16 b
    let t = record t {
      original_query_id = original_query_id;
      error_code = error_code;
      other_size = other_size;
    }
    whole ← available b other_size
    if not whole || ltb 16 other_size then refuse (record t { other_size = 0 }) b else do
      other ← read_at b b.position other_size
      b ← skip b other_size
      done (true, record t { other_data = some other; status = TsigStatus.tsig_ok }, b)

-- From the signed time on, with `tsig->algorithm_name` set.
unfoldable pub parse_mac : Tsig → Buffer → Outcome (Bool × Tsig × Buffer)
parse_mac t b = do
  room ← available b 10
  if not room then refuse t b else do
    (signed_time_high, b) ← read_u16 b
    (signed_time_low, b) ← read_u32 b
    (signed_time_fudge, b) ← read_u16 b
    (mac_size, b) ← read_u16 b
    let t = record t {
      signed_time_high = signed_time_high;
      signed_time_low = signed_time_low;
      signed_time_fudge = signed_time_fudge;
      mac_size = mac_size;
    }
    whole ← available b mac_size
    if not whole then refuse (record t { mac_size = 0 }) b else do
      mac ← read_at b b.position mac_size
      b ← skip b mac_size
      parse_other (record t { mac_data = some mac }) b

-- `if (!tsig->algorithm_name)`
abbrev pub with_algorithm : Tsig → Buffer → Outcome (Bool × Tsig × Buffer)
with_algorithm t b = elim t.algorithm_name [ none ↦ refuse t b | some _ ↦ parse_mac t b ]

-- The record is a TSIG: ttl, length and the name of the algorithm.
unfoldable pub parse_algorithm : Tsig → Buffer → Outcome (Bool × Tsig × Buffer)
parse_algorithm t b = do
  (ttl, b) ← read_u32 b
  (rdlen, b) ← read_u16 b
  let t = record t { status = TsigStatus.tsig_error; error_code = rcode_format }
  room ← available b rdlen
  if not (ttl == 0) || not room then refuse t b else do
    (algorithm_name, b) ← dname_make_from_packet b true true
    with_algorithm (record t { algorithm_name = algorithm_name }) b

-- Behind the owner, with `tsig->key_name` set.
unfoldable pub parse_fixed : Tsig → Buffer → Outcome (Bool × Tsig × Buffer)
parse_fixed t b = do
  room ← available b 10
  if not room then refuse t b else do
    (type_, b) ← read_u16 b
    (klass, b) ← read_u16 b
    if not (type_ == type_tsig) || not (klass == class_any)
        then (do b ← set_position b t.position; done (true, t, b))
        else parse_algorithm t b

-- `if (!tsig->key_name)`
abbrev pub with_key : Tsig → Buffer → Outcome (Bool × Tsig × Buffer)
with_key t b = elim t.key_name [ none ↦ refuse t b | some _ ↦ parse_fixed t b ]

-- `tsig_parse_rr`
unfoldable pub tsig_parse_rr : Tsig → Buffer → Outcome (Bool × Tsig × Buffer)
tsig_parse_rr t b = do
  let t = record t {
    status = TsigStatus.tsig_not_present;
    position = b.position;
    key_name = none;
    algorithm_name = none;
    mac_data = none;
    other_data = none;
  }
  (key_name, b) ← dname_make_from_packet b true true
  with_key (record t { key_name = key_name }) b

-- The loop of `tsig_find_rr` over the records before the last, with the rounds that are left.
pub skip_records : ℕ → ℕ → Buffer → Outcome (Bool × Buffer)
skip_records zero i b = done (true, b)
skip_records (suc rounds) i b = do
  qd ← qdcount b
  (good, b) ← skip_rr b (ltb i qd)
  elim good [ true ↦ skip_records rounds (i + 1) b | false ↦ done (false, b) ]

-- `tsig_find_rr`
pub tsig_find_rr : Tsig → Buffer → Outcome (Bool × Tsig × Buffer)
tsig_find_rr t b = do
  let saved = b.position
  qd ← qdcount b
  an ← ancount b
  ns ← nscount b
  ar ← arcount b
  if ar == 0 then done (true, record t { status = TsigStatus.tsig_not_present }, b) else do
    b ← set_position b header_size
    (skipped, b) ← skip_records (qd + an + ns + ar - 1) 0 b
    if not skipped
        then (do b ← set_position b saved; done (false, t, b))
        else do (result, t, b) ← tsig_parse_rr t b; b ← set_position b saved; done (result, t, b)
