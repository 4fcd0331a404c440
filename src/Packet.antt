-- ===== src/Packet.antt =====
-- packet.c, the routines that walk a packet which came in: skipping names and records, reading the
-- question, and finding the serial of a notify. The header counts are those of packet.h.
pub mod Skip
pub mod Query
pub mod Serial
mod Tests
use Prim.Native.Nat.{bit_and}
use nsd_old.Base.{
  ℕ, zero, suc, ◌+◌, ◌-◌, ◌*◌, Bool, true, false, not, ◌||◌, Option, none, some, List, [], ◌∷◌,
  ◌++◌, leb, ltb, ◌==◌, if◌then◌else◌, length, get_or, take, drop, Outcome, done, fault, stuck,
  ◌>>=◌, ◌>>◌,
}
use nsd_old.Buffer.{Buffer, available, read_u8, read_u16, read_u32, read_u16_at, skip, set_position}

abbrev pub max_domain_len : ℕ
max_domain_len = 255

abbrev pub header_size : ℕ
header_size = 12

abbrev pub type_soa : ℕ
type_soa = 6

abbrev pub class_in : ℕ
class_in = 1

-- `QDCOUNT`, `ANCOUNT`, `NSCOUNT` and `ARCOUNT`
unfoldable pub qdcount : Buffer → Outcome ℕ
qdcount b = read_u16_at b 4

unfoldable pub ancount : Buffer → Outcome ℕ
ancount b = read_u16_at b 6

unfoldable pub nscount : Buffer → Outcome ℕ
nscount b = read_u16_at b 8

unfoldable pub arcount : Buffer → Outcome ℕ
arcount b = read_u16_at b 10

-- The loop of `packet_skip_dname`; each round passes an octet at least.
pub skip_dname_loop : ℕ → Buffer → Outcome (Bool × Buffer)
skip_dname_loop zero b = stuck
skip_dname_loop (suc fuel) b = do
  here ← available b 1
  elim here [
    | false ↦ done (false, b)
    | true ↦ do
      (size, b) ← read_u8 b
      elim (size == 0) [
        | true ↦ done (true, b)
        | false ↦ elim (bit_and size 0xc0 == 0) [
          | false ↦ do
            low ← available b 1
            if low then (do b ← skip b 1; done (true, b)) else done (false, b)
          | true ↦ do
            whole ← available b size
            elim whole [
              | false ↦ done (false, b)
              | true ↦ do b ← skip b size; skip_dname_loop fuel b
            ]
        ]
      ]
  ]

unfoldable pub skip_dname : Buffer → Outcome (Bool × Buffer)
skip_dname b = skip_dname_loop (b.limit - b.position + 1) b

-- `if (!buffer_available(packet, n)) return 0; buffer_skip(packet, n); return 1`
unfoldable pub skip_room : Buffer → ℕ → Outcome (Bool × Buffer)
skip_room b n = do
  room ← available b n
  if not room then done (false, b) else do b ← skip b n; done (true, b)

-- The `else` block of `packet_skip_rr`: type, class, ttl, and rdata behind its length.
unfoldable pub skip_body : Buffer → Outcome (Bool × Buffer)
skip_body b = do
  room ← available b 10
  if not room
      then done (false, b)
      else do b ← skip b 8; (rdata_size, b) ← read_u16 b; skip_room b rdata_size

-- `packet_skip_rr`
unfoldable pub skip_rr : Buffer → Bool → Outcome (Bool × Buffer)
skip_rr b question_section = do
  (named, b) ← skip_dname b
  if not named then done (false, b) else (if question_section then skip_room b 4 else skip_body b)

-- `*src`, a read through a pointer into the packet; behind the octets it is a fault.
unfoldable pub peek : Buffer → ℕ → Outcome ℕ
peek b at = if ltb at (length b.bytes) then done (get_or b.bytes at 0) else fault

-- The `while` of `packet_read_query_section`: `start` is `query_name`, `src` the offset of the label
-- at hand, `dst` what was copied. The flag says that the root label was reached.
unfoldable pub copy_labels : ℕ → Buffer → ℕ → ℕ → List ℕ → Outcome (Bool × ℕ × List ℕ)
copy_labels zero b start src dst = stuck
copy_labels (suc fuel) b start src dst = do
  n ← peek b src
  elim (n == 0) [
    | true ↦ done (true, src, dst)
    | false ↦
        elim (not (bit_and n 0xc0 == 0)
          || ltb b.limit (src + n + 2)
          || ltb (start + max_domain_len) (src + n + 2)) [
            | true ↦ done (false, src, dst)
            | false ↦
                copy_labels fuel b start (src + n + 1) (dst ++ take (n + 1) (drop src b.bytes))
          ]
  ]

-- What `packet_read_query_section` leaves: `dst`, and type and class if it returns 1.
pub record Question : Type 0 where
  pub dst : List ℕ
  pub found : Option (ℕ × ℕ)

-- What follows the loop, with `src` at the root label.
unfoldable pub question_end : Buffer → ℕ → List ℕ → Outcome (Question × Buffer)
question_end b src labels = do
  last ← peek b src
  let dst = labels ++ (last ∷ [])
  let len = src + 1 - b.position
  if ltb max_domain_len len || ltb b.limit (src + 1 + 4)
      then done (record { dst = dst; found = none }, b)
      else do
        b ← set_position b (src + 1)
        (qtype, b) ← read_u16 b
        (qclass, b) ← read_u16 b
        done (record { dst = dst; found = some (qtype, qclass) }, b)

unfoldable pub read_query_section : Buffer → Outcome (Question × Buffer)
read_query_section b = do
  (root, src, dst) ← copy_labels (b.limit - b.position + 1) b b.position b.position []
  if root then question_end b src dst else done (record { dst = dst; found = none }, b)

-- The loop over the question section; the flag says that every record was skipped.
pub skip_questions : ℕ → Buffer → Outcome (Bool × Buffer)
skip_questions zero b = done (true, b)
skip_questions (suc n) b = do
  (good, b) ← skip_rr b true
  elim good [ true ↦ skip_questions n b | false ↦ done (false, b) ]

-- What one round of the search for the SOA record comes to.
pub data Round : Type 0 where
  stop : Buffer → Round
  serial : ℕ → Buffer → Round
  next : Buffer → Round

-- The last of the SOA record: the serial, behind the two names.
unfoldable pub soa_end : Buffer → Outcome Round
soa_end b = do
  room ← available b 4
  if not room then done (stop b) else do (s, b) ← read_u32 b; done (serial s b)

-- The rdata of the SOA record: two names are skipped.
unfoldable pub soa_names : Buffer → Outcome Round
soa_names b = do
  (primary, b) ← skip_dname b
  if not primary
      then done (stop b)
      else do (mailbox, b) ← skip_dname b; if not mailbox then done (stop b) else soa_end b

-- The record at hand is an SOA: its type is read, and the class and what follows are not.
unfoldable pub soa_record : Buffer → Outcome Round
soa_record b = do
  (klass, b) ← read_u16 b
  if not (klass == class_in) then done (stop b) else do
    b ← skip b 4
    (rdata_size, b) ← read_u16 b
    room ← available b rdata_size
    if not room then done (stop b) else soa_names b

-- The record at hand is another one, which is passed over.
unfoldable pub other_record : Buffer → Outcome Round
other_record b = do
  b ← skip b 6
  (rdata_size, b) ← read_u16 b
  room ← available b rdata_size
  if not room then done (stop b) else do b ← skip b rdata_size; done (next b)

unfoldable pub notify_round : Buffer → Outcome Round
notify_round b = do
  (named, b) ← skip_dname b
  if not named then done (stop b) else do
    room ← available b 10
    if not room
        then done (stop b)
        else do (type_, b) ← read_u16 b; if type_ == type_soa then soa_record b else other_record b

-- The search over the records behind the questions.
pub find_soa : ℕ → Buffer → Outcome (Option ℕ × Buffer)
find_soa zero b = done (none, b)
find_soa (suc n) b = do
  r ← notify_round b
  elim r [ stop b' ↦ done (none, b') | serial s b' ↦ done (some s, b') | next b' ↦ find_soa n b' ]

-- `packet_find_notify_serial`; the option is `*serial`, set when the result is 1.
unfoldable pub find_notify_serial : Buffer → Outcome (Option ℕ × Buffer)
find_notify_serial b = do
  let saved = b.position
  an ← ancount b
  ns ← nscount b
  ar ← arcount b
  let rrcount = an + ns + ar
  b ← set_position b header_size
  qd ← qdcount b
  (questions, b) ← skip_questions qd b
  if not questions
      then (do b ← set_position b saved; done (none, b))
      else do (found, b) ← find_soa rrcount b; b ← set_position b saved; done (found, b)
