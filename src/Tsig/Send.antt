-- ===== src/Tsig/Send.antt =====
-- tsig.c: writing the TSIG record behind an answer, and the space that is kept free for it.
use nsd_old.Base.{
  ℕ, ◌+◌, ◌-◌, Option, none, some, List, [], leb, ◌==◌, if◌then◌else◌, length, take, Outcome, done,
  fault, ◌>>=◌,
}
use nsd_old.Buffer.{Buffer, write, write_u8, write_u16, write_u32, write_u16_at, skip}
use nsd_old.Dname.Name.{Name}
use nsd_old.Tsig.{TsigStatus, Tsig, type_tsig, class_any}
pub mod Space

-- The octets that `buffer_write(packet, data, size)` takes from `data`.
unfoldable pub octets_of : Option (List ℕ) → ℕ → Outcome (List ℕ)
octets_of none size = if size == 0 then done [] else fault
octets_of (some d) size = if leb size (length d) then done (take size d) else fault

-- A name, or the root for NULL
unfoldable pub write_name : Buffer → Option Name → Outcome Buffer
write_name b none = write_u8 b 0
write_name b (some n) = do d ← octets_of (some n.octets) n.name_size; write b d

unfoldable pub write_data : Buffer → Option (List ℕ) → ℕ → Outcome Buffer
write_data b data_ size = do d ← octets_of data_ size; write b d

-- The rdata of `tsig_append_rr`
pub append_rdata : Tsig → Buffer → Outcome Buffer
append_rdata t b = do
  b ← write_name b t.algorithm_name
  b ← write_u16 b t.signed_time_high
  b ← write_u32 b t.signed_time_low
  b ← write_u16 b t.signed_time_fudge
  b ← write_u16 b t.mac_size
  b ← write_data b t.mac_data t.mac_size
  b ← write_u16 b t.original_query_id
  b ← write_u16 b t.error_code
  b ← write_u16 b t.other_size
  write_data b t.other_data t.other_size

-- The record up to `rdlength_pos`
pub append_owner : Tsig → Buffer → Outcome Buffer
append_owner t b = do
  b ← write_name b t.key_name
  b ← write_u16 b type_tsig
  b ← write_u16 b class_any
  write_u32 b 0

-- `tsig_append_rr`
pub tsig_append_rr : Tsig → Buffer → Outcome Buffer
tsig_append_rr t b = do
  b ← append_owner t b
  let rdlength_pos = b.position
  b ← skip b 2
  b ← append_rdata t b
  write_u16_at b rdlength_pos (b.position - rdlength_pos - 2)

unfoldable pub name_space : Option Name → ℕ
name_space none = 1
name_space (some n) = n.name_size

-- `tsig_reserved_space`
unfoldable pub tsig_reserved_space : ℕ → Tsig → ℕ
tsig_reserved_space max_algo_digest_size t = elim t.status [
  | TsigStatus.tsig_not_present ↦ 0
  | _ ↦
      name_space t.key_name
      + 2
      + 2
      + 4
      + 2
      + name_space t.algorithm_name
      + 2
      + 4
      + 2
      + 2
      + max_algo_digest_size
      + 2
      + 2
      + 2
      + t.other_size
]
