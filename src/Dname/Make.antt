-- ===== src/Dname/Make.antt =====
-- dname.c: `dname_make`, which builds a name in memory from its wire format. The octets behind the
-- pointer `name` are a list; a read behind them is a fault. The memory of the region is fresh.
pub mod Wire
pub mod Reverse
pub mod Named
pub mod Packet
mod Tests
use nsd_old.Base.{
  ℕ, zero, suc, ◌+◌, ◌-◌, ◌/◌, ◌%◌, Bool, true, false, Option, none, some, List, [], ◌∷◌, ◌++◌, map,
  leb, ltb, ◌&&◌, ◌==◌, if◌then◌else◌, length, get_or, take, drop, overwrite, Outcome, done, fault,
  stuck, assert, ◌>>=◌, ◌>>◌,
}
use nsd_old.Buffer.{Buffer}
use nsd_old.Packet.{max_domain_len}
use nsd_old.Dname.{label_is_pointer, make_wire_from_packet}
use nsd_old.Dname.Name.{Name, at, label_length}

-- `DNAME_NORMALIZE`, which is `tolower` of a character
unfoldable pub tolower : ℕ → ℕ
tolower c = if leb b'A' c && leb c b'Z' then c + 32 else c

-- The octets of a `memcpy` from `name + i`
pub span : List ℕ → ℕ → ℕ → Outcome (List ℕ)
span name i size = if leb (i + size) (length name) then done (take size (drop i name)) else fault

-- The first loop: `label` is the offset of the label at hand, and the offsets are those of the
-- labels before it, whose number is `label_count`. The array has room for MAXDOMAINLEN of them.
pub make_loop : ℕ → List ℕ → ℕ → List ℕ → ℕ → Outcome (Option (List ℕ × ℕ))
make_loop zero name label label_offsets name_size = stuck
make_loop (suc fuel) name label label_offsets name_size = do
  first ← at name label
  if label_is_pointer first then done none else do
    assert (ltb (length label_offsets) max_domain_len)
    size ← label_length name label
    elim (size == 0) [
      | true ↦ done (some (label_offsets ++ (label % 256 ∷ []), name_size + (size + 1)))
      | false ↦
          make_loop fuel name (label + size + 1) (label_offsets ++ (label % 256 ∷ []))
            (name_size + (size + 1))
    ]

-- The loop that reverses the offsets in place, with the rounds that are left.
pub swap_loop : ℕ → ℕ → ℕ → List ℕ → List ℕ
swap_loop zero i label_count label_offsets = label_offsets
swap_loop (suc rounds) i label_count label_offsets =
    let tmp = get_or label_offsets i 0 in
    let other = label_count - i - 1 in
    swap_loop rounds (i + 1) label_count
      (overwrite (overwrite label_offsets i (get_or label_offsets other 0 ∷ [])) other (tmp ∷ []))

-- The loop that copies the name with its letters in lower case.
pub normalize_loop : ℕ → List ℕ → ℕ → Outcome (List ℕ)
normalize_loop zero name src = stuck
normalize_loop (suc fuel) name src = do
  first ← at name src
  elim (first == 0) [
    | true ↦ done (first ∷ [])
    | false ↦ do
      size ← label_length name src
      label ← span name (src + 1) size
      rest ← normalize_loop fuel name (src + size + 1)
      done (first ∷ (map tolower label ++ rest))
  ]

-- The copy of the name behind the offsets
pub copy_name : List ℕ → Bool → ℕ → Outcome (List ℕ)
copy_name name true name_size = normalize_loop (length name + 1) name 0
copy_name name false name_size = span name 0 name_size

-- `dname_make`; the sizes fit the fields of `struct dname` where these are set.
pub dname_make : List ℕ → Bool → Outcome (Option Name)
dname_make name normalize = do
  walked ← make_loop (length name + 1) name 0 [] 0
  elim walked [
    | none ↦ done none
    | some (label_offsets, name_size) ↦ if ltb max_domain_len name_size then done none else do
      assert (leb (length label_offsets) (max_domain_len / 2 + 1))
      octets ← copy_name name normalize name_size
      done (
          some (record {
            name_size = name_size;
            label_count = length label_offsets;
            label_offsets =
                swap_loop (length label_offsets / 2) 0 (length label_offsets) label_offsets;
            octets = octets;
          }))
  ]

-- `dname_make_from_packet`
unfoldable pub dname_make_from_packet : Buffer → Bool → Bool → Outcome (Option Name × Buffer)
dname_make_from_packet b allow_pointers normalize = do
  (buf, b) ← make_wire_from_packet b allow_pointers
  elim buf [ none ↦ done (none, b) | some wire ↦ do n ← dname_make wire normalize; done (n, b) ]
