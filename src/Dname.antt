-- ===== src/Dname.antt =====
-- dname.c and dname.h: domain names. This file has the label tests of dname.h and
-- `dname_make_wire_from_packet`, which follows compression pointers through a packet.
pub mod Steps
pub mod Decode
pub mod Onward
pub mod Name
pub mod Make
mod Tests
use Prim.Native.Nat.{bit_and}
use nsd_old.Base.{
  ℕ, zero, suc, ◌+◌, ◌-◌, ◌*◌, Bool, true, false, not, ◌||◌, Option, none, some, List, [], ◌∷◌,
  ◌++◌, leb, ltb, ◌==◌, if◌then◌else◌, length, get_or, take, drop, replicate, Outcome, done, fault,
  stuck, assert, ◌>>=◌, ◌>>◌,
}
use nsd_old.Buffer.{Buffer, available, read, skip, set_position}
use nsd_old.Packet.{max_domain_len, peek}

-- `MAX_PACKET_SIZE`
abbrev pub max_packet_size : ℕ
max_packet_size = 65535

-- `label_is_normal`, `label_is_pointer` and `label_is_root` of the first octet of a label
abbrev pub label_is_normal : ℕ → Bool
label_is_normal n = bit_and n 0xc0 == 0

abbrev pub label_is_pointer : ℕ → Bool
label_is_pointer n = bit_and n 0xc0 == 0xc0

abbrev pub label_is_root : ℕ → Bool
label_is_root n = n == 0

-- `label_pointer_location` of the two octets
abbrev pub label_pointer_location : ℕ → ℕ → ℕ
label_pointer_location high low = bit_and high 0x3f * 256 + low

-- `set_bit` and `get_bit` of util.c, on a bit array that is a list of its bits
pub set_bit : List Bool → ℕ → List Bool
set_bit [] i = []
set_bit (x ∷ xs) zero = true ∷ xs
set_bit (x ∷ xs) (suc i) = x ∷ set_bit xs i

pub get_bit : List Bool → ℕ → Bool
get_bit bits i = get_or bits i false

-- The variables of the loop besides the packet: which offsets were visited, what was written to
-- `buf` (its length is `dname_length`), and `mark`, with `none` for -1.
pub record Walk : Type 0 where
  pub visited : List Bool
  pub wire : List ℕ
  pub mark : Option ℕ

-- What one round of the loop comes to: a `return 0`, the root label, or another round.
pub data Round : Type 0 where
  refuse : Buffer → Round
  finish : Walk → Buffer → Round
  again : Walk → Buffer → Round

-- `mark`, set to the offset behind the first pointer.
abbrev pub marked : Option ℕ → ℕ → Option ℕ
marked none p = some p
marked (some m) p = some m

-- The branch for a compression pointer.
pub follow : Bool → ℕ → Walk → Buffer → Outcome Round
follow allow_pointers n w b = do
  room ← available b 2
  if not allow_pointers || not room then done (refuse b) else do
    low ← peek b (b.position + 1)
    let pointer = label_pointer_location n low
    if leb b.limit pointer then done (refuse b) else do
      b ← skip b 2
      let w = record w { mark = marked w.mark b.position }
      b ← set_position b pointer
      done (again w b)

-- The branch for a normal label.
pub copy : ℕ → Walk → Buffer → Outcome Round
copy n w b = do
  whole ← available b (n + 1)
  if not whole || leb (max_domain_len + 1) (length w.wire + (n + 1)) then done (refuse b) else do
    (d, b) ← read b (n + 1)
    let w = record w { wire = w.wire ++ d }
    done (if label_is_root n then finish w b else again w b)

-- One round.
pub round : Bool → Walk → Buffer → Outcome Round
round allow_pointers w b = do
  here ← available b 1
  if not here || get_bit w.visited b.position then done (refuse b) else do
    n ← peek b b.position
    let w = record w { visited = set_bit w.visited b.position }
    if label_is_pointer n
        then follow allow_pointers n w b
        else (if label_is_normal n then copy n w b else done (refuse b))

pub wire_loop : ℕ → Bool → Walk → Buffer → Outcome (Option Walk × Buffer)
wire_loop zero allow_pointers w b = stuck
wire_loop (suc fuel) allow_pointers w b = do
  r ← round allow_pointers w b
  elim r [
    | refuse c ↦ done (none, c)
    | finish w c ↦ done (some w, c)
    | again w c ↦ wire_loop fuel allow_pointers w c
  ]

-- Behind the loop: the position goes back to the mark, if there is one.
pub restore : List ℕ → Option ℕ → Buffer → Outcome (Option (List ℕ) × Buffer)
restore wire none b = done (some wire, b)
restore wire (some m) b = do b ← set_position b m; done (some wire, b)

-- `dname_make_wire_from_packet`: the option is `buf` up to the length that is returned, `none` for 0.
-- The array `visited` has room for a packet of `max_packet_size` octets. Each round marks an offset
-- of the packet that was not marked, so `limit` rounds and one are enough.
pub make_wire_from_packet : Buffer → Bool → Outcome (Option (List ℕ) × Buffer)
make_wire_from_packet b allow_pointers = do
  assert (leb b.limit max_packet_size)
  let start : Walk = record { visited = replicate b.limit false; wire = []; mark = none }
  (w, b) ← wire_loop (b.limit + 1) allow_pointers start b
  elim w [ none ↦ done (none, b) | some w' ↦ restore w'.wire w'.mark b ]
