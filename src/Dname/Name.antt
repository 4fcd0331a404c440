-- ===== src/Dname/Name.antt =====
-- dname.c and dname.h: domain names in memory, and their comparison label by label. The arrays behind
-- `struct dname` are lists; a label is the octets that it stands in with its offset.
pub mod Labels
pub mod Order
pub mod Common
mod Tests
use nsd_old.Base.{
  Comparison, same, compare_num, and_then, ℕ, zero, suc, ◌+◌, ◌-◌, min, Bool, true, false, ◌&&◌,
  List, ltb, ◌==◌, if◌then◌else◌, length, get_or, Outcome, done, fault, stuck, assert, ◌>>=◌, ◌>>◌,
}
use nsd_old.Dname.{label_is_normal}

-- `struct dname` with the two arrays behind it
pub record Name : Type 0 where
  pub name_size : ℕ
  pub label_count : ℕ
  pub label_offsets : List ℕ
  pub octets : List ℕ

-- A read in an array; behind the octets it is a fault.
unfoldable pub at : List ℕ → ℕ → Outcome ℕ
at d i = if ltb i (length d) then done (get_or d i 0) else fault

-- `dname_label`: the offset of the label in the name.
unfoldable pub dname_label : Name → ℕ → Outcome ℕ
dname_label n label = do
  assert (ltb label n.label_count)
  label_index ← at n.label_offsets label
  assert (ltb label_index n.name_size)
  done label_index

-- `label_length`, with the assertion of `label_is_normal`
unfoldable pub label_length : List ℕ → ℕ → Outcome ℕ
label_length d i = do size ← at d i; assert (label_is_normal size); done size

-- `memcmp` of the octets from two offsets on, by the first that differs
unfoldable pub memcmp : ℕ → List ℕ → ℕ → List ℕ → ℕ → Outcome Comparison
memcmp zero d i c j = done same
memcmp (suc size) d i c j = do
  x ← at d i
  y ← at c j
  rest ← if x == y then memcmp size d (i + 1) c (j + 1) else done same
  done (and_then (compare_num x y) rest)

-- `label_compare`
unfoldable pub label_compare : List ℕ → ℕ → List ℕ → ℕ → Outcome Comparison
label_compare left i right j = do
  left_length ← label_length left i
  right_length ← label_length right j
  result ← memcmp (min left_length right_length) left (i + 1) right (j + 1)
  done (and_then result (compare_num left_length right_length))

-- `label_compare(dname_label(left, i), dname_label(right, i))`
unfoldable pub compare_at : ℕ → Name → Name → Outcome Comparison
compare_at i left right = do
  l ← dname_label left i
  r ← dname_label right i
  label_compare left.octets l right.octets r

abbrev pub is_same : Comparison → Bool
is_same same = true
is_same _ = false

-- The loop of `dname_is_subdomain`, with the rounds that are left.
pub subdomain_loop : ℕ → ℕ → Name → Name → Outcome Bool
subdomain_loop zero i left right = done true
subdomain_loop (suc rounds) i left right = do
  result ← compare_at i left right
  if is_same result then subdomain_loop rounds (i + 1) left right else done false

-- `dname_is_subdomain`
pub dname_is_subdomain : Name → Name → Outcome Bool
dname_is_subdomain left right =
    if ltb left.label_count right.label_count
    then done false
    else subdomain_loop (right.label_count - 1) 1 left right

-- The loop of `dname_compare`, with the rounds that are left, and the difference behind it.
unfoldable pub compare_loop : ℕ → ℕ → Name → Name → Outcome Comparison
compare_loop zero i left right = done (compare_num left.label_count right.label_count)
compare_loop (suc rounds) i left right = do
  result ← compare_at i left right
  if is_same result then compare_loop rounds (i + 1) left right else done result

-- `dname_compare`; the flag is `left == right` of the two pointers.
unfoldable pub dname_compare : Bool → Name → Name → Outcome Comparison
dname_compare pointers_equal left right =
    if pointers_equal
    then done same
    else compare_loop (min left.label_count right.label_count - 1) 1 left right

-- The loop of `dname_label_match_count`.
pub match_loop : ℕ → ℕ → Name → Name → Outcome ℕ
match_loop zero i left right = stuck
match_loop (suc fuel) i left right =
    if ltb i left.label_count && ltb i right.label_count
    then (do
      result ← compare_at i left right
      if is_same result then match_loop fuel (i + 1) left right else done i)
    else done i

-- `dname_label_match_count`; the loop ends before `i` passes the labels of `left`.
pub dname_label_match_count : Name → Name → Outcome ℕ
dname_label_match_count left right = match_loop left.label_count 1 left right
