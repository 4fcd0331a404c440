-- ===== src/Packet/Skip.antt =====
-- `packet_skip_dname` and `packet_skip_rr`: they end, stay inside the packet, and take exactly the
-- names that the wire format has.
use Prim.Native.Nat.{bit_and}
use native.Mathlib.Decide.{ℕ_discrete, dec_lt}
use nsd_old.Base.{
  ℕ, zero, suc, ◌+◌, ◌-◌, ◌≤◌, ◌<◌, ◌≡◌, ◌≢◌, Bool, true, false, List, arith, if◌then◌else◌, leb,
  get_or, done, Returns, Returns-bind,
}
use nsd_old.Buffer.{Buffer, moved, read_uint16}
use nsd_old.Buffer.Valid.{IsValid, moved-IsValid}
use nsd_old.Buffer.Access.{available_lem, skip_lem, read_u8_lem, read_u16_lem}
use nsd_old.Packet.{skip_dname_loop, skip_dname, skip_room, skip_body, skip_rr}

-- `c` is `b` with the position moved forward and still inside the limit.
pub record Forward (b c : Buffer) : Type 0 where
  pub valid : IsValid c
  pub same_bytes : c.bytes ≡ b.bytes
  pub same_limit : c.limit ≡ b.limit
  pub onward : b.position ≤ c.position

-- An encoded name stands in the octets `d` from `at` up to `end`, all of it before `limit`: labels,
-- each behind its length, up to a root label or a compression pointer.
pub data EncodedName (d : List ℕ) (limit : ℕ) : ℕ → ℕ → Type 0 where
  root : {at end : ℕ} → get_or d at 0 ≡ 0 → end ≡ at + 1 → end ≤ limit → EncodedName d limit at end
  pointer :
      {at end : ℕ}
      → get_or d at 0 ≢ 0
      → bit_and (get_or d at 0) 0xc0 ≢ 0
      → end ≡ at + 2
      → end ≤ limit
      → EncodedName d limit at end
  label :
      {at end : ℕ} (behind : ℕ)
      → get_or d at 0 ≢ 0
      → bit_and (get_or d at 0) 0xc0 ≡ 0
      → behind ≡ at + 1 + get_or d at 0
      → behind ≤ limit
      → EncodedName d limit behind end
      → EncodedName d limit at end

-- One round of the loop, by what stands at the position.
module _ (fuel : ℕ) {b : Buffer} (v : IsValid b) where
  round_empty : b.limit ≤ b.position → skip_dname_loop (suc fuel) b ≡ done (false, b)
  unfolding skip_dname_loop
  round_empty h = ground (arith, available_lem v 1)

  module _ (h : b.position + 1 ≤ b.limit) where
    round_root :
        get_or b.bytes b.position 0 ≡ 0 → skip_dname_loop (suc fuel) b ≡ done (true, moved b 1)
    unfolding skip_dname_loop
    round_root e = ground (arith, available_lem v 1, read_u8_lem v)

    module _ (nonzero : get_or b.bytes b.position 0 ≢ 0) where
      round_pointer :
          bit_and (get_or b.bytes b.position 0) 0xc0 ≢ 0
          → skip_dname_loop (suc fuel) b ≡ (
              if leb (b.position + 2) b.limit
              then done (true, moved (moved b 1) 1)
              else done (false, moved b 1))
      unfolding skip_dname_loop
      round_pointer p =
          let w : IsValid (moved b 1) = moved-IsValid 1 v h in
          ground (arith, available_lem v 1, read_u8_lem v, available_lem w 1, skip_lem w 1)

      round_label :
          bit_and (get_or b.bytes b.position 0) 0xc0 ≡ 0
          → skip_dname_loop (suc fuel) b ≡ (
              if leb (b.position + 1 + get_or b.bytes b.position 0) b.limit
              then skip_dname_loop fuel (moved (moved b 1) (get_or b.bytes b.position 0))
              else done (false, moved b 1))
      unfolding skip_dname_loop
      round_label p =
          let w : IsValid (moved b 1) = moved-IsValid 1 v h in
          let n = get_or b.bytes b.position 0 in
          ground (arith, available_lem v 1, read_u8_lem v, available_lem w n, skip_lem w n)

-- What can stand at the position of a buffer.
data Kind (b : Buffer) : Type 0 where
  nothing : b.limit ≤ b.position → Kind b
  root : b.position + 1 ≤ b.limit → get_or b.bytes b.position 0 ≡ 0 → Kind b
  pointer :
      b.position + 1 ≤ b.limit
      → get_or b.bytes b.position 0 ≢ 0
      → bit_and (get_or b.bytes b.position 0) 0xc0 ≢ 0
      → Kind b
  label :
      b.position + 1 ≤ b.limit
      → get_or b.bytes b.position 0 ≢ 0
      → bit_and (get_or b.bytes b.position 0) 0xc0 ≡ 0
      → Kind b

kind : (b : Buffer) → Kind b
kind b = elim (dec_lt b.position b.limit) [
  | no h ↦ Kind.nothing (omega arith)
  | yes h ↦ elim (ℕ_discrete (get_or b.bytes b.position 0) 0) [
    | yes z ↦ Kind.root (omega arith) z
    | no z ↦ elim (ℕ_discrete (bit_and (get_or b.bytes b.position 0) 0xc0) 0) [
      | yes p ↦ Kind.label (omega arith) z p
      | no p ↦ Kind.pointer (omega arith) z p
    ]
  ]
]

-- The loop with fuel for every octet left returns, inside the packet.
skip_dname_loop-Forward :
    (fuel : ℕ) (b : Buffer)
    → IsValid b
    → b.limit - b.position < fuel
    → Returns (λ r. Forward b r.1) (skip_dname_loop fuel b)
skip_dname_loop-Forward zero b v f = absurd (omega arith)
skip_dname_loop-Forward (suc fuel) b v f = elim (kind b) [
  | Kind.nothing h ↦ rw (round_empty fuel v h) (ground arith)
  | Kind.root h e ↦ rw (round_root fuel v h e) (ground arith)
  | Kind.pointer h z p ↦ rw (round_pointer fuel v h z p) (ground arith)
  | Kind.label h z p ↦ rw (round_label fuel v h z p) (
      ground
        (arith, skip_dname_loop-Forward fuel (moved (moved b 1) (get_or b.bytes b.position 0))))
]

-- On a valid packet `packet_skip_dname` returns, and leaves the packet as it was but for a position
-- that has moved forward inside the limit.
pub skip_dname-Forward : {b : Buffer} → IsValid b → Returns (λ r. Forward b r.1) (skip_dname b)
unfolding skip_dname
skip_dname-Forward {b} v = skip_dname_loop-Forward (b.limit - b.position + 1) b v (omega arith)

pub Forward-trans : {b c d : Buffer} → Forward b c → Forward c d → Forward b d
Forward-trans f g = ground arith

pub skip_room-Forward :
    {b : Buffer} (n : ℕ) → IsValid b → Returns (λ r. Forward b r.1) (skip_room b n)
unfolding skip_room
skip_room-Forward n v = ground (arith, available_lem v n, skip_lem v n)

skip_body-Forward : {b : Buffer} → IsValid b → Returns (λ r. Forward b r.1) (skip_body b)
unfolding skip_body
skip_body-Forward {b} v = elim (dec_lt b.limit (b.position + 10)) [
  | yes h ↦ ground (arith, available_lem v 10)
  | no h ↦
      let w : IsValid (moved b 8) = moved-IsValid 8 v (omega arith) in
      let n = read_uint16 b.bytes (b.position + 8) in
      let u : IsValid (moved (moved b 8) 2) = moved-IsValid 2 w (omega arith) in
      ground (arith, available_lem v 10, skip_lem v 8, read_u16_lem w, skip_room-Forward n u)
]

-- On a valid packet `packet_skip_rr`, of a question or of another record, returns, and leaves the
-- packet as it was but for a position that has moved forward inside the limit.
pub skip_rr-Forward :
    {b : Buffer} (question_section : Bool)
    → IsValid b
    → Returns (λ r. Forward b r.1) (skip_rr b question_section)
unfolding skip_rr
skip_rr-Forward {b} q v =
    Returns-bind (λ r. Forward b r.1) (skip_dname b) _ (skip_dname-Forward v)
      λ r f. ground (arith, skip_room-Forward 4 f.valid, skip_body-Forward f.valid)
