-- ===== src/Dname/Onward.antt =====
-- `dname_make_wire_from_packet` leaves the position behind where it was.
use nsd_old.Base.{
  ℕ, zero, suc, ◌+◌, ◌≤◌, ◌<◌, ◌^◌, ◌≡◌, ◌∙◌, Bool, false, not, ◌||◌, Option, none, some, List, [],
  replicate, assert, leb, length, arith, Outcome, done, ◌>>=◌, Ensures, Ensures-bind, Ensures-map,
  Bool-cases, inl, inr,
}
use nsd_old.Buffer.{Buffer, available, available_at, read, read_at, fetch, skip, set_position}
use nsd_old.Packet.{peek, max_domain_len}
use nsd_old.Dname.Decode.{visit}
use nsd_old.Dname.Name.{Name}
use nsd_old.Dname.Make.{dname_make, dname_make_from_packet}
use nsd_old.Dname.{
  max_packet_size, label_pointer_location, label_is_root, label_is_pointer, label_is_normal,
  get_bit, Walk, Round, marked, follow, copy, round, wire_loop, restore, make_wire_from_packet,
}

-- The position that the name will leave is `floor` or behind it.
abbrev Past : ℕ → Option ℕ → ℕ → Type 0
Past floor none position = floor ≤ position
Past floor (some m) position = floor ≤ m

abbrev RoundPast : ℕ → ℕ → Round → Type 0
RoundPast floor limit (Round.refuse c) = Unit
RoundPast floor limit (Round.finish w c) = (c.limit ≡ limit) × Past floor w.mark c.position
RoundPast floor limit (Round.again w c) = (c.limit ≡ limit) × Past floor w.mark c.position

-- A run about which nothing is claimed.
pub anything {ℓ} : {A : Type ℓ} (m : Outcome A) → Ensures (λ a. Unit) m
anything (done a) = tt
anything Outcome.fault = tt
anything Outcome.stuck = tt

pub available_ends : (b : Buffer) (n : ℕ) → Ensures (λ a. b.position ≤ b.limit) (available b n)
unfolding available
available_ends b n = ground arith

pub set_position_ends :
    (b : Buffer) (p : ℕ) → Ensures (λ c. (c.limit ≡ b.limit) × (c.position ≡ p)) (set_position b p)
unfolding set_position
set_position_ends b p = ground arith

pub skip_ends :
    (b : Buffer) (n : ℕ)
    → b.position + n < 2 ^ 64
    → Ensures (λ c. (c.limit ≡ b.limit) × (c.position ≡ b.position + n)) (skip b n)
unfolding skip
skip_ends b n h = ground (arith, h)

read_ends :
    (b : Buffer) (n : ℕ)
    → Ensures (λ r. (r.1.limit ≡ b.limit) × (r.1.position ≡ b.position + n)) (read b n)
unfolding read read_at fetch available_at
read_ends b n = ground arith

Past-marked :
    (floor : ℕ) (mark : Option ℕ) (old behind new : ℕ)
    → Past floor mark old
    → old ≤ behind
    → Past floor (marked mark behind) new
Past-marked floor none old behind new h k = omega (arith, h, k)
Past-marked floor (some m) old behind new h k = h

Past-later :
    (floor : ℕ) (mark : Option ℕ) (old new : ℕ)
    → Past floor mark old
    → old ≤ new
    → Past floor mark new
Past-later floor none old new h k = omega (arith, h, k)
Past-later floor (some m) old new h k = h

module _ (floor : ℕ) (allow : Bool) (w : Walk) (b : Buffer) (small : b.limit < 2 ^ 62)
    (h : Past floor w.mark b.position) where
  follow-RoundPast : (n : ℕ) → Ensures (RoundPast floor b.limit) (follow allow n w b)
  unfolding follow
  follow-RoundPast n =
      Ensures-bind (λ a. b.position ≤ b.limit) (RoundPast floor b.limit) (available b 2) _
        (available_ends b 2)
        λ room k. elim (Bool-cases (not allow || not room)) [
          | inl e ↦ rw (Ensures, e) tt
          | inr e ↦
              rw (Ensures, e)
                (Ensures-bind (λ a. Unit) (RoundPast floor b.limit) (peek b (b.position + 1)) _
                  (anything (peek b (b.position + 1)))
                  λ low _. elim (Bool-cases (leb b.limit (label_pointer_location n low))) [
                    | inl f ↦ rw (Ensures, f) tt
                    | inr f ↦
                        rw (Ensures, f)
                          (Ensures-bind (λ c. (c.limit ≡ b.limit) × (c.position ≡ b.position + 2))
                            (RoundPast floor b.limit) (skip b 2) _
                            (skip_ends b 2 (omega (arith, k, small)))
                            λ c (l, e2).
                              Ensures-bind
                                (λ d.
                                  (d.limit ≡ c.limit) × (d.position ≡ label_pointer_location n low))
                                (RoundPast floor b.limit)
                                (set_position c (label_pointer_location n low)) _
                                (set_position_ends c (label_pointer_location n low))
                                λ d (m, _). (
                                  m ∙ l,
                                  Past-marked floor w.mark b.position c.position d.position h
                                      (omega (arith, e2)),
                                ))
                  ])
        ]

  copy-RoundPast : (n : ℕ) → Ensures (RoundPast floor b.limit) (copy n w b)
  unfolding copy
  copy-RoundPast n =
      Ensures-bind (λ a. Unit) (RoundPast floor b.limit) (available b (n + 1)) _
        (anything (available b (n + 1)))
        λ whole _.
          elim (Bool-cases (not whole || leb (max_domain_len + 1) (length w.wire + (n + 1)))) [
            | inl e ↦ rw (Ensures, e) tt
            | inr e ↦
                rw (Ensures, e)
                  (Ensures-bind (λ r. (r.1.limit ≡ b.limit) × (r.1.position ≡ b.position + (n + 1)))
                    (RoundPast floor b.limit) (read b (n + 1)) _ (read_ends b (n + 1))
                    λ (d, c) (l, k).
                      let later =
                        Past-later floor w.mark b.position c.position h (omega (arith, k)) in
                      elim (Bool-cases (label_is_root n)) [
                        | inl f ↦ rw f (l, later)
                        | inr f ↦ rw f (l, later)
                      ])
          ]

module _ (floor : ℕ) (allow : Bool) (w : Walk) (b : Buffer) (small : b.limit < 2 ^ 62)
    (h : Past floor w.mark b.position) where
  round-RoundPast : Ensures (RoundPast floor b.limit) (round allow w b)
  unfolding round
  round-RoundPast =
      Ensures-bind (λ a. Unit) (RoundPast floor b.limit) (available b 1) _
        (anything (available b 1))
        λ here _. elim (Bool-cases (not here || get_bit w.visited b.position)) [
          | inl e ↦ rw (Ensures, e) tt
          | inr e ↦
              rw (Ensures, e)
                (Ensures-bind (λ a. Unit) (RoundPast floor b.limit) (peek b b.position) _
                  (anything (peek b b.position))
                  λ n _. elim (Bool-cases (label_is_pointer n)) [
                    | inl f ↦ rw (Ensures, f) (follow-RoundPast floor allow (visit w b) b small h n)
                    | inr f ↦ elim (Bool-cases (label_is_normal n)) [
                      | inl g ↦
                          rw (Ensures, f, g) (copy-RoundPast floor allow (visit w b) b small h n)
                      | inr g ↦ rw (Ensures, f, g) tt
                    ]
                  ])
        ]

-- Behind the loop
abbrev EndPast : ℕ → ℕ → Option Walk × Buffer → Type 0
EndPast floor limit (none, c) = Unit
EndPast floor limit (some w, c) = (c.limit ≡ limit) × Past floor w.mark c.position

wire_loop-EndPast :
    (fuel floor : ℕ) (allow : Bool) (w : Walk) (b : Buffer)
    → b.limit < 2 ^ 62
    → Past floor w.mark b.position
    → Ensures (EndPast floor b.limit) (wire_loop fuel allow w b)
unfolding wire_loop
wire_loop-EndPast zero floor allow w b small h = tt
wire_loop-EndPast (suc fuel) floor allow w b small h =
    Ensures-bind (RoundPast floor b.limit) (EndPast floor b.limit) (round allow w b) _
      (round-RoundPast floor allow w b small h)
      (elim [
        | Round.refuse c ↦ λ k. tt
        | Round.finish u c ↦ λ k. k
        | Round.again u c ↦ λ k.
            again u c k.0 (wire_loop-EndPast fuel floor allow u c (omega (arith, small, k.0)) k.1)
      ])
  where
    carry :
        (c : Buffer) (r : Option Walk × Buffer)
        → c.limit ≡ b.limit
        → EndPast floor c.limit r
        → EndPast floor b.limit r
    carry c (none, d) l k = tt
    carry c (some u, d) l (m, k) = (m ∙ l, k)

    again :
        (u : Walk) (c : Buffer)
        → c.limit ≡ b.limit
        → Ensures (EndPast floor c.limit) (wire_loop fuel allow u c)
        → Ensures (EndPast floor b.limit) (wire_loop fuel allow u c)
    again u c l k =
        Ensures-map (EndPast floor c.limit) (EndPast floor b.limit) (wire_loop fuel allow u c)
          (λ r. carry c r l) k

abbrev pub NamePast : Buffer → Option (List ℕ) × Buffer → Type 0
NamePast b (none, c) = Unit
NamePast b (some wire, c) = (c.limit ≡ b.limit) × (b.position ≤ c.position)

-- If `dname_make_wire_from_packet` returns a name, the position is where it was or behind that, though
-- pointers may lead to octets in front.
pub make_wire_from_packet-NamePast :
    (b : Buffer) (allow_pointers : Bool)
    → b.limit < 2 ^ 62
    → Ensures (NamePast b) (make_wire_from_packet b allow_pointers)
unfolding make_wire_from_packet restore
make_wire_from_packet-NamePast b allow small =
    Ensures-bind (λ a. Unit) (NamePast b) (assert (leb b.limit max_packet_size)) _
      (anything (assert (leb b.limit max_packet_size)))
      λ _ _.
        Ensures-bind (EndPast b.position b.limit) (NamePast b)
          (wire_loop (b.limit + 1) allow start b) _
          (wire_loop-EndPast (b.limit + 1) b.position allow start b small (omega arith))
          λ (w, c) k. end w c k
  where
    start : Walk
    start = record { visited = replicate b.limit false; wire = []; mark = none }

    go_back :
        (wire : List ℕ) (mark : Option ℕ) (c : Buffer)
        → c.limit ≡ b.limit
        → Past b.position mark c.position
        → Ensures (NamePast b) (restore wire mark c)
    go_back wire none c l k = (l, k)
    go_back wire (some m) c l k =
        Ensures-bind (λ d. (d.limit ≡ c.limit) × (d.position ≡ m)) (NamePast b) (set_position c m) _
          (set_position_ends c m) λ d (j, e). (j ∙ l, omega (arith, k, e))

    end :
        (w : Option Walk) (c : Buffer)
        → EndPast b.position b.limit (w, c)
        → Ensures
            (NamePast b)
            (elim w [ none ↦ done (none, c) | some w' ↦ restore w'.wire w'.mark c ])
    end none c k = tt
    end (some w) c (l, k) = go_back w.wire w.mark c l k

abbrev pub MadePast : Buffer → Option Name × Buffer → Type 0
MadePast b (none, c) = Unit
MadePast b (some n, c) = (c.limit ≡ b.limit) × (b.position ≤ c.position)

pub dname_make_from_packet-MadePast :
    (b : Buffer) (allow_pointers normalize : Bool)
    → b.limit < 2 ^ 62
    → Ensures (MadePast b) (dname_make_from_packet b allow_pointers normalize)
unfolding dname_make_from_packet
dname_make_from_packet-MadePast b allow normalize small =
    Ensures-bind (NamePast b) (MadePast b) (make_wire_from_packet b allow) _
      (make_wire_from_packet-NamePast b allow small) λ (buf, c) k. make buf c k
  where
    made :
        (n : Option Name) (c : Buffer)
        → (c.limit ≡ b.limit) × (b.position ≤ c.position)
        → MadePast b (n, c)
    made none c k = tt
    made (some n) c k = k

    make :
        (buf : Option (List ℕ)) (c : Buffer)
        → NamePast b (buf, c)
        → Ensures (MadePast b) (elim buf [
          | none ↦ done (none, c)
          | some w ↦ dname_make w normalize >>= λ n. done (n, c)
        ])
    make none c k = tt
    make (some w) c k =
        Ensures-bind (λ a. Unit) (MadePast b) (dname_make w normalize) _
          (anything (dname_make w normalize)) λ n _. made n c k
