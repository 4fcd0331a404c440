-- ===== src/Edns/Kept.antt =====
-- What `edns_parse_record` keeps of the record when it does not take one.
use nsd_old.Base.{
  ℕ, zero, suc, ◌+◌, ◌-◌, ◌≡◌, refl, ◌∙◌, Bool, false, not, ◌&&◌, ◌||◌, Bool-cases, inl, inr, ltb,
  ◌==◌, Ensures, Ensures-bind, Ensures-map,
}
use nsd_old.Buffer.{Buffer, skip, available, read_u8, read_u16, set_position}
use nsd_old.Dname.Onward.{anything}
use nsd_old.Edns.{
  Record, nsid_code, opt_len, opt_rdata, type_opt, handle_option, parse_options, parse_rdata,
  parse_fixed, parse_record,
}

handle_option_status :
    (nsid_len optcode optlen : ℕ) (b : Buffer) (e : Record)
    → Ensures (λ r. r.0.status ≡ e.status) (handle_option nsid_len optcode optlen b e)
unfolding handle_option
handle_option_status nsid_len optcode optlen b e =
    Ensures-bind (λ a. Unit) (λ r. r.0.status ≡ e.status) (skip b optlen) _
      (anything (skip b optlen))
      λ c _. elim (Bool-cases (optcode == nsid_code && ltb 0 nsid_len)) [
        | inl f ↦ rw f refl
        | inr f ↦ rw f refl
      ]

parse_options_status :
    (fuel nsid_len opt_rdlen : ℕ) (e : Record) (b : Buffer)
    → Ensures (λ r. r.1.status ≡ e.status) (parse_options fuel nsid_len opt_rdlen e b)
unfolding parse_options
parse_options_status zero nsid_len opt_rdlen e b = tt
parse_options_status (suc fuel) nsid_len opt_rdlen e b = elim (Bool-cases (ltb opt_rdlen 4)) [
  | inl f ↦ rw (Ensures, f) refl
  | inr f ↦
      rw (Ensures, f)
        (Ensures-bind (λ a. Unit) Q (read_u16 b) _ (anything (read_u16 b))
          λ (optcode, c) _.
            Ensures-bind (λ a. Unit) Q (read_u16 c) _ (anything (read_u16 c))
              λ (optlen, d) _. elim (Bool-cases (ltb opt_rdlen (4 + optlen))) [
                | inl g ↦ rw (Ensures, g) refl
                | inr g ↦
                    rw (Ensures, g)
                      (Ensures-bind (λ r. r.0.status ≡ e.status) Q
                        (handle_option nsid_len optcode optlen d e) _
                        (handle_option_status nsid_len optcode optlen d e)
                        λ (e', h) s.
                          again e' h s (opt_rdlen - (4 + optlen))
                            (parse_options_status fuel nsid_len (opt_rdlen - (4 + optlen)) e' h))
              ])
]
  where
    Q : Bool × Record × Buffer → Type 0
    Q r = r.1.status ≡ e.status

    again :
        (e' : Record) (h : Buffer)
        → e'.status ≡ e.status
        → (left : ℕ) → Ensures (λ r. r.1.status ≡ e'.status) (parse_options fuel nsid_len left e' h)
        → Ensures Q (parse_options fuel nsid_len left e' h)
    again e' h s left h' =
        Ensures-map (λ r. r.1.status ≡ e'.status) Q (parse_options fuel nsid_len left e' h)
          (λ r k. k ∙ s) h'

-- When the record is not taken, the status is as it was.
abbrev pub NotTaken : Record → Bool × Record × Buffer → Type 0
NotTaken e (taken, e', c) = taken ≡ false → e'.status ≡ e.status

parse_rdata-NotTaken :
    (nsid_len class flags len : ℕ) (e : Record) (b : Buffer)
    → Ensures (NotTaken e) (parse_rdata nsid_len class flags len e b)
unfolding parse_rdata
parse_rdata-NotTaken nsid_len class flags len e b =
    Ensures-bind (λ a. Unit) (NotTaken e) (available b len) _ (anything (available b len))
      λ room _. elim (Bool-cases (not room && ltb 0 len)) [
        | inl f ↦ rw (Ensures, f) (λ _. refl)
        | inr f ↦
            rw (Ensures, f)
              (Ensures-bind (λ r. r.1.status ≡ e.status) (NotTaken e)
                (parse_options (len + 1) nsid_len len e b) _
                (parse_options_status (len + 1) nsid_len len e b)
                λ (whole, e', c) s. elim (Bool-cases (not whole)) [
                  | inl g ↦ rw (Ensures, g) (λ _. s)
                  | inr g ↦ rw (Ensures, g) (λ k. cc k)
                ])
      ]

parse_fixed-NotTaken :
    (nsid_len : ℕ) (e : Record) (b : Buffer) → Ensures (NotTaken e) (parse_fixed nsid_len e b)
unfolding parse_fixed
parse_fixed-NotTaken nsid_len e b =
    Ensures-bind (λ a. Unit) (NotTaken e) (read_u16 b) _ (anything (read_u16 b))
      λ (class, b1) _.
        Ensures-bind (λ a. Unit) (NotTaken e) (read_u8 b1) _ (anything (read_u8 b1))
          λ (rcode, b2) _.
            Ensures-bind (λ a. Unit) (NotTaken e) (read_u8 b2) _ (anything (read_u8 b2))
              λ (version, b3) _.
                Ensures-bind (λ a. Unit) (NotTaken e) (read_u16 b3) _ (anything (read_u16 b3))
                  λ (flags, b4) _.
                    Ensures-bind (λ a. Unit) (NotTaken e) (read_u16 b4) _ (anything (read_u16 b4))
                      λ (len, b5) _. elim (Bool-cases (not (version == 0))) [
                        | inl g ↦ rw (Ensures, g) (λ k. cc k)
                        | inr g ↦
                            rw (Ensures, g) (parse_rdata-NotTaken nsid_len class flags len e b5)
                      ]

-- If `edns_parse_record` returns 0, the status of the record is as it was.
pub parse_record-NotTaken :
    (nsid_len : ℕ) (e : Record) (b : Buffer) → Ensures (NotTaken e) (parse_record nsid_len e b)
unfolding parse_record
parse_record-NotTaken nsid_len e b =
    let start = record e { position = b.position } in
    Ensures-bind (λ a. Unit) (NotTaken e) (available b (opt_len + opt_rdata)) _
      (anything (available b (opt_len + opt_rdata)))
      λ room _. elim (Bool-cases (not room)) [
        | inl f ↦ rw (Ensures, f) (λ _. refl)
        | inr f ↦
            rw (Ensures, f)
              (Ensures-bind (λ a. Unit) (NotTaken e) (read_u8 b) _ (anything (read_u8 b))
                λ (owner, b1) _.
                  Ensures-bind (λ a. Unit) (NotTaken e) (read_u16 b1) _ (anything (read_u16 b1))
                    λ (kind, b2) _. elim (Bool-cases (not (owner == 0) || not (kind == type_opt))) [
                      | inl g ↦
                          rw (Ensures, g)
                            (Ensures-bind (λ a. Unit) (NotTaken e) (set_position b2 b.position) _
                              (anything (set_position b2 b.position)) λ b3 _ _. refl)
                      | inr g ↦ rw (Ensures, g) (parse_fixed-NotTaken nsid_len start b2)
                    ])
      ]
