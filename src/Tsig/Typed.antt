-- ===== src/Tsig/Typed.antt =====
-- Where `tsig_parse_rr` leaves TSIG_OK, a record with the type, class and ttl of a TSIG stands.
use nsd_old.Base.{
  ◌+◌, ◌≡◌, ◌≢◌, refl, ap, ◌∙◌, Bool, true, not, ◌||◌, Option, none, some, ◌==◌, arith, Outcome,
  done, Ensures, Ensures-run, Ensures-bind, Ensures-map, Bool-cases, inl, inr,
}
use nsd_old.Buffer.{Buffer, available, read_u16, read_u32, read_uint16, read_uint32, set_position}
use nsd_old.Dname.Name.{Name}
use nsd_old.Dname.Make.{dname_make_from_packet}
use nsd_old.Dname.Onward.{anything}
use nsd_old.Tsig.{
  Tsig, TsigStatus, type_tsig, class_any, rcode_format, refuse, parse_algorithm, parse_fixed,
  with_key, tsig_parse_rr,
}

-- At the position of `b` behind an owner name: the type, the class and the ttl of a TSIG record
abbrev pub TypedHere : Buffer → Type 0
TypedHere b =
    (read_uint16 b.bytes b.position ≡ type_tsig)
    × (read_uint16 b.bytes (b.position + 2) ≡ class_any)
    × (read_uint32 b.bytes (b.position + 2 + 2) ≡ 0)

-- At the position of `b`, an owner name that can be read, and type, class and ttl behind it
abbrev pub Typed : Buffer → Type 0
Typed b =
    (n : Name) × (c : Buffer) × (dname_make_from_packet b true true ≡ done (some n, c))
    × TypedHere c

-- The record is read only under `X`.
abbrev OnlyIf : Type 0 → Bool × Tsig × Buffer → Type 0
OnlyIf X (good, t, c) = t.status ≡ TsigStatus.tsig_ok → X

already : (X : Type 0) (m : Outcome (Bool × Tsig × Buffer)) → X → Ensures (OnlyIf X) m
already X m x = Ensures-map (λ r. Unit) (OnlyIf X) m (λ r _ _. x) (anything m)

refuse-OnlyIf :
    (X : Type 0) (t : Tsig) (b : Buffer)
    → t.status ≢ TsigStatus.tsig_ok
    → Ensures (OnlyIf X) (refuse t b)
unfolding refuse
refuse-OnlyIf X t b u =
    Ensures-bind (λ a. Unit) (OnlyIf X) (set_position b t.position) _
      (anything (set_position b t.position)) λ c _ e. absurd (u e)

read_u16_value :
    (b : Buffer)
    → Ensures
        (λ r.
          (r.0 ≡ read_uint16 b.bytes b.position)
          × (r.1.bytes ≡ b.bytes)
          × (r.1.position ≡ b.position + 2))
        (read_u16 b)
unfolding read_u16
read_u16_value b = ground arith

read_u32_value : (b : Buffer) → Ensures (λ r. r.0 ≡ read_uint32 b.bytes b.position) (read_u32 b)
unfolding read_u32
read_u32_value b = ground arith

parse_algorithm-OnlyIf :
    (X : Type 0) (t : Tsig) (b : Buffer)
    → (read_uint32 b.bytes b.position ≡ 0 → X)
    → Ensures (OnlyIf X) (parse_algorithm t b)
unfolding parse_algorithm
parse_algorithm-OnlyIf X t b k =
    Ensures-bind (λ r. r.0 ≡ read_uint32 b.bytes b.position) (OnlyIf X) (read_u32 b) _
      (read_u32_value b)
      λ (ttl, c) e.
        Ensures-bind (λ a. Unit) (OnlyIf X) (read_u16 c) _ (anything (read_u16 c))
          λ (rdlen, d) _.
            let read = record t { status = TsigStatus.tsig_error; error_code = rcode_format } in
            Ensures-bind (λ a. Unit) (OnlyIf X) (available d rdlen) _ (anything (available d rdlen))
              λ room _. elim (Bool-cases (not (ttl == 0) || not room)) [
                | inl f ↦ rw (Ensures, f) (refuse-OnlyIf X read d (λ x. cc x))
                | inr f ↦
                    let zero_ttl : ttl ≡ 0 = ground (arith, f) in
                    rw (Ensures, f) (already X _ (k (cc (e, zero_ttl))))
              ]

parse_fixed-OnlyIf :
    (X : Type 0) (t : Tsig) (b : Buffer)
    → t.status ≢ TsigStatus.tsig_ok
    → (TypedHere b → X)
    → Ensures (OnlyIf X) (parse_fixed t b)
unfolding parse_fixed
parse_fixed-OnlyIf X t b u k =
    Ensures-bind (λ a. Unit) (OnlyIf X) (available b 10) _ (anything (available b 10))
      λ room _. elim (Bool-cases (not room)) [
        | inl e ↦ rw (Ensures, e) (refuse-OnlyIf X t b u)
        | inr e ↦
            rw (Ensures, e)
              (Ensures-bind _ (OnlyIf X) (read_u16 b) _ (read_u16_value b)
                λ (type_, c) (et, cb, cp).
                  Ensures-bind _ (OnlyIf X) (read_u16 c) _ (read_u16_value c)
                    λ (klass, d) (ek, db, dp).
                      elim (Bool-cases (not (type_ == type_tsig) || not (klass == class_any))) [
                        | inl f ↦
                            rw (Ensures, f)
                              (Ensures-bind (λ g. Unit) (OnlyIf X) (set_position d t.position) _
                                (anything (set_position d t.position)) λ g _ x. absurd (u x))
                        | inr f ↦
                            let types : (type_ ≡ type_tsig) × (klass ≡ class_any) =
                              ground (arith, f) in
                            let second : read_uint16 c.bytes c.position
                                ≡ read_uint16 b.bytes (b.position + 2) =
                              cc (cb, cp) in
                            let third : read_uint32 d.bytes d.position
                                ≡ read_uint32 b.bytes (b.position + 2 + 2) =
                              cc (cb, cp, db, dp) in
                            rw (Ensures, f)
                              (parse_algorithm-OnlyIf X t d
                                λ z. k (cc (et, types.0), cc (ek, second, types.1), cc (third, z)))
                      ])
      ]

with_key-OnlyIf :
    (X : Type 0) (t : Tsig) (n : Option Name) (c : Buffer)
    → t.status ≢ TsigStatus.tsig_ok
    → ((m : Name) → n ≡ some m → TypedHere c → X)
    → Ensures (OnlyIf X) (with_key (record t { key_name = n }) c)
with_key-OnlyIf X t none c u k = refuse-OnlyIf X (record t { key_name = none }) c u
with_key-OnlyIf X t (some n) c u k =
    parse_fixed-OnlyIf X (record t { key_name = some n }) c u (k n refl)

-- Where `tsig_parse_rr` leaves the status TSIG_OK, at the position of the packet there is an owner name
-- that can be read, and behind it the type TSIG, the class ANY and the ttl 0.
pub tsig_parse_rr-Typed :
    (t : Tsig) (b : Buffer)
    → Ensures (λ r. r.1.status ≡ TsigStatus.tsig_ok → Typed b) (tsig_parse_rr t b)
unfolding tsig_parse_rr
tsig_parse_rr-Typed t b =
    Ensures-bind (λ r. dname_make_from_packet b true true ≡ done r) (OnlyIf (Typed b))
      (dname_make_from_packet b true true) _ (Ensures-run (dname_make_from_packet b true true))
      λ (n, c) e.
        with_key-OnlyIf (Typed b)
          (record t {
            status = TsigStatus.tsig_not_present;
            position = b.position;
            key_name = none;
            algorithm_name = none;
            mac_data = none;
            other_data = none;
          })
          n c (λ x. cc x) λ m s h. (m, c, e ∙ ap (λ o. done (o, c)) s, h)
