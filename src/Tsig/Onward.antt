-- ===== src/Tsig/Onward.antt =====
-- What `tsig_parse_rr` keeps of the record, and that the packet does not move back.
use nsd_old.Base.{
  ℕ, ◌+◌, ◌≤◌, ◌<◌, ◌^◌, ◌≡◌, refl, ◌∙◌, Bool, true, not, ◌||◌, Option, none, some, ltb, ◌==◌,
  arith, Ensures, Ensures-bind, Ensures-map, Bool-cases, inl, inr,
}
use nsd_old.Buffer.{
  Buffer, available, read_u16, read_u32, read_at, skip, set_position, fetch, available_at,
}
use nsd_old.Dname.Name.{Name}
use nsd_old.Dname.Make.{dname_make_from_packet}
use nsd_old.Dname.Onward.{
  anything, skip_ends, set_position_ends, MadePast, dname_make_from_packet-MadePast,
}
use nsd_old.Tsig.{
  Tsig, TsigStatus, type_tsig, class_any, rcode_format, refuse, parse_other, parse_mac,
  with_algorithm, parse_algorithm, parse_fixed, with_key, tsig_parse_rr,
}

-- `c` is a packet of the limit `limit` with the position at `floor` or behind it.
abbrev Further : ℕ → ℕ → Buffer → Type 0
Further floor limit c = (c.limit ≡ limit) × (floor ≤ c.position)

-- The record has the position `floor`, and key and algorithm as they were in `old`.
abbrev pub Kept : ℕ → Tsig → Tsig → Type 0
Kept floor old t = (t.position ≡ floor) × (t.algorithm ≡ old.algorithm) × (t.key ≡ old.key)

-- The record is kept so, and when the parser returns 1 the packet is at `floor` or behind it.
abbrev pub Onward : ℕ → Tsig → Bool × Tsig × Buffer → Type 0
Onward floor old (good, t, c) = Kept floor old t × (good ≡ true → floor ≤ c.position)

module _ (floor limit : ℕ) (b : Buffer) (k : Further floor limit b) where
  read_u16-Further : Ensures (λ r. Further floor limit r.1) (read_u16 b)
  unfolding read_u16
  read_u16-Further = ground (arith, k)

  read_u32-Further : Ensures (λ r. Further floor limit r.1) (read_u32 b)
  unfolding read_u32
  read_u32-Further = ground (arith, k)

  skip-Further : (n : ℕ) → b.position + n < 2 ^ 64 → Ensures (Further floor limit) (skip b n)
  skip-Further n h =
      Ensures-map (λ c. (c.limit ≡ b.limit) × (c.position ≡ b.position + n)) (Further floor limit)
        (skip b n) (λ c (l, e). (l ∙ k.0, omega (arith, e, k.1))) (skip_ends b n h)

read_at_ends : (b : Buffer) (at n : ℕ) → Ensures (λ d. at + n ≤ b.limit) (read_at b at n)
unfolding read_at fetch available_at
read_at_ends b at n = ground arith

refuse-Onward :
    (floor : ℕ) (old t : Tsig) (b : Buffer)
    → Kept floor old t
    → Ensures (Onward floor old) (refuse t b)
unfolding refuse
refuse-Onward floor old t b o =
    Ensures-bind (λ a. Unit) (Onward floor old) (set_position b t.position) _
      (anything (set_position b t.position)) λ c _. (o, λ e. cc e)

-- The parts of the parser, from the last to the first
module _ (floor limit : ℕ) (old : Tsig) (small : limit < 2 ^ 62) where
  parse_other-Onward :
      (t : Tsig) (b : Buffer)
      → Kept floor old t
      → Further floor limit b
      → Ensures (Onward floor old) (parse_other t b)
  unfolding parse_other
  parse_other-Onward t b o k =
      Ensures-bind (λ a. Unit) (Onward floor old) (available b 6) _ (anything (available b 6))
        λ room _. elim (Bool-cases (not room)) [
          | inl e ↦ rw (Ensures, e) (refuse-Onward floor old t b o)
          | inr e ↦
              rw (Ensures, e)
                (Ensures-bind (λ r. Further floor limit r.1) (Onward floor old) (read_u16 b) _
                  (read_u16-Further floor limit b k)
                  λ (i, c) kc.
                    Ensures-bind (λ r. Further floor limit r.1) (Onward floor old) (read_u16 c) _
                      (read_u16-Further floor limit c kc)
                      λ (x, d) kd.
                        Ensures-bind (λ r. Further floor limit r.1) (Onward floor old) (read_u16 d)
                          _ (read_u16-Further floor limit d kd)
                          λ (size, g) kg.
                            Ensures-bind (λ a. Unit) (Onward floor old) (available g size) _
                              (anything (available g size))
                              λ whole _. elim (Bool-cases (not whole || ltb 16 size)) [
                                | inl f ↦
                                    rw (Ensures, f)
                                      (refuse-Onward floor old
                                        (record t {
                                          original_query_id = i;
                                          error_code = x;
                                          other_size = 0;
                                        })
                                        g o)
                                | inr f ↦
                                    rw (Ensures, f)
                                      (Ensures-bind (λ a. g.position + size ≤ g.limit)
                                        (Onward floor old) (read_at g g.position size) _
                                        (read_at_ends g g.position size)
                                        λ other s.
                                          Ensures-bind (Further floor limit) (Onward floor old)
                                            (skip g size) _
                                            (skip-Further floor limit g kg size
                                              (omega (arith, s, kg, small)))
                                            λ h kh. (o, λ _. kh.1))
                              ])
        ]

  parse_mac-Onward :
      (t : Tsig) (b : Buffer)
      → Kept floor old t
      → Further floor limit b
      → Ensures (Onward floor old) (parse_mac t b)
  unfolding parse_mac
  parse_mac-Onward t b o k =
      Ensures-bind (λ a. Unit) (Onward floor old) (available b 10) _ (anything (available b 10))
        λ room _. elim (Bool-cases (not room)) [
          | inl e ↦ rw (Ensures, e) (refuse-Onward floor old t b o)
          | inr e ↦
              rw (Ensures, e)
                (Ensures-bind (λ r. Further floor limit r.1) (Onward floor old) (read_u16 b) _
                  (read_u16-Further floor limit b k)
                  λ (high, c) kc.
                    Ensures-bind (λ r. Further floor limit r.1) (Onward floor old) (read_u32 c) _
                      (read_u32-Further floor limit c kc)
                      λ (low, d) kd.
                        Ensures-bind (λ r. Further floor limit r.1) (Onward floor old) (read_u16 d)
                          _ (read_u16-Further floor limit d kd)
                          λ (fudge, e) ke.
                            Ensures-bind (λ r. Further floor limit r.1) (Onward floor old)
                              (read_u16 e) _ (read_u16-Further floor limit e ke)
                              λ (size, g) kg.
                                let read = record t {
                                  signed_time_high = high;
                                  signed_time_low = low;
                                  signed_time_fudge = fudge;
                                  mac_size = size;
                                } in
                                Ensures-bind (λ a. Unit) (Onward floor old) (available g size) _
                                  (anything (available g size))
                                  λ whole _. elim (Bool-cases (not whole)) [
                                    | inl f ↦
                                        rw (Ensures, f)
                                          (refuse-Onward floor old (record read { mac_size = 0 }) g
                                            o)
                                    | inr f ↦
                                        rw (Ensures, f)
                                          (Ensures-bind (λ a. g.position + size ≤ g.limit)
                                            (Onward floor old) (read_at g g.position size) _
                                            (read_at_ends g g.position size)
                                            λ mac s.
                                              Ensures-bind (Further floor limit) (Onward floor old)
                                                (skip g size) _
                                                (skip-Further floor limit g kg size
                                                  (omega (arith, s, kg, small)))
                                                λ h kh.
                                                  parse_other-Onward
                                                    (record read { mac_data = some mac }) h o kh)
                                  ])
        ]

  with_algorithm-Onward :
      (t : Tsig) (a : Option Name) (b : Buffer) (c : Buffer)
      → Kept floor old t
      → Further floor limit b
      → MadePast b (a, c)
      → Ensures (Onward floor old) (with_algorithm (record t { algorithm_name = a }) c)
  with_algorithm-Onward t none b c o k m =
      refuse-Onward floor old (record t { algorithm_name = none }) c o
  with_algorithm-Onward t (some a) b c o k (l, m) =
      parse_mac-Onward (record t { algorithm_name = some a }) c o (l ∙ k.0, omega (arith, m, k.1))

  parse_algorithm-Onward :
      (t : Tsig) (b : Buffer)
      → Kept floor old t
      → Further floor limit b
      → Ensures (Onward floor old) (parse_algorithm t b)
  unfolding parse_algorithm
  parse_algorithm-Onward t b o k =
      Ensures-bind (λ r. Further floor limit r.1) (Onward floor old) (read_u32 b) _
        (read_u32-Further floor limit b k)
        λ (ttl, c) kc.
          Ensures-bind (λ r. Further floor limit r.1) (Onward floor old) (read_u16 c) _
            (read_u16-Further floor limit c kc)
            λ (rdlen, d) kd.
              let read = record t { status = TsigStatus.tsig_error; error_code = rcode_format } in
              Ensures-bind (λ a. Unit) (Onward floor old) (available d rdlen) _
                (anything (available d rdlen))
                λ room _. elim (Bool-cases (not (ttl == 0) || not room)) [
                  | inl f ↦ rw (Ensures, f) (refuse-Onward floor old read d o)
                  | inr f ↦
                      rw (Ensures, f)
                        (Ensures-bind (MadePast d) (Onward floor old)
                          (dname_make_from_packet d true true) _
                          (dname_make_from_packet-MadePast d true true (omega (arith, kd, small)))
                          λ (a, g) m. with_algorithm-Onward read a d g o kd m)
                ]

  parse_fixed-Onward :
      (t : Tsig) (b : Buffer)
      → Kept floor old t
      → Further floor limit b
      → Ensures (Onward floor old) (parse_fixed t b)
  unfolding parse_fixed
  parse_fixed-Onward t b o k =
      Ensures-bind (λ a. Unit) (Onward floor old) (available b 10) _ (anything (available b 10))
        λ room _. elim (Bool-cases (not room)) [
          | inl e ↦ rw (Ensures, e) (refuse-Onward floor old t b o)
          | inr e ↦
              rw (Ensures, e)
                (Ensures-bind (λ r. Further floor limit r.1) (Onward floor old) (read_u16 b) _
                  (read_u16-Further floor limit b k)
                  λ (type_, c) kc.
                    Ensures-bind (λ r. Further floor limit r.1) (Onward floor old) (read_u16 c) _
                      (read_u16-Further floor limit c kc)
                      λ (klass, d) kd.
                        elim (Bool-cases (not (type_ == type_tsig) || not (klass == class_any))) [
                          | inr f ↦ rw (Ensures, f) (parse_algorithm-Onward t d o kd)
                          | inl f ↦
                              rw (Ensures, f)
                                (Ensures-bind (λ g. (g.limit ≡ d.limit) × (g.position ≡ t.position))
                                  (Onward floor old) (set_position d t.position) _
                                  (set_position_ends d t.position)
                                  λ g (l, e2). (o, λ _. omega (arith, e2, o.0)))
                        ])
        ]

  with_key-Onward :
      (t : Tsig) (n : Option Name) (b : Buffer) (c : Buffer)
      → Kept floor old t
      → Further floor limit b
      → MadePast b (n, c)
      → Ensures (Onward floor old) (with_key (record t { key_name = n }) c)
  with_key-Onward t none b c o k m = refuse-Onward floor old (record t { key_name = none }) c o
  with_key-Onward t (some n) b c o k (l, m) =
      parse_fixed-Onward (record t { key_name = some n }) c o (l ∙ k.0, omega (arith, m, k.1))

-- If `tsig_parse_rr` returns, the record has the position of the packet, and key and algorithm as they
-- were; if it returns 1, the position of the packet is where it was or behind that.
pub tsig_parse_rr-Onward :
    (t : Tsig) (b : Buffer) → b.limit < 2 ^ 62 → Ensures (Onward b.position t) (tsig_parse_rr t b)
unfolding tsig_parse_rr
tsig_parse_rr-Onward t b small =
    Ensures-bind (MadePast b) (Onward b.position t) (dname_make_from_packet b true true) _
      (dname_make_from_packet-MadePast b true true small)
      λ (n, c) m.
        with_key-Onward b.position b.limit t small
          (record t {
            status = TsigStatus.tsig_not_present;
            position = b.position;
            key_name = none;
            algorithm_name = none;
            mac_data = none;
            other_data = none;
          })
          n b c (refl, refl, refl) (refl, omega arith) m
