-- ===== src/Query/Question.antt =====
-- `process_query_section`: the name of the question in memory is that of the packet.
use mathlib.Core.List.{append-nil}
use native.Mathlib.Decide.{dec_lt}
use nsd_old.Base.{
  ℕ, zero, suc, ◌+◌, ◌-◌, ◌≤◌, ◌<◌, ◌≡◌, ◌≢◌, refl, sym, ap, ◌∙◌, Bool, true, false, ◌||◌,
  Bool-cases, inl, inr, Option, none, some, List, [], ◌∷◌, ◌++◌, All, ltb, length, get_or, take,
  drop, arith, done, ◌>>=◌, Returns, Returns-bind, Returns-map, Returns-both,
}
use nsd_old.Buffer.{Buffer}
use nsd_old.Buffer.Valid.{IsValid, at-IsValid, moved-IsValid}
use nsd_old.Buffer.Access.{set_position_lem, read_u16_lem}
use nsd_old.Packet.{max_domain_len, peek, copy_labels, Question, question_end, read_query_section}
use nsd_old.Packet.Query.{
  Between, Consumed, copy_labels-Between, QuestionRead, read_query_section-QuestionRead,
}
use nsd_old.Dname.Steps.{Same}
use nsd_old.Dname.Name.{Name}
use nsd_old.Dname.Make.{dname_make}
use nsd_old.Dname.Make.Wire.{IsLabelText, wire}
use nsd_old.Dname.Make.Named.{IsMade, dname_make-IsMade}
use nsd_old.Query.{QueryType, process_query_section}
use nsd_old.Query.Copied.{Copied, peek_lem, copy_labels-Copied}

-- The labels that are the octets of the packet from `at` on.
abbrev pub Asked : Buffer → ℕ → List ℕ → Type 0
Asked b at dst =
    (ys : List (List ℕ)) × (dst ≡ wire ys)
    × All IsLabelText ys
    × (wire ys ≡ take (length (wire ys)) (drop at b.bytes))
    × (length (wire ys) ≤ max_domain_len)

-- What `packet_read_query_section` leaves, when it finds a question.
record Gives (b : Buffer) (r : Question × Buffer) : Type 0 where
  same : Same b r.1
  onward : b.position ≤ r.1.position
  asked : r.0.found ≢ none → Asked b b.position r.0.dst

module _ {b : Buffer} (v : IsValid b) (src : ℕ) (i : src < b.limit) (labels : List ℕ) where
  -- `question_end` takes the labels and the root label.
  end_octets :
      Returns (λ r. r.0.dst ≡ labels ++ (get_or b.bytes src 0 ∷ [])) (question_end b src labels)
  unfolding question_end
  end_octets =
      rw (peek_lem v src i)
        (elim (Bool-cases
          (ltb max_domain_len (src + 1 - b.position) || ltb b.limit (src + 1 + 4))) [
            | inl e ↦ rw (Returns, e) refl
            | inr e ↦
                let h : src + 5 ≤ b.limit = ground (arith, e) in
                let w : IsValid (record b { position = src + 1 }) =
                  at-IsValid (src + 1) v (omega (arith, h)) in
                rw
                  (
                    Returns,
                    e,
                    set_position_lem v (src + 1) (omega (arith, h)),
                    read_u16_lem w (omega (arith, h)),
                    read_u16_lem (moved-IsValid 2 w (omega (arith, h))) (omega (arith, h)),
                  )
                  refl
          ])

dst_labels :
    {b : Buffer}
    → IsValid b
    → b.position < b.limit
    → Returns
        (λ r. r.0.found ≢ none → (ys : List (List ℕ)) × (r.0.dst ≡ wire ys) × All IsLabelText ys)
        (read_query_section b)
unfolding read_query_section
dst_labels {b} v i =
    Returns-bind Q (copy_labels (b.limit - b.position + 1) b b.position b.position []) _ both
      λ (root, src, dst) (k, c). elim (Bool-cases root) [
        | inl e ↦
            rw (Returns, e)
              (let (ys, f, l) = c e in
                Returns-map Q (question_end b src dst) (λ r g u. (ys, g ∙ f, l))
                  (end_octets v src k dst))
        | inr e ↦ rw (Returns, e) (λ u. absurd (u refl))
      ]
  where
    Q : Question × Buffer → Type 0
    Q r = r.0.found ≢ none → (ys : List (List ℕ)) × (r.0.dst ≡ wire ys) × All IsLabelText ys

    start : Between b b.position b.position []
    start =
        let e : b.position - b.position ≡ 0 = omega arith in
        record { inside = i; passed = omega arith; short = omega arith; copied = rw e }

    both :
        Returns
          (λ r. (r.1 < b.limit) × Copied b r)
          (copy_labels (b.limit - b.position + 1) b b.position b.position [])
    both =
        Returns-both (λ r. r.1 < b.limit) (Copied b)
          (copy_labels (b.limit - b.position + 1) b b.position b.position [])
          (Returns-map (λ r. r.1 < b.limit)
            (copy_labels (b.limit - b.position + 1) b b.position b.position []) (λ r k. k.inside)
            (copy_labels-Between (b.limit - b.position + 1) b.position b.position [] v start
              (omega arith)))
          (copy_labels-Copied (b.limit - b.position + 1) b.position b.position [] [] v i refl tt
            (omega arith))

-- With an octet of question before the limit.
inside-Gives :
    {b : Buffer} → IsValid b → b.position < b.limit → Returns (Gives b) (read_query_section b)
inside-Gives {b} v i =
    Returns-map (Gives b) (read_query_section b)
      (λ (question, c) (k, labels). both question c k labels)
      (Returns-both (QuestionRead b)
        (λ r. r.0.found ≢ none → (ys : List (List ℕ)) × (r.0.dst ≡ wire ys) × All IsLabelText ys)
        (read_query_section b) (read_query_section-QuestionRead v i) (dst_labels v i))
  where
    same_packet :
        (found : Option (ℕ × ℕ)) (len : ℕ) (c : Buffer)
        → IsValid c
        → Consumed b len found c
        → Same b c
    same_packet none len c w e = record {
      valid = w;
      same_bytes = ap (λ d. d.bytes) e;
      same_limit = ap (λ d. d.limit) e;
    }
    same_packet (some (qtype, qclass)) len c w (eb, el, p, t, k) = record {
      valid = w;
      same_bytes = eb;
      same_limit = el;
    }

    onward :
        (found : Option (ℕ × ℕ)) (len : ℕ) (c : Buffer)
        → Consumed b len found c
        → b.position ≤ c.position
    onward none len c e = rw e (omega arith)
    onward (some (qtype, qclass)) len c (eb, el, p, t, k) = omega (arith, p)

    both :
        (question : Question) (c : Buffer)
        → QuestionRead b (question, c)
        → (question.found ≢ none
            → (ys : List (List ℕ)) × (question.dst ≡ wire ys) × All IsLabelText ys)
        → Gives b (question, c)
    both question c k labels = record {
      same = same_packet question.found (length question.dst) c k.valid k.consumed;
      onward = onward question.found (length question.dst) c k.consumed;
      asked =
          λ u. let (ys, e, l) = labels u in (ys, e, l, rw (← e) k.dst_octets, rw (← e) k.dst_fits);
    }

-- With no octet before the limit, one behind it is looked at, and there is no question.
module _ {b : Buffer} (v : IsValid b) (e : b.position ≡ b.limit) (h : b.position < b.capacity) where
  copy_nothing :
      Returns
        (λ r. r.1 ≡ b.position)
        (copy_labels (b.limit - b.position + 1) b b.position b.position [])
  unfolding copy_labels peek
  copy_nothing =
      let fuel : b.limit - b.position + 1 ≡ suc zero = omega (arith, e) in
      rw fuel (ground (arith, e, h, v.stored))

  end_nothing :
      (src : ℕ) (labels : List ℕ)
      → src ≡ b.position
      → Returns (λ r. (r.0.found ≡ none) × (r.1 ≡ b)) (question_end b src labels)
  unfolding question_end peek
  end_nothing src labels p = ground (arith, e, h, v.stored, p)

  none-Gives : (r : Question × Buffer) → (r.0.found ≡ none) × (r.1 ≡ b) → Gives b r
  none-Gives r (f, c) = record {
    same = rw c (record { valid = v; same_bytes = refl; same_limit = refl });
    onward = rw c (omega arith);
    asked = λ u. absurd (u f);
  }

  nothing-Gives : Returns (Gives b) (read_query_section b)
  unfolding read_query_section
  nothing-Gives =
      Returns-bind (Gives b) (copy_labels (b.limit - b.position + 1) b b.position b.position []) _
        copy_nothing
        λ (root, src, dst) p. elim (Bool-cases root) [
          | inl k ↦
              rw (Returns, k)
                (Returns-map (Gives b) (question_end b src dst) none-Gives (end_nothing src dst p))
          | inr k ↦
              rw (Returns, k) (none-Gives (record { dst = dst; found = none }, b) (refl, refl))
        ]

-- What `process_query_section` leaves of the query `q`.
pub record Questioned (q : QueryType) (r : Bool × QueryType) : Type 0 where
  pub same : Same q.packet r.1.packet
  pub onward : r.0 ≡ true → 12 ≤ r.1.packet.position
  pub same_edns : r.1.edns ≡ q.edns
  pub same_tsig : r.1.tsig ≡ q.tsig
  pub same_opcode : r.1.opcode ≡ q.opcode
  pub named :
      r.0 ≡ true
      → (n : Name) × (xs : List (List ℕ)) × (r.1.qname ≡ some n)
        × IsMade true xs n
        × (wire xs ≡ take (length (wire xs)) (drop 12 q.packet.bytes))

-- `process_query_section` of a valid packet with a whole header and room behind it returns, whatever
-- the octets are, with the octets and the limit as they were. If it finds a question, the name of the
-- query is made of the labels that stand, uncompressed, behind the header, in lower case.
pub process_query_section-Questioned :
    (q : QueryType)
    → IsValid q.packet
    → 12 ≤ q.packet.limit
    → 12 < q.packet.capacity
    → Returns (Questioned q) (process_query_section q)
unfolding process_query_section
process_query_section-Questioned q v h room = rw (set_position_lem v 12 h) (
    Returns-bind (Questioned q) (read_query_section start) _ start-Gives
      λ (question, c) k. named question.found question.dst c k)
  where
    start : Buffer
    start = record q.packet { position = 12 }

    start-Gives : Returns (Gives start) (read_query_section start)
    start-Gives = elim (dec_lt 12 q.packet.limit) [
      | yes i ↦ inside-Gives {b = start} (at-IsValid 12 v h) i
      | no i ↦ nothing-Gives {b = start} (at-IsValid 12 v h) (omega (arith, i, h)) room
    ]

    named :
        (found : Option (ℕ × ℕ)) (dst : List ℕ) (c : Buffer)
        → Gives start (record { dst = dst; found = found }, c)
        → Returns (Questioned q) (elim found [
          | none ↦ done (false, record q { packet = c })
          | some (qtype, qclass) ↦ dname_make dst true >>= λ qname.
              done (true, record q { packet = c; qtype = qtype; qclass = qclass; qname = qname })
        ])
    named none dst c k = record {
      same = record {
        valid = k.same.valid;
        same_bytes = k.same.same_bytes;
        same_limit = k.same.same_limit;
      };
      onward = λ u. k.onward;
      same_edns = refl;
      same_tsig = refl;
      same_opcode = refl;
      named = λ u. cc u;
    }
    named (some (qtype, qclass)) dst c k =
        let (ys, e, l, octets, short) = k.asked (λ u. cc u) in
        let (n, run, m) = dname_make-IsMade true ys [] l short in
        let run' : dname_make dst true ≡ done (some n) =
          ap (λ d. dname_make d true) (e ∙ sym (append-nil (wire ys))) ∙ run in
        rw run' (record {
          same = record {
            valid = k.same.valid;
            same_bytes = k.same.same_bytes;
            same_limit = k.same.same_limit;
          };
          onward = λ u. k.onward;
          same_edns = refl;
          same_tsig = refl;
          same_opcode = refl;
          named = λ u. (n, ys, refl, m, octets);
        })
