-- ===== src/Packet/Query.antt =====
-- `packet_read_query_section`: it ends, reads only inside the packet, and never writes more than
-- MAXDOMAINLEN octets of name.
use nsd_old.Base.{
  ℕ, zero, suc, ◌+◌, ◌-◌, ◌≤◌, ◌<◌, ◌≡◌, refl, true, List, [], ◌∷◌, ◌++◌, Option, none, some, arith,
  length, ap, ◌∙◌, length-append, take_one-drop, length-take, length-drop, take-append-take-drop,
  drop-add, take, drop, get_or, Bool-cases, ltb, lt→ltb, ◌||◌, inl, inr, Returns, Returns-bind,
}
use nsd_old.Buffer.{Buffer, read_uint16}
use nsd_old.Buffer.Valid.{IsValid, moved-IsValid, at-IsValid}
use nsd_old.Buffer.Access.{read_u16_lem, set_position_lem}
use nsd_old.Packet.{Question, peek, question_end, copy_labels, read_query_section, max_domain_len}

-- Between the labels of a name: `src` is inside the packet, and what was passed is what was copied.
pub record Between (b : Buffer) (start src : ℕ) (dst : List ℕ) : Type 0 where
  pub inside : src < b.limit
  pub passed : start ≤ src
  pub short : src + 1 ≤ start + max_domain_len
  pub copied : dst ≡ take (src - start) (drop start b.bytes)

-- One more label, or the root label, behind what was copied.
copied-more :
    (xs : List ℕ) (start src n : ℕ) (dst : List ℕ)
    → start ≤ src
    → dst ≡ take (src - start) (drop start xs)
    → dst ++ take n (drop src xs) ≡ take (src + n - start) (drop start xs)
copied-more xs start src n dst h e =
    let p : src ≡ start + (src - start) = omega arith in
    let q : src + n - start ≡ src - start + n = omega arith in
    rw (e, q)
      (rw (← take-append-take-drop (src - start) n (drop start xs)) (
        ap (λ l. take (src - start) (drop start xs) ++ take n l)
          (ap (λ k. drop k xs) p ∙ drop-add start (src - start) xs)))

pub copy_labels-Between :
    (fuel : ℕ) {b : Buffer} (start src : ℕ) (dst : List ℕ)
    → IsValid b
    → Between b start src dst
    → b.limit - src < fuel
    → Returns (λ r. Between b start r.1 r.2) (copy_labels fuel b start src dst)
unfolding copy_labels peek
copy_labels-Between zero start src dst v k f = absurd (omega arith)
copy_labels-Between (suc fuel) {b} start src dst v k f =
    let n = get_or b.bytes src 0 in
    ground (
      arith,
      copied-more b.bytes start src (n + 1) dst k.passed k.copied,
      copy_labels-Between fuel start (src + n + 1) (dst ++ take (n + 1) (drop src b.bytes)) v,
    )

-- What `packet_read_query_section` does to the packet when it answers with type and class, or not.
abbrev pub Consumed : Buffer → ℕ → Option (ℕ × ℕ) → Buffer → Type 0
Consumed b len none c = c ≡ b
Consumed b len (some (qtype, qclass)) c =
    (c.bytes ≡ b.bytes)
    × (c.limit ≡ b.limit)
    × (c.position ≡ b.position + len + 4)
    × (qtype ≡ read_uint16 b.bytes (b.position + len))
    × (qclass ≡ read_uint16 b.bytes (b.position + len + 2))

pub record QuestionRead (b : Buffer) (r : Question × Buffer) : Type 0 where
  pub valid : IsValid r.1
  pub dst_fits : length r.0.dst ≤ max_domain_len
  pub dst_octets : r.0.dst ≡ take (length r.0.dst) (drop b.position b.bytes)
  pub consumed : Consumed b (length r.0.dst) r.0.found r.1

length-chunk : (xs : List ℕ) (at n : ℕ) → at + n ≤ length xs → length (take n (drop at xs)) ≡ n
length-chunk xs at n h = omega (arith, length-take n (drop at xs), length-drop at xs)

-- Behind the labels: what was copied, with the root label and without.
module _ {b : Buffer} (v : IsValid b) {src : ℕ} {dst : List ℕ}
    (k : Between b b.position src dst) where
  length-copied : length dst ≡ src - b.position
  length-copied = rw k.copied (length-chunk b.bytes b.position (src - b.position) (omega arith))

  with_root :
      dst ++ (get_or b.bytes src 0 ∷ []) ≡ take (src + 1 - b.position) (drop b.position b.bytes)
  with_root =
      rw (← take_one-drop src b.bytes 0 (omega arith))
        (copied-more b.bytes b.position src 1 dst k.passed k.copied)

  length-with_root : length (dst ++ (get_or b.bytes src 0 ∷ [])) ≡ src + 1 - b.position
  length-with_root = omega (arith, length-append dst (get_or b.bytes src 0 ∷ []), length-copied)

  refused_early : QuestionRead b (record { dst = dst; found = none }, b)
  refused_early = record {
    valid = v;
    dst_fits = omega (arith, length-copied);
    dst_octets = rw length-copied k.copied;
    consumed = refl;
  }

  refused_late :
      QuestionRead b (record { dst = dst ++ (get_or b.bytes src 0 ∷ []); found = none }, b)
  refused_late = record {
    valid = v;
    dst_fits = omega (arith, length-with_root);
    dst_octets = rw length-with_root with_root;
    consumed = refl;
  }

  accepted :
      src + 5 ≤ b.limit
      → QuestionRead b (
        record {
          dst = dst ++ (get_or b.bytes src 0 ∷ []);
          found = some (read_uint16 b.bytes (src + 1), read_uint16 b.bytes (src + 1 + 2));
        },
        record b { position = src + 1 + 2 + 2 },
      )
  accepted h =
      let e : b.position + (src + 1 - b.position) ≡ src + 1 = omega arith in
      record {
        valid = omega arith;
        dst_fits = omega (arith, length-with_root);
        dst_octets = rw length-with_root with_root;
        consumed = (
          refl,
          refl,
          omega (arith, length-with_root),
          rw (length-with_root, e),
          rw (length-with_root, e),
        );
      }

  question_end-QuestionRead : Returns (QuestionRead b) (question_end b src dst)
  unfolding question_end peek
  question_end-QuestionRead =
      let inside : ltb src (length b.bytes) ≡ true = lt→ltb _ _ (omega arith) in
      elim (Bool-cases (ltb max_domain_len (src + 1 - b.position) || ltb b.limit (src + 1 + 4))) [
        | inl e ↦ rw (inside, e) refused_late
        | inr e ↦
            let w : IsValid (record b { position = src + 1 }) =
              at-IsValid (src + 1) v (omega arith) in
            let h : src + 5 ≤ b.limit = ground arith in
            rw
              (
                inside,
                e,
                set_position_lem v (src + 1) (omega arith),
                read_u16_lem w (omega arith),
                read_u16_lem (moved-IsValid 2 w (omega arith)) (omega arith),
              )
              (accepted h)
      ]

pub read_query_section-QuestionRead :
    {b : Buffer}
    → IsValid b
    → b.position < b.limit
    → Returns (QuestionRead b) (read_query_section b)
unfolding read_query_section
read_query_section-QuestionRead {b} v h =
    Returns-bind (QuestionRead b)
      (copy_labels (b.limit - b.position + 1) b b.position b.position []) _
      (copy_labels-Between (b.limit - b.position + 1) b.position b.position [] v start fuel)
      λ (root, src, dst) k. elim (Bool-cases root) [
        | inl e ↦ rw e (question_end-QuestionRead v k)
        | inr e ↦ rw e (refused_early v k)
      ]
  where
    start : Between b b.position b.position []
    start =
        let e : b.position - b.position ≡ 0 = omega arith in
        record { inside = h; passed = omega arith; short = omega arith; copied = rw e }

    fuel : b.limit - b.position < b.limit - b.position + 1
    fuel = omega arith
