-- ===== src/Tsig/Find.antt =====
-- `tsig_find_rr` looks for the TSIG record and leaves the packet as it was.
use nsd_old.Base.{
  ℕ, zero, suc, ◌+◌, ◌-◌, ◌≤◌, ◌≡◌, refl, ◌∙◌, Bool, true, false, Bool-cases, inl, inr, arith, ltb,
  ◌==◌, done, ◌>>=◌, Returns, Returns-bind, Returns-map,
}
use nsd_old.Buffer.{Buffer, read_uint16, set_position}
use nsd_old.Buffer.Valid.{IsValid, at-IsValid}
use nsd_old.Buffer.Access.{read_u16_at_lem, set_position_lem}
use nsd_old.Packet.{header_size, qdcount, ancount, nscount, arcount, skip_rr}
use nsd_old.Packet.Skip.{Forward, Forward-trans, skip_rr-Forward}
use nsd_old.Dname.{max_packet_size}
use nsd_old.Dname.Steps.{Same}
use nsd_old.Tsig.{TsigStatus, Tsig, tsig_parse_rr, skip_records, tsig_find_rr}
use nsd_old.Tsig.Parse.{Signed, Parsed, tsig_parse_rr-Parsed}

skip_records-Forward :
    (rounds i : ℕ) {b : Buffer}
    → IsValid b
    → header_size ≤ b.limit
    → Returns (λ r. Forward b r.1) (skip_records rounds i b)
unfolding skip_records qdcount
skip_records-Forward zero i v h = ground arith
skip_records-Forward (suc rounds) i {b} v h = rw (read_u16_at_lem v 4 (omega (arith, h))) (
    Returns-bind (λ r. Forward b r.1) (skip_rr b (ltb i (read_uint16 b.bytes 4))) _
      (skip_rr-Forward _ v)
      λ (good, c) f. elim (Bool-cases good) [
        | inl e ↦ rw e (
            further f
              (skip_records-Forward rounds (i + 1) f.valid (omega (arith, h, f.same_limit))))
        | inr e ↦ rw e f
      ])
  where
    further :
        {c : Buffer}
        → Forward b c
        → Returns (λ r. Forward c r.1) (skip_records rounds (i + 1) c)
        → Returns (λ r. Forward b r.1) (skip_records rounds (i + 1) c)
    further {c} f k =
        Returns-map (λ r. Forward b r.1) (skip_records rounds (i + 1) c) (λ r g. Forward-trans f g)
          k

-- What `tsig_find_rr` leaves of the packet `b`: everything as it was, the position too.
pub record Found (b : Buffer) (r : Bool × Tsig × Buffer) : Type 0 where
  pub same : Same b r.2
  pub position_back : r.2.position ≡ b.position
  pub signed :
      r.0 ≡ true
      → r.1.status ≡ TsigStatus.tsig_ok
      → (at : ℕ) × Signed (record b { position = at }) r.1

-- Behind the records before the last, with `c` the packet there, and the position put back.
module _ {b c : Buffer} (t : Tsig) (v : IsValid b) (s : Same b c) where
  give_up-Found : Returns (Found b) (set_position c b.position >>= λ d. done (false, t, d))
  give_up-Found =
      rw (set_position_lem s.valid b.position (omega (arith, s.same_limit, v.within))) (record {
        same = record {
          valid = at-IsValid b.position s.valid (omega (arith, s.same_limit, v.within));
          same_bytes = s.same_bytes;
          same_limit = s.same_limit;
        };
        position_back = refl;
        signed = λ q. cc q;
      })

  put_back-Found :
      {r : Bool × Tsig × Buffer}
      → Parsed c r
      → Returns (Found b) (set_position r.2 b.position >>= λ d. done (r.0, r.1, d))
  put_back-Found {r} k =
      let inside : b.position ≤ r.2.limit =
        omega (arith, k.same.same_limit, s.same_limit, v.within) in
      rw (set_position_lem k.same.valid b.position inside) (record {
        same = record {
          valid = at-IsValid b.position k.same.valid inside;
          same_bytes = k.same.same_bytes ∙ s.same_bytes;
          same_limit = k.same.same_limit ∙ s.same_limit;
        };
        position_back = refl;
        signed = λ q o. (c.position, rw (← s.same_bytes, ← s.same_limit) (k.signed o).1);
      })

  parse-Found :
      b.limit ≤ max_packet_size
      → Returns
          (Found b)
          (tsig_parse_rr t c >>= λ r. set_position r.2 b.position >>= λ d. done (r.0, r.1, d))
  parse-Found small =
      Returns-bind (Found b) (tsig_parse_rr t c) _
        (tsig_parse_rr-Parsed t s.valid (omega (arith, small, s.same_limit)))
        λ r k. put_back-Found k

-- On a valid packet of at most MAX_PACKET_SIZE octets that holds a whole header `tsig_find_rr` returns,
-- whatever the counts of the header are, and leaves the octets, the limit and the position as they
-- were. If it returns 1 and leaves the status TSIG_OK, the record was read from some offset of the
-- packet.
pub tsig_find_rr-Found :
    {b : Buffer} (t : Tsig)
    → IsValid b
    → header_size ≤ b.limit
    → b.limit ≤ max_packet_size
    → Returns (Found b) (tsig_find_rr t b)
unfolding tsig_find_rr qdcount ancount nscount arcount
tsig_find_rr-Found {b} t v h small =
    rw
      (
        read_u16_at_lem v 4 (omega (arith, h)),
        read_u16_at_lem v 6 (omega (arith, h)),
        read_u16_at_lem v 8 (omega (arith, h)),
        read_u16_at_lem v 10 (omega (arith, h)),
        set_position_lem v 12 h,
      )
      (elim (Bool-cases (read_uint16 b.bytes 10 == 0)) [
        | inl e ↦ rw e (record {
          same = record { valid = v; same_bytes = refl; same_limit = refl };
          position_back = refl;
          signed = λ q o. cc o;
        })
        | inr e ↦ rw e (
            Returns-bind (Found b) (skip_records count 0 start) _
              (skip_records-Forward count 0 (at-IsValid 12 v h) h)
              λ (skipped, c) f.
                let s : Same b c = record {
                  valid = f.valid;
                  same_bytes = f.same_bytes;
                  same_limit = f.same_limit;
                } in
                elim (Bool-cases skipped) [
                  | inl k ↦ rw k (parse-Found t v s small)
                  | inr k ↦ rw k (give_up-Found t v s)
                ])
      ])
  where
    start : Buffer
    start = record b { position = 12 }

    count : ℕ
    count =
        read_uint16 b.bytes 4
        + read_uint16 b.bytes 6
        + read_uint16 b.bytes 8
        + read_uint16 b.bytes 10
        - 1
