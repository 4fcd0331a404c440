-- ===== src/Tsig/Send/Space.antt =====
-- `tsig_append_rr` writes no more than `tsig_reserved_space`, and the length of the rdata.
use nsd_old.Base.{
  ℕ, ◌+◌, ◌-◌, ◌≤◌, ◌<◌, ◌^◌, ◌≡◌, ◌≢◌, refl, sym, ap, ◌∙◌, Option, none, some, List, [], ◌∷◌, true,
  ◌%◌, arith, leb, length, length-take, length-overwrite, get_or-overwrite_in, take, Outcome, done,
  ◌>>=◌, Returns, Returns-bind, Returns-map,
}
use nsd_old.Buffer.{
  Buffer, be16, be32, write, write_u8, write_u16, write_u32, write_u16_at, read_u16_at, skip,
}
use nsd_old.Buffer.Valid.{IsValid}
use nsd_old.Buffer.Access.{skip_lem}
use nsd_old.Dname.Name.{Name}
use nsd_old.Tsig.{TsigStatus, Tsig, type_tsig, class_any}
use nsd_old.Tsig.Send.{
  octets_of, write_name, write_data, append_rdata, append_owner, tsig_append_rr, name_space,
  tsig_reserved_space,
}

-- `n` octets were written to `b`.
pub record Grew (n : ℕ) (b c : Buffer) : Type 0 where
  pub valid : IsValid c
  pub mark : c.position ≡ b.position + n
  pub same_limit : c.limit ≡ b.limit

-- One write behind another.
then-Grew :
    {b : Buffer} (m n : ℕ) (x : Outcome Buffer) (f : Buffer → Outcome Buffer)
    → Returns (Grew m b) x
    → ((c : Buffer) → Grew m b c → Returns (Grew n c) (f c))
    → Returns (Grew (m + n) b) (x >>= f)
then-Grew {b} m n x f h k = Returns-bind (Grew (m + n) b) x f h λ c g.
    Returns-map (Grew (m + n) b) (f c)
      (λ d e. record {
        valid = e.valid;
        mark = omega (arith, e.mark, g.mark);
        same_limit = e.same_limit ∙ g.same_limit;
      })
      (k c g)

module _ {b : Buffer} (v : IsValid b) where
  write-Grew :
      (d : List ℕ) → b.position + length d ≤ b.limit → Returns (Grew (length d) b) (write b d)
  unfolding write
  write-Grew d h = ground (arith, length-overwrite b.bytes b.position d)

  write_u8-Grew : (x : ℕ) → b.position + 1 ≤ b.limit → Returns (Grew 1 b) (write_u8 b x)
  unfolding write_u8
  write_u8-Grew x h = ground (arith, length-overwrite b.bytes b.position (x % 256 ∷ []))

  write_u16-Grew : (x : ℕ) → b.position + 2 ≤ b.limit → Returns (Grew 2 b) (write_u16 b x)
  unfolding write_u16
  write_u16-Grew x h = ground (arith, length-overwrite b.bytes b.position (be16 x))

  write_u32-Grew : (x : ℕ) → b.position + 4 ≤ b.limit → Returns (Grew 4 b) (write_u32 b x)
  unfolding write_u32
  write_u32-Grew x h = ground (arith, length-overwrite b.bytes b.position (be32 x))

-- The data are as long as the record says.
abbrev pub Holds : Option (List ℕ) → ℕ → Type 0
Holds none size = size ≡ 0
Holds (some d) size = size ≤ length d

abbrev pub HoldsName : Option Name → Type 0
HoldsName none = Unit
HoldsName (some n) = n.name_size ≤ length n.octets

module _ {b : Buffer} (v : IsValid b) where
  write_data-Grew :
      (data_ : Option (List ℕ)) (size : ℕ)
      → Holds data_ size
      → b.position + size ≤ b.limit
      → Returns (Grew size b) (write_data b data_ size)
  unfolding write_data octets_of
  write_data-Grew none size z h = rw z (write-Grew v [] (omega (arith, z, h)))
  write_data-Grew (some d) size z h =
      let n : length (take size d) ≡ size = omega (arith, length-take size d, z) in
      let fits : leb size (length d) ≡ true = ground (arith, z) in
      rw fits (
        Returns-map (Grew size b) (write b (take size d))
          (λ c g. record {
            valid = g.valid;
            mark = omega (arith, g.mark, n);
            same_limit = g.same_limit;
          })
          (write-Grew v (take size d) (omega (arith, n, h))))

  write_name-Grew :
      (name : Option Name)
      → HoldsName name
      → b.position + name_space name ≤ b.limit
      → Returns (Grew (name_space name) b) (write_name b name)
  unfolding write_name name_space octets_of write_data
  write_name-Grew none z h = write_u8-Grew v 0 h
  write_name-Grew (some n) z h = write_data-Grew (some n.octets) n.name_size z h

  write_u16_at-read_u16_at :
      (at x : ℕ)
      → x < 2 ^ 16
      → at + 2 ≤ b.limit
      → Returns (λ c. Grew 0 b c × (read_u16_at c at ≡ done x)) (write_u16_at b at x)
  unfolding write_u16_at read_u16_at
  write_u16_at-read_u16_at at x s h = ground (
    arith,
    length-overwrite b.bytes at (be16 x),
    get_or-overwrite_in b.bytes at (be16 x) 0 0,
    get_or-overwrite_in b.bytes at (be16 x) 1 0,
  )

  skip-Grew : (n : ℕ) → b.position + n ≤ b.limit → Returns (Grew n b) (skip b n)
  skip-Grew n h =
      rw (skip_lem v n h) (record { valid = omega (arith, h, v); mark = refl; same_limit = refl })

-- The octets of the rdata
abbrev pub rdata_space : Tsig → ℕ
rdata_space t =
    name_space t.algorithm_name
    + (2 + (4 + (2 + (2 + (t.mac_size + (2 + (2 + (2 + t.other_size))))))))

-- The octets of the record up to its length
abbrev pub owner_space : Tsig → ℕ
owner_space t = name_space t.key_name + (2 + (2 + 4))

-- What the record refers to is there.
pub record IsStored (t : Tsig) : Type 0 where
  pub key_stored : HoldsName t.key_name
  pub algorithm_stored : HoldsName t.algorithm_name
  pub mac_stored : Holds t.mac_data t.mac_size
  pub other_stored : Holds t.other_data t.other_size

module _ (t : Tsig) (h : IsStored t) {b : Buffer} (v : IsValid b) where
  append_owner-Grew :
      b.position + owner_space t ≤ b.limit → Returns (Grew (owner_space t) b) (append_owner t b)
  unfolding append_owner
  append_owner-Grew r =
      then-Grew (name_space t.key_name) (2 + (2 + 4)) (write_name b t.key_name) _
        (write_name-Grew v t.key_name h.key_stored (omega (arith, r)))
        λ b1 g1.
          then-Grew 2 (2 + 4) (write_u16 b1 type_tsig) _
            (write_u16-Grew g1.valid type_tsig (omega (arith, r, g1)))
            λ b2 g2.
              then-Grew 2 4 (write_u16 b2 class_any) _
                (write_u16-Grew g2.valid class_any (omega (arith, r, g1, g2)))
                λ b3 g3. write_u32-Grew g3.valid 0 (omega (arith, r, g1, g2, g3))

  append_rdata-Grew :
      b.position + rdata_space t ≤ b.limit → Returns (Grew (rdata_space t) b) (append_rdata t b)
  unfolding append_rdata
  append_rdata-Grew r =
      then-Grew (name_space t.algorithm_name)
        (2 + (4 + (2 + (2 + (t.mac_size + (2 + (2 + (2 + t.other_size))))))))
        (write_name b t.algorithm_name) _
        (write_name-Grew v t.algorithm_name h.algorithm_stored (omega (arith, r)))
        λ b1 g1.
          then-Grew 2 (4 + (2 + (2 + (t.mac_size + (2 + (2 + (2 + t.other_size)))))))
            (write_u16 b1 t.signed_time_high) _
            (write_u16-Grew g1.valid t.signed_time_high (omega (arith, r, g1)))
            λ b2 g2.
              then-Grew 4 (2 + (2 + (t.mac_size + (2 + (2 + (2 + t.other_size))))))
                (write_u32 b2 t.signed_time_low) _
                (write_u32-Grew g2.valid t.signed_time_low (omega (arith, r, g1, g2)))
                λ b3 g3.
                  then-Grew 2 (2 + (t.mac_size + (2 + (2 + (2 + t.other_size)))))
                    (write_u16 b3 t.signed_time_fudge) _
                    (write_u16-Grew g3.valid t.signed_time_fudge (omega (arith, r, g1, g2, g3)))
                    λ b4 g4.
                      then-Grew 2 (t.mac_size + (2 + (2 + (2 + t.other_size))))
                        (write_u16 b4 t.mac_size) _
                        (write_u16-Grew g4.valid t.mac_size (omega (arith, r, g1, g2, g3, g4)))
                        λ b5 g5.
                          then-Grew t.mac_size (2 + (2 + (2 + t.other_size)))
                            (write_data b5 t.mac_data t.mac_size) _
                            (write_data-Grew g5.valid t.mac_data t.mac_size h.mac_stored
                              (omega (arith, r, g1, g2, g3, g4, g5)))
                            λ b6 g6.
                              then-Grew 2 (2 + (2 + t.other_size))
                                (write_u16 b6 t.original_query_id) _
                                (write_u16-Grew g6.valid t.original_query_id
                                  (omega (arith, r, g1, g2, g3, g4, g5, g6)))
                                λ b7 g7.
                                  then-Grew 2 (2 + t.other_size) (write_u16 b7 t.error_code) _
                                    (write_u16-Grew g7.valid t.error_code
                                      (omega (arith, r, g1, g2, g3, g4, g5, g6, g7)))
                                    λ b8 g8.
                                      then-Grew 2 t.other_size (write_u16 b8 t.other_size) _
                                        (write_u16-Grew g8.valid t.other_size
                                          (omega (arith, r, g1, g2, g3, g4, g5, g6, g7, g8)))
                                        λ b9 g9.
                                          write_data-Grew g9.valid t.other_data t.other_size
                                            h.other_stored
                                            (omega (arith, r, g1, g2, g3, g4, g5, g6, g7, g8, g9))

present :
    (s : TsigStatus) (n : ℕ)
    → s ≢ TsigStatus.tsig_not_present
    → (elim s as (λ _. ℕ) [ TsigStatus.tsig_not_present ↦ 0 | _ ↦ n ]) ≡ n
present TsigStatus.tsig_not_present n u = absurd (u refl)
present TsigStatus.tsig_ok n u = refl
present TsigStatus.tsig_error n u = refl

reserved :
    (max_algo_digest_size : ℕ) (t : Tsig)
    → t.status ≢ TsigStatus.tsig_not_present
    → tsig_reserved_space max_algo_digest_size t
      ≡ owner_space t + 2 + rdata_space t + max_algo_digest_size - t.mac_size
unfolding tsig_reserved_space
reserved most t u = present t.status _ u ∙ omega arith

-- What `tsig_append_rr` does to the packet `b`, whose limit leaves `space` octets or more.
abbrev pub Appended : Tsig → Buffer → Buffer → Type 0
Appended t b c =
    IsValid c
    × (c.limit ≡ b.limit)
    × (c.position ≡ b.position + owner_space t + 2 + rdata_space t)
    × (read_u16_at c (b.position + owner_space t) ≡ done (rdata_space t))

-- If the limit of a valid packet leaves the octets that `tsig_reserved_space` gives for a record that
-- is present, with a MAC no longer than the longest digest, and the data that the record refers to
-- are there, and the octets of the rdata are fewer than 2 ^ 16, as their length field has to hold the
-- number, `tsig_append_rr` returns: no write passes the limit. It writes no more than that space, and
-- the length field of the record holds the number of the octets of the rdata behind it.
pub tsig_append_rr-Appended :
    (max_algo_digest_size : ℕ) (t : Tsig) {b : Buffer}
    → IsValid b
    → rdata_space t < 2 ^ 16
    → IsStored t
    → t.status ≢ TsigStatus.tsig_not_present
    → t.mac_size ≤ max_algo_digest_size
    → b.position + tsig_reserved_space max_algo_digest_size t ≤ b.limit
    → Returns
        (λ c.
          Appended t b c × (c.position ≤ b.position + tsig_reserved_space max_algo_digest_size t))
        (tsig_append_rr t b)
unfolding tsig_append_rr
tsig_append_rr-Appended most t {b} v small h u m r =
    let space = reserved most t u in
    Returns-bind Q (append_owner t b) _ (append_owner-Grew t h v (omega (arith, r, m, space)))
      λ b1 g1.
        Returns-bind Q (skip b1 2) _ (skip-Grew g1.valid 2 (omega (arith, r, m, space, g1)))
          λ b2 g2.
            Returns-bind Q (append_rdata t b2) _
              (append_rdata-Grew t h g2.valid (omega (arith, r, m, space, g1, g2)))
              λ b3 g3.
                let n : b3.position - b1.position - 2 ≡ rdata_space t = omega (arith, g2, g3) in
                rw n (
                  Returns-map Q (write_u16_at b3 b1.position (rdata_space t))
                    (λ c (g, e). (
                      (
                        g.valid,
                        omega (arith, g, g1, g2, g3),
                        omega (arith, g, g1, g2, g3),
                        ap (λ k. read_u16_at c k) (sym g1.mark) ∙ e,
                      ),
                      omega (arith, g, g1, g2, g3, space, m),
                    ))
                    (write_u16_at-read_u16_at g3.valid b1.position (rdata_space t) small
                      (omega (arith, g1, g2, g3))))
  where
    Q : Buffer → Type 0
    Q c = Appended t b c × (c.position ≤ b.position + tsig_reserved_space most t)
