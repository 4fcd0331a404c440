-- ===== src/Tsig/Auth/Mac.antt =====
-- `tsig_verify` accepts exactly the digest, so that it accepts what `tsig_sign` signed.
use nsd_old.Base.{
  ℕ, ◌%◌, ◌/◌, ◌^◌, ◌<◌, ◌≡◌, ◌↔◌, refl, sym, ap, ◌∙◌, Bool, true, some, List, [], ◌∷◌, ◌++◌, arith,
  leb, ltb, length, take, done, Returns, Returns-map,
}
use nsd_old.Tsig.{Tsig, Key, Algorithm}
use nsd_old.Tsig.Send.{octets_of}
use nsd_old.Tsig.Auth.{
  deref, hmac_update, digest_octets, tsig_digest_variables, hmac_final, tsig_sign, tsig_verify,
  same_octets,
}

take_all : (xs : List ℕ) (n : ℕ) → length xs ≡ n → take n xs ≡ xs
take_all xs n e = sym (ap (λ k. take k xs) e) ∙ whole xs
  where
    whole : (xs : List ℕ) → take (length xs) xs ≡ xs
    whole [] = refl
    whole (x ∷ xs) = ap (λ l. x ∷ l) (whole xs)

pub same_octets_iff : (xs ys : List ℕ) → (same_octets xs ys ≡ true) ↔ (xs ≡ ys)
unfolding same_octets
same_octets_iff [] [] = (λ h. refl, λ h. refl)
same_octets_iff [] (y ∷ ys) = (λ h. cc h, λ h. cc h)
same_octets_iff (x ∷ xs) [] = (λ h. cc h, λ h. cc h)
same_octets_iff (x ∷ xs) (y ∷ ys) = ground (arith, same_octets_iff xs ys)

-- With the MAC as long as the record says.
module _ (t : Tsig) (a : Algorithm) (k : Key) (given d m : List ℕ)
    (context : t.context ≡ some (k, given)) (algorithm : t.algorithm ≡ some a)
    (variables : digest_octets t (ltb 1 t.response_count) ≡ done d) (mac : t.mac_data ≡ some m)
    (size : length m ≡ t.mac_size) where
  mac_read : octets_of t.mac_data t.mac_size ≡ done m
  unfolding octets_of
  mac_read =
      let fits : leb t.mac_size (length m) ≡ true = ground (arith, size) in
      rw (mac, fits) (ap (λ l. done l) (take_all m t.mac_size size))

  -- `tsig_verify` of a record with a MAC of the length that it gives returns. It returns 1 exactly if
  -- the MAC is the digest, under the key of the context, of what the HMAC was given and the variables of
  -- the record behind it.
  pub tsig_verify-digest :
      Returns (λ r. (r.0 ≡ true) ↔ (m ≡ a.digest k (given ++ d))) (tsig_verify t)
  unfolding tsig_verify tsig_digest_variables hmac_update hmac_final deref
  tsig_verify-digest =
      let x = a.digest k (given ++ d) in
      let long : m ≡ x → length m ≡ length x = λ e. ap length e in
      rw (variables, context, algorithm, mac_read) (ground (arith, size, long, same_octets_iff m x))

-- The record `r` that a receiver has of what the sender left in `s`.
pub record Received (s r : Tsig) : Type 0 where
  pub key_name : r.key_name ≡ s.key_name
  pub algorithm_name : r.algorithm_name ≡ s.algorithm_name
  pub signed_time_high : r.signed_time_high ≡ s.signed_time_high
  pub signed_time_low : r.signed_time_low ≡ s.signed_time_low
  pub signed_time_fudge : r.signed_time_fudge ≡ s.signed_time_fudge
  pub error_code : r.error_code ≡ s.error_code
  pub other_size : r.other_size ≡ s.other_size
  pub other_data : r.other_data ≡ s.other_data
  pub mac_size : r.mac_size ≡ s.mac_size
  pub mac_data : r.mac_data ≡ s.mac_data

digest_octets-Received :
    (s r : Tsig) (timers : Bool) → Received s r → digest_octets r timers ≡ digest_octets s timers
unfolding digest_octets
digest_octets-Received s r timers c =
    rw
      (
        c.key_name, c.algorithm_name, c.signed_time_high, c.signed_time_low, c.signed_time_fudge,
        c.error_code, c.other_size, c.other_data,
      )
      refl

-- The record with the time set
abbrev pub timed : Tsig → ℕ → Tsig
timed s now = record s {
  signed_time_high = now / 2 ^ 32 % 2 ^ 16;
  signed_time_low = now % 2 ^ 32;
  signed_time_fudge = 300;
}

-- What `tsig_sign` leaves, with `x` for the digest.
abbrev pub signed : Tsig → ℕ → Key → List ℕ → List ℕ → Tsig
signed s now k given x = record (timed s now) {
  context = some (k, given);
  prior_mac_data = x;
  mac_size = length x % 2 ^ 16;
  mac_data = some x;
}

-- If sender and receiver gave the HMAC the same octets under the same key and algorithm, the digest is
-- shorter than 2 ^ 16 octets, as `mac_size` has to hold its length, both count more than one response
-- or both do not, and the names and data that the variables refer to are there, then `tsig_sign` returns with the digest of these octets and the variables as the MAC, and
-- `tsig_verify` of a record that the receiver has of it returns 1.
pub tsig_sign-tsig_verify :
    (s r : Tsig) (now : ℕ) (a : Algorithm) (k : Key) (given d : List ℕ)
    → s.context ≡ some (k, given)
    → s.algorithm ≡ some a
    → digest_octets (timed s now) (ltb 1 s.response_count) ≡ done d
    → Received (signed s now k (given ++ d) (a.digest k (given ++ d))) r
    → r.context ≡ some (k, given)
    → r.algorithm ≡ some a
    → ltb 1 r.response_count ≡ ltb 1 s.response_count
    → length (a.digest k (given ++ d)) < 2 ^ 16
    → (tsig_sign s now ≡ done (signed s now k (given ++ d) (a.digest k (given ++ d))))
      × Returns (λ v. v.0 ≡ true) (tsig_verify r)
unfolding tsig_sign tsig_digest_variables hmac_update hmac_final deref digest_octets
tsig_sign-tsig_verify s r now a k given d context algorithm variables c rc ra rn short =
    let x = a.digest k (given ++ d) in
    let size : length x ≡ r.mac_size = omega (arith, c.mac_size, short) in
    let vars : digest_octets r (ltb 1 r.response_count) ≡ done d =
      ap (digest_octets r) rn
      ∙ digest_octets-Received (signed s now k (given ++ d) x) r (ltb 1 s.response_count) c
      ∙ variables in
    (
      rw (variables, context, algorithm) refl,
      Returns-map (λ v. v.0 ≡ true) (tsig_verify r) (λ v iff. iff.1 refl)
          (tsig_verify-digest r a k given d x rc ra vars c.mac_data size),
    )
