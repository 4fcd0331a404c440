-- ===== src/Tsig/Auth/Window.antt =====
-- The time that `tsig_from_query` accepts.
use nsd_old.Base.{
  ℕ, ◌+◌, ◌*◌, ◌^◌, ◌≤◌, ◌<◌, ◌≡◌, ◌≢◌, ◌↔◌, refl, true, Option, none, some, List, arith, done,
  Returns,
}
use nsd_old.Dname.Name.{Name}
use nsd_old.Tsig.{TsigStatus, Tsig, Key, Algorithm}
use nsd_old.Tsig.Auth.{deref, check_time, both_known, find_algorithm, tsig_from_query}

-- The time that the record gives
abbrev pub signed_time : Tsig → ℕ
signed_time t = t.signed_time_high * 2 ^ 32 + t.signed_time_low

check_time-window :
    (t : Tsig) (a : Algorithm) (k : Key) (now : ℕ)
    → t.signed_time_high < 2 ^ 16
    → t.signed_time_low < 2 ^ 32
    → t.signed_time_fudge < 2 ^ 16
    → now < 2 ^ 63
    → ((check_time t a k now).0 ≡ true) ↔ (
        (t.signed_time_fudge ≤ signed_time t)
        × (signed_time t ≤ now + t.signed_time_fudge)
        × (now ≤ signed_time t + t.signed_time_fudge))
unfolding check_time
check_time-window t a k now h l f n = ground arith

-- The numbers of a record are those of its fields, and the clock is below 2 ^ 63.
pub record Fields (t : Tsig) (now : ℕ) : Type 0 where
  pub high : t.signed_time_high < 2 ^ 16
  pub low : t.signed_time_low < 2 ^ 32
  pub fudge : t.signed_time_fudge < 2 ^ 16
  pub clock : now < 2 ^ 63

both_known-window :
    (t : Tsig) (a : Option Algorithm) (k : Option Key) (now : ℕ)
    → Fields t now
    → ((both_known t a k now).0 ≡ true) ↔ (
        (a ≢ none)
        × (k ≢ none)
        × (t.signed_time_fudge ≤ signed_time t)
        × (signed_time t ≤ now + t.signed_time_fudge)
        × (now ≤ signed_time t + t.signed_time_fudge))
unfolding both_known
both_known-window t none k now f = (λ h. cc h, λ h. absurd (h.0 refl))
both_known-window t (some a) none now f = (λ h. cc h, λ h. absurd (h.1 refl))
both_known-window t (some a) (some k) now f =
    let (to, from) = check_time-window t a k now f.high f.low f.fudge f.clock in
    (
      λ h. ((λ e. cc e), (λ e. cc e), (to h).0, (to h).1, (to h).2),
      λ (p, q, x, y, z). from (x, y, z),
    )

-- `tsig_from_query` of a parsed record, where the lookups of the two names return `a` and what the
-- table of keys has, returns, and returns 1 exactly if both are known and the clock is within the
-- fudge of the signed time, on either side; a signed time less than the fudge is refused.
pub tsig_from_query-window :
    (find_key : Name → Option Key) (table : List Algorithm) (t : Tsig) (now : ℕ) (n m : Name)
    (a : Option Algorithm)
    → Fields t now
    → t.status ≡ TsigStatus.tsig_ok
    → t.algorithm ≡ none
    → t.key ≡ none
    → t.key_name ≡ some n
    → t.algorithm_name ≡ some m
    → find_algorithm table m ≡ done a
    → Returns
        (λ r. (r.0 ≡ true) ↔ (
          (a ≢ none)
          × (find_key n ≢ none)
          × (t.signed_time_fudge ≤ signed_time t)
          × (signed_time t ≤ now + t.signed_time_fudge)
          × (now ≤ signed_time t + t.signed_time_fudge)))
        (tsig_from_query find_key table t now)
unfolding tsig_from_query deref
tsig_from_query-window find_key table t now n m a f status algorithm key key_name algorithm_name
      found =
    rw (status, algorithm, key, key_name, algorithm_name, found)
      (both_known-window
        (record t {
          status = TsigStatus.tsig_ok;
          algorithm = none;
          key = none;
          key_name = some n;
          algorithm_name = some m;
        })
        a (find_key n) now
        (record { high = f.high; low = f.low; fudge = f.fudge; clock = f.clock }))
