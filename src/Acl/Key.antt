-- ===== src/Acl/Key.antt =====
-- The key of an access control element: who passes `acl_key_matches`.
use nsd_old.Base.{
  ℕ, ◌≡◌, ◌↔◌, true, false, some, List, [], ◌∷◌, take, drop, length, sym, refl, done, arith,
}
use nsd_old.Dname.Name.{Name, is_same}
use nsd_old.Dname.Name.Labels.{IsName}
use nsd_old.Dname.Name.Order.{names-IsOrder, dname_compare-name_order}
use nsd_old.Tsig.{TsigStatus, tsig_strlowercmp}
use nsd_old.Tsig.Names.{hmac_prefix, lower, tsig_strlowercmp_same, Denotes, tests-Denotes}
use nsd_old.Acl.{Acl, Query, acl_key_matches, tsig_matches, same_algorithm, starts_with}

starts_with_lem : (ps s : List ℕ) → (starts_with ps s ≡ true) ↔ (take (length ps) s ≡ ps)
unfolding starts_with
starts_with_lem [] s = (λ h. refl, λ h. refl)
starts_with_lem (p ∷ ps) [] = (λ h. cc h, λ h. cc h)
starts_with_lem (p ∷ ps) (c ∷ cs) = ground (arith, starts_with_lem ps cs)

-- The test of `tsig_strlowercmp` with the arguments turned round
turned :
    (algorithm xs : List ℕ)
    → (is_same (tsig_strlowercmp xs algorithm) ≡ true) ↔ (lower algorithm ≡ lower xs)
turned algorithm xs =
    let iff = tsig_strlowercmp_same xs algorithm in (λ h. sym (iff.0 h), λ h. iff.1 (sym h))

same_algorithm-Denotes :
    (short_name algorithm : List ℕ)
    → (same_algorithm short_name algorithm ≡ true) ↔ Denotes algorithm short_name
unfolding same_algorithm
same_algorithm-Denotes short_name algorithm =
    tests-Denotes algorithm short_name (is_same (tsig_strlowercmp short_name algorithm))
      (is_same (tsig_strlowercmp (drop 5 short_name) algorithm))
      (starts_with hmac_prefix short_name) (turned algorithm short_name)
      (turned algorithm (drop 5 short_name)) (starts_with_lem hmac_prefix short_name)

-- `acl_key_matches` of an element that is not blocked and names a key holds exactly of a query whose
-- TSIG was read (its status is TSIG_OK) and has the error code 0, under a key of the same name, with an
-- algorithm whose short name is the one configured, in upper or lower case, whole or without a leading
-- `hmac-`.
pub acl_key_matches-verified :
    (acl : Acl) (q : Query) (name : Name) (xs ys : List (List ℕ))
    → acl.blocked ≡ false
    → acl.nokey ≡ false
    → acl.key_options.tsig_key ≡ some name
    → IsName q.key_name xs
    → IsName name ys
    → (acl_key_matches acl q ≡ done true) ↔ (
        (q.status ≡ TsigStatus.tsig_ok)
        × (q.error_code ≡ 0)
        × (xs ≡ ys)
        × Denotes acl.key_options.algorithm q.short_name)
unfolding acl_key_matches tsig_matches
acl_key_matches-verified acl q name xs ys nb nk k l r =
    let c = dname_compare-name_order false (λ h. cc h) l r in
    let a = same_algorithm-Denotes q.short_name acl.key_options.algorithm in
    (
      λ h. ground (arith, c, h, a.0, names-IsOrder.same_eq xs ys),
      λ (s, z, e, t). ground (arith, c, s, z, e, a.1 t, names-IsOrder.refl_same ys),
    )
