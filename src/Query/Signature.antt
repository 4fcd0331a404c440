-- ===== src/Query/Signature.antt =====
-- `process_tsig`: with a record that was read from the packet, it returns.
use nsd_old.Base.{
  ℕ, ◌+◌, ◌-◌, ◌*◌, ◌/◌, ◌%◌, ◌^◌, ◌≤◌, ◌≡◌, ◌⊎◌, inl, inr, refl, ap, ◌∙◌, Bool, true, false,
  Bool-cases, Option, none, some, List, [], ◌∷◌, leb, ltb, if◌then◌else◌, length, length-take,
  length-drop, take, drop, overwrite, get_or-overwrite_out, arith, Outcome, done, ◌>>=◌, Returns,
}
use nsd_old.Buffer.{Buffer, set_limit, write_u16_at, read_uint16}
use nsd_old.Buffer.Valid.{IsValid}
use nsd_old.Buffer.Access.{read_u16_at_lem}
use nsd_old.Packet.{arcount}
use nsd_old.Dname.Name.{Name, is_same}
use nsd_old.Dname.Name.Labels.{IsName}
use nsd_old.Dname.Name.Order.{name_order, dname_compare-name_order}
use nsd_old.Dname.Make.Named.{IsMade, length-wire_kept}
use nsd_old.Tsig.{TsigStatus, Tsig, Key, Algorithm}
use nsd_old.Tsig.Parse.{OctetsIn}
use nsd_old.Tsig.Send.{octets_of}
use nsd_old.Tsig.Auth.{
  deref, name_octets, digest_octets, find_algorithm, both_known, check_time, outside_window,
  tsig_from_query,
}
use nsd_old.Query.{Host}
use nsd_old.Query.Error.{write_u16_at_lem, rewritten-IsValid}

-- The names of the algorithms are names.
abbrev pub AreNamed : List Algorithm → Type 0
AreNamed [] = Unit
AreNamed (a ∷ rest) = ((xs : List (List ℕ)) × IsName a.wireformat_name xs) × AreNamed rest

-- The lookup over such a table returns.
pub find_algorithm_runs :
    (table : List Algorithm) (n : Name) (xs : List (List ℕ))
    → AreNamed table
    → IsName n xs
    → (a : Option Algorithm) × (find_algorithm table n ≡ done a)
unfolding find_algorithm
find_algorithm_runs [] n xs k m = (none, refl)
find_algorithm_runs (a ∷ rest) n xs ((ys, w), k) m =
    let compared = dname_compare-name_order false (λ e. cc e) m w in
    rw compared (elim (Bool-cases (is_same (name_order xs ys))) [
      | inl e ↦ rw e (some a, refl)
      | inr e ↦ rw e (find_algorithm_runs rest n xs k m)
    ])

octets_of_made :
    (n : Name) (xs : List (List ℕ))
    → IsMade true xs n
    → (d : List ℕ) × (name_octets (some n) ≡ done d)
unfolding name_octets deref octets_of
octets_of_made n xs m =
    let fits : leb n.name_size (length n.octets) ≡ true =
      ground (arith, m.size, ap length m.stored, length-wire_kept true xs) in
    rw fits (take n.name_size n.octets, refl)

pub octets_of_read :
    (b : Buffer) (size : ℕ) (o : Option (List ℕ))
    → IsValid b
    → OctetsIn b size o
    → (d : List ℕ) × (o ≡ some d) × (length d ≡ size)
octets_of_read b size none v k = absurd k
octets_of_read b size (some d) v (at, h, e) = (
  d,
  refl,
  ap length e ∙ omega (arith, length-take size (drop at b.bytes), length-drop at b.bytes, v, h),
)

-- The octets that a pointer and a size stand for are there.
abbrev pub Given : Outcome (List ℕ) → Type 0
Given m = (d : List ℕ) × (m ≡ done d)

pub made_given :
    (o : Option Name) (n : Name) (xs : List (List ℕ))
    → o ≡ some n
    → IsMade true xs n
    → Given (name_octets o)
made_given o n xs e m = rw e (octets_of_made n xs m)

pub data_given :
    (b : Buffer) (size : ℕ) (o : Option (List ℕ))
    → IsValid b
    → OctetsIn b size o
    → Given (octets_of o size)
unfolding octets_of
data_given b size none v k = absurd k
data_given b size (some d) v k =
    let (e, p, l) = octets_of_read b size (some d) v k in
    let long : length d ≡ size = ap (λ o. elim o [ none ↦ 0 | some x ↦ length x ]) p ∙ l in
    let fits : leb size (length d) ≡ true = ground (arith, long) in rw fits (take size d, refl)

pub digest_given :
    (t : Tsig) (timers : Bool)
    → Given (name_octets t.key_name)
    → Given (name_octets t.algorithm_name)
    → Given (octets_of t.other_data t.other_size)
    → Given (digest_octets t timers)
unfolding digest_octets
digest_given t true k a o = (_, refl)
digest_given t false (k, ek) (a, ea) (o, eo) = rw (ek, ea, eo) (_, refl)

-- The record with key and algorithm found.
abbrev pub opened : Tsig → Algorithm → Key → Tsig
opened t a k = record t {
  algorithm = some a;
  key = some k;
  response_count = 0;
  prior_mac_data = [];
}

pub known_cases :
    (t : Tsig) (a : Option Algorithm) (k : Option Key) (now : ℕ)
    → ((both_known t a k now).0 ≡ false)
      ⊎ ((alg : Algorithm) × (key : Key) × (both_known t a k now ≡ (true, opened t alg key)))
unfolding both_known check_time
known_cases t none k now = inl refl
known_cases t (some a) none now = inl refl
known_cases t (some a) (some k) now =
    elim (Bool-cases
      (outside_window now (t.signed_time_high * 2 ^ 32 + t.signed_time_low) t.signed_time_fudge)) [
        | inl e ↦ inl (rw e refl)
        | inr e ↦ inr (a, k, rw e refl)
      ]

pub from_query_lem :
    (host : Host) (t : Tsig) (n m : Name) (a : Option Algorithm)
    → t.status ≡ TsigStatus.tsig_ok
    → t.algorithm ≡ none
    → t.key ≡ none
    → t.key_name ≡ some n
    → t.algorithm_name ≡ some m
    → find_algorithm host.tsig_algorithm_table m ≡ done a
    → tsig_from_query host.tsig_find_key host.tsig_algorithm_table t host.current_time
      ≡ done (both_known t a (host.tsig_find_key n) host.current_time)
unfolding tsig_from_query deref
from_query_lem host t n m a ok ea ek en em e = rw (ok, ea, ek, en, em, e) refl

pub set_limit_lem :
    {b : Buffer} (n : ℕ)
    → IsValid b
    → n ≤ b.limit
    → (c : Buffer) × (set_limit b n ≡ done c)
      × IsValid c
      × (c.limit ≡ n)
      × (c.bytes ≡ b.bytes)
      × (c.capacity ≡ b.capacity)
unfolding set_limit
set_limit_lem {b} n v h =
    let inside : leb n b.capacity ≡ true = ground (arith, v, h) in
    (
      record b { limit = n; position = if ltb n b.position then n else b.position },
      rw inside refl,
      ground (arith, v, h),
      refl,
      refl,
      refl,
    )

low_octets : (d : List ℕ) (x y : ℕ) → read_uint16 (overwrite d 10 (x ∷ y ∷ [])) 0 ≡ read_uint16 d 0
unfolding read_uint16
low_octets d x y = ground (
  arith,
  get_or-overwrite_out d 10 (x ∷ y ∷ []) 0 0 (inl (omega arith)),
  get_or-overwrite_out d 10 (x ∷ y ∷ []) 1 0 (inl (omega arith)),
)

-- What `process_tsig` and `process_edns` do to the packet: it ends at `n` and counts a record less.
abbrev pub Dropped : Buffer → ℕ → Buffer → Type 0
Dropped b n c =
    IsValid c
    × (c.limit ≡ n)
    × (c.capacity ≡ b.capacity)
    × (read_uint16 c.bytes 0 ≡ read_uint16 b.bytes 0)

pub Returns-drop {ℓ} :
    {B : Type ℓ} {b : Buffer} (n : ℕ) (Q : B → Type 0) (f : Buffer → Outcome B)
    → IsValid b
    → 12 ≤ n
    → n ≤ b.limit
    → ((c : Buffer) → Dropped b n c → Returns Q (f c))
    → Returns Q
        (set_limit b n >>= λ c. arcount c >>= λ ar. write_u16_at c 10 (ar + (2 ^ 16 - 1)) >>= f)
unfolding arcount
Returns-drop {b = b} n Q f v h k g =
    let (c, e, w, l, d, z) = set_limit_lem n v k in
    let x = read_uint16 c.bytes 10 + (2 ^ 16 - 1) in
    rw
      (e, read_u16_at_lem w 10 (omega (arith, l, h)), write_u16_at_lem 10 x w (omega (arith, l, h)))
      (g (record c { bytes = overwrite c.bytes 10 (x / 256 % 256 ∷ x % 256 ∷ []) })
        (
          rewritten-IsValid 10 (x / 256 % 256 ∷ x % 256 ∷ []) w,
          l,
          z,
          low_octets c.bytes (x / 256 % 256) (x % 256) ∙ ap (λ d. read_uint16 d 0) d,
        ))
