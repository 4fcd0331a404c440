-- ===== src/Query/Checked.antt =====
-- `process_tsig` of a record that was read from the packet.
use Prim.Native.Nat.{bit_and}
use nsd_old.Base.{
  ℕ, ◌+◌, ◌-◌, ◌^◌, ◌≤◌, ◌≡◌, ◌≢◌, Bool-cases, ◌⊎◌, inl, inr, refl, Bool, true, false, not, Option,
  none, some, List, [], ◌++◌, leb, ltb, ◌==◌, if◌then◌else◌, length, get_or, take, drop, arith,
  done, ◌>>=◌, Returns, Returns-bind, Returns-map,
}
use nsd_old.Buffer.{Buffer, set_limit, write_u16_at, read_uint16, be16}
use nsd_old.Buffer.Valid.{IsValid}
use nsd_old.Packet.{arcount, peek}
use nsd_old.Dname.Name.{Name}
use nsd_old.Dname.Make.Named.{IsMade}
use nsd_old.Tsig.{TsigStatus, Tsig, Key, Algorithm}
use nsd_old.Tsig.Parse.{NameAt, Signed}
use nsd_old.Tsig.Send.{octets_of}
use nsd_old.Tsig.Auth.{
  deref, digest_octets, both_known, tsig_prepare, tsig_update, hmac_update, qr, tsig_verify,
}
use nsd_old.Tsig.Auth.Mac.{tsig_verify-digest}
use nsd_old.Query.{NsdRc, QueryType, Host, check_tsig, process_tsig}
use nsd_old.Query.Signature.{
  AreNamed, find_algorithm_runs, octets_of_read, Given, made_given, data_given, digest_given,
  opened, known_cases, from_query_lem, Dropped, Returns-drop,
}

-- What `process_tsig` leaves of the query: a packet that is as it was, or ends at the TSIG record.
pub record Checked (q : QueryType) (r : NsdRc × QueryType) : Type 0 where
  pub valid : IsValid r.1.packet
  pub same_capacity : r.1.packet.capacity ≡ q.packet.capacity
  pub same_id : read_uint16 r.1.packet.bytes 0 ≡ read_uint16 q.packet.bytes 0
  pub answerable : r.0 ≢ NsdRc.rc_discard
  pub same_edns : r.1.edns ≡ q.edns
  pub same_qname : r.1.qname ≡ q.qname
  pub cut :
      (r.1.packet.limit ≡ q.packet.limit)
      ⊎ ((q.tsig.status ≡ TsigStatus.tsig_ok) × (r.1.packet.limit ≡ q.tsig.position))

-- The names and octets that a record refers to
pub record IsRead (t : Tsig) : Type 0 where
  pub key_name : (n : Name) × (xs : List (List ℕ)) × (t.key_name ≡ some n) × IsMade true xs n
  pub algorithm_name :
      (n : Name) × (xs : List (List ℕ)) × (t.algorithm_name ≡ some n) × IsMade true xs n
  pub mac : (d : List ℕ) × (t.mac_data ≡ some d) × (length d ≡ t.mac_size)
  pub other : Given (octets_of t.other_data t.other_size)

name_read :
    (b : Buffer) (at : ℕ) (o : Option Name)
    → NameAt b at o
    → (n : Name) × (xs : List (List ℕ)) × (o ≡ some n) × IsMade true xs n
name_read b at none k = absurd k
name_read b at (some n) (xs, sp, m) = (n, xs, refl, m)

pub Signed-IsRead : {b : Buffer} (t : Tsig) → IsValid b → Signed b t → IsRead t
Signed-IsRead {b} t v (k, (at, a), mac, other, small) = record {
  key_name = name_read b b.position t.key_name k;
  algorithm_name = name_read b at t.algorithm_name a;
  mac = octets_of_read b t.mac_size t.mac_data v mac;
  other = data_given b t.other_size t.other_data v other;
}

IsRead-digest : (t : Tsig) (timers : Bool) → IsRead t → Given (digest_octets t timers)
IsRead-digest t timers r =
    let (n, xs, e, m) = r.key_name in
    let (n', xs', e', m') = r.algorithm_name in
    digest_given t timers (made_given t.key_name n xs e m)
      (made_given t.algorithm_name n' xs' e' m') r.other

-- The record behind `tsig_prepare`
abbrev prepared : Tsig → Algorithm → Key → Tsig
prepared t a k = record (opened t a k) { context = some (k, []); updates_since_last_prepare = 0 }

-- The record behind `tsig_update`
abbrev fed : Tsig → Algorithm → Key → Buffer → Bool → Tsig
fed t a k c response = record (opened t a k) {
  context = some (k, ([] ++ be16 t.original_query_id) ++ take (c.limit - 2) (drop 2 c.bytes));
  response_count = if response then 1 else 0;
  updates_since_last_prepare = 1;
}

IsRead-fed :
    (t : Tsig) (a : Algorithm) (k : Key) (c : Buffer) (response : Bool)
    → IsRead t
    → IsRead (fed t a k c response)
IsRead-fed t a k c response r = record {
  key_name = r.key_name;
  algorithm_name = r.algorithm_name;
  mac = r.mac;
  other = r.other;
}

fed_lem :
    (t : Tsig) (a : Algorithm) (k : Key) (c : Buffer)
    → IsValid c
    → 12 ≤ c.limit
    → (response : Bool) × (tsig_prepare (opened t a k) ≡ done (prepared t a k))
      × (tsig_update (prepared t a k) c c.limit ≡ done (fed t a k c response))
unfolding tsig_prepare deref tsig_update hmac_update qr peek
fed_lem t a k c v h =
    let inside : ltb 2 (length c.bytes) ≡ true = ground (arith, v, h) in
    let whole : leb c.limit c.limit ≡ true = ground arith in
    let id : leb 2 c.limit ≡ true = ground (arith, h) in
    (not (bit_and (get_or c.bytes 2 0) 0x80 == 0), refl, rw (inside, whole, id) refl)

-- With key and algorithm found
tsig_verify_runs :
    (t : Tsig) (a : Algorithm) (k : Key) (c : Buffer) (response : Bool)
    → IsRead t
    → Returns (λ r. Unit) (tsig_verify (fed t a k c response))
tsig_verify_runs t a k c response r =
    let u = fed t a k c response in
    let (d, e) = IsRead-digest u (ltb 1 u.response_count) (IsRead-fed t a k c response r) in
    let (mac, em, size) = r.mac in
    Returns-map (λ r. Unit) (tsig_verify u) (λ r h. tt)
      (tsig_verify-digest u a k _ d mac refl refl e em size)

status_cases :
    (s : TsigStatus)
    → (s ≡ TsigStatus.tsig_error) ⊎ ((s ≡ TsigStatus.tsig_ok) ⊎ (s ≡ TsigStatus.tsig_not_present))
status_cases TsigStatus.tsig_error = inl refl
status_cases TsigStatus.tsig_ok = inr (inl refl)
status_cases TsigStatus.tsig_not_present = inr (inr refl)

-- With the record read, in front of the limit, and neither key nor algorithm looked up
pub record IsOpen (q : QueryType) : Type 0 where
  pub no_algorithm : q.tsig.algorithm ≡ none
  pub no_key : q.tsig.key ≡ none
  pub header : 12 ≤ q.tsig.position
  pub inside : q.tsig.position ≤ q.packet.limit
  pub is_read : IsRead q.tsig

module _ (host : Host) (q : QueryType) (v : IsValid q.packet) (r : IsRead q.tsig) where
  opened-Checked :
      (a : Algorithm) (k : Key) (c : Buffer)
      → q.tsig.status ≡ TsigStatus.tsig_ok
      → 12 ≤ q.tsig.position
      → Dropped q.packet q.tsig.position c
      → Returns (Checked q) (
          tsig_prepare (opened q.tsig a k) >>= λ t. tsig_update t c c.limit >>= λ t.
          tsig_verify t >>= λ (good, t).
          done (if good then NsdRc.rc_ok else NsdRc.rc_notauth, record q { packet = c; tsig = t }))
  opened-Checked a k c ok h (w, l, z, i) =
      let (response, ep, eu) = fed_lem q.tsig a k c w (omega (arith, l, h)) in
      rw (ep, eu)
        (Returns-bind (Checked q) (tsig_verify (fed q.tsig a k c response)) _
          (tsig_verify_runs q.tsig a k c response r)
          λ (good, t) _. record {
            answerable = elim (Bool-cases good) [
              | inl e ↦ rw e (λ x. cc x)
              | inr e ↦ rw e (λ x. cc x)
            ];
            valid = w;
            same_capacity = z;
            same_id = i;
            same_edns = refl;
            same_qname = refl;
            cut = inr (ok, l);
          })

  same-Checked :
      (rc : NsdRc) (t : Tsig) → rc ≢ NsdRc.rc_discard → Checked q (rc, record q { tsig = t })
  same-Checked rc t u = record {
    answerable = u;
    valid = v;
    same_capacity = refl;
    same_id = refl;
    same_edns = refl;
    same_qname = refl;
    cut = inl refl;
  }

  known-Checked :
      (known : Bool × Tsig)
      → q.tsig.status ≡ TsigStatus.tsig_ok
      → 12 ≤ q.tsig.position
      → q.tsig.position ≤ q.packet.limit
      → (known.0 ≡ false) ⊎ ((a : Algorithm) × (k : Key) × (known ≡ (true, opened q.tsig a k)))
      → Returns (Checked q) (
          if not known.0
          then done (NsdRc.rc_notauth, record q { tsig = known.1 })
          else (set_limit q.packet known.1.position >>= λ b. arcount b >>= λ ar.
              write_u16_at b 10 (ar + (2 ^ 16 - 1)) >>= λ b. tsig_prepare known.1 >>= λ t.
              tsig_update t b b.limit >>= λ t. tsig_verify t >>= λ (good, t).
              done (
                if good then NsdRc.rc_ok else NsdRc.rc_notauth,
                record q { packet = b; tsig = t },
              )))
  known-Checked known ok h h' (inl e) =
      rw (Returns, e) (same-Checked NsdRc.rc_notauth known.1 (λ x. cc x))
  known-Checked known ok h h' (inr (a, k, e)) =
      rw (Returns, e)
        (Returns-drop q.tsig.position (Checked q) _ v h h' λ c d. opened-Checked a k c ok h d)

  check_tsig-Checked :
      q.tsig.status ≡ TsigStatus.tsig_ok
      → q.tsig.algorithm ≡ none
      → q.tsig.key ≡ none
      → AreNamed host.tsig_algorithm_table
      → 12 ≤ q.tsig.position
      → q.tsig.position ≤ q.packet.limit
      → Returns (Checked q) (check_tsig host q)
  unfolding check_tsig
  check_tsig-Checked ok ea ek names h h' =
      let (n, xs, en, m) = r.key_name in
      let (n', xs', en', m') = r.algorithm_name in
      let (a, e) = find_algorithm_runs host.tsig_algorithm_table n' _ names m'.named in
      rw (from_query_lem host q.tsig n n' a ok ea ek en en' e) (
        known-Checked (both_known q.tsig a (host.tsig_find_key n) host.current_time) ok h h'
          (known_cases q.tsig a (host.tsig_find_key n) host.current_time))

-- `process_tsig` returns, whatever the packet says, with a packet that is as it was or ends at the TSIG
-- record, with the id of the query.
pub process_tsig-Checked :
    (host : Host) (q : QueryType)
    → IsValid q.packet
    → AreNamed host.tsig_algorithm_table
    → (q.tsig.status ≡ TsigStatus.tsig_ok → IsOpen q)
    → Returns (Checked q) (process_tsig host q)
unfolding process_tsig
process_tsig-Checked host q v names o = elim (status_cases q.tsig.status) [
  | inl e ↦ rw (Returns, e) (same q v NsdRc.rc_format (λ x. cc x))
  | inr (inl e) ↦
      let k = o e in
      rw (Returns, e)
        (check_tsig-Checked host q v k.is_read e k.no_algorithm k.no_key names k.header k.inside)
  | inr (inr e) ↦ rw (Returns, e) (same q v NsdRc.rc_ok (λ x. cc x))
]
  where
    same :
        (q : QueryType)
        → IsValid q.packet
        → (rc : NsdRc) → rc ≢ NsdRc.rc_discard
        → Checked q (rc, q)
    same q v rc u = record {
      answerable = u;
      valid = v;
      same_capacity = refl;
      same_id = refl;
      same_edns = refl;
      same_qname = refl;
      cut = inl refl;
    }
