-- ===== src/Tsig/Auth.antt =====
-- tsig.c: signing and verifying. The HMAC is that of the algorithm, a parameter; the table of keys is
-- the function that looks a name up in it, the table of algorithms a list, and the time an argument.
pub mod Mac
pub mod Window
use Prim.Native.Nat.{bit_and}
use nsd_old.Base.{
  ℕ, ◌+◌, ◌-◌, ◌*◌, ◌/◌, ◌%◌, ◌^◌, Bool, true, false, not, ◌&&◌, ◌||◌, Option, none, some, List, [],
  ◌∷◌, ◌++◌, leb, ltb, ◌==◌, if◌then◌else◌, length, take, drop, Outcome, done, fault, assert, ◌>>=◌,
  ◌>>◌,
}
use nsd_old.Buffer.{Buffer, be16, be32}
use nsd_old.Packet.{peek}
use nsd_old.Dname.Name.{Name, dname_compare, is_same}
use nsd_old.Tsig.{TsigStatus, Key, Algorithm, Tsig, class_any}
use nsd_old.Tsig.Send.{octets_of}

abbrev pub tsig_error_noerror : ℕ
tsig_error_noerror = 0

abbrev pub tsig_error_badsig : ℕ
tsig_error_badsig = 16

abbrev pub tsig_error_badkey : ℕ
tsig_error_badkey = 17

abbrev pub tsig_error_badtime : ℕ
tsig_error_badtime = 18

-- A pointer that is followed; NULL is a fault.
unfoldable pub deref {ℓ} : {A : Type ℓ} → Option A → Outcome A
deref none = fault
deref (some a) = done a

-- `hmac_update`
unfoldable pub hmac_update : Tsig → List ℕ → Outcome Tsig
hmac_update t d = do
  (key, given) ← deref t.context
  done (record t { context = some (key, given ++ d) })

-- The octets of a name that must be there
unfoldable pub name_octets : Option Name → Outcome (List ℕ)
name_octets o = do n ← deref o; octets_of (some n.octets) n.name_size

-- What `tsig_digest_variables` gives to the HMAC
unfoldable pub digest_octets : Tsig → Bool → Outcome (List ℕ)
digest_octets t tsig_timers_only =
    let timers = be16 t.signed_time_high ++ (be32 t.signed_time_low ++ be16 t.signed_time_fudge) in
    if tsig_timers_only then done timers else do
      key_name ← name_octets t.key_name
      algorithm_name ← name_octets t.algorithm_name
      other ← octets_of t.other_data t.other_size
      done (
          key_name
          ++ (be16 class_any
              ++ (be32 0
                  ++ (algorithm_name
                      ++ (timers ++ (be16 t.error_code ++ (be16 t.other_size ++ other)))))))

-- `tsig_digest_variables`
unfoldable pub tsig_digest_variables : Tsig → Bool → Outcome Tsig
tsig_digest_variables t tsig_timers_only = do d ← digest_octets t tsig_timers_only; hmac_update t d

-- `hmac_final` into `prior_mac_data`
unfoldable pub hmac_final : Tsig → Outcome Tsig
hmac_final t = do
  algorithm ← deref t.algorithm
  (key, given) ← deref t.context
  done (record t { prior_mac_data = algorithm.digest key given })

-- `tsig_prepare`
unfoldable pub tsig_prepare : Tsig → Outcome Tsig
tsig_prepare t = do
  algorithm ← deref t.algorithm
  key ← deref t.key
  let prior = t.prior_mac_data
  done (record t {
    context = some (key, if ltb 0 (length prior) then be16 (length prior) ++ prior else []);
    updates_since_last_prepare = 0;
  })

-- `QR(packet)`
unfoldable pub qr : Buffer → Outcome Bool
qr b = do flags ← peek b 2; done (not (bit_and flags 0x80 == 0))

-- `tsig_update`, of a packet that has the two octets of the id
unfoldable pub tsig_update : Tsig → Buffer → ℕ → Outcome Tsig
tsig_update t b length_ = do
  assert (leb length_ b.limit)
  assert (leb 2 length_)
  t ← hmac_update t (be16 t.original_query_id)
  t ← hmac_update t (take (length_ - 2) (drop 2 b.bytes))
  response ← qr b
  done (record t {
    response_count = if response then t.response_count + 1 else t.response_count;
    updates_since_last_prepare = t.updates_since_last_prepare + 1;
  })

-- `tsig_sign`
unfoldable pub tsig_sign : Tsig → ℕ → Outcome Tsig
tsig_sign t current_time = do
  let t = record t {
    signed_time_high = current_time / 2 ^ 32 % 2 ^ 16;
    signed_time_low = current_time % 2 ^ 32;
    signed_time_fudge = 300;
  }
  t ← tsig_digest_variables t (ltb 1 t.response_count)
  t ← hmac_final t
  done (record t { mac_size = length t.prior_mac_data % 2 ^ 16; mac_data = some t.prior_mac_data })

-- `memcmp` of two runs of as many octets is 0.
unfoldable pub same_octets : List ℕ → List ℕ → Bool
same_octets [] [] = true
same_octets (x ∷ xs) (y ∷ ys) = x == y && same_octets xs ys
same_octets [] (y ∷ ys) = false
same_octets (x ∷ xs) [] = false

-- `tsig_verify`
unfoldable pub tsig_verify : Tsig → Outcome (Bool × Tsig)
tsig_verify t = do
  t ← tsig_digest_variables t (ltb 1 t.response_count)
  t ← hmac_final t
  let wrong : Outcome (Bool × Tsig) = done (false, record t { error_code = tsig_error_badsig })
  if not (t.mac_size == length t.prior_mac_data) then wrong else do
    mac ← octets_of t.mac_data t.mac_size
    if not (same_octets mac t.prior_mac_data) then wrong else done (true, t)

-- The loop of `tsig_from_query` over the table of algorithms
unfoldable pub find_algorithm : List Algorithm → Name → Outcome (Option Algorithm)
find_algorithm [] name = done none
find_algorithm (a ∷ rest) name = do
  c ← dname_compare false name a.wireformat_name
  if is_same c then done (some a) else find_algorithm rest name

-- `current_time` is outside the window, with the sums of 64 bits.
abbrev pub outside_window : ℕ → ℕ → ℕ → Bool
outside_window current_time signed_time fudge =
    ltb current_time ((signed_time + 2 ^ 64 - fudge) % 2 ^ 64)
    || ltb ((signed_time + fudge) % 2 ^ 64) current_time

-- The end of `tsig_from_query`, with key and algorithm found. Both fields of the record are NULL by the
-- assertions at the start, so that they are no other ones.
unfoldable pub check_time : Tsig → Algorithm → Key → ℕ → Bool × Tsig
check_time t algorithm key current_time =
    let signed_time = t.signed_time_high * 2 ^ 32 + t.signed_time_low in
    if outside_window current_time signed_time t.signed_time_fudge
    then (
      false,
      record t {
        error_code = tsig_error_badtime;
        other_size = 6;
        other_data = some (be16 (current_time / 2 ^ 32 % 2 ^ 16) ++ be32 (current_time % 2 ^ 32));
      },
    )
    else (
      true,
      record t {
        algorithm = some algorithm;
        key = some key;
        response_count = 0;
        prior_mac_data = [];
      },
    )

unfoldable pub both_known : Tsig → Option Algorithm → Option Key → ℕ → Bool × Tsig
both_known t (some algorithm) (some key) current_time = check_time t algorithm key current_time
both_known t _ _ current_time = (false, record t { error_code = tsig_error_badkey })

abbrev pub is_null {ℓ} : {A : Type ℓ} → Option A → Bool
is_null none = true
is_null (some a) = false

abbrev pub is_ok : TsigStatus → Bool
is_ok TsigStatus.tsig_ok = true
is_ok _ = false

-- `tsig_from_query`
unfoldable pub tsig_from_query :
    (Name → Option Key) → List Algorithm → Tsig → ℕ → Outcome (Bool × Tsig)
tsig_from_query tsig_find_key tsig_algorithm_table t current_time = do
  assert (is_ok t.status)
  assert (is_null t.algorithm)
  assert (is_null t.key)
  key_name ← deref t.key_name
  algorithm_name ← deref t.algorithm_name
  algorithm ← find_algorithm tsig_algorithm_table algorithm_name
  done (both_known t algorithm (tsig_find_key key_name) current_time)

-- `tsig_init_record`
unfoldable pub tsig_init_record : Tsig → Option Algorithm → Option Key → Tsig
tsig_init_record t algorithm key = record t {
  status = TsigStatus.tsig_not_present;
  error_code = tsig_error_noerror;
  position = 0;
  response_count = 0;
  context = none;
  algorithm = algorithm;
  key = key;
  prior_mac_data = [];
}

-- `tsig_init_query`
pub tsig_init_query : Tsig → ℕ → Outcome Tsig
tsig_init_query t original_query_id = do
  algorithm ← deref t.algorithm
  key ← deref t.key
  done (record t {
    response_count = 0;
    prior_mac_data = [];
    algorithm_name = some algorithm.wireformat_name;
    key_name = some key.name;
    mac_size = 0;
    mac_data = none;
    original_query_id = original_query_id;
    error_code = tsig_error_noerror;
    other_size = 0;
    other_data = none;
  })
