-- ===== src/Auth/Devices.antt =====
-- core-console/backend/auth.go: the browsers that an operator trusts. The clock is read once where the
-- source reads it twice in a row. A slice that is filtered in place shares its array with the record in
-- the map; `shifted` is what this record sees after.
pub mod Bounds
pub mod Trust
pub mod Edits
use ncn_platform.Base.{
  ℕ, suc, zero, ◌+◌, ◌-◌, Bool, true, false, not, ◌||◌, ◌==◌, ltb, leb, List, [], ◌∷◌, ◌++◌, Option,
  none, some, String, str_eq, if◌then◌else◌, keep, length, drop, trim_space, any,
}
use ncn_platform.Base.Dict.{lookup, insert}
use ncn_platform.Auth.Operator.{
  TrustedDevice, OperatorRecord, Operators, Bcrypt, Answer, bad_request, unauthorized, server_error,
  done, written,
}

-- `deviceTrustTTL` in seconds.
abbrev pub device_trust_ttl : ℕ
device_trust_ttl = 7776000

abbrev pub max_trusted_devices : ℕ
max_trusted_devices = 16

-- `d.LastSeenAt >= cutoff`.
abbrev pub is_fresh : ℕ → TrustedDevice → Bool
is_fresh now d = leb now (d.last_seen_at + device_trust_ttl)

pub data TrustOutcome : Type 0 where
  untrusted trusted panicked : TrustOutcome

abbrev suc_some : Option ℕ → Option ℕ
suc_some none = none
suc_some (some i) = some (suc i)

-- The array after the fresh entries were written to its front.
unfoldable pub shifted : ℕ → List TrustedDevice → List TrustedDevice
shifted now ds = let pruned = keep (is_fresh now) ds in pruned ++ drop (length pruned) ds

abbrev cons_some : TrustedDevice → Option (List TrustedDevice) → Option (List TrustedDevice)
cons_some d none = none
cons_some d (some l) = some (d ∷ l)

-- The element of an index that is changed; none where the index is out of range.
change_at : (TrustedDevice → TrustedDevice) → ℕ → List TrustedDevice → Option (List TrustedDevice)
change_at f i [] = none
change_at f zero (d ∷ ds) = some (f d ∷ ds)
change_at f (suc i) (d ∷ ds) = cons_some d (change_at f i ds)

-- `sort.Slice` by `LastSeenAt <`. Of two that were seen at one time it leaves the order open.
insert_by_seen : TrustedDevice → List TrustedDevice → List TrustedDevice
insert_by_seen d [] = d ∷ []
insert_by_seen d (e ∷ es) =
    if ltb e.last_seen_at d.last_seen_at then e ∷ insert_by_seen d es else d ∷ e ∷ es

pub sort_by_seen : List TrustedDevice → List TrustedDevice
unfolding insert_by_seen
sort_by_seen [] = []
sort_by_seen (d ∷ ds) = insert_by_seen d (sort_by_seen ds)

-- The cap: the entries that were seen last stay.
unfoldable pub cap_devices : List TrustedDevice → List TrustedDevice
unfolding sort_by_seen
cap_devices ds =
    if ltb max_trusted_devices (length ds)
    then drop (length ds - max_trusted_devices) (sort_by_seen ds)
    else ds

abbrev seen_now : ℕ → String → TrustedDevice → TrustedDevice
seen_now now ip d = record d { last_seen_at = now; last_seen_ip = ip }

module _ (b : Bcrypt) where
  -- The index of the first fresh entry whose hash is the cookie's.
  match_index : ℕ → String → List TrustedDevice → Option ℕ
  match_index now cookie [] = none
  match_index now cookie (d ∷ ds) =
      let rest = suc_some (match_index now cookie ds) in
      if not (is_fresh now d) then rest else if b.compare_hash d.hash cookie then some 0 else rest

  module _ {K : Type 0} where
    abbrev with_devices : String → OperatorRecord K → List TrustedDevice → Operators K → Operators K
    with_devices username op ds ops = insert username (record op { trusted_devices = ds }) ops

    -- The index was found in the slice before it was pruned and is used on the pruned one.
    bump :
        ℕ
        → String
        → OperatorRecord K
        → Option (List TrustedDevice)
        → Operators K
        → Operators K × TrustOutcome
    bump now username op none ops =
        (with_devices username op (shifted now op.trusted_devices) ops, panicked)
    bump now username op (some ds) ops = (with_devices username op ds ops, trusted)

    -- Where nothing matches, the test for a shorter slice compares the pruned slice with itself.
    settle :
        ℕ → String → String → OperatorRecord K → Option ℕ → Operators K → Operators K × TrustOutcome
    unfolding bump change_at
    settle now ip username op none ops =
        (with_devices username op (shifted now op.trusted_devices) ops, untrusted)
    settle now ip username op (some i) ops =
        bump now username op
          (change_at (seen_now now ip) i (keep (is_fresh now) op.trusted_devices)) ops

    check_found :
        ℕ
        → String
        → String
        → String
        → Option (OperatorRecord K)
        → Operators K
        → Operators K × TrustOutcome
    unfolding settle match_index
    check_found now cookie ip username none ops = (ops, untrusted)
    check_found now cookie ip username (some op) ops =
        if length op.trusted_devices == 0
        then (ops, untrusted)
        else settle now ip username op (match_index now cookie op.trusted_devices) ops

    -- `checkDeviceTrust`; the cookie is empty where the request has none.
    unfoldable pub check_device_trust :
        ℕ → (cookie ip username : String) → Operators K → Operators K × TrustOutcome
    unfolding check_found
    check_device_trust now cookie ip username ops =
        if str_eq cookie ""
        then (ops, untrusted)
        else check_found now cookie ip username (lookup username ops) ops

-- The hash of the token, if there is a token.
abbrev hash_of : Bcrypt → Option String → Option String
hash_of b none = none
hash_of b (some token) = b.generate token

-- What a new device is made of: the random token and ID, each of which can fail, and the request's
-- label, user agent and address.
pub record NewDevice : Type 0 where
  pub token : Option String
  pub id : Option String
  pub label : String
  pub user_agent : String
  pub ip : String

module _ {K : Type 0} where
  register_found :
      Bool → String → TrustedDevice → Option (OperatorRecord K) → Operators K → Operators K × Bool
  register_found persisted username d none ops = (ops, false)
  register_found persisted username d (some op) ops = (
    insert username (record op { trusted_devices = cap_devices (op.trusted_devices ++ d ∷ []) })
        ops,
    persisted,
  )

  register_hashed :
      Bool
      → ℕ
      → NewDevice
      → String
      → Option String
      → Option String
      → Operators K
      → Operators K × Bool
  unfolding register_found
  register_hashed persisted now n username none id ops = (ops, false)
  register_hashed persisted now n username (some hash) none ops = (ops, false)
  register_hashed persisted now n username (some hash) (some id) ops =
      register_found persisted username
        (record {
          id = id;
          hash = hash;
          label = n.label;
          user_agent = n.user_agent;
          created_at = now;
          last_seen_at = now;
          last_seen_ip = n.ip;
        })
        (lookup username ops) ops

  -- `registerTrustedDevice`; the answer is whether it returned no error.
  unfoldable pub register_trusted_device :
      Bcrypt → Bool → ℕ → NewDevice → String → Operators K → Operators K × Bool
  unfolding register_hashed
  register_trusted_device b persisted now n username ops =
      register_hashed persisted now n username (hash_of b n.token) n.id ops

  revoke_found :
      Bool → String → String → Option (OperatorRecord K) → Operators K → Operators K × Answer
  revoke_found persisted caller id none ops = (ops, unauthorized)
  revoke_found persisted caller id (some op) ops = (
    insert caller
        (record op { trusted_devices = keep (λ d. not (str_eq d.id id)) op.trusted_devices }) ops,
    written persisted,
  )

  -- `handleRevokeDevice` by the caller.
  unfoldable pub revoke_device : Bool → (caller id : String) → Operators K → Operators K × Answer
  unfolding revoke_found
  revoke_device persisted caller id ops =
      let d = trim_space id in
      if str_eq d ""
      then (ops, bad_request)
      else revoke_found persisted caller d (lookup caller ops) ops
