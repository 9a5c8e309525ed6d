-- ===== src/Auth/Devices/Edits.antt =====
-- The requests about trusted devices change one record, and neither its name, its role nor its
-- identities.
use ncn_platform.Base.{
  ℕ, Bool, Option, none, some, String, List, str_eq, ◌≡◌, refl, ◌==◌, length, trim_space, if_cases,
  keep,
}
use ncn_platform.Base.Dict.{lookup}
use ncn_platform.Auth.Operator.{OperatorRecord, Operators, Bcrypt, Answer, TrustedDevice}
use ncn_platform.Auth.Operator.Filing.{Editable}
use ncn_platform.Auth.Devices.{
  TrustOutcome, is_fresh, seen_now, change_at, bump, settle, match_index, check_found,
  check_device_trust, NewDevice, hash_of, register_found, register_hashed, register_trusted_device,
  revoke_found, revoke_device,
}

module _ {K : Type 0} (P : Operators K → Type 0) (edit : Editable P) where
  bump-kept :
      (b : Bcrypt) (now : ℕ) (name : String) (op : OperatorRecord K)
      (o : Option (List TrustedDevice)) (ops : Operators K)
      → lookup name ops ≡ some op
      → P ops
      → P (bump b now name op o ops).0
  unfolding bump
  bump-kept b now name op none ops f k = edit name op _ ops f refl refl refl k
  bump-kept b now name op (some ds) ops f k = edit name op _ ops f refl refl refl k

  settle-kept :
      (b : Bcrypt) (now : ℕ) (ip name : String) (op : OperatorRecord K) (o : Option ℕ)
      (ops : Operators K)
      → lookup name ops ≡ some op
      → P ops
      → P (settle b now ip name op o ops).0
  unfolding settle
  settle-kept b now ip name op none ops f k = edit name op _ ops f refl refl refl k
  settle-kept b now ip name op (some i) ops f k =
      bump-kept b now name op
        (change_at (seen_now now ip) i (keep (is_fresh now) op.trusted_devices)) ops f k

  check_found-kept :
      (b : Bcrypt) (now : ℕ) (cookie ip name : String) (o : Option (OperatorRecord K))
      (ops : Operators K)
      → lookup name ops ≡ o
      → P ops
      → P (check_found b now cookie ip name o ops).0
  unfolding check_found
  check_found-kept b now cookie ip name none ops f k = k
  check_found-kept b now cookie ip name (some op) ops f k =
      if_cases (λ (r : Operators K × TrustOutcome). P r.0) (length op.trusted_devices == 0) _ _
        (λ _. k)
        (λ _. settle-kept b now ip name op (match_index b now cookie op.trusted_devices) ops f k)

  pub check_device_trust-kept :
      (b : Bcrypt) (now : ℕ) (cookie ip name : String) (ops : Operators K)
      → P ops
      → P (check_device_trust b now cookie ip name ops).0
  unfolding check_device_trust
  check_device_trust-kept b now cookie ip name ops k =
      if_cases (λ (r : Operators K × TrustOutcome). P r.0) (str_eq cookie "") _ _ (λ _. k)
        (λ _. check_found-kept b now cookie ip name (lookup name ops) ops refl k)

  register_found-kept :
      (p : Bool) (name : String) (d : TrustedDevice) (o : Option (OperatorRecord K))
      (ops : Operators K)
      → lookup name ops ≡ o
      → P ops
      → P (register_found p name d o ops).0
  unfolding register_found
  register_found-kept p name d none ops f k = k
  register_found-kept p name d (some op) ops f k = edit name op _ ops f refl refl refl k

  register_hashed-kept :
      (p : Bool) (now : ℕ) (n : NewDevice) (name : String) (h id : Option String)
      (ops : Operators K)
      → P ops
      → P (register_hashed p now n name h id ops).0
  unfolding register_hashed
  register_hashed-kept p now n name none id ops k = k
  register_hashed-kept p now n name (some h) none ops k = k
  register_hashed-kept p now n name (some h) (some id) ops k =
      register_found-kept p name _ (lookup name ops) ops refl k

  pub register_trusted_device-kept :
      (b : Bcrypt) (p : Bool) (now : ℕ) (n : NewDevice) (name : String) (ops : Operators K)
      → P ops
      → P (register_trusted_device b p now n name ops).0
  unfolding register_trusted_device
  register_trusted_device-kept b p now n name ops k =
      register_hashed-kept p now n name (hash_of b n.token) n.id ops k

  revoke_found-kept :
      (p : Bool) (caller id : String) (o : Option (OperatorRecord K)) (ops : Operators K)
      → lookup caller ops ≡ o
      → P ops
      → P (revoke_found p caller id o ops).0
  unfolding revoke_found
  revoke_found-kept p caller id none ops f k = k
  revoke_found-kept p caller id (some op) ops f k = edit caller op _ ops f refl refl refl k

  pub revoke_device-kept :
      (p : Bool) (caller id : String) (ops : Operators K)
      → P ops
      → P (revoke_device p caller id ops).0
  unfolding revoke_device
  revoke_device-kept p caller id ops k =
      if_cases (λ (r : Operators K × Answer). P r.0) (str_eq (trim_space id) "") _ _ (λ _. k)
        (λ _. revoke_found-kept p caller (trim_space id) (lookup caller ops) ops refl k)
