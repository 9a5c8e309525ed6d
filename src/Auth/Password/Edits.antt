-- ===== src/Auth/Password/Edits.antt =====
-- The requests about passwords and TOTP change one record, and neither its name, its role nor its
-- identities.
use ncn_platform.Base.{
  Bool, Option, none, some, String, str_eq, ◌≡◌, refl, ltb, not, ◌||◌, ◌==◌, any, length,
  byte_length, trim_space, if_cases,
}
use ncn_platform.Base.Dict.{lookup}
use ncn_platform.Auth.Operator.{OperatorRecord, Operators, Bcrypt, Answer}
use ncn_platform.Auth.Operator.Filing.{Editable}
use ncn_platform.Auth.Password.{
  reset_to, recover_found, recover_password, set_hash, change_found, change_password, enrol_found,
  totp_setup_confirm,
}

module _ {K : Type 0} (P : Operators K → Type 0) (edit : Editable P) where
  abbrev Kept : Operators K × Answer → Type 0
  Kept r = P r.0

  reset_to-kept :
      (b : Bcrypt) (p : Bool) (name code : String) (op : OperatorRecord K) (h : Option String)
      (ops : Operators K)
      → lookup name ops ≡ some op
      → P ops
      → P (reset_to b p name code op h ops).0
  unfolding reset_to
  reset_to-kept b p name code op none ops f k = k
  reset_to-kept b p name code op (some h) ops f k = edit name op _ ops f refl refl refl k

  recover_found-kept :
      (b : Bcrypt) (p : Bool) (name code password : String) (o : Option (OperatorRecord K))
      (ops : Operators K)
      → lookup name ops ≡ o
      → P ops
      → P (recover_found b p name code password o ops).0
  unfolding recover_found
  recover_found-kept b p name code password none ops f k = k
  recover_found-kept b p name code password (some op) ops f k =
      if_cases Kept (length op.recovery_codes == 0) _ _ (λ _. k)
        (λ _.
          if_cases Kept (any (λ h. b.compare_hash h code) op.recovery_codes) _ _
            (λ _. reset_to-kept b p name code op (b.generate password) ops f k) (λ _. k))

  pub recover_password-kept :
      (b : Bcrypt) (upper : String → String) (p : Bool)
      (username recovery_code new_password : String) (ops : Operators K)
      → P ops
      → P (recover_password b upper p username recovery_code new_password ops).0
  unfolding recover_password
  recover_password-kept b upper p username recovery_code new_password ops k =
      if_cases Kept (ltb (byte_length new_password) 8) _ _ (λ _. k)
        (λ _.
          recover_found-kept b p (trim_space username) (upper (trim_space recovery_code))
            new_password (lookup (trim_space username) ops) ops refl k)

  set_hash-kept :
      (b : Bcrypt) (p : Bool) (name : String) (op : OperatorRecord K) (h : Option String)
      (ops : Operators K)
      → lookup name ops ≡ some op
      → P ops
      → P (set_hash b p name op h ops).0
  unfolding set_hash
  set_hash-kept b p name op none ops f k = k
  set_hash-kept b p name op (some h) ops f k = edit name op _ ops f refl refl refl k

  change_found-kept :
      (b : Bcrypt) (p : Bool) (caller current password : String) (o : Option (OperatorRecord K))
      (ops : Operators K)
      → lookup caller ops ≡ o
      → P ops
      → P (change_found b p caller current password o ops).0
  unfolding change_found
  change_found-kept b p caller current password none ops f k = k
  change_found-kept b p caller current password (some op) ops f k =
      if_cases Kept (b.compare_hash op.password_hash current) _ _
        (λ _. set_hash-kept b p caller op (b.generate password) ops f k) (λ _. k)

  pub change_password-kept :
      (b : Bcrypt) (p : Bool) (caller current new_password : String) (ops : Operators K)
      → P ops
      → P (change_password b p caller current new_password ops).0
  unfolding change_password
  change_password-kept b p caller current new_password ops k =
      if_cases Kept (ltb (byte_length new_password) 8 || str_eq current new_password) _ _ (λ _. k)
        (λ _. change_found-kept b p caller current new_password (lookup caller ops) ops refl k)

  enrol_found-kept :
      (p : Bool) (caller secret : String) (o : Option (OperatorRecord K)) (ops : Operators K)
      → lookup caller ops ≡ o
      → P ops
      → P (enrol_found p caller secret o ops).0
  unfolding enrol_found
  enrol_found-kept p caller secret none ops f k = k
  enrol_found-kept p caller secret (some op) ops f k = edit caller op _ ops f refl refl refl k

  pub totp_setup_confirm-kept :
      (check_totp : String → String → Bool) (p : Bool) (caller secret code : String)
      (ops : Operators K)
      → P ops
      → P (totp_setup_confirm check_totp p caller secret code ops).0
  unfolding totp_setup_confirm
  totp_setup_confirm-kept check_totp p caller secret code ops k =
      if_cases Kept
        ((str_eq (trim_space secret) "" || str_eq (trim_space code) "")
          || not (check_totp (trim_space secret) (trim_space code)))
        _ _ (λ _. k)
        (λ _. enrol_found-kept p caller (trim_space secret) (lookup caller ops) ops refl k)
