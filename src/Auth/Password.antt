-- ===== src/Auth/Password.antt =====
-- core-console/backend/auth.go: a password that is changed or reset, and the enrolment of TOTP.
pub mod Edits
pub mod Once
use ncn_platform.Base.{
  Bool, true, not, ◌&&◌, ◌||◌, ◌==◌, ltb, List, [], ◌∷◌, Option, none, some, String, str_eq,
  if◌then◌else◌, any, length, byte_length, trim_space,
}
use ncn_platform.Base.Dict.{lookup, insert}
use ncn_platform.Auth.Operator.{
  OperatorRecord, Operators, Bcrypt, Answer, bad_request, unauthorized, forbidden, server_error,
  written,
}

-- The slice of codes without the first that the test takes.
unfoldable pub drop_match : (String → Bool) → List String → List String
drop_match p [] = []
drop_match p (h ∷ hs) = if p h then hs else h ∷ drop_match p hs

module _ {K : Type 0} (b : Bcrypt) where
  reset_to :
      Bool → String → String → OperatorRecord K → Option String → Operators K → Operators K × Answer
  reset_to persisted name code op none ops = (ops, server_error)
  reset_to persisted name code op (some hash) ops = (
    insert name
        (record op {
          password_hash = hash;
          recovery_codes = drop_match (λ h. b.compare_hash h code) op.recovery_codes;
        })
        ops,
    written persisted,
  )

  recover_found :
      Bool
      → String
      → String
      → String
      → Option (OperatorRecord K)
      → Operators K
      → Operators K × Answer
  unfolding reset_to
  recover_found persisted name code password none ops = (ops, unauthorized)
  recover_found persisted name code password (some op) ops =
      if length op.recovery_codes == 0
      then (ops, forbidden)
      else if any (λ h. b.compare_hash h code) op.recovery_codes
      then reset_to persisted name code op (b.generate password) ops
      else (ops, unauthorized)

  -- `handleRecoverPassword`; `upper` is `strings.ToUpper`.
  unfoldable pub recover_password :
      (upper : String → String)
      → Bool
      → (username recovery_code new_password : String) → Operators K
      → Operators K × Answer
  unfolding recover_found
  recover_password upper persisted username recovery_code new_password ops =
      let name = trim_space username in
      if ltb (byte_length new_password) 8
      then (ops, bad_request)
      else recover_found persisted name (upper (trim_space recovery_code)) new_password
          (lookup name ops) ops

  set_hash : Bool → String → OperatorRecord K → Option String → Operators K → Operators K × Answer
  set_hash persisted name op none ops = (ops, server_error)
  set_hash persisted name op (some hash) ops =
      (insert name (record op { password_hash = hash }) ops, written persisted)

  change_found :
      Bool
      → String
      → String
      → String
      → Option (OperatorRecord K)
      → Operators K
      → Operators K × Answer
  unfolding set_hash
  change_found persisted caller current password none ops = (ops, unauthorized)
  change_found persisted caller current password (some op) ops =
      if b.compare_hash op.password_hash current
      then set_hash persisted caller op (b.generate password) ops
      else (ops, unauthorized)

  -- `handleChangePassword` by the caller.
  unfoldable pub change_password :
      Bool → (caller current new_password : String) → Operators K → Operators K × Answer
  unfolding change_found
  change_password persisted caller current new_password ops =
      if ltb (byte_length new_password) 8 || str_eq current new_password
      then (ops, bad_request)
      else change_found persisted caller current new_password (lookup caller ops) ops

module _ {K : Type 0} where
  enrol_found :
      Bool → String → String → Option (OperatorRecord K) → Operators K → Operators K × Answer
  enrol_found persisted caller secret none ops = (ops, unauthorized)
  enrol_found persisted caller secret (some op) ops =
      (insert caller (record op { totp_secret = secret }) ops, written persisted)

  -- `handleTOTPSetupConfirm` by the caller; `check_totp` is `verifyTOTP` at the time.
  unfoldable pub totp_setup_confirm :
      (check_totp : String → String → Bool)
      → Bool
      → (caller secret code : String) → Operators K
      → Operators K × Answer
  unfolding enrol_found
  totp_setup_confirm check_totp persisted caller secret code ops =
      let s = trim_space secret in
      let c = trim_space code in
      if (str_eq s "" || str_eq c "") || not (check_totp s c)
      then (ops, bad_request)
      else enrol_found persisted caller s (lookup caller ops) ops
