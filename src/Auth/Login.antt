-- ===== src/Auth/Login.antt =====
-- core-console/backend/auth.go: `handleLogin`, `handleLoginVerifyTOTP`, `requireAuth` and `requireRole`
-- on a decoded request. The test that a visitor is human and the API tokens are arguments; a request
-- reads the clock once.
pub mod Safety
pub mod Guards
use ncn_platform.Base.{
  ℕ, zero, Bool, true, false, not, ◌&&◌, ◌==◌, List, [], ◌∷◌, Option, none, some, String, str_eq,
  if◌then◌else◌, length, trim_space,
}
use ncn_platform.Base.Dict.{lookup}
use ncn_platform.Auth.Operator.{OperatorRecord, Operators, Bcrypt}
use ncn_platform.Auth.Devices.{
  TrustOutcome, untrusted, trusted, panicked, NewDevice, check_device_trust,
  register_trusted_device,
}
use ncn_platform.Auth.Session.{
  Codec, SessionClaims, IntentClaims, TokenVerdict, malformed, bad_signature, undecodable, expired,
  accepted, issue_token, issue_login_intent, verify_login_intent, verify_token,
}
use ncn_platform.Auth.Totp.{TotpCrypto, verify_totp}

-- What the sign-in takes from outside, and the server's secret.
pub record Gate : Type 0 where
  pub bcrypt : Bcrypt
  pub totp : TotpCrypto
  pub codec : Codec
  pub secret : List ℕ

-- A decoded request with its cookie and address, the answer of the test for a human, the random bytes,
-- and the clock.
pub record LoginReq : Type 0 where
  pub username : String
  pub password : String
  pub totp_code : String
  pub is_human : Bool
  pub device_cookie : String
  pub address : String
  pub random : Option (List ℕ)
  pub now : ℕ

pub data LoginError : Type 0 where
  bad_credentials totp_invalid passkey_only pending_approval not_human : LoginError

pub data LoginReply (K : Type 0) : Type 0 where
  rejected : LoginError → LoginReply K
  issuance_failed : LoginReply K
  totp_required : String → LoginReply K
  signed_in : OperatorRecord K → String → LoginReply K
  crashed : LoginReply K

module _ {K : Type 0} (g : Gate) where
  -- `issueAndSetSession`.
  session_reply : OperatorRecord K → Option String → LoginReply K
  session_reply op none = issuance_failed
  session_reply op (some token) = signed_in op token

  issue_session : LoginReq → OperatorRecord K → LoginReply K
  unfolding session_reply
  issue_session r op = session_reply op (issue_token g.codec g.secret r.now r.random op.username)

  intent_reply : Option String → LoginReply K
  intent_reply none = issuance_failed
  intent_reply (some token) = totp_required token

  -- After the check of the device.
  second_step :
      LoginReq → OperatorRecord K → Operators K × TrustOutcome → Operators K × LoginReply K
  unfolding issue_session intent_reply
  second_step r op (ops, trusted) = (ops, issue_session r op)
  second_step r op (ops, panicked) = (ops, crashed)
  second_step r op (ops, untrusted) =
      (ops, intent_reply (issue_login_intent g.codec g.secret r.now r.random r.username))

  -- The branch with TOTP: a code in the same request, or the check of the device.
  with_totp : LoginReq → OperatorRecord K → Operators K → Operators K × LoginReply K
  unfolding second_step issue_session
  with_totp r op ops =
      if not op.approved
      then (ops, rejected pending_approval)
      else if not (str_eq (trim_space r.totp_code) "")
      then (
        ops,
        (if verify_totp g.totp op.totp_secret r.totp_code r.now
            then issue_session r op
            else rejected totp_invalid),
      )
      else second_step r op
          (check_device_trust g.bcrypt r.now r.device_cookie r.address r.username ops)

  -- The branches on the state of the account.
  by_factors : LoginReq → OperatorRecord K → Operators K → Operators K × LoginReply K
  unfolding with_totp issue_session
  by_factors r op ops =
      if str_eq op.totp_secret ""
      then (
        ops,
        (if length op.passkeys == 0
            then if op.approved then issue_session r op else rejected pending_approval
            else rejected passkey_only),
      )
      else with_totp r op ops

  login_found : LoginReq → Option (OperatorRecord K) → Operators K → Operators K × LoginReply K
  unfolding by_factors
  login_found r none ops = (ops, rejected bad_credentials)
  login_found r (some op) ops =
      if g.bcrypt.compare_hash op.password_hash r.password
      then by_factors r op ops
      else (ops, rejected bad_credentials)

  unfoldable pub handle_login : LoginReq → Operators K → Operators K × LoginReply K
  unfolding login_found
  handle_login r ops =
      if not r.is_human
      then (ops, rejected not_human)
      else login_found r (lookup r.username ops) ops

-- The second step: the cookie with the ticket, empty where there is none, the code, and the device to
-- remember.
pub record VerifyReq : Type 0 where
  pub intent_cookie : String
  pub totp_code : String
  pub trust_device : Option NewDevice
  pub persisted : Bool
  pub random : Option (List ℕ)
  pub now : ℕ

pub data VerifyReply (K : Type 0) : Type 0 where
  no_intent intent_expired account_changed code_mismatch session_failed : VerifyReply K
  verified : OperatorRecord K → String → VerifyReply K

module _ {K : Type 0} (g : Gate) where
  remember : VerifyReq → String → Option NewDevice → Operators K → Operators K
  remember r username none ops = ops
  remember r username (some d) ops =
      (register_trusted_device g.bcrypt r.persisted r.now d username ops).0

  verified_reply : OperatorRecord K → Option String → VerifyReply K
  verified_reply op none = session_failed
  verified_reply op (some token) = verified op token

  -- The record from before the device was remembered is the one signed in.
  verify_found :
      VerifyReq → String → Option (OperatorRecord K) → Operators K → Operators K × VerifyReply K
  unfolding remember verified_reply
  verify_found r username none ops = (ops, account_changed)
  verify_found r username (some op) ops =
      if str_eq op.totp_secret ""
      then (ops, account_changed)
      else if not (verify_totp g.totp op.totp_secret r.totp_code r.now)
      then (ops, code_mismatch)
      else (
        remember r username r.trust_device ops,
        verified_reply op (issue_token g.codec g.secret r.now r.random op.username),
      )

  verify_intent : VerifyReq → TokenVerdict IntentClaims → Operators K → Operators K × VerifyReply K
  unfolding verify_found
  verify_intent r (accepted c) ops = verify_found r c.sub (lookup c.sub ops) ops
  verify_intent r malformed ops = (ops, intent_expired)
  verify_intent r bad_signature ops = (ops, intent_expired)
  verify_intent r undecodable ops = (ops, intent_expired)
  verify_intent r expired ops = (ops, intent_expired)

  unfoldable pub handle_login_verify_totp : VerifyReq → Operators K → Operators K × VerifyReply K
  unfolding verify_intent
  handle_login_verify_totp r ops =
      if str_eq r.intent_cookie ""
      then (ops, no_intent)
      else verify_intent r (verify_login_intent g.codec g.secret r.now r.intent_cookie) ops

-- A request behind the guards: the API token of its header, if it has one, the cookie of the session,
-- empty where there is none, and the clock.
pub record Visit : Type 0 where
  pub bearer : Option String
  pub session_cookie : String
  pub now : ℕ

module _ (g : Gate) (verify_api_token : String → Option SessionClaims) where
  claims_of : TokenVerdict SessionClaims → Option SessionClaims
  claims_of (accepted c) = some c
  claims_of malformed = none
  claims_of bad_signature = none
  claims_of undecodable = none
  claims_of expired = none

  cookie_claims : ℕ → String → Option SessionClaims
  unfolding claims_of
  cookie_claims now cookie =
      if str_eq cookie "" then none else claims_of (verify_token g.codec g.secret now cookie)

  auth_by : Option String → ℕ → String → Option SessionClaims
  unfolding cookie_claims
  auth_by (some token) now cookie = verify_api_token token
  auth_by none now cookie = cookie_claims now cookie

  -- The claims with which `requireAuth` calls the handler.
  unfoldable pub require_auth : Visit → Option SessionClaims
  unfolding auth_by
  require_auth v = auth_by v.bearer v.now v.session_cookie

  module _ {K : Type 0} where
    role_is : String → Option (OperatorRecord K) → Bool
    role_is role none = false
    role_is role (some op) = str_eq op.role role

    allow_role : String → Operators K → Option SessionClaims → Option SessionClaims
    unfolding role_is
    allow_role role ops none = none
    allow_role role ops (some c) = if role_is role (lookup c.sub ops) then some c else none

    -- The claims with which `requireRole` calls the handler.
    unfoldable pub require_role : String → Visit → Operators K → Option SessionClaims
    unfolding allow_role
    require_role role v ops = allow_role role ops (require_auth v)
