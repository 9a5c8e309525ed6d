-- ===== src/Auth/Tests.antt =====
-- Two operators with an easy bcrypt and codec: the hash of a password is the password.
mod SignIn
mod Startup
use Prim.Native.Char.{code}
use ncn_platform.Base.{
  ℕ, zero, suc, ◌≡◌, ◌≢◌, refl, arith, Bool, true, false, List, [], ◌∷◌, map, none, some, String,
  str_eq, codes, eq_iff, ap, ◌∙◌, all, not, ◌==◌, ◌&&◌, if◌then◌else◌, trim_space, byte_length,
  itoa,
}
use ncn_platform.Base.Dict.{lookup, insert, delete}
use ncn_platform.Auth.Operator.{
  TrustedDevice, OperatorRecord, Operators, Bcrypt, done, records, Filed,
}
use ncn_platform.Auth.Accounts.{operators_delete, operators_update}
use ncn_platform.Auth.Accounts.Admins.{Sound}
use ncn_platform.Auth.Password.{recover_password}
use ncn_platform.Auth.Password.Once.{recover_password_once}
use ncn_platform.Auth.Identity.{bound, bind_identity, find_operator_by_identity}
use ncn_platform.Auth.Identity.Unique.{Unique}
use ncn_platform.Auth.Identity.Found.{find_operator_by_identity-bind_identity}
use ncn_platform.Auth.Devices.{
  register_trusted_device, revoke_device, trusted, panicked, check_device_trust, shifted, NewDevice,
}
use ncn_platform.Auth.Devices.Trust.{check_device_trust-trusted, check_device_trust-panicked}
use ncn_platform.Auth.Devices.Bounds.{Few, devices-Few}
use ncn_platform.Auth.Session.{
  Codec, SessionClaims, IntentClaims, accepted, issue_token, verify_token, verify_login_intent,
}
use ncn_platform.Auth.Session.RoundTrip.{verify_token-issue_token}
use ncn_platform.Auth.Totp.{TotpCrypto, verify_totp, hotp, clean_code}
use ncn_platform.Auth.Totp.Window.{verify_totp-window}
use ncn_platform.Auth.ApiToken.{ApiTokens, recognized, verify_api_token}
use ncn_platform.Auth.ApiToken.Owned.{Owned, verify_api_token-recognized}
use ncn_platform.Auth.Login.{
  Gate, LoginReq, signed_in, handle_login, VerifyReq, verified, handle_login_verify_totp, Visit,
  require_role, require_auth,
}
use ncn_platform.Auth.Login.Safety.{Factor, handle_login-signed_in}
use ncn_platform.Auth.Login.Guards.{
  handle_login_verify_totp-verified, require_role-operators_delete,
}
use ncn_platform.Auth.Calls.{
  Around, Call, call_delete, call_update, call_bind, after_call, after_calls,
}
use ncn_platform.Auth.Calls.Kept.{after_calls-Sound, after_calls-Unique}

abbrev person : String → String → OperatorRecord Unit
person name role = record {
  username = name;
  password_hash = "secret12";
  totp_secret = "";
  role = role;
  created_at = "t0";
  recovery_codes = "AAAA" ∷ "BBBB" ∷ [];
  passkeys = [];
  trusted_devices = [];
  approved = true;
  invited_by = "";
  invited_at = "";
  approved_at = "t0";
  ssh_keys = [];
  external_identities = [];
  bot_nick = "";
  avatar_url = "";
}

abbrev team : Operators Unit
team = ("ann", person "ann" "admin") ∷ ("bob", person "bob" "operator") ∷ []

abbrev easy : Bcrypt
easy = record {
  compare_hash = λ hash password. str_eq hash password;
  generate = λ password. some password;
}

abbrev same_text : String → String
same_text s = s

team-Sound : Sound team
unfolding Filed lookup
team-Sound = ((refl, refl, (refl, refl, tt)), omega arith)

abbrev around : Around
around = record {
  bcrypt = easy;
  upper = same_text;
  check_totp = λ secret code. str_eq secret code;
  stamp = "t1";
  now = 9000000;
  persisted = false;
}

abbrev busy : List (Around × Call)
busy =
    (around, call_delete "bob" "ann")
    ∷ (around, call_update "bob" "admin")
    ∷ (around, call_update "ann" "operator")
    ∷ (around, call_bind "bob" "github" "42" "b@x")
    ∷ []

after_calls-Sound_example : Sound (after_calls busy team)
after_calls-Sound_example = after_calls-Sound busy team team-Sound

-- `ann` stays an admin all along, and `bob` became one.
roles_after : map (λ op. op.role) (records (after_calls busy team)) ≡ "operator" ∷ "admin" ∷ []
unfolding after_calls after_call operators_delete operators_update bind_identity lookup insert
    trim_space
roles_after = refl

team-Unique : Unique team
unfolding lookup
team-Unique provider subject n m e a b = ground (arith, eq_iff "ann" n, eq_iff "bob" n)

after_calls-Unique_example : Unique (after_calls busy team)
after_calls-Unique_example = after_calls-Unique busy team team-Unique

binds : (bind_identity true "t1" "bob" "github" "42" "b@x" team).1 ≡ bound
unfolding bind_identity lookup
binds = refl

find_operator_by_identity-bind_identity_example :
    find_operator_by_identity "github" "42"
      (bind_identity true "t1" "bob" "github" "42" "b@x" team).0
    ≡ some "bob"
find_operator_by_identity-bind_identity_example =
    find_operator_by_identity-bind_identity true "t1" "bob" "github" "42" "b@x" team team-Sound.0
      team-Unique binds

reset : (recover_password easy same_text true "ann" "AAAA" "newsecret" team).1 ≡ done
unfolding recover_password lookup byte_length trim_space
reset = refl

recover_password_once_example :
    (recover_password easy same_text true "ann" "AAAA" "othersecret"
      (recover_password easy same_text true "ann" "AAAA" "newsecret" team).0).1
    ≢ done
unfolding lookup trim_space
recover_password_once_example =
    recover_password_once easy same_text true true "ann" "AAAA" "newsecret" "othersecret"
      (person "ann" "admin") team refl refl reset

-- A device that was seen too long ago, and one that was seen a second ago.
abbrev device : String → ℕ → TrustedDevice
device hash at = record {
  id = hash;
  hash = hash;
  label = "";
  user_agent = "";
  created_at = at;
  last_seen_at = at;
  last_seen_ip = "";
}

abbrev carrying : List TrustedDevice → OperatorRecord Unit
carrying ds = record (person "ann" "admin") { trusted_devices = ds }

check_device_trust-trusted_example :
    check_device_trust easy 9000000 "tok" "ip" "ann"
      (("ann", carrying (device "tok" 8999999 ∷ device "old" 1 ∷ [])) ∷ [])
    ≡ (
      insert "ann"
          (carrying
            (record (device "tok" 8999999) { last_seen_at = 9000000; last_seen_ip = "ip" } ∷ []))
          (("ann", carrying (device "tok" 8999999 ∷ device "old" 1 ∷ [])) ∷ []),
      trusted,
    )
unfolding lookup
check_device_trust-trusted_example =
    check_device_trust-trusted easy 9000000 "tok" "ip" "ann"
      (carrying (device "tok" 8999999 ∷ device "old" 1 ∷ []))
      (("ann", carrying (device "tok" 8999999 ∷ device "old" 1 ∷ [])) ∷ []) [] (device "old" 1 ∷ [])
      (device "tok" 8999999) refl refl refl tt tt refl

check_device_trust-panicked_example :
    (check_device_trust easy 9000000 "tok" "ip" "ann"
      (("ann", carrying (device "old" 1 ∷ device "tok" 8999999 ∷ [])) ∷ [])).1
    ≡ panicked
unfolding lookup
check_device_trust-panicked_example =
    check_device_trust-panicked easy 9000000 "tok" "ip" "ann"
      (carrying (device "old" 1 ∷ device "tok" 8999999 ∷ []))
      (("ann", carrying (device "old" 1 ∷ device "tok" 8999999 ∷ [])) ∷ []) (device "old" 1 ∷ []) []
      (device "tok" 8999999) refl refl refl (refl, tt) refl (omega arith)

-- A cookie that matches nothing leaves the last device twice.
shifted_twice :
    shifted 9000000 (device "old" 1 ∷ device "tok" 8999999 ∷ [])
    ≡ device "tok" 8999999 ∷ device "tok" 8999999 ∷ []
unfolding shifted
shifted_twice = refl

abbrev new_device : NewDevice
new_device = record { token = some "tok"; id = some "d1"; label = ""; user_agent = ""; ip = "" }

team-Few : Few team
unfolding lookup
team-Few name = ground arith

devices-Few_example :
    Few (register_trusted_device easy true 100 new_device "ann" team).0
    × Few (check_device_trust easy 100 "tok" "ip" "ann" team).0
    × Few (revoke_device true "ann" "d1" team).0
devices-Few_example = devices-Few easy true 100 new_device "tok" "ip" "ann" "d1" team team-Few
