-- ===== src/Auth/Calls.antt =====
-- core-console/backend/auth.go: the requests that change the operators, as the steps of one state.
pub mod Kept
use ncn_platform.Base.{ℕ, Bool, List, [], ◌∷◌, Option, String}
use ncn_platform.Auth.Operator.{Operators, Bcrypt}
use ncn_platform.Auth.Accounts.{
  CreateReq, Fresh, operators_create, operators_delete, operators_update,
}
use ncn_platform.Auth.Password.{recover_password, change_password, totp_setup_confirm}
use ncn_platform.Auth.Identity.{
  bind_identity, unbind_identity, touch_identity, set_avatar, set_bot_nick,
}
use ncn_platform.Auth.Devices.{
  NewDevice, register_trusted_device, check_device_trust, revoke_device,
}

-- What every request meets: bcrypt, `strings.ToUpper`, `verifyTOTP` at the time, the formatted time and
-- the seconds, and whether the write succeeds.
pub record Around : Type 0 where
  pub bcrypt : Bcrypt
  pub upper : String → String
  pub check_totp : String → String → Bool
  pub stamp : String
  pub now : ℕ
  pub persisted : Bool

pub data Call : Type 0 where
  call_create : CreateReq → Fresh → Call
  call_delete : (caller username : String) → Call
  call_update : (username role : String) → Call
  call_recover : (username recovery_code new_password : String) → Call
  call_change : (caller current new_password : String) → Call
  call_totp : (caller secret code : String) → Call
  call_bind : (username provider subject email : String) → Call
  call_unbind : (username provider : String) → Call
  call_touch : (username provider subject : String) → Call
  call_avatar : (username url : String) → Call
  call_nick : (username nick : String) → Call
  call_check : (cookie ip username : String) → Call
  call_register : NewDevice → (username : String) → Call
  call_revoke : (caller id : String) → Call

module _ {K : Type 0} where
  unfoldable pub after_call : Around → Call → Operators K → Operators K
  after_call a (call_create req f) ops = (operators_create a.bcrypt f req ops).0
  after_call a (call_delete caller username) ops =
      (operators_delete a.persisted caller username ops).0
  after_call a (call_update username role) ops = (operators_update a.persisted username role ops).0
  after_call a (call_recover username recovery_code new_password) ops =
      (recover_password a.bcrypt a.upper a.persisted username recovery_code new_password ops).0
  after_call a (call_change caller current new_password) ops =
      (change_password a.bcrypt a.persisted caller current new_password ops).0
  after_call a (call_totp caller secret code) ops =
      (totp_setup_confirm a.check_totp a.persisted caller secret code ops).0
  after_call a (call_bind username provider subject email) ops =
      (bind_identity a.persisted a.stamp username provider subject email ops).0
  after_call a (call_unbind username provider) ops =
      (unbind_identity a.persisted username provider ops).0
  after_call a (call_touch username provider subject) ops =
      touch_identity a.stamp username provider subject ops
  after_call a (call_avatar username url) ops = set_avatar username url ops
  after_call a (call_nick username nick) ops = (set_bot_nick a.persisted username nick ops).0
  after_call a (call_check cookie ip username) ops =
      (check_device_trust a.bcrypt a.now cookie ip username ops).0
  after_call a (call_register n username) ops =
      (register_trusted_device a.bcrypt a.persisted a.now n username ops).0
  after_call a (call_revoke caller id) ops = (revoke_device a.persisted caller id ops).0

  unfoldable pub after_calls : List (Around × Call) → Operators K → Operators K
  after_calls [] ops = ops
  after_calls ((a, c) ∷ cs) ops = after_calls cs (after_call a c ops)
