-- ===== src/Auth/Calls/Kept.antt =====
-- What no request about the operators breaks: an admin remains, the records are filed by username, and
-- no external identity has two owners.
use ncn_platform.Base.{List, [], ◌∷◌}
use ncn_platform.Auth.Operator.{Operators}
use ncn_platform.Auth.Operator.Filing.{Editable}
use ncn_platform.Auth.Accounts.Admins.{
  Sound, Sound-edit, operators_create-Sound, operators_delete-Sound, operators_update-Sound,
}
use ncn_platform.Auth.Accounts.Same.{
  operators_create-Unique, operators_delete-Unique, operators_update-Unique,
}
use ncn_platform.Auth.Identity.Unique.{
  Unique, Unique-edit, bind_identity-Unique, unbind_identity-Unique, touch_identity-Unique,
}
use ncn_platform.Auth.Password.Edits.{
  recover_password-kept, change_password-kept, totp_setup_confirm-kept,
}
use ncn_platform.Auth.Identity.Edits.{
  set_avatar-kept, set_bot_nick-kept, bind_identity-kept, unbind_identity-kept, touch_identity-kept,
}
use ncn_platform.Auth.Devices.Edits.{
  check_device_trust-kept, register_trusted_device-kept, revoke_device-kept,
}
use ncn_platform.Auth.Calls.{
  Around, Call, call_create, call_delete, call_update, call_recover, call_change, call_totp,
  call_bind, call_unbind, call_touch, call_avatar, call_nick, call_check, call_register,
  call_revoke, after_call, after_calls,
}

module _ {K : Type 0} where
  edit : Editable (Sound {K = K})
  edit name old op ops f e r _ = Sound-edit name old op ops f e r

  after_call-Sound :
      (a : Around) (c : Call) (ops : Operators K) → Sound ops → Sound (after_call a c ops)
  unfolding after_call
  after_call-Sound a (call_create req f) ops s = operators_create-Sound a.bcrypt f req ops s
  after_call-Sound a (call_delete caller username) ops s =
      operators_delete-Sound a.persisted caller username ops s
  after_call-Sound a (call_update username role) ops s =
      operators_update-Sound a.persisted username role ops s
  after_call-Sound a (call_recover username code password) ops s =
      recover_password-kept Sound edit a.bcrypt a.upper a.persisted username code password ops s
  after_call-Sound a (call_change caller current password) ops s =
      change_password-kept Sound edit a.bcrypt a.persisted caller current password ops s
  after_call-Sound a (call_totp caller secret code) ops s =
      totp_setup_confirm-kept Sound edit a.check_totp a.persisted caller secret code ops s
  after_call-Sound a (call_bind username provider subject email) ops s =
      bind_identity-kept Sound Sound-edit a.persisted a.stamp username provider subject email ops s
  after_call-Sound a (call_unbind username provider) ops s =
      unbind_identity-kept Sound Sound-edit a.persisted username provider ops s
  after_call-Sound a (call_touch username provider subject) ops s =
      touch_identity-kept Sound Sound-edit a.stamp username provider subject ops s
  after_call-Sound a (call_avatar username url) ops s =
      set_avatar-kept Sound edit username url ops s
  after_call-Sound a (call_nick username nick) ops s =
      set_bot_nick-kept Sound edit a.persisted username nick ops s
  after_call-Sound a (call_check cookie ip username) ops s =
      check_device_trust-kept Sound edit a.bcrypt a.now cookie ip username ops s
  after_call-Sound a (call_register n username) ops s =
      register_trusted_device-kept Sound edit a.bcrypt a.persisted a.now n username ops s
  after_call-Sound a (call_revoke caller id) ops s =
      revoke_device-kept Sound edit a.persisted caller id ops s

  edit-Unique : Editable (Unique {K = K})
  edit-Unique name old op ops f _ _ i = Unique-edit name old op ops f i

  after_call-Unique :
      (a : Around) (c : Call) (ops : Operators K) → Unique ops → Unique (after_call a c ops)
  unfolding after_call
  after_call-Unique a (call_create req f) ops s = operators_create-Unique a.bcrypt f req ops s
  after_call-Unique a (call_delete caller username) ops s =
      operators_delete-Unique a.persisted caller username ops s
  after_call-Unique a (call_update username role) ops s =
      operators_update-Unique a.persisted username role ops s
  after_call-Unique a (call_recover username code password) ops s =
      recover_password-kept Unique edit-Unique a.bcrypt a.upper a.persisted username code password
        ops s
  after_call-Unique a (call_change caller current password) ops s =
      change_password-kept Unique edit-Unique a.bcrypt a.persisted caller current password ops s
  after_call-Unique a (call_totp caller secret code) ops s =
      totp_setup_confirm-kept Unique edit-Unique a.check_totp a.persisted caller secret code ops s
  after_call-Unique a (call_bind username provider subject email) ops s =
      bind_identity-Unique a.persisted a.stamp username provider subject email ops s
  after_call-Unique a (call_unbind username provider) ops s =
      unbind_identity-Unique a.persisted username provider ops s
  after_call-Unique a (call_touch username provider subject) ops s =
      touch_identity-Unique a.stamp username provider subject ops s
  after_call-Unique a (call_avatar username url) ops s =
      set_avatar-kept Unique edit-Unique username url ops s
  after_call-Unique a (call_nick username nick) ops s =
      set_bot_nick-kept Unique edit-Unique a.persisted username nick ops s
  after_call-Unique a (call_check cookie ip username) ops s =
      check_device_trust-kept Unique edit-Unique a.bcrypt a.now cookie ip username ops s
  after_call-Unique a (call_register n username) ops s =
      register_trusted_device-kept Unique edit-Unique a.bcrypt a.persisted a.now n username ops s
  after_call-Unique a (call_revoke caller id) ops s =
      revoke_device-kept Unique edit-Unique a.persisted caller id ops s

  -- Whatever requests of the kinds that Auth/Calls lists are handled, in whatever order and with
  -- whatever failures of the write, an admin remains and the records stay filed by username, each under one name.
  pub after_calls-Sound :
      (cs : List (Around × Call)) (ops : Operators K) → Sound ops → Sound (after_calls cs ops)
  unfolding after_calls
  after_calls-Sound [] ops s = s
  after_calls-Sound ((a, c) ∷ cs) ops s =
      after_calls-Sound cs (after_call a c ops) (after_call-Sound a c ops s)

  -- Whatever requests of the kinds that Auth/Calls lists are handled, no external identity comes to
  -- belong to two operators.
  pub after_calls-Unique :
      (cs : List (Around × Call)) (ops : Operators K) → Unique ops → Unique (after_calls cs ops)
  unfolding after_calls
  after_calls-Unique [] ops u = u
  after_calls-Unique ((a, c) ∷ cs) ops u =
      after_calls-Unique cs (after_call a c ops) (after_call-Unique a c ops u)
