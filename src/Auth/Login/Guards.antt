-- ===== src/Auth/Login/Guards.antt =====
-- Who passes the second step of the sign-in or a guard of a role.
use mathlib.Core.Option.{some-injective}
use ncn_platform.Base.{
  Bool, true, false, not, Option, none, some, String, str_eq, ◌≡◌, ◌≢◌, refl, ap, ◌∙◌, sym, arith,
  eq_iff, eq_refl, if_cases, trim_space,
}
use ncn_platform.Base.Dict.{lookup, lookup-delete, delete}
use ncn_platform.Auth.Operator.{OperatorRecord, Operators, done}
use ncn_platform.Auth.Accounts.{operators_delete}
use ncn_platform.Auth.Accounts.Admins.{operators_delete-done}
use ncn_platform.Auth.Session.{
  SessionClaims, IntentClaims, TokenVerdict, accepted, malformed, bad_signature, undecodable,
  expired, verify_login_intent,
}
use ncn_platform.Auth.Totp.{verify_totp}
use ncn_platform.Auth.Login.{
  Gate, VerifyReq, VerifyReply, verified, verified_reply, verify_found, verify_intent,
  handle_login_verify_totp, Visit, role_is, allow_role, require_role,
}

module _ {K : Type 0} (g : Gate) where
  verified_reply_self :
      (op op' : OperatorRecord K) (o : Option String) (token : String)
      → verified_reply g op o ≡ verified op' token
      → op ≡ op'
  unfolding verified_reply
  verified_reply_self op op' none token e = cc
  verified_reply_self op op' (some t) token e = cc

  verify_found-verified :
      (r : VerifyReq) (username : String) (o : Option (OperatorRecord K)) (op : OperatorRecord K)
      (token : String) (ops : Operators K)
      → (verify_found g r username o ops).1 ≡ verified op token
      → (o ≡ some op)
        × (str_eq op.totp_secret "" ≡ false)
        × (verify_totp g.totp op.totp_secret r.totp_code r.now ≡ true)
  unfolding verify_found
  verify_found-verified r username none op token ops = λ e. cc
  verify_found-verified r username (some x) op token ops =
      if_cases (λ (y : Operators K × VerifyReply K). y.1 ≡ verified op token → Proved)
        (str_eq x.totp_secret "") _ _ (λ _ e. cc)
        (λ s.
          if_cases (λ (y : Operators K × VerifyReply K). y.1 ≡ verified op token → Proved)
            (not (verify_totp g.totp x.totp_secret r.totp_code r.now)) _ _ (λ _ e. cc)
            (λ v e.
              let same = verified_reply_self x op _ token e in
              (
                ap some same,
                ap (λ (y : OperatorRecord K). str_eq y.totp_secret "") (sym same) ∙ s,
                ap (λ (y : OperatorRecord K). verify_totp g.totp y.totp_secret r.totp_code r.now)
                      (sym same)
                    ∙ ground arith,
              )))
    where
      Proved : Type 0
      Proved =
          (some x ≡ some op)
          × (str_eq op.totp_secret "" ≡ false)
          × (verify_totp g.totp op.totp_secret r.totp_code r.now ≡ true)

  verify_intent-verified :
      (r : VerifyReq) (v : TokenVerdict IntentClaims) (op : OperatorRecord K) (token : String)
      (ops : Operators K)
      → (verify_intent g r v ops).1 ≡ verified op token
      → (c : IntentClaims) × (v ≡ accepted c)
        × (lookup c.sub ops ≡ some op)
        × (str_eq op.totp_secret "" ≡ false)
        × (verify_totp g.totp op.totp_secret r.totp_code r.now ≡ true)
  unfolding verify_intent
  verify_intent-verified r (accepted c) op token ops e =
      let f = verify_found-verified r c.sub (lookup c.sub ops) op token ops e in
      (c, refl, f.0, f.1, f.2)
  verify_intent-verified r malformed op token ops e = cc
  verify_intent-verified r bad_signature op token ops e = cc
  verify_intent-verified r undecodable op token ops e = cc
  verify_intent-verified r expired op token ops e = cc

  -- The second step of the sign-in gives a session only for a ticket that is signed and not expired,
  -- to the operator that the ticket names, who has a TOTP secret for which the code is right.
  pub handle_login_verify_totp-verified :
      (r : VerifyReq) (op : OperatorRecord K) (token : String) (ops : Operators K)
      → (handle_login_verify_totp g r ops).1 ≡ verified op token
      → (c : IntentClaims) × (verify_login_intent g.codec g.secret r.now r.intent_cookie
          ≡ accepted c)
        × (lookup c.sub ops ≡ some op)
        × (str_eq op.totp_secret "" ≡ false)
        × (verify_totp g.totp op.totp_secret r.totp_code r.now ≡ true)
  unfolding handle_login_verify_totp
  handle_login_verify_totp-verified r op token ops =
      if_cases
        (λ (y : Operators K × VerifyReply K).
          y.1 ≡ verified op token
          → (c : IntentClaims) × (verify_login_intent g.codec g.secret r.now r.intent_cookie
              ≡ accepted c)
            × (lookup c.sub ops ≡ some op)
            × (str_eq op.totp_secret "" ≡ false)
            × (verify_totp g.totp op.totp_secret r.totp_code r.now ≡ true))
        (str_eq r.intent_cookie "") _ _ (λ _ e. cc)
        (λ _ e. verify_intent-verified r _ op token ops e)

  module _ (verify_api_token : String → Option SessionClaims) where
    role_is-found :
        (role : String) (o : Option (OperatorRecord K))
        → role_is g verify_api_token role o ≡ true
        → (op : OperatorRecord K) × (o ≡ some op) × (op.role ≡ role)
    unfolding role_is
    role_is-found role none e = cc
    role_is-found role (some op) e = (op, refl, (eq_iff op.role role).0 e)

    allow_role-found :
        (role : String) (ops : Operators K) (o : Option SessionClaims) (c : SessionClaims)
        → allow_role g verify_api_token role ops o ≡ some c
        → role_is g verify_api_token role (lookup c.sub ops) ≡ true
    unfolding allow_role
    allow_role-found role ops none c = λ e. cc
    allow_role-found role ops (some d) c =
        if_cases (λ o. o ≡ some c → role_is g verify_api_token role (lookup c.sub ops) ≡ true)
          (role_is g verify_api_token role (lookup d.sub ops)) _ _
          (λ t e.
            ap (λ (x : SessionClaims). role_is g verify_api_token role (lookup x.sub ops))
              (sym (some-injective d c e))
            ∙ t)
          (λ _ e. cc)

    lookup-gone : (name : String) (ops : Operators K) → lookup name (delete name ops) ≡ none
    lookup-gone name ops = lookup-delete name name ops ∙ rw (eq_refl name) refl

    role_is-gone :
        (role : String) (o : Option (OperatorRecord K))
        → o ≡ none
        → role_is g verify_api_token role o ≡ true
        → ⊥
    unfolding role_is
    role_is-gone role none e h = cc
    role_is-gone role (some op) e h = cc

    -- Once an operator is deleted, no session or API token in this name passes a guard of a role.
    pub require_role-operators_delete :
        (p : Bool) (caller username role : String) (v : Visit) (ops : Operators K)
        (c : SessionClaims)
        → (operators_delete p caller username ops).1 ≡ done
        → require_role g verify_api_token role v (operators_delete p caller username ops).0 ≡ some c
        → c.sub ≢ trim_space username
    unfolding require_role
    require_role-operators_delete p caller username role v ops c e h same =
        role_is-gone role _
          (ap (λ (l : Operators K). lookup c.sub l) (operators_delete-done p caller username ops e)
            ∙ ap (λ name. lookup name (delete (trim_space username) ops)) same
            ∙ lookup-gone (trim_space username) ops)
          (allow_role-found role _ _ c h)
