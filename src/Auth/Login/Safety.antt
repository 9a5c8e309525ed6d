-- ===== src/Auth/Login/Safety.antt =====
-- Who is signed in has shown what the account asks for, and who passes a guard has the role.
use ncn_platform.Base.{
  Bool, true, false, not, ◌==◌, Option, none, some, String, str_eq, ◌≡◌, refl, ap, ◌∙◌, sym, inl,
  inr, ◌⊎◌, if◌then◌else◌, length, arith, Bool-cases, trim_space, if_cases, subst,
}
use ncn_platform.Base.Dict.{lookup}
use ncn_platform.Auth.Operator.{OperatorRecord, Operators}
use ncn_platform.Auth.Devices.{TrustOutcome, untrusted, trusted, panicked, check_device_trust}
use ncn_platform.Auth.Totp.{verify_totp}
use ncn_platform.Auth.Login.{
  Gate, LoginReq, LoginReply, signed_in, rejected, bad_credentials, not_human, session_reply,
  issue_session, intent_reply, second_step, with_totp, by_factors, login_found, handle_login,
}

module _ {K : Type 0} (g : Gate) where
  -- A second factor that the request has, or an account that has none yet.
  abbrev pub Factor : LoginReq → OperatorRecord K → Operators K → Type 0
  Factor r op ops =
      ((str_eq op.totp_secret "" ≡ true) × ((length op.passkeys == 0) ≡ true))
      ⊎ ((verify_totp g.totp op.totp_secret r.totp_code r.now ≡ true)
          ⊎ ((check_device_trust g.bcrypt r.now r.device_cookie r.address r.username ops).1
              ≡ trusted))

  session_reply_self :
      (op op' : OperatorRecord K) (o : Option String) (token : String)
      → session_reply g op o ≡ signed_in op' token
      → op ≡ op'
  unfolding session_reply
  session_reply_self op op' none token e = cc
  session_reply_self op op' (some t) token e = cc

  issue_session_self :
      (r : LoginReq) (op op' : OperatorRecord K) (token : String)
      → issue_session g r op ≡ signed_in op' token
      → op ≡ op'
  unfolding issue_session
  issue_session_self r op op' token e = session_reply_self op op' _ token e

  intent_reply-no :
      (o : Option String) (op' : OperatorRecord K) (token : String)
      → intent_reply g o ≡ signed_in op' token
      → ⊥
  unfolding intent_reply
  intent_reply-no none op' token e = cc
  intent_reply-no (some t) op' token e = cc

  second_step-trusted :
      (r : LoginReq) (op op' : OperatorRecord K) (token : String) (x : Operators K × TrustOutcome)
      → (second_step g r op x).1 ≡ signed_in op' token
      → (op ≡ op') × (x.1 ≡ trusted)
  unfolding second_step
  second_step-trusted r op op' token (ops, trusted) e = (issue_session_self r op op' token e, refl)
  second_step-trusted r op op' token (ops, panicked) e = cc
  second_step-trusted r op op' token (ops, untrusted) e = absurd (intent_reply-no _ op' token e)

  abbrev Shown : LoginReq → Operators K → OperatorRecord K → OperatorRecord K → Type 0
  Shown r ops op op' = (op ≡ op') × (op.approved ≡ true) × Factor r op ops

  with_totp-Shown :
      (r : LoginReq) (op op' : OperatorRecord K) (token : String) (ops : Operators K)
      → (with_totp g r op ops).1 ≡ signed_in op' token
      → Shown r ops op op'
  unfolding with_totp
  with_totp-Shown r op op' token ops =
      if_cases (λ (x : Operators K × LoginReply K). x.1 ≡ signed_in op' token → Shown r ops op op')
        (not op.approved) _ _ (λ _ e. cc)
        (λ a.
          if_cases
            (λ (x : Operators K × LoginReply K). x.1 ≡ signed_in op' token → Shown r ops op op')
            (not (str_eq (trim_space r.totp_code) "")) _ _
            (λ _.
              if_cases (λ (x : LoginReply K). x ≡ signed_in op' token → Shown r ops op op')
                (verify_totp g.totp op.totp_secret r.totp_code r.now) _ _
                (λ v e. (issue_session_self r op op' token e, ground arith, inr (inl v)))
                (λ _ e. cc))
            (λ _ e.
              let s = second_step-trusted r op op' token _ e in (s.0, ground arith, inr (inr s.1))))

  by_factors-Shown :
      (r : LoginReq) (op op' : OperatorRecord K) (token : String) (ops : Operators K)
      → (by_factors g r op ops).1 ≡ signed_in op' token
      → Shown r ops op op'
  unfolding by_factors
  by_factors-Shown r op op' token ops =
      if_cases (λ (x : Operators K × LoginReply K). x.1 ≡ signed_in op' token → Shown r ops op op')
        (str_eq op.totp_secret "") _ _
        (λ t.
          if_cases (λ (x : LoginReply K). x ≡ signed_in op' token → Shown r ops op op')
            (length op.passkeys == 0) _ _
            (λ p.
              if_cases (λ (x : LoginReply K). x ≡ signed_in op' token → Shown r ops op op')
                op.approved _ _ (λ a e. (issue_session_self r op op' token e, a, inl (t, p)))
                (λ _ e. cc))
            (λ _ e. cc))
        (λ _. with_totp-Shown r op op' token ops)

  login_found-Shown :
      (r : LoginReq) (o : Option (OperatorRecord K)) (op' : OperatorRecord K) (token : String)
      (ops : Operators K)
      → (login_found g r o ops).1 ≡ signed_in op' token
      → (o ≡ some op')
        × (g.bcrypt.compare_hash op'.password_hash r.password ≡ true)
        × (op'.approved ≡ true)
        × Factor r op' ops
  unfolding login_found
  login_found-Shown r none op' token ops e = cc
  login_found-Shown r (some op) op' token ops e = by_hash _ refl e
    where
      by_hash :
          (ok : Bool)
          → ok ≡ g.bcrypt.compare_hash op.password_hash r.password
          → (if ok then by_factors g r op ops else (ops, rejected bad_credentials)).1
            ≡ signed_in op' token
          → (some op ≡ some op')
            × (g.bcrypt.compare_hash op'.password_hash r.password ≡ true)
            × (op'.approved ≡ true)
            × Factor r op' ops
      by_hash false h e = cc
      by_hash true h e =
          let s = by_factors-Shown r op op' token ops e in
          (
            ap some s.0,
            ap (λ (x : OperatorRecord K). g.bcrypt.compare_hash x.password_hash r.password)
                  (sym s.0)
                ∙ sym h,
            ap (λ (x : OperatorRecord K). x.approved) (sym s.0) ∙ s.1,
            subst (λ x. Factor r x ops) s.0 s.2,
          )

  not-rejected :
      (op : OperatorRecord K) (token : String) → rejected not_human ≡ signed_in op token → ⊥
  not-rejected op token e = cc

  -- A request that the sign-in answers with a session comes from a human, names an operator who is
  -- approved, and has this operator's password; and the account has neither a TOTP secret nor a
  -- passkey, or the code of the request is right, or its cookie is one of a trusted device.
  pub handle_login-signed_in :
      (r : LoginReq) (ops : Operators K) (op : OperatorRecord K) (token : String)
      → (handle_login g r ops).1 ≡ signed_in op token
      → (r.is_human ≡ true)
        × (lookup r.username ops ≡ some op)
        × (g.bcrypt.compare_hash op.password_hash r.password ≡ true)
        × (op.approved ≡ true)
        × Factor r op ops
  unfolding handle_login
  handle_login-signed_in r ops op token e = elim (Bool-cases r.is_human) [
    | inl h ↦
        let s = login_found-Shown r (lookup r.username ops) op token ops (rw h at e) in
        (h, s.0, s.1, s.2, s.3)
    | inr h ↦ absurd (not-rejected op token (rw h at e))
  ]
