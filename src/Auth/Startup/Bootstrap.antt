-- ===== src/Auth/Startup/Bootstrap.antt =====
-- The first operator of a new installation cannot sign in before the server is started again.
use ncn_platform.Base.{
  Bool, true, false, not, ◌&&◌, List, [], Option, none, some, String, ◌≡◌, refl, sym, ap, ◌∙◌,
  subst, if_cases, All,
}
use ncn_platform.Base.Dict.{All-lookup}
use ncn_platform.Auth.Operator.{OperatorRecord, Operators}
use ncn_platform.Auth.Accounts.{promote_first_admin_if_none}
use ncn_platform.Auth.Accounts.First.{promote_first_admin_if_none-All}
use ncn_platform.Auth.Login.{Gate, LoginReq, signed_in, handle_login}
use ncn_platform.Auth.Login.Safety.{handle_login-signed_in}
use ncn_platform.Auth.Startup.{
  DbDoc, FileDoc, with_database, Drawn, generate_recovery_codes, first_operator, bootstrap_drawn,
  bootstrap, prepare, finish, read_operators, load_found, load_auth_store,
}

module _ {K : Type 0} where
  abbrev Pending : Operators K → Type 0
  Pending = All (λ e. e.1.approved ≡ false)

  AllPending : Option (Operators K) → Type 0
  AllPending none = Unit
  AllPending (some ops) = Pending ops

bootstrap_drawn-AllPending :
    (K : Type 0) (wrote : Bool) (stamp : String) (p t : Option String) (c : Option (List String))
    → AllPending (bootstrap_drawn {K = K} wrote stamp p t c)
unfolding AllPending bootstrap_drawn first_operator
bootstrap_drawn-AllPending K wrote stamp (some p) (some t) (some c) =
    if_cases AllPending wrote _ _ (λ _. (refl, tt)) (λ _. tt)
bootstrap_drawn-AllPending K wrote stamp none t c = tt
bootstrap_drawn-AllPending K wrote stamp (some p) none c = tt
bootstrap_drawn-AllPending K wrote stamp (some p) (some t) none = tt

module _ {K : Type 0} where
  finish-AllPending :
      (fails : Bool) (o : Option (Operators K)) → AllPending o → AllPending (finish fails o)
  unfolding AllPending finish
  finish-AllPending fails none a = tt
  finish-AllPending fails (some ops) a = if_cases AllPending fails _ _ (λ _. tt) (λ _. a)

  module _ {J : Type 0} (unmarshal : J → Option (List (OperatorRecord K))) where
    started-Pending :
        (wrote mirrored from_db : Bool) (stamp : String) (d : Drawn) (db : DbDoc J)
        (file : FileDoc J) (ops : Operators K)
        → read_operators unmarshal db file ≡ some ([], from_db)
        → load_auth_store unmarshal wrote mirrored stamp d db file ≡ some ops
        → Pending ops
    unfolding load_auth_store load_found prepare bootstrap AllPending
    started-Pending wrote mirrored from_db stamp d db file ops r l =
        subst AllPending
          (sym (ap (load_found unmarshal (with_database db) wrote mirrored stamp d) r) ∙ l)
          (finish-AllPending (with_database db && (not from_db && not mirrored)) _ (
            bootstrap_drawn-AllPending K wrote stamp d.password_hash d.totp_secret
              (generate_recovery_codes (d.code_hash "NOC") 10)))

    -- Where a start found no operator and made the first one, no request for a sign-in with a password is
    -- answered with a session, also after the first operator was made an admin: nobody is approved.
    pub handle_login-bootstrap :
        (g : Gate) (wrote mirrored from_db : Bool) (stamp : String) (d : Drawn) (db : DbDoc J)
        (file : FileDoc J) (ops : Operators K)
        → read_operators unmarshal db file ≡ some ([], from_db)
        → load_auth_store unmarshal wrote mirrored stamp d db file ≡ some ops
        → (r : LoginReq) (op : OperatorRecord K) (token : String)
        → ¬ ((handle_login g r (promote_first_admin_if_none ops)).1 ≡ signed_in op token)
    handle_login-bootstrap g wrote mirrored from_db stamp d db file ops e l r op token s =
        let shown = handle_login-signed_in g r (promote_first_admin_if_none ops) op token s in
        let pending =
          promote_first_admin_if_none-All (λ x. x.approved ≡ false) ops (λ x h. h)
            (started-Pending wrote mirrored from_db stamp d db file ops e l) in
        no (
          sym (shown.3)
          ∙ (All-lookup _ r.username op (promote_first_admin_if_none ops) pending shown.1).2)
      where
        no : true ≡ false → ⊥
        no h = cc
