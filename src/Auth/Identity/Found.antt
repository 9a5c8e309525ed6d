-- ===== src/Auth/Identity/Found.antt =====
-- An identity that is bound is found again, until it is unbound.
use ncn_platform.Base.{
  Bool, false, refl, if_cases, true, List, [], ◌∷◌, ◌++◌, Option, none, some, String, str_eq, ◌≡◌,
  ap, ◌∙◌, inl, inr, any, any-append, arith, eq_refl, Bool-cases, All, All-map,
}
use ncn_platform.Base.Dict.{lookup}
use ncn_platform.Auth.Operator.{ExternalIdentity, OperatorRecord, Operators, Filed}
use ncn_platform.Auth.Operator.Filing.{Filed-entries, Filed-insert, lookup-Filed}
use ncn_platform.Auth.Identity.Unique.{owns, Unique, owns-insert, bind_identity-Unique}
use ncn_platform.Auth.Identity.{
  BindResult, bind_identity, taken_by_other, bound, is_identity, others_of, has_identity,
  first_with, find_operator_by_identity, bind_found,
}

has_own :
    (ei : ExternalIdentity) (l : List ExternalIdentity)
    → any (is_identity ei.provider ei.subject) (l ++ ei ∷ []) ≡ true
has_own ei l =
    any-append (is_identity ei.provider ei.subject) l (ei ∷ [])
    ∙ ground (arith, eq_refl ei.provider, eq_refl ei.subject)

module _ {K : Type 0} where
  first_with-only :
      (provider subject n : String) (ops : Operators K)
      → All (λ e. has_identity provider subject e.1 ≡ true → e.0 ≡ n) ops
      → any (λ e. has_identity provider subject e.1) ops ≡ true
      → first_with provider subject ops ≡ some n
  unfolding first_with
  first_with-only provider subject n [] a h = cc
  first_with-only provider subject n ((at, x) ∷ rest) a h =
      if_cases (λ o. o ≡ some n) (has_identity provider subject x) _ _ (λ e. ap some (a.0 e))
        (λ e. first_with-only provider subject n rest a.1 (ground arith))

  any-owner :
      (provider subject n : String) (ops : Operators K)
      → owns provider subject (lookup n ops) ≡ true
      → any (λ e. has_identity provider subject e.1) ops ≡ true
  unfolding lookup
  any-owner provider subject n [] o = cc
  any-owner provider subject n ((at, x) ∷ rest) o = elim (Bool-cases (str_eq at n)) [
    | inl h ↦ ground (arith, rw h at o)
    | inr h ↦ ground (arith, any-owner provider subject n rest (rw h at o))
  ]

  -- An owner is the one that is found, whatever the order in which the map is visited.
  pub find_owner :
      (provider subject n : String) (ops : Operators K)
      → Filed ops
      → Unique ops
      → str_eq subject "" ≡ false
      → owns provider subject (lookup n ops) ≡ true
      → find_operator_by_identity provider subject ops ≡ some n
  unfolding find_operator_by_identity
  find_owner provider subject n ops w u e o = rw e (
      first_with-only provider subject n ops
        (All-map (λ e. lookup e.0 ops ≡ some e.1) _ (λ x f h. u provider subject x.0 n e (rw f h) o)
          ops (Filed-entries ops w))
        (any-owner provider subject n ops o))

  bind_found-owns :
      (persisted : Bool) (username : String) (ei : ExternalIdentity) (o : Option (OperatorRecord K))
      (ops : Operators K)
      → (bind_found persisted username ei o ops).1 ≡ bound
      → owns ei.provider ei.subject (lookup username (bind_found persisted username ei o ops).0)
        ≡ true
  unfolding bind_found
  bind_found-owns persisted username ei none ops e = cc
  bind_found-owns persisted username ei (some op) ops e =
      owns-insert ei.provider ei.subject username username _ ops
      ∙ rw (eq_refl username) (has_own ei (others_of ei.provider op.external_identities))

  bind_found-Filed :
      (persisted : Bool) (username : String) (ei : ExternalIdentity) (o : Option (OperatorRecord K))
      (ops : Operators K)
      → lookup username ops ≡ o
      → Filed ops
      → Filed (bind_found persisted username ei o ops).0
  unfolding bind_found
  bind_found-Filed persisted username ei none ops f w = w
  bind_found-Filed persisted username ei (some op) ops f w =
      Filed-insert username _ ops (lookup-Filed username op ops w f) w

  bind_identity-Filed :
      (persisted : Bool) (stamp username provider subject email : String) (ops : Operators K)
      → Filed ops
      → Filed (bind_identity persisted stamp username provider subject email ops).0
  unfolding bind_identity
  bind_identity-Filed persisted stamp username provider subject email ops w =
      if_cases (λ (r : Operators K × BindResult). Filed r.0) (str_eq subject "") _ _ (λ _. w)
        (λ _.
          if_cases (λ (r : Operators K × BindResult). Filed r.0)
            (taken_by_other username provider subject ops) _ _ (λ _. w)
            (λ _. bind_found-Filed persisted username _ _ ops refl w))

  bound_subject :
      (persisted : Bool) (stamp username provider subject email : String) (ops : Operators K)
      → (bind_identity persisted stamp username provider subject email ops).1 ≡ bound
      → str_eq subject "" ≡ false
  unfolding bind_identity
  bound_subject persisted stamp username provider subject email ops e = ground arith

  bind_identity-owns :
      (persisted : Bool) (stamp username provider subject email : String) (ops : Operators K)
      → (bind_identity persisted stamp username provider subject email ops).1 ≡ bound
      → owns provider subject
          (lookup username (bind_identity persisted stamp username provider subject email ops).0)
        ≡ true
  unfolding bind_identity
  bind_identity-owns persisted stamp username provider subject email ops =
      if_cases
        (λ (r : Operators K × BindResult).
          r.1 ≡ bound → owns provider subject (lookup username r.0) ≡ true)
        (str_eq subject "") _ _ (λ _ e. cc)
        (λ _.
          if_cases
            (λ (r : Operators K × BindResult).
              r.1 ≡ bound → owns provider subject (lookup username r.0) ≡ true)
            (taken_by_other username provider subject ops) _ _ (λ _ e. cc)
            (λ _. bind_found-owns persisted username _ _ ops))

  -- A sign-in with an external identity that an operator has just bound finds this operator, whatever
  -- the order in which the map is visited: for operators filed by username among which no identity
  -- has two owners.
  pub find_operator_by_identity-bind_identity :
      (persisted : Bool) (stamp username provider subject email : String) (ops : Operators K)
      → Filed ops
      → Unique ops
      → (bind_identity persisted stamp username provider subject email ops).1 ≡ bound
      → find_operator_by_identity provider subject
          (bind_identity persisted stamp username provider subject email ops).0
        ≡ some username
  find_operator_by_identity-bind_identity persisted stamp username provider subject email ops w u
        e =
      find_owner provider subject username _
        (bind_identity-Filed persisted stamp username provider subject email ops w)
        (bind_identity-Unique persisted stamp username provider subject email ops u)
        (bound_subject persisted stamp username provider subject email ops e)
        (bind_identity-owns persisted stamp username provider subject email ops e)
