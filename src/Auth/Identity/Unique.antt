-- ===== src/Auth/Identity/Unique.antt =====
-- An external identity belongs to one operator.
use ncn_platform.Base.{
  Bool, true, false, ◌||◌, List, [], ◌∷◌, Option, none, some, String, str_eq, ◌≡◌, refl, sym, subst,
  ◌∙◌, inl, inr, if◌then◌else◌, any, any-append, map, arith, if_cases, eq_iff, Bool-cases,
}
use ncn_platform.Base.Dict.{lookup, insert, delete, lookup-insert, lookup-delete}
use ncn_platform.Auth.Operator.{ExternalIdentity, OperatorRecord, Operators}
use ncn_platform.Auth.Identity.{
  BindResult, is_identity, others_of, stamp_used, has_identity, taken_by_other, bind_found,
  bind_identity, unbind_found, unbind_identity, touch_found, touch_identity,
}

any-others_of :
    (provider p s : String) (l : List ExternalIdentity)
    → any (is_identity p s) (others_of provider l) ≡ true
    → any (is_identity p s) l ≡ true
any-others_of provider p s [] h = h
any-others_of provider p s (ei ∷ l) h = ground (arith, any-others_of provider p s l)

any-stamp_used :
    (stamp provider subject p s : String) (l : List ExternalIdentity)
    → any (is_identity p s) (map (stamp_used stamp provider subject) l) ≡ any (is_identity p s) l
any-stamp_used stamp provider subject p s [] = refl
any-stamp_used stamp provider subject p s (ei ∷ l) =
    ground (arith, any-stamp_used stamp provider subject p s l)

is_self :
    (p s provider subject : String) (ei : ExternalIdentity)
    → ei.provider ≡ provider
    → ei.subject ≡ subject
    → is_identity p s ei ≡ true
    → (p ≡ provider) × (s ≡ subject)
is_self p s provider subject ei e f h =
    (ground (arith, eq_iff ei.provider p, e), ground (arith, eq_iff ei.subject s, f))

module _ {K : Type 0} where
  -- The operator of a name, if any, has the identity.
  abbrev pub owns : String → String → Option (OperatorRecord K) → Bool
  owns provider subject none = false
  owns provider subject (some op) = has_identity provider subject op

  -- Two operators that have one identity are the same one.
  abbrev pub Unique : Operators K → Type 0
  Unique ops =
      (provider subject n m : String)
      → str_eq subject "" ≡ false
      → owns provider subject (lookup n ops) ≡ true
      → owns provider subject (lookup m ops) ≡ true
      → n ≡ m

  pub owns-insert :
      (provider subject key at : String) (op : OperatorRecord K) (ops : Operators K)
      → owns provider subject (lookup at (insert key op ops)) ≡ (
          if str_eq key at
          then has_identity provider subject op
          else owns provider subject (lookup at ops))
  owns-insert provider subject key at op ops = rw (lookup-insert key at op ops) (
      if_cases
        (λ o. owns provider subject o ≡ (
          if str_eq key at
          then has_identity provider subject op
          else owns provider subject (lookup at ops)))
        (str_eq key at) _ _ (λ h. rw h refl) (λ h. rw h refl))

  -- A record that has only identities that no other operator has.
  pub Unique-insert :
      (key : String) (op : OperatorRecord K) (ops : Operators K)
      → ((provider subject n : String)
          → str_eq subject "" ≡ false
          → has_identity provider subject op ≡ true
          → owns provider subject (lookup n ops) ≡ true
          → n ≡ key)
      → Unique ops
      → Unique (insert key op ops)
  Unique-insert key op ops own u provider subject n m e a b =
      let a' = sym (owns-insert provider subject key n op ops) ∙ a in
      let b' = sym (owns-insert provider subject key m op ops) ∙ b in
      elim (Bool-cases (str_eq key n)) [
        | inl x ↦ elim (Bool-cases (str_eq key m)) [
          | inl y ↦ sym ((eq_iff key n).0 x) ∙ (eq_iff key m).0 y
          | inr y ↦
              sym ((eq_iff key n).0 x) ∙ sym (own provider subject m e (rw x at a') (rw y at b'))
        ]
        | inr x ↦ elim (Bool-cases (str_eq key m)) [
          | inl y ↦ own provider subject n e (rw y at b') (rw x at a') ∙ (eq_iff key m).0 y
          | inr y ↦ u provider subject n m e (rw x at a') (rw y at b')
        ]
      ]

  -- A record whose identities its operator already had.
  Unique-subset :
      (key : String) (old op : OperatorRecord K) (ops : Operators K)
      → lookup key ops ≡ some old
      → ((provider subject : String)
          → has_identity provider subject op ≡ true
          → has_identity provider subject old ≡ true)
      → Unique ops
      → Unique (insert key op ops)
  Unique-subset key old op ops f sub u =
      Unique-insert key op ops
        (λ provider subject n e h o. u provider subject n key e o (rw f (sub provider subject h))) u

  -- The change of one record that leaves its identities alone.
  pub Unique-edit :
      (key : String) (old op : OperatorRecord K) (ops : Operators K)
      → lookup key ops ≡ some old
      → op.external_identities ≡ old.external_identities
      → Unique ops
      → Unique (insert key op ops)
  Unique-edit key old op ops f e u =
      Unique-subset key old op ops f
        (λ provider subject h. subst (λ l. any (is_identity provider subject) l ≡ true) e h) u

  pub Unique-delete : (key : String) (ops : Operators K) → Unique ops → Unique (delete key ops)
  Unique-delete key ops u provider subject n m e a b =
      u provider subject n m e (kept n a) (kept m b)
    where
      dropped :
          (c : Bool) (o : Option (OperatorRecord K))
          → owns provider subject (if c then none else o) ≡ true
          → owns provider subject o ≡ true
      dropped true o h = cc
      dropped false o h = h

      kept :
          (at : String)
          → owns provider subject (lookup at (delete key ops)) ≡ true
          → owns provider subject (lookup at ops) ≡ true
      kept at h = dropped (str_eq key at) (lookup at ops) (rw (lookup-delete key at ops) at h)

  owned_by_other :
      (provider subject username n : String) (ops : Operators K)
      → taken_by_other username provider subject ops ≡ false
      → owns provider subject (lookup n ops) ≡ true
      → n ≡ username
  unfolding lookup
  owned_by_other provider subject username n [] t o = cc
  owned_by_other provider subject username n ((at, x) ∷ rest) t o =
      elim (Bool-cases (str_eq at n)) [
        | inl h ↦ sym ((eq_iff at n).0 h) ∙ ground (arith, rw h at o, eq_iff at username)
        | inr h ↦ owned_by_other provider subject username n rest (ground arith) (rw h at o)
      ]

  bind_found-Unique :
      (persisted : Bool) (username : String) (ei : ExternalIdentity) (o : Option (OperatorRecord K))
      (ops : Operators K)
      → lookup username ops ≡ o
      → taken_by_other username ei.provider ei.subject ops ≡ false
      → Unique ops
      → Unique (bind_found persisted username ei o ops).0
  unfolding bind_found
  bind_found-Unique persisted username ei none ops f t u = u
  bind_found-Unique persisted username ei (some op) ops f t u =
      Unique-insert username _ ops
        (λ p s n e h o. owner p s n e o (any-others_of ei.provider p s op.external_identities) (
          sym
            (any-append (is_identity p s) (others_of ei.provider op.external_identities) (ei ∷ []))
          ∙ h))
        u
    where
      owner :
          (p s n : String)
          → str_eq s "" ≡ false
          → owns p s (lookup n ops) ≡ true
          → (any (is_identity p s) (others_of ei.provider op.external_identities) ≡ true
              → any (is_identity p s) op.external_identities ≡ true)
          → (any (is_identity p s) (others_of ei.provider op.external_identities)
              || (is_identity p s ei || false))
            ≡ true
          → n ≡ username
      owner p s n e o sub h = elim (Bool-cases (is_identity p s ei)) [
        | inl i ↦
            let same = is_self p s ei.provider ei.subject ei refl refl i in
            owned_by_other ei.provider ei.subject username n ops t (
              subst (λ q. owns q ei.subject (lookup n ops) ≡ true) same.0
                (subst (λ q. owns p q (lookup n ops) ≡ true) same.1 o))
        | inr i ↦ u p s n username e o (rw f (sub (ground arith)))
      ]

  pub bind_identity-Unique :
      (persisted : Bool) (stamp username provider subject email : String) (ops : Operators K)
      → Unique ops
      → Unique (bind_identity persisted stamp username provider subject email ops).0
  unfolding bind_identity
  bind_identity-Unique persisted stamp username provider subject email ops u =
      if_cases (λ (r : Operators K × BindResult). Unique r.0) (str_eq subject "") _ _ (λ _. u)
        (λ _.
          if_cases (λ (r : Operators K × BindResult). Unique r.0)
            (taken_by_other username provider subject ops) _ _ (λ _. u)
            (λ h. bind_found-Unique persisted username _ _ ops refl h u))

  unbind_found-Unique :
      (persisted : Bool) (username provider : String) (o : Option (OperatorRecord K))
      (ops : Operators K)
      → lookup username ops ≡ o
      → Unique ops
      → Unique (unbind_found persisted username provider o ops).0
  unfolding unbind_found
  unbind_found-Unique persisted username provider none ops f u = u
  unbind_found-Unique persisted username provider (some op) ops f u =
      Unique-subset username op _ ops f (λ p s. any-others_of provider p s op.external_identities) u

  pub unbind_identity-Unique :
      (persisted : Bool) (username provider : String) (ops : Operators K)
      → Unique ops
      → Unique (unbind_identity persisted username provider ops).0
  unfolding unbind_identity
  unbind_identity-Unique persisted username provider ops u =
      unbind_found-Unique persisted username provider _ ops refl u

  touch_found-Unique :
      (stamp username provider subject : String) (o : Option (OperatorRecord K)) (ops : Operators K)
      → lookup username ops ≡ o
      → Unique ops
      → Unique (touch_found stamp username provider subject o ops)
  unfolding touch_found
  touch_found-Unique stamp username provider subject none ops f u = u
  touch_found-Unique stamp username provider subject (some op) ops f u =
      Unique-subset username op _ ops f
        (λ p s h. sym (any-stamp_used stamp provider subject p s op.external_identities) ∙ h) u

  pub touch_identity-Unique :
      (stamp username provider subject : String) (ops : Operators K)
      → Unique ops
      → Unique (touch_identity stamp username provider subject ops)
  unfolding touch_identity
  touch_identity-Unique stamp username provider subject ops u =
      touch_found-Unique stamp username provider subject _ ops refl u
