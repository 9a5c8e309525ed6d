-- ===== src/Auth/Accounts/First.antt =====
-- The start of the server makes an admin where there is none.
use ncn_platform.Base.{
  ◌≤◌, true, false, [], ◌∷◌, Option, none, some, String, ◌≡◌, refl, if◌then◌else◌, any, length,
  arith, if_cases, eq_refl, leb, is_some, All, All-map, text_less,
}
use ncn_platform.Base.Dict.{lookup, All-insert, All-lookup}
use ncn_platform.Auth.Operator.{OperatorRecord, Operators, role_admin, is_admin, admin_count, Filed}
use ncn_platform.Auth.Operator.Filing.{Filed-insert, lookup-Filed}
use ncn_platform.Auth.Accounts.{least_name, promote, promote_first_admin_if_none}
use ncn_platform.Auth.Accounts.Admins.{weight, Sound, admin_count-insert}

module _ {K : Type 0} where
  any-admin_count : (ops : Operators K) → any is_admin ops ≡ leb 1 (admin_count ops)
  any-admin_count [] = refl
  any-admin_count (e ∷ rest) = ground (arith, any-admin_count rest)

  weight-le : (name : String) (ops : Operators K) → weight (lookup name ops) ≤ admin_count ops
  unfolding lookup
  weight-le name [] = omega arith
  weight-le name ((at, x) ∷ rest) = ground (arith, weight-le name rest)

  least_name-found :
      (rest : Operators K) (best : String) (ops : Operators K)
      → is_some (lookup best ops) ≡ true
      → All (λ e. is_some (lookup e.0 ops) ≡ true) rest
      → is_some (lookup (least_name best rest) ops) ≡ true
  unfolding least_name
  least_name-found [] best ops b a = b
  least_name-found ((name, op) ∷ rest) best ops b a =
      least_name-found rest (if text_less name best then name else best) ops
        (if_cases (λ n. is_some (lookup n ops) ≡ true) (text_less name best) name best (λ _. a.0)
          (λ _. b))
        a.1

  present-cons :
      (name : String) (op : OperatorRecord K) (rest ops : Operators K)
      → All (λ e. is_some (lookup e.0 rest) ≡ true) ops
      → All (λ e. is_some (lookup e.0 ((name, op) ∷ rest)) ≡ true) ops
  unfolding lookup
  present-cons name op rest ops a = All-map _ _ (λ e h. ground arith) ops a

  every_name_found : (ops : Operators K) → All (λ e. is_some (lookup e.0 ops) ≡ true) ops
  unfolding lookup
  every_name_found [] = tt
  every_name_found ((name, op) ∷ rest) =
      (ground (arith, eq_refl name), present-cons name op rest rest (every_name_found rest))

  promote-admin :
      (first : String) (o : Option (OperatorRecord K)) (ops : Operators K)
      → lookup first ops ≡ o
      → is_some o ≡ true
      → any is_admin ops ≡ false
      → Filed ops
      → Sound (promote first o ops)
  unfolding promote
  promote-admin first none ops f i h w = cc
  promote-admin first (some op) ops f i h w = (
    Filed-insert first _ ops (lookup-Filed first op ops w f) w,
    ground (
      arith,
      admin_count-insert first (record op { role = role_admin }) ops,
      weight-le first ops,
      any-admin_count ops,
    ),
  )

  -- After the start of the server there is an admin, if there is an operator at all.
  pub promote_first_admin_if_none-Sound :
      (ops : Operators K) → Filed ops → 1 ≤ length ops → Sound (promote_first_admin_if_none ops)
  unfolding promote_first_admin_if_none
  promote_first_admin_if_none-Sound [] w n = absurd (omega (arith, n))
  promote_first_admin_if_none-Sound ((name, op) ∷ rest) w n =
      let ops = (name, op) ∷ rest in
      let first = least_name name rest in
      if_cases Sound (any is_admin ops) _ _ (λ h. (w, ground (arith, any-admin_count ops)))
        (λ h.
          promote-admin first (lookup first ops) ops refl
            (least_name-found rest name ops (every_name_found ops).0 (every_name_found ops).1) h w)

  module _ (P : OperatorRecord K → Type 0) where
    promote-All :
        (first : String) (o : Option (OperatorRecord K)) (ops : Operators K)
        → lookup first ops ≡ o
        → ((op : OperatorRecord K) → P op → P (record op { role = role_admin }))
        → All (λ e. P e.1) ops
        → All (λ e. P e.1) (promote first o ops)
    unfolding promote
    promote-All first none ops e f a = a
    promote-All first (some op) ops e f a =
        All-insert (λ x. P x.1) first (record op { role = role_admin }) ops
          (f op ((All-lookup (λ x. P x.1) first op ops a e).2)) a

    -- What holds of every record and does not depend on the role holds on.
    pub promote_first_admin_if_none-All :
        (ops : Operators K)
        → ((op : OperatorRecord K) → P op → P (record op { role = role_admin }))
        → All (λ e. P e.1) ops
        → All (λ e. P e.1) (promote_first_admin_if_none ops)
    unfolding promote_first_admin_if_none
    promote_first_admin_if_none-All [] f a = tt
    promote_first_admin_if_none-All ((name, op) ∷ rest) f a =
        if_cases (All (λ e. P e.1)) (any is_admin ((name, op) ∷ rest)) _ _ (λ _. a)
          (λ _. promote-All (least_name name rest) _ ((name, op) ∷ rest) refl f a)
