-- ===== src/Auth/Accounts/Admins.antt =====
-- The requests about accounts keep the operators in order: the records stand under their names, and an
-- admin remains.
use ncn_platform.Base.{
  ℕ, ◌+◌, ◌≤◌, Bool, false, not, ◌&&◌, ◌||◌, List, [], ◌∷◌, Option, none, some, String, str_eq, ◌≡◌,
  refl, subst, ◌∙◌, if◌then◌else◌, arith, if_cases, eq_iff, leb, ltb, is_some, trim_space,
  byte_length,
}
use ncn_platform.Base.Dict.{lookup, insert, delete}
use ncn_platform.Auth.Operator.{
  OperatorRecord, Operators, Bcrypt, Answer, done, role_admin, admin_count, Absent, Filed,
}
use ncn_platform.Auth.Operator.Filing.{Filed-insert, Filed-delete, lookup-Filed}
use ncn_platform.Auth.Accounts.{
  CreateReq, Fresh, is_valid_username, known_role, default_role, chosen_password, change_role,
  update_found, operators_update, delete_found, operators_delete, new_operator, store_new,
  create_with, operators_create,
}

abbrev pub bit : Bool → ℕ
bit b = if b then 1 else 0

module _ {K : Type 0} where
  -- The number of admins among the entries of a name.
  abbrev pub weight : Option (OperatorRecord K) → ℕ
  weight none = 0
  weight (some op) = bit (str_eq op.role role_admin)

  pub admin_count-insert :
      (name : String) (op : OperatorRecord K) (ops : Operators K)
      → admin_count (insert name op ops) + weight (lookup name ops)
        ≡ admin_count ops + bit (str_eq op.role role_admin)
  unfolding insert lookup
  admin_count-insert name op [] = ground arith
  admin_count-insert name op ((at, x) ∷ rest) = ground (arith, admin_count-insert name op rest)

  delete-Absent : (name : String) (ops : Operators K) → Absent name ops → delete name ops ≡ ops
  unfolding delete lookup
  delete-Absent name [] a = refl
  delete-Absent name ((at, x) ∷ rest) a = ground (arith, delete-Absent name rest)

  admin_count-delete :
      (name : String) (ops : Operators K)
      → Filed ops
      → admin_count (delete name ops) + weight (lookup name ops) ≡ admin_count ops
  unfolding delete lookup Filed
  admin_count-delete name [] w = omega arith
  admin_count-delete name ((at, x) ∷ rest) w =
      ground (arith, admin_count-delete name rest w.2, eq_iff at name, delete-Absent name rest, w.1)

  -- What every request keeps: the filing of the records, and that there is an admin.
  abbrev pub Sound : Operators K → Type 0
  Sound ops = Filed ops × (1 ≤ admin_count ops)

  abbrev Kept : Operators K × Answer → Type 0
  Kept r = Sound r.0

  -- A record that stands in for one of the same name, or for none, and is an admin's if that was, or
  -- if another admin remains.
  Sound-insert :
      (name : String) (op : OperatorRecord K) (ops : Operators K)
      → op.username ≡ name
      → 1 + weight (lookup name ops) ≤ admin_count ops + bit (str_eq op.role role_admin)
      → Sound ops
      → Sound (insert name op ops)
  Sound-insert name op ops e h s =
      (Filed-insert name op ops e s.0, ground (arith, admin_count-insert name op ops, h))

  -- The change of one record that leaves its name and its role alone.
  pub Sound-edit :
      (name : String) (old op : OperatorRecord K) (ops : Operators K)
      → lookup name ops ≡ some old
      → op.username ≡ old.username
      → op.role ≡ old.role
      → Sound ops
      → Sound (insert name op ops)
  Sound-edit name old op ops f e r s =
      Sound-insert name op ops (e ∙ lookup-Filed name old ops s.0 f)
        (rw (f, r) (omega (arith, s.1))) s

  change_role-Sound :
      (p : Bool) (name role : String) (op : OperatorRecord K) (ops : Operators K)
      → lookup name ops ≡ some op
      → Sound ops
      → Sound (change_role p name role op ops).0
  unfolding change_role
  change_role-Sound p name role op ops f s =
      if_cases Kept
        (str_eq op.role role_admin && (not (str_eq role role_admin) && leb (admin_count ops) 1)) _ _
        (λ _. s)
        (λ h.
          Sound-insert name _ ops (lookup-Filed name op ops s.0 f) (rw f (ground (arith, s.1))) s)

  update_found-Sound :
      (p : Bool) (name role : String) (o : Option (OperatorRecord K)) (ops : Operators K)
      → lookup name ops ≡ o
      → Sound ops
      → Sound (update_found p name role o ops).0
  unfolding update_found
  update_found-Sound p name role none ops f s = s
  update_found-Sound p name role (some op) ops f s =
      if_cases Kept (str_eq op.role role) _ _ (λ _. s)
        (λ _. change_role-Sound p name role op ops f s)

  pub operators_update-Sound :
      (p : Bool) (username role : String) (ops : Operators K)
      → Sound ops
      → Sound (operators_update p username role ops).0
  unfolding operators_update
  operators_update-Sound p username role ops s =
      if_cases Kept (str_eq (trim_space username) "" || not (known_role role)) _ _ (λ _. s)
        (λ _. update_found-Sound p (trim_space username) role _ ops refl s)

  delete_found-Sound :
      (p : Bool) (target : String) (o : Option (OperatorRecord K)) (ops : Operators K)
      → lookup target ops ≡ o
      → Sound ops
      → Sound (delete_found p target o ops).0
  unfolding delete_found
  delete_found-Sound p target none ops f s = s
  delete_found-Sound p target (some op) ops f s =
      if_cases Kept (str_eq op.role role_admin && leb (admin_count ops) 1) _ _ (λ _. s)
        (λ h. (
          Filed-delete target ops s.0,
          enough (delete target ops)
              (subst (λ o. admin_count (delete target ops) + weight o ≡ admin_count ops) f
                (admin_count-delete target ops s.0))
              h,
        ))
    where
      enough :
          (left : Operators K)
          → admin_count left + weight (some op) ≡ admin_count ops
          → (str_eq op.role role_admin && leb (admin_count ops) 1) ≡ false
          → 1 ≤ admin_count left
      enough left e h = ground (arith, s.1)

  pub operators_delete-Sound :
      (p : Bool) (caller username : String) (ops : Operators K)
      → Sound ops
      → Sound (operators_delete p caller username ops).0
  unfolding operators_delete
  operators_delete-Sound p caller username ops s =
      if_cases Kept (str_eq (trim_space username) "" || str_eq (trim_space username) caller) _ _
        (λ _. s) (λ _. delete_found-Sound p (trim_space username) _ ops refl s)

  store_new-Sound :
      (f : Fresh) (name role : String) (h : Option String) (c : Option (List String))
      (ops : Operators K)
      → is_some (lookup name ops) ≡ false
      → Sound ops
      → Sound (store_new f name role h c ops).0
  unfolding store_new new_operator
  store_new-Sound f name role none c ops a s = s
  store_new-Sound f name role (some hash) none ops a s = s
  store_new-Sound f name role (some hash) (some codes) ops a s =
      Sound-insert name _ ops refl (room (lookup name ops) a) s
    where
      room :
          (o : Option (OperatorRecord K))
          → is_some o ≡ false
          → 1 + weight o ≤ admin_count ops + bit (str_eq role role_admin)
      room none a = omega (arith, s.1)
      room (some op) a = cc

  create_with-Sound :
      (b : Bcrypt) (f : Fresh) (name role : String) (o : Option String) (ops : Operators K)
      → Sound ops
      → Sound (create_with b f name role o ops).0
  unfolding create_with
  create_with-Sound b f name role none ops s = s
  create_with-Sound b f name role (some password) ops s =
      if_cases Kept (ltb (byte_length password) 8) _ _ (λ _. s)
        (λ _.
          if_cases Kept (is_some (lookup name ops)) _ _ (λ _. s)
            (λ h. store_new-Sound f name role (b.generate password) f.recovery_hashes ops h s))

  pub operators_create-Sound :
      (b : Bcrypt) (f : Fresh) (req : CreateReq) (ops : Operators K)
      → Sound ops
      → Sound (operators_create b f req ops).0
  unfolding operators_create
  operators_create-Sound b f req ops s =
      let name = trim_space req.username in
      let role = default_role req.role in
      if_cases Kept (not (is_valid_username name) || not (known_role role)) _ _ (λ _. s)
        (λ _.
          create_with-Sound b f name role (chosen_password req.password f.random_password) ops s)

  delete_found-done :
      (p : Bool) (target : String) (o : Option (OperatorRecord K)) (ops : Operators K)
      → (delete_found p target o ops).1 ≡ done
      → (delete_found p target o ops).0 ≡ delete target ops
  unfolding delete_found
  delete_found-done p target none ops = λ e. cc
  delete_found-done p target (some op) ops =
      if_cases (λ (r : Operators K × Answer). r.1 ≡ done → r.0 ≡ delete target ops)
        (str_eq op.role role_admin && leb (admin_count ops) 1) _ _ (λ _ e. cc) (λ _ e. refl)

  pub operators_delete-done :
      (p : Bool) (caller username : String) (ops : Operators K)
      → (operators_delete p caller username ops).1 ≡ done
      → (operators_delete p caller username ops).0 ≡ delete (trim_space username) ops
  unfolding operators_delete
  operators_delete-done p caller username ops =
      if_cases (λ (r : Operators K × Answer). r.1 ≡ done → r.0 ≡ delete (trim_space username) ops)
        (str_eq (trim_space username) "" || str_eq (trim_space username) caller) _ _ (λ _ e. cc)
        (λ _. delete_found-done p (trim_space username) (lookup (trim_space username) ops) ops)
