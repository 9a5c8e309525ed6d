-- ===== src/Auth/Accounts/Same.antt =====
-- Creating, deleting and changing accounts gives no external identity a second owner.
use ncn_platform.Base.{
  Bool, List, Option, none, some, String, str_eq, ◌≡◌, refl, not, ◌&&◌, ◌||◌, leb, ltb, is_some,
  trim_space, byte_length, if_cases,
}
use ncn_platform.Base.Dict.{lookup}
use ncn_platform.Auth.Operator.{OperatorRecord, Operators, Bcrypt, Answer, role_admin, admin_count}
use ncn_platform.Auth.Identity.Unique.{Unique, Unique-insert, Unique-edit, Unique-delete}
use ncn_platform.Auth.Accounts.{
  CreateReq, Fresh, is_valid_username, known_role, default_role, chosen_password, change_role,
  update_found, operators_update, delete_found, operators_delete, new_operator, store_new,
  create_with, operators_create,
}

module _ {K : Type 0} where
  abbrev Kept : Operators K × Answer → Type 0
  Kept r = Unique r.0

  update_found-Unique :
      (p : Bool) (name role : String) (o : Option (OperatorRecord K)) (ops : Operators K)
      → lookup name ops ≡ o
      → Unique ops
      → Unique (update_found p name role o ops).0
  unfolding update_found change_role
  update_found-Unique p name role none ops f u = u
  update_found-Unique p name role (some op) ops f u =
      if_cases Kept (str_eq op.role role) _ _ (λ _. u)
        (λ _.
          if_cases Kept
            (str_eq op.role role_admin && (not (str_eq role role_admin) && leb (admin_count ops) 1))
            _ _ (λ _. u) (λ _. Unique-edit name op _ ops f refl u))

  pub operators_update-Unique :
      (p : Bool) (username role : String) (ops : Operators K)
      → Unique ops
      → Unique (operators_update p username role ops).0
  unfolding operators_update
  operators_update-Unique p username role ops u =
      if_cases Kept (str_eq (trim_space username) "" || not (known_role role)) _ _ (λ _. u)
        (λ _.
          update_found-Unique p (trim_space username) role (lookup (trim_space username) ops) ops
            refl u)

  delete_found-Unique :
      (p : Bool) (target : String) (o : Option (OperatorRecord K)) (ops : Operators K)
      → Unique ops
      → Unique (delete_found p target o ops).0
  unfolding delete_found
  delete_found-Unique p target none ops u = u
  delete_found-Unique p target (some op) ops u =
      if_cases Kept (str_eq op.role role_admin && leb (admin_count ops) 1) _ _ (λ _. u)
        (λ _. Unique-delete target ops u)

  pub operators_delete-Unique :
      (p : Bool) (caller username : String) (ops : Operators K)
      → Unique ops
      → Unique (operators_delete p caller username ops).0
  unfolding operators_delete
  operators_delete-Unique p caller username ops u =
      if_cases Kept (str_eq (trim_space username) "" || str_eq (trim_space username) caller) _ _
        (λ _. u)
        (λ _. delete_found-Unique p (trim_space username) (lookup (trim_space username) ops) ops u)

  store_new-Unique :
      (f : Fresh) (name role : String) (h : Option String) (c : Option (List String))
      (ops : Operators K)
      → Unique ops
      → Unique (store_new f name role h c ops).0
  unfolding store_new new_operator
  store_new-Unique f name role none c ops u = u
  store_new-Unique f name role (some hash) none ops u = u
  store_new-Unique f name role (some hash) (some codes) ops u =
      Unique-insert name _ ops (λ provider subject n e h o. cc) u

  create_with-Unique :
      (b : Bcrypt) (f : Fresh) (name role : String) (o : Option String) (ops : Operators K)
      → Unique ops
      → Unique (create_with b f name role o ops).0
  unfolding create_with
  create_with-Unique b f name role none ops u = u
  create_with-Unique b f name role (some password) ops u =
      if_cases Kept (ltb (byte_length password) 8) _ _ (λ _. u)
        (λ _.
          if_cases Kept (is_some (lookup name ops)) _ _ (λ _. u)
            (λ _. store_new-Unique f name role (b.generate password) f.recovery_hashes ops u))

  pub operators_create-Unique :
      (b : Bcrypt) (f : Fresh) (req : CreateReq) (ops : Operators K)
      → Unique ops
      → Unique (operators_create b f req ops).0
  unfolding operators_create
  operators_create-Unique b f req ops u =
      let name = trim_space req.username in
      let role = default_role req.role in
      if_cases Kept (not (is_valid_username name) || not (known_role role)) _ _ (λ _. u)
        (λ _.
          create_with-Unique b f name role (chosen_password req.password f.random_password) ops u)
