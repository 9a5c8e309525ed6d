-- ===== src/Auth/Accounts.antt =====
-- core-console/backend/auth.go: the requests that create, delete and change accounts. bcrypt,
-- `strings.ToUpper`, the random source and the write of the operators' file are arguments.
pub mod Admins
pub mod First
pub mod Same
use Prim.Native.Char.{code}
use ncn_platform.Base.{
  ℕ, Bool, true, false, not, ◌&&◌, ◌||◌, ◌==◌, ltb, leb, List, [], ◌∷◌, Option, none, some, String,
  str_eq, if◌then◌else◌, all, any, length, codes, byte_length, trim_space, is_some, text_less,
}
use ncn_platform.Base.Dict.{lookup, insert, delete}
use ncn_platform.Auth.Operator.{
  OperatorRecord, Operators, Bcrypt, Answer, bad_request, unauthorized, forbidden, not_found,
  conflict, server_error, same_role, done, written, role_admin, role_operator, is_admin,
  admin_count,
}

-- The class of the characters of a username.
username_char : ℕ → Bool
username_char c =
    (leb b'a' c && leb c b'z')
    || ((leb b'A' c && leb c b'Z')
        || ((leb b'0' c && leb c b'9') || (c == b'.' || (c == b'_' || c == b'-'))))

unfoldable pub is_valid_username : String → Bool
unfolding username_char
is_valid_username s =
    if ltb (byte_length s) 2 || ltb 32 (byte_length s) then false else all username_char (codes s)

-- `req.Role` when it is empty.
abbrev default_role : String → String
default_role role = if str_eq role "" then role_operator else role

pub known_role : String → Bool
known_role role = str_eq role role_admin || str_eq role role_operator

pub record CreateReq : Type 0 where
  pub username : String
  pub role : String
  pub password : String

-- What a creation takes from outside: the random password, the hashes of the ten new recovery codes,
-- the formatted time, and whether the write succeeds.
pub record Fresh : Type 0 where
  pub random_password : Option String
  pub recovery_hashes : Option (List String)
  pub stamp : String
  pub persisted : Bool

-- The password sent, or else the random one.
abbrev chosen_password : String → Option String → Option String
chosen_password sent random = if str_eq sent "" then random else some sent

module _ {K : Type 0} where
  -- `handleOperatorsUpdate` where the role would change: the only admin stays one.
  change_role : Bool → String → String → OperatorRecord K → Operators K → Operators K × Answer
  change_role persisted name role op ops =
      if str_eq op.role role_admin && (not (str_eq role role_admin) && leb (admin_count ops) 1)
      then (ops, bad_request)
      else (insert name (record op { role = role }) ops, written persisted)

  update_found :
      Bool → String → String → Option (OperatorRecord K) → Operators K → Operators K × Answer
  unfolding change_role
  update_found persisted name role none ops = (ops, not_found)
  update_found persisted name role (some op) ops =
      if str_eq op.role role then (ops, same_role) else change_role persisted name role op ops

  unfoldable pub operators_update : Bool → String → String → Operators K → Operators K × Answer
  unfolding update_found known_role
  operators_update persisted username role ops =
      let name = trim_space username in
      if str_eq name "" || not (known_role role)
      then (ops, bad_request)
      else update_found persisted name role (lookup name ops) ops

  delete_found : Bool → String → Option (OperatorRecord K) → Operators K → Operators K × Answer
  delete_found persisted target none ops = (ops, not_found)
  delete_found persisted target (some op) ops =
      if str_eq op.role role_admin && leb (admin_count ops) 1
      then (ops, bad_request)
      else (delete target ops, written persisted)

  -- `handleOperatorsDelete` by the caller.
  unfoldable pub operators_delete : Bool → String → String → Operators K → Operators K × Answer
  unfolding delete_found
  operators_delete persisted caller username ops =
      let target = trim_space username in
      if str_eq target "" || str_eq target caller
      then (ops, bad_request)
      else delete_found persisted target (lookup target ops) ops

  -- The record of an account that an admin makes.
  new_operator : String → String → String → List String → String → OperatorRecord K
  new_operator name role hash codes stamp = record {
    username = name;
    password_hash = hash;
    totp_secret = "";
    role = role;
    created_at = stamp;
    recovery_codes = codes;
    passkeys = [];
    trusted_devices = [];
    approved = true;
    invited_by = "";
    invited_at = "";
    approved_at = stamp;
    ssh_keys = [];
    external_identities = [];
    bot_nick = "";
    avatar_url = "";
  }

  store_new :
      Fresh
      → String
      → String
      → Option String
      → Option (List String)
      → Operators K
      → Operators K × Answer
  unfolding new_operator
  store_new f name role none codes ops = (ops, server_error)
  store_new f name role (some hash) none ops = (ops, server_error)
  store_new f name role (some hash) (some codes) ops =
      (insert name (new_operator name role hash codes f.stamp) ops, written f.persisted)

  create_with :
      Bcrypt → Fresh → String → String → Option String → Operators K → Operators K × Answer
  unfolding store_new
  create_with b f name role none ops = (ops, server_error)
  create_with b f name role (some password) ops =
      if ltb (byte_length password) 8
      then (ops, bad_request)
      else if is_some (lookup name ops)
      then (ops, conflict)
      else store_new f name role (b.generate password) f.recovery_hashes ops

  -- `handleOperatorsCreate`.
  unfoldable pub operators_create : Bcrypt → Fresh → CreateReq → Operators K → Operators K × Answer
  unfolding create_with known_role
  operators_create b f req ops =
      let name = trim_space req.username in
      let role = default_role req.role in
      if not (is_valid_username name) || not (known_role role)
      then (ops, bad_request)
      else create_with b f name role (chosen_password req.password f.random_password) ops

  -- The least of the names, as `sort.Strings` puts it first.
  least_name : String → Operators K → String
  least_name best [] = best
  least_name best ((name, op) ∷ rest) = least_name (if text_less name best then name else best) rest

  promote : String → Option (OperatorRecord K) → Operators K → Operators K
  promote first none ops = ops
  promote first (some op) ops = insert first (record op { role = role_admin }) ops

  unfoldable pub promote_first_admin_if_none : Operators K → Operators K
  unfolding promote least_name
  promote_first_admin_if_none [] = []
  promote_first_admin_if_none ((name, op) ∷ rest) =
      let ops = (name, op) ∷ rest in
      let first = least_name name rest in
      if any is_admin ops then ops else promote first (lookup first ops) ops
