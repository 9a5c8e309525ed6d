-- ===== src/Auth/Operator.antt =====
-- core-console/backend/auth.go: the operator's record and the map of operators. A passkey's
-- credential is a type `K`: its fields belong to the WebAuthn library. Times are seconds; a time that
-- the record holds as text is the text that `time.Format` makes of it.
pub mod Filing
use ncn_platform.Base.{
  ℕ, suc, zero, ◌+◌, Bool, true, false, List, [], ◌∷◌, ◌++◌, Option, none, some, String, str_eq,
  ◌≡◌, if◌then◌else◌, keep, length, all, not,
}
use ncn_platform.Base.Dict.{Dict, lookup, insert}

pub record ExternalIdentity : Type 0 where
  pub provider : String
  pub subject : String
  pub email : String
  pub bound_at : String
  pub last_used_at : String

pub record SshKeyRecord : Type 0 where
  pub id : String
  pub label : String
  pub public_key : String
  pub fingerprint : String
  pub kind : String
  pub created_at : ℕ
  pub last_used_at : ℕ

pub record TrustedDevice : Type 0 where
  pub id : String
  pub hash : String
  pub label : String
  pub user_agent : String
  pub created_at : ℕ
  pub last_seen_at : ℕ
  pub last_seen_ip : String

pub record OperatorRecord (K : Type 0) : Type 0 where
  pub username : String
  pub password_hash : String
  pub totp_secret : String
  pub role : String
  pub created_at : String
  pub recovery_codes : List String
  pub passkeys : List K
  pub trusted_devices : List TrustedDevice
  pub approved : Bool
  pub invited_by : String
  pub invited_at : String
  pub approved_at : String
  pub ssh_keys : List SshKeyRecord
  pub external_identities : List ExternalIdentity
  pub bot_nick : String
  pub avatar_url : String

abbrev pub Operators : Type 0 → Type 0
Operators K = Dict (OperatorRecord K)

abbrev pub role_admin : String
role_admin = "admin"

abbrev pub role_operator : String
role_operator = "operator"

-- bcrypt: a hash against a password, and the hash of a password, which can fail.
pub record Bcrypt : Type 0 where
  pub compare_hash : String → String → Bool
  pub generate : String → Option String

-- The answer to a request about an account.
pub data Answer : Type 0 where
  bad_request : Answer
  unauthorized : Answer
  forbidden : Answer
  not_found : Answer
  conflict : Answer
  server_error : Answer
  same_role : Answer
  done : Answer

-- The write comes after the change in memory, which stays when the write fails.
abbrev pub written : Bool → Answer
written persisted = if persisted then done else server_error

module _ {K : Type 0} where
  abbrev pub is_admin : String × OperatorRecord K → Bool
  is_admin e = str_eq e.1.role role_admin

  -- The loop that counts the admins.
  abbrev pub admin_count : Operators K → ℕ
  admin_count ops = length (keep is_admin ops)

  -- `persist`: the records that the file is written from.
  abbrev pub records : Operators K → List (OperatorRecord K)
  records [] = []
  records ((name, op) ∷ rest) = op ∷ records rest

  -- The loop of `loadAuthStore` that fills the map.
  unfoldable pub fill_from : Operators K → List (OperatorRecord K) → Operators K
  fill_from ops [] = ops
  fill_from ops (op ∷ rest) = fill_from (insert op.username op ops) rest

  -- The records stand under their usernames, each under one key once.
  abbrev pub Absent : String → Operators K → Type 0
  Absent name ops = lookup name ops ≡ none

  unfoldable pub Filed : Operators K → Type 0
  Filed [] = Unit
  Filed ((name, op) ∷ rest) = (op.username ≡ name) × Absent name rest × Filed rest
