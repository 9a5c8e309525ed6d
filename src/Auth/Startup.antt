-- ===== src/Auth/Startup.antt =====
-- core-console/backend/auth.go: `loadAuthStore`, as far as the operators go: where they are read from, the
-- bootstrap of the first one, and the changes of old records. The session secret is left out. `unmarshal`
-- is the JSON decoder; what is drawn at random and hashed is an argument, and so is whether each write
-- succeeds. A loop that assigns to the key it visits changes the map in place.
pub mod Restart
pub mod Bootstrap
use ncn_platform.Base.{
  ℕ, zero, suc, Bool, true, false, not, ◌&&◌, ◌||◌, leb, List, [], ◌∷◌, Option, none, some, String,
  str_eq, if◌then◌else◌, length,
}
use ncn_platform.Auth.Operator.{OperatorRecord, Operators, role_operator, fill_from}

-- What the database answers, and the file.
pub data DbDoc (J : Type 0) : Type 0 where
  no_database db_failed no_doc : DbDoc J
  doc : J → DbDoc J

pub data FileDoc (J : Type 0) : Type 0 where
  unreadable no_file : FileDoc J
  content : J → FileDoc J

abbrev with_database : {J : Type 0} → DbDoc J → Bool
with_database no_database = false
with_database _ = true

-- What is drawn, hashed where it is a secret to compare with; none where the random source or bcrypt
-- fails. Recovery codes are drawn for an operator by their number.
pub record Drawn : Type 0 where
  pub password_hash : Option String
  pub totp_secret : Option String
  pub code_hash : String → ℕ → Option String

cons_hash : Option String → Option (List String) → Option (List String)
cons_hash (some h) (some hs) = some (h ∷ hs)
cons_hash _ _ = none

-- The hashes of `generateRecoveryCodes`: `n` codes from number `i` on, or its error.
generate_from : (ℕ → Option String) → ℕ → ℕ → Option (List String)
unfolding cons_hash
generate_from hash i zero = some []
generate_from hash i (suc n) = cons_hash (hash i) (generate_from hash (suc i) n)

generate_recovery_codes : (ℕ → Option String) → ℕ → Option (List String)
unfolding generate_from
generate_recovery_codes hash n = generate_from hash 0 n

module _ {K : Type 0} where
  with_codes :
      String
      → OperatorRecord K
      → Option (List String)
      → Option (Operators K × Bool)
      → Option (Operators K × Bool)
  with_codes u op (some hashes) (some (rest, changed)) =
      some ((u, record op { recovery_codes = hashes }) ∷ rest, true)
  with_codes u op _ _ = none

  as_it_is : String → OperatorRecord K → Option (Operators K × Bool) → Option (Operators K × Bool)
  as_it_is u op none = none
  as_it_is u op (some (rest, changed)) = some ((u, op) ∷ rest, changed)

  -- The loop of `migrateRecoveryCodes`, and whether it changed anything.
  migrate_recovery_codes : Drawn → Operators K → Option (Operators K × Bool)
  unfolding with_codes as_it_is
  migrate_recovery_codes d [] = some ([], false)
  migrate_recovery_codes d ((u, op) ∷ ops) =
      let rest = migrate_recovery_codes d ops in
      if leb 1 (length op.recovery_codes)
      then as_it_is u op rest
      else with_codes u op (generate_recovery_codes (d.code_hash u) 10) rest

  abbrev approved_now : String → OperatorRecord K → OperatorRecord K
  approved_now stamp op = record op {
    approved = true;
    approved_at = if str_eq op.approved_at "" then stamp else op.approved_at;
  }

  -- The loop that approves the accounts from before the invitations. Its write may fail.
  approve_legacy : String → Operators K → Operators K
  approve_legacy stamp [] = []
  approve_legacy stamp ((u, op) ∷ ops) =
      let rest = approve_legacy stamp ops in
      if str_eq op.invited_by "" && not op.approved
      then (u, approved_now stamp op) ∷ rest
      else (u, op) ∷ rest

  -- The record of the first operator, approved as little as any record that does not say so.
  first_operator : String → String → String → List String → OperatorRecord K
  first_operator stamp password_hash totp_secret codes = record {
    username = "NOC";
    password_hash = password_hash;
    totp_secret = totp_secret;
    role = role_operator;
    created_at = stamp;
    recovery_codes = codes;
    passkeys = [];
    trusted_devices = [];
    approved = false;
    invited_by = "";
    invited_at = "";
    approved_at = "";
    ssh_keys = [];
    external_identities = [];
    bot_nick = "";
    avatar_url = "";
  }

  bootstrap_drawn :
      Bool → String → Option String → Option String → Option (List String) → Option (Operators K)
  unfolding first_operator
  bootstrap_drawn wrote stamp (some password_hash) (some totp_secret) (some codes) =
      if wrote
      then some (("NOC", first_operator stamp password_hash totp_secret codes) ∷ [])
      else none
  bootstrap_drawn wrote stamp _ _ _ = none

  bootstrap : Bool → String → Drawn → Option (Operators K)
  unfolding bootstrap_drawn
  bootstrap wrote stamp d =
      bootstrap_drawn wrote stamp d.password_hash d.totp_secret
        (generate_recovery_codes (d.code_hash "NOC") 10)

  migrated : Bool → String → Option (Operators K × Bool) → Option (Operators K)
  unfolding approve_legacy
  migrated wrote stamp none = none
  migrated wrote stamp (some (ops, changed)) =
      if changed && not wrote then none else some (approve_legacy stamp ops)

  prepare : Bool → String → Drawn → Operators K → Option (Operators K)
  unfolding bootstrap migrated migrate_recovery_codes
  prepare wrote stamp d [] = bootstrap wrote stamp d
  prepare wrote stamp d (e ∷ ops) = migrated wrote stamp (migrate_recovery_codes d (e ∷ ops))

  parsed_from : Bool → Option (List (OperatorRecord K)) → Option (Operators K × Bool)
  parsed_from from_db none = none
  parsed_from from_db (some l) = some (fill_from [] l, from_db)

  finish : Bool → Option (Operators K) → Option (Operators K)
  finish fails none = none
  finish fails (some ops) = if fails then none else some ops

  module _ {J : Type 0} (unmarshal : J → Option (List (OperatorRecord K))) where
    -- The operators that are read, and whether they are the database's.
    unfoldable pub read_operators : DbDoc J → FileDoc J → Option (Operators K × Bool)
    unfolding parsed_from
    read_operators (doc j) file = parsed_from true (unmarshal j)
    read_operators _ (content j) = parsed_from false (unmarshal j)
    read_operators _ no_file = some ([], false)
    read_operators _ unreadable = none

    -- The write of a first start with the database ends the start where it fails.
    load_found :
        Bool → Bool → Bool → String → Drawn → Option (Operators K × Bool) → Option (Operators K)
    unfolding prepare finish
    load_found has_db wrote mirrored stamp d none = none
    load_found has_db wrote mirrored stamp d (some (ops, from_db)) =
        finish (has_db && (not from_db && not mirrored)) (prepare wrote stamp d ops)

    -- `loadAuthStore`: `wrote` says whether the write of new records succeeds, `mirrored` the write to
    -- the database.
    unfoldable pub load_auth_store :
        (wrote mirrored : Bool) (stamp : String)
        → Drawn
        → DbDoc J
        → FileDoc J
        → Option (Operators K)
    unfolding load_found generate_recovery_codes
    load_auth_store wrote mirrored stamp d db file =
        load_found (with_database db) wrote mirrored stamp d (read_operators db file)
