-- ===== src/Auth/ApiToken.antt =====
-- core-console/backend/auth_apitoken.go: the bearer tokens of scripts. bcrypt, the random source and
-- the write of the file are arguments; times are seconds, and a request reads the clock once. Of a
-- token's visible prefix the text is an argument too.
pub mod Owned
use Prim.Native.Char.{code}
use ncn_platform.Base.{
  ℕ, ◌+◌, ◌==◌, ltb, leb, Bool, true, false, not, ◌&&◌, ◌||◌, List, [], ◌∷◌, Option, none, some,
  String, str_eq, text_append, if◌then◌else◌, keep, length, byte_length, trim_space, ℤ, pos, negsuc,
}
use ncn_platform.Base.Dict.{Dict, lookup, insert, delete}
use ncn_platform.Auth.Operator.{OperatorRecord, Operators, Bcrypt}
use ncn_platform.Auth.Session.{SessionClaims}

abbrev pub api_token_max_per : ℕ
api_token_max_per = 32

abbrev pub api_token_max_lbl : ℕ
api_token_max_lbl = 64

pub record ApiTokenRecord : Type 0 where
  pub id : String
  pub label : String
  pub operator : String
  pub hash : String
  pub prefix_hint : String
  pub created_at : ℕ
  pub last_used_at : ℕ
  pub expires_at : ℕ

abbrev pub ApiTokens : Type 0
ApiTokens = Dict ApiTokenRecord

-- The errors of `verifyAPIToken`, or the claims of the owner.
pub data ApiVerdict : Type 0 where
  no_prefix owner_gone not_recognized : ApiVerdict
  recognized : SessionClaims → ApiVerdict

-- The prefix `ncntok_`.
has_prefix : String → String → Bool
has_prefix String.[] s = true
has_prefix (String.◌∷◌ p ps) String.[] = false
has_prefix (String.◌∷◌ p ps) (String.◌∷◌ c s) = has_prefix ps s && code p == code c

-- The record as long as it is not expired; 0 is no expiry.
abbrev pub is_live : ℕ → ApiTokenRecord → Bool
is_live now t = t.expires_at == 0 || leb now t.expires_at

-- The first of the candidates that is live and has the secret.
first_live : Bcrypt → ℕ → String → ApiTokens → Option ApiTokenRecord
first_live b now raw [] = none
first_live b now raw ((id, t) ∷ rest) =
    if is_live now t && b.compare_hash t.hash raw then some t else first_live b now raw rest

touch : ℕ → String → Option ApiTokenRecord → ApiTokens → ApiTokens
touch now id none tokens = tokens
touch now id (some t) tokens = insert id (record t { last_used_at = now }) tokens

module _ {K : Type 0} where
  owner_approved : Option (OperatorRecord K) → Bool
  owner_approved none = false
  owner_approved (some op) = op.approved

  -- Once a candidate has the secret, no other is tried.
  verify_candidate : ℕ → Option ApiTokenRecord → Operators K → ApiTokens → ApiTokens × ApiVerdict
  unfolding owner_approved touch
  verify_candidate now none ops tokens = (tokens, not_recognized)
  verify_candidate now (some t) ops tokens =
      if not (owner_approved (lookup t.operator ops)) then (tokens, owner_gone) else (
        touch now t.id (lookup t.id tokens) tokens,
        recognized (record {
          sub = t.operator;
          iat = 0;
          exp = now + 86400;
          sid = text_append "tok-" t.id;
        }),
      )

  -- `verifyAPIToken` on the store that `main` sets up.
  unfoldable pub verify_api_token :
      Bcrypt → ℕ → String → Operators K → ApiTokens → ApiTokens × ApiVerdict
  unfolding verify_candidate first_live has_prefix
  verify_api_token b now token ops tokens =
      let raw = trim_space token in
      if not (has_prefix "ncntok_" raw)
      then (tokens, no_prefix)
      else verify_candidate now (first_live b now raw tokens) ops tokens

-- What a creation takes from outside: the new secret, the text of the ID and of the visible prefix.
pub record FreshToken : Type 0 where
  pub plaintext : Option String
  pub id : String
  pub prefix_hint : String
  pub persisted : Bool

pub data TokenAnswer : Type 0 where
  bad_label too_many token_error no_such_token token_done : TokenAnswer

abbrev pub owned_by : String → String × ApiTokenRecord → Bool
owned_by caller e = str_eq e.1.operator caller

abbrev pub token_count : String → ApiTokens → ℕ
token_count caller tokens = length (keep (owned_by caller) tokens)

abbrev token_written : Bool → TokenAnswer
token_written persisted = if persisted then token_done else token_error

-- `req.ExpiresIn` counts from now where it is above 0.
abbrev expiry : ℕ → ℤ → ℕ
expiry now (pos n) = if ltb 0 n then now + n else 0
expiry now (negsuc n) = 0

-- The hash of the new secret, if there is one.
abbrev hash_plain : Bcrypt → Option String → Option String
hash_plain b none = none
hash_plain b (some plaintext) = b.generate plaintext

store_token :
    FreshToken → ℕ → String → String → ℤ → Option String → ApiTokens → ApiTokens × TokenAnswer
store_token f now caller label expires_in none tokens = (tokens, token_error)
store_token f now caller label expires_in (some hash) tokens = (
  insert f.id
      (record {
        id = f.id;
        label = label;
        operator = caller;
        hash = hash;
        prefix_hint = f.prefix_hint;
        created_at = now;
        last_used_at = 0;
        expires_at = expiry now expires_in;
      })
      tokens,
  token_written f.persisted,
)

-- `handleAPITokenCreate` by the caller.
unfoldable pub api_token_create :
    Bcrypt → FreshToken → ℕ → (caller label : String) → ℤ → ApiTokens → ApiTokens × TokenAnswer
unfolding store_token
api_token_create b f now caller label expires_in tokens =
    let name = trim_space label in
    if str_eq name "" || ltb api_token_max_lbl (byte_length name)
    then (tokens, bad_label)
    else if leb api_token_max_per (token_count caller tokens)
    then (tokens, too_many)
    else store_token f now caller name expires_in (hash_plain b f.plaintext) tokens

delete_token : Bool → String → String → Option ApiTokenRecord → ApiTokens → ApiTokens × TokenAnswer
delete_token persisted caller id none tokens = (tokens, no_such_token)
delete_token persisted caller id (some t) tokens =
    if not (str_eq t.operator caller)
    then (tokens, no_such_token)
    else (delete id tokens, token_written persisted)

-- `handleAPITokenDelete` by the caller, with the ID of the path.
unfoldable pub api_token_delete : Bool → (caller id : String) → ApiTokens → ApiTokens × TokenAnswer
unfolding delete_token
api_token_delete persisted caller id tokens =
    if str_eq id ""
    then (tokens, bad_label)
    else delete_token persisted caller id (lookup id tokens) tokens
