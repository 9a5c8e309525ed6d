-- ===== src/Recovery/Token.antt =====
-- core-console/backend/recover_bootstrap.go: `verify`. Base64, HMAC-SHA256 and the JSON decoder are
-- functions of a record; bytes are numbers. Times are seconds.
pub mod Same
use Prim.Native.Char.{code}
use ncn_platform.Base.{
  ℕ, suc, ◌+◌, Bool, true, false, not, ◌&&◌, ◌||◌, ◌==◌, List, [], ◌∷◌, Option, none, some, String,
  str_eq, text_append, if◌then◌else◌, ℤ, pos, ltb_ℤ, gtb_ℤ, eq_ℤ, length,
}

pub record Claims : Type 0 where
  pub user : String
  pub exp : ℤ
  pub nonce : String

pub record Crypto : Type 0 where
  pub decode : String → Option (List ℕ)
  pub mac : List ℕ → String → List ℕ
  pub parse : List ℕ → Option Claims

pub data TokenError : Type 0 where
  not_provisioned not_token malformed bad_payload bad_sig bad_signature bad_claims missing expired
        implausible :
      TokenError

-- A token is in order, with its user and nonce.
pub data Verdict : Type 0 where
  refused : TokenError → Verdict
  valid : String → String → Verdict

-- `recoveryBootstrapMaxTTL` in seconds.
abbrev pub max_ttl : ℕ
max_ttl = 900

-- `strings.HasPrefix` and `strings.TrimPrefix` in one.
strip : String → String → Option String
strip String.[] s = some s
strip (String.◌∷◌ p ps) String.[] = none
strip (String.◌∷◌ p ps) (String.◌∷◌ c s) =
    let rest = strip ps s in if code p == code c then rest else none

abbrev push : String → List String → List String
push c [] = c ∷ []
push c (part ∷ parts) = text_append c part ∷ parts

-- `strings.Split(body, ".")`.
split_dots : String → List String
split_dots String.[] = "" ∷ []
split_dots (String.◌∷◌ c s) =
    let rest = split_dots s in
    if code c == b'.' then "" ∷ rest else push (String.◌∷◌ c String.[]) rest

same_bytes : List ℕ → List ℕ → Bool
same_bytes [] [] = true
same_bytes (x ∷ xs) (y ∷ ys) = x == y && same_bytes xs ys
same_bytes _ _ = false

-- The checks on the decoded claims.
check_claims : ℕ → Option Claims → Verdict
check_claims now none = refused bad_claims
check_claims now (some c) =
    if str_eq c.user "" || str_eq c.nonce ""
    then refused missing
    else if eq_ℤ c.exp (pos 0) || ltb_ℤ c.exp now
    then refused expired
    else if gtb_ℤ c.exp (now + (max_ttl + 60))
    then refused implausible
    else valid c.user c.nonce

module _ (cr : Crypto) where
  check_sig : List ℕ → String → ℕ → List ℕ → Option (List ℕ) → Verdict
  unfolding check_claims same_bytes
  check_sig key part now payload none = refused bad_sig
  check_sig key part now payload (some sig) =
      if not (same_bytes sig (cr.mac key part))
      then refused bad_signature
      else check_claims now (cr.parse payload)

  check_payload : List ℕ → String → ℕ → String → Option (List ℕ) → Verdict
  unfolding check_sig
  check_payload key part now sig none = refused bad_payload
  check_payload key part now sig (some payload) = check_sig key part now payload (cr.decode sig)

  check_parts : List ℕ → ℕ → List String → Verdict
  unfolding check_payload
  check_parts key now (part ∷ sig ∷ []) = check_payload key part now sig (cr.decode part)
  check_parts key now [] = refused malformed
  check_parts key now (_ ∷ []) = refused malformed
  check_parts key now (_ ∷ _ ∷ _ ∷ _) = refused malformed

  check_body : List ℕ → ℕ → Option String → Verdict
  unfolding check_parts split_dots
  check_body key now none = refused not_token
  check_body key now (some body) = check_parts key now (split_dots body)

  unfoldable pub verify_with : List ℕ → String → ℕ → Verdict
  unfolding check_body strip
  verify_with key token now = check_body key now (strip "rcv-" token)

-- The key is read from its file while the service has none.
unfoldable pub load_key : Option (List ℕ) → List ℕ → Option (List ℕ)
load_key file key = if length key == 0 then file else some key
