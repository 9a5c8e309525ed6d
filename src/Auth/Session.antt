-- ===== src/Auth/Session.antt =====
-- core-console/backend/auth.go: the tokens of the sessions and of the two-step sign-in. Base64,
-- HMAC-SHA256 and the JSON encoder are functions of a record; bytes are numbers, times seconds. A
-- request reads the clock once.
pub mod RoundTrip
use Prim.Native.Char.{Char, code}
use ncn_platform.Base.{
  ℕ, ◌+◌, ◌==◌, ltb, Bool, not, List, ◌++◌, Option, none, some, String, str_eq, text_append,
  if◌then◌else◌,
}

-- `sessionTTL` and `loginIntentTTL` in seconds.
abbrev pub session_ttl : ℕ
session_ttl = 28800

abbrev pub login_intent_ttl : ℕ
login_intent_ttl = 300

pub record SessionClaims : Type 0 where
  pub sub : String
  pub iat : ℕ
  pub exp : ℕ
  pub sid : String

pub record IntentClaims : Type 0 where
  pub sub : String
  pub exp : ℕ
  pub jti : String

-- The JSON of one type of claims.
pub record Json (A : Type 0) : Type 0 where
  pub marshal : A → Option (List ℕ)
  pub unmarshal : List ℕ → Option A

pub record Codec : Type 0 where
  pub encode : List ℕ → String
  pub decode : String → Option (List ℕ)
  pub mac : List ℕ → String → List ℕ
  pub session_json : Json SessionClaims
  pub intent_json : Json IntentClaims

pub data TokenVerdict (A : Type 0) : Type 0 where
  malformed bad_signature undecodable expired : TokenVerdict A
  accepted : A → TokenVerdict A

-- `token[:dot]` and `token[dot+1:]` at the first dot.
abbrev cut_cons : Char → Option (String × String) → Option (String × String)
cut_cons c none = none
cut_cons c (some (payload, sig)) = some (String.◌∷◌ c payload, sig)

cut_at_dot : String → Option (String × String)
cut_at_dot String.[] = none
cut_at_dot (String.◌∷◌ c s) =
    let rest = cut_at_dot s in if code c == b'.' then some ("", s) else cut_cons c rest

-- What `domain` puts before the payload under the signature: nothing for a session, `intent.` for the
-- ticket between the two steps.
abbrev session_domain : String
session_domain = ""

abbrev intent_domain : String
intent_domain = "intent."

module _ (c : Codec) (secret : List ℕ) where
  sign : String → String → String
  sign domain payload = c.encode (c.mac secret (text_append domain payload))

  -- `payload + "." + sig`.
  seal : String → Option (List ℕ) → Option String
  unfolding sign
  seal domain none = none
  seal domain (some body) =
      let payload = c.encode body in
      some (text_append payload (text_append "." (sign domain payload)))

  module _ {A : Type 0} (json : Json A) (exp_of : A → ℕ) where
    check_exp : ℕ → Option A → TokenVerdict A
    check_exp now none = undecodable
    check_exp now (some a) = if ltb (exp_of a) now then expired else accepted a

    read_body : ℕ → Option (List ℕ) → TokenVerdict A
    unfolding check_exp
    read_body now none = undecodable
    read_body now (some raw) = check_exp now (json.unmarshal raw)

    open_parts : String → ℕ → Option (String × String) → TokenVerdict A
    unfolding read_body sign
    open_parts domain now none = malformed
    open_parts domain now (some (payload, sig)) =
        if not (str_eq (sign domain payload) sig)
        then bad_signature
        else read_body now (c.decode payload)

    open_token : String → ℕ → String → TokenVerdict A
    unfolding open_parts cut_at_dot
    open_token domain now token = open_parts domain now (cut_at_dot token)

  abbrev session_exp : SessionClaims → ℕ
  session_exp a = a.exp

  abbrev intent_exp : IntentClaims → ℕ
  intent_exp a = a.exp

  session_of : ℕ → String → Option (List ℕ) → Option (List ℕ)
  session_of now username none = none
  session_of now username (some sid) =
      c.session_json.marshal
        (record { sub = username; iat = now; exp = now + session_ttl; sid = c.encode sid })

  -- `issueToken`; `sid` is what the random source gives.
  unfoldable pub issue_token : ℕ → Option (List ℕ) → String → Option String
  unfolding session_of seal
  issue_token now sid username = seal session_domain (session_of now username sid)

  unfoldable pub verify_token : ℕ → String → TokenVerdict SessionClaims
  unfolding open_token
  verify_token now token = open_token c.session_json session_exp session_domain now token

  intent_of : ℕ → String → Option (List ℕ) → Option (List ℕ)
  intent_of now username none = none
  intent_of now username (some nonce) =
      c.intent_json.marshal
        (record { sub = username; exp = now + login_intent_ttl; jti = c.encode nonce })

  unfoldable pub issue_login_intent : ℕ → Option (List ℕ) → String → Option String
  unfolding intent_of seal
  issue_login_intent now nonce username = seal intent_domain (intent_of now username nonce)

  unfoldable pub verify_login_intent : ℕ → String → TokenVerdict IntentClaims
  unfolding open_token
  verify_login_intent now token = open_token c.intent_json intent_exp intent_domain now token
