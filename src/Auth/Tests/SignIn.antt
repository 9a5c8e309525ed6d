-- ===== src/Auth/Tests/SignIn.antt =====
-- A sign-in, a session and a bearer token of these operators.
use Prim.Native.Char.{code}
use ncn_platform.Base.{
  ℕ, zero, suc, ◌≡◌, ◌≢◌, refl, arith, Bool, true, false, List, [], ◌∷◌, none, some, String, str_eq,
  codes, eq_iff, ap, ◌∙◌, all, not, ◌==◌, ◌&&◌, if◌then◌else◌, trim_space, byte_length, itoa,
}
use ncn_platform.Base.Dict.{lookup, delete}
use ncn_platform.Auth.Operator.{OperatorRecord, Operators, done}
use ncn_platform.Auth.Accounts.{operators_delete}
use ncn_platform.Auth.Session.{
  Codec, SessionClaims, IntentClaims, accepted, issue_token, verify_token, verify_login_intent,
}
use ncn_platform.Auth.Session.RoundTrip.{verify_token-issue_token}
use ncn_platform.Auth.Totp.{TotpCrypto, verify_totp, hotp, clean_code}
use ncn_platform.Auth.Totp.Window.{verify_totp-window}
use ncn_platform.Auth.ApiToken.{ApiTokens, recognized, verify_api_token}
use ncn_platform.Auth.ApiToken.Owned.{Owned, verify_api_token-recognized}
use ncn_platform.Auth.Login.{
  Gate, LoginReq, signed_in, handle_login, VerifyReq, verified, handle_login_verify_totp, Visit,
  require_role, require_auth,
}
use ncn_platform.Auth.Login.Safety.{Factor, handle_login-signed_in}
use ncn_platform.Auth.Login.Guards.{
  handle_login_verify_totp-verified, require_role-operators_delete,
}
use ncn_platform.Auth.Tests.{person, same_text, easy}

-- Bytes written in ones, and one session in JSON.
ones : ℕ → String → String
ones zero s = String.◌∷◌ "b" s
ones (suc n) s = String.◌∷◌ "a" (ones n s)

pub enc : List ℕ → String
enc [] = ""
enc (n ∷ ns) = ones n (enc ns)

bump_first : List ℕ → List ℕ
bump_first [] = []
bump_first (n ∷ ns) = suc n ∷ ns

pub dec : String → List ℕ
unfolding bump_first
dec String.[] = []
dec (String.◌∷◌ c s) = let rest = dec s in if code c == b'a' then bump_first rest else zero ∷ rest

dec-ones : (n : ℕ) (s : String) → dec (ones n s) ≡ n ∷ dec s
unfolding ones dec bump_first
dec-ones zero s = refl
dec-ones (suc n) s = ap bump_first (dec-ones n s)

dec-enc : (ns : List ℕ) → dec (enc ns) ≡ ns
unfolding enc dec
dec-enc [] = refl
dec-enc (n ∷ ns) = dec-ones n (enc ns) ∙ ap (λ l. n ∷ l) (dec-enc ns)

dotless-ones :
    (n : ℕ) (s : String)
    → all (λ x. not (x == b'.')) (codes s) ≡ true
    → all (λ x. not (x == b'.')) (codes (ones n s)) ≡ true
unfolding ones
dotless-ones zero s h = h
dotless-ones (suc n) s h = dotless-ones n s h

dotless-enc : (ns : List ℕ) → all (λ x. not (x == b'.')) (codes (enc ns)) ≡ true
unfolding enc
dotless-enc [] = refl
dotless-enc (n ∷ ns) = dotless-ones n (enc ns) (dotless-enc ns)

abbrev ann_session : SessionClaims
ann_session = record { sub = "ann"; iat = 100; exp = 28900; sid = "ab" }

abbrev is_ann : SessionClaims → Bool
is_ann a = (str_eq a.sub "ann" && str_eq a.sid "ab") && (a.iat == 100 && a.exp == 28900)

abbrev pub plain : Codec
plain = record {
  encode = enc;
  decode = λ s. some (dec s);
  mac = λ key s. 3 ∷ [];
  session_json = record {
    marshal = λ a. if is_ann a then some (1 ∷ []) else none;
    unmarshal = λ bytes. some ann_session;
  };
  intent_json = record {
    marshal = λ a. some (2 ∷ []);
    unmarshal = λ bytes. some (record { sub = "ann"; exp = 400; jti = "" });
  };
}

same_session : (a : SessionClaims) → is_ann a ≡ true → ann_session ≡ a
same_session a h =
    let p : "ann" ≡ a.sub = ground (arith, eq_iff a.sub "ann") in
    let q : "ab" ≡ a.sid = ground (arith, eq_iff a.sid "ab") in
    let x : 100 ≡ a.iat = ground arith in
    let y : 28900 ≡ a.exp = ground arith in
    λ i. record { sub = p i; iat = x i; exp = y i; sid = q i }

json_read :
    (a : SessionClaims) (body : List ℕ)
    → (if is_ann a then some (1 ∷ []) else none) ≡ some body
    → some ann_session ≡ some a
json_read a body e = ap some (same_session a (ground arith))

abbrev token : String
token = "ab.aaab"

issued : issue_token plain [] 100 (some (1 ∷ [])) "ann" ≡ some token
unfolding issue_token enc ones
issued = refl

verify_token-issue_token_example : verify_token plain [] 28900 token ≡ accepted ann_session
unfolding enc ones
verify_token-issue_token_example =
    verify_token-issue_token plain [] (λ ns. ap some (dec-enc ns)) dotless-enc json_read 100 28900
      (1 ∷ []) "ann" token issued

-- A code of the step 3, and the gate of the sign-in.
abbrev pub sha : TotpCrypto
sha = record {
  upper = same_text;
  decode32 = λ s. some (codes s);
  mac_sha1 = λ key bytes. 0 ∷ 0 ∷ 1 ∷ 2 ∷ 0 ∷ [];
}

verify_totp-window_example : verify_totp sha "k" "000258" 149 ≡ true
unfolding clean_code hotp byte_length trim_space itoa
verify_totp-window_example =
    verify_totp-window sha "k" "000258" (codes "k") 3 149 refl refl refl refl (omega arith)
      (omega arith)

abbrev pub gate : Gate
gate = record { bcrypt = easy; totp = sha; codec = plain; secret = [] }

abbrev pub ann_login : LoginReq
ann_login = record {
  username = "ann";
  password = "secret12";
  totp_code = "000258";
  is_human = true;
  device_cookie = "";
  address = "ip";
  random = some (1 ∷ []);
  now = 100;
}

abbrev ann_totp : OperatorRecord Unit
ann_totp = record (person "ann" "admin") { totp_secret = "k" }

abbrev safe_team : Operators Unit
safe_team = ("ann", ann_totp) ∷ ("bob", person "bob" "admin") ∷ []

ann_enters : (handle_login gate ann_login safe_team).1 ≡ signed_in ann_totp token
unfolding handle_login lookup verify_totp clean_code hotp byte_length trim_space itoa issue_token
    enc ones
ann_enters = refl

handle_login-signed_in_example :
    (ann_login.is_human ≡ true)
    × (lookup "ann" safe_team ≡ some ann_totp)
    × (str_eq ann_totp.password_hash "secret12" ≡ true)
    × (ann_totp.approved ≡ true)
    × Factor gate ann_login ann_totp safe_team
handle_login-signed_in_example =
    handle_login-signed_in gate ann_login safe_team ann_totp token ann_enters

abbrev second_request : VerifyReq
second_request = record {
  intent_cookie = "aab.aaab";
  totp_code = "000258";
  trust_device = none;
  persisted = true;
  random = some (1 ∷ []);
  now = 100;
}

ann_verified : (handle_login_verify_totp gate second_request safe_team).1 ≡ verified ann_totp token
unfolding handle_login_verify_totp verify_login_intent lookup verify_totp clean_code hotp
    byte_length trim_space itoa issue_token enc ones
ann_verified = refl

handle_login_verify_totp-verified_example :
    (c : IntentClaims) × (verify_login_intent plain [] 100 "aab.aaab" ≡ accepted c)
    × (lookup c.sub safe_team ≡ some ann_totp)
    × (str_eq ann_totp.totp_secret "" ≡ false)
    × (verify_totp sha ann_totp.totp_secret "000258" 100 ≡ true)
handle_login_verify_totp-verified_example =
    handle_login_verify_totp-verified gate second_request ann_totp token safe_team ann_verified

bob_deleted : (operators_delete true "ann" "bob" safe_team).1 ≡ done
unfolding operators_delete lookup trim_space
bob_deleted = refl

abbrev ann_visit : Visit
ann_visit = record { bearer = none; session_cookie = token; now = 28900 }

ann_passes :
    require_role gate (λ t. none) "admin" ann_visit (operators_delete true "ann" "bob" safe_team).0
    ≡ some ann_session
unfolding require_role require_auth operators_delete verify_token lookup delete trim_space enc ones
ann_passes = refl

require_role-operators_delete_example : ann_session.sub ≢ trim_space "bob"
require_role-operators_delete_example =
    require_role-operators_delete gate (λ t. none) true "ann" "bob" "admin" ann_visit safe_team
      ann_session bob_deleted ann_passes

abbrev token_store : ApiTokens
token_store =
    (
      "t1",
      record {
        id = "t1";
        label = "ci";
        operator = "ann";
        hash = "ncntok_x";
        prefix_hint = "";
        created_at = 1;
        last_used_at = 0;
        expires_at = 0;
      },
    )
    ∷ []

abbrev bearer_claims : SessionClaims
bearer_claims = record { sub = "ann"; iat = 0; exp = 86500; sid = "tok-t1" }

recognizes :
    (verify_api_token easy 100 "ncntok_x" safe_team token_store).1 ≡ recognized bearer_claims
unfolding verify_api_token lookup trim_space
recognizes = refl

verify_api_token-recognized_example :
    Owned easy 100 (trim_space "ncntok_x") safe_team token_store bearer_claims
verify_api_token-recognized_example =
    verify_api_token-recognized easy 100 "ncntok_x" safe_team token_store bearer_claims recognizes
