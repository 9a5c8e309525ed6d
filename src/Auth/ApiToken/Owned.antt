-- ===== src/Auth/ApiToken/Owned.antt =====
-- A bearer token signs in its owner, and an operator has a limited number of them.
use mathlib.Core.Option.{some-injective}
use ncn_platform.Base.{
  inl, inr, Bool-cases, eq_iff, ap, subst, ℕ, ◌+◌, ◌≤◌, ltb, leb, Bool, true, false, not, ◌&&◌,
  ◌||◌, [], ◌∷◌, Option, none, some, String, str_eq, ◌≡◌, refl, if_cases, arith, any, if◌then◌else◌,
  trim_space, byte_length, ℤ,
}
use ncn_platform.Base.Dict.{lookup, insert, delete}
use ncn_platform.Auth.Operator.{OperatorRecord, Operators, Bcrypt}
use ncn_platform.Auth.Session.{SessionClaims}
use ncn_platform.Auth.ApiToken.{
  ApiTokenRecord, ApiTokens, ApiVerdict, recognized, not_recognized, owner_gone, no_prefix,
  has_prefix, is_live, first_live, touch, owner_approved, verify_candidate, verify_api_token,
  FreshToken, TokenAnswer, token_count, api_token_max_per, api_token_max_lbl, store_token,
  hash_plain, api_token_create, delete_token, api_token_delete,
}

-- A token that is not expired, has the secret and belongs to the operator.
abbrev pub valid_for : Bcrypt → ℕ → String → String → String × ApiTokenRecord → Bool
valid_for b now raw sub e =
    is_live now e.1 && (b.compare_hash e.1.hash raw && str_eq e.1.operator sub)

not-recognized : (c : SessionClaims) → not_recognized ≡ recognized c → ⊥
not-recognized c e = cc

not-owner_gone : (c : SessionClaims) → owner_gone ≡ recognized c → ⊥
not-owner_gone c e = cc

not-no_prefix : (c : SessionClaims) → no_prefix ≡ recognized c → ⊥
not-no_prefix c e = cc

recognized-same : (c d : SessionClaims) → recognized c ≡ recognized d → c ≡ d
recognized-same c d e = cc

first_live-valid :
    (b : Bcrypt) (now : ℕ) (raw : String) (t : ApiTokenRecord) (tokens : ApiTokens)
    → first_live b now raw tokens ≡ some t
    → any (valid_for b now raw t.operator) tokens ≡ true
unfolding first_live
first_live-valid b now raw t [] = λ e. cc
first_live-valid b now raw t ((id, x) ∷ rest) =
    if_cases (λ o. o ≡ some t → any (valid_for b now raw t.operator) ((id, x) ∷ rest) ≡ true)
      (is_live now x && b.compare_hash x.hash raw) _ _
      (λ h e. own x (ap (λ (y : ApiTokenRecord). y.operator) (some-injective x t e)) h)
      (λ _ e. ground (arith, first_live-valid b now raw t rest e))
  where
    own :
        (x : ApiTokenRecord)
        → x.operator ≡ t.operator
        → (is_live now x && b.compare_hash x.hash raw) ≡ true
        → any (valid_for b now raw t.operator) ((id, x) ∷ rest) ≡ true
    own x e h = ground (arith, eq_iff x.operator t.operator, e)

token_count-insert :
    (caller id : String) (t : ApiTokenRecord) (tokens : ApiTokens)
    → token_count caller (insert id t tokens)
      ≤ token_count caller tokens + (if str_eq t.operator caller then 1 else 0)
unfolding insert
token_count-insert caller id t [] = ground arith
token_count-insert caller id t ((at, x) ∷ rest) =
    ground (arith, token_count-insert caller id t rest)

token_count-delete :
    (caller id : String) (tokens : ApiTokens)
    → token_count caller (delete id tokens) ≤ token_count caller tokens
unfolding delete
token_count-delete caller id [] = omega arith
token_count-delete caller id ((at, x) ∷ rest) = ground (arith, token_count-delete caller id rest)

count_replaced :
    (caller id : String) (now : ℕ) (t : ApiTokenRecord) (tokens : ApiTokens)
    → lookup id tokens ≡ some t
    → token_count caller (insert id (record t { last_used_at = now }) tokens)
      ≡ token_count caller tokens
unfolding insert lookup
count_replaced caller id now t [] f = cc
count_replaced caller id now t ((at, x) ∷ rest) f =
    ground (arith, count_replaced caller id now t rest)

token_count-touch :
    (caller id : String) (now : ℕ) (o : Option ApiTokenRecord) (tokens : ApiTokens)
    → lookup id tokens ≡ o
    → token_count caller (touch now id o tokens) ≤ token_count caller tokens
unfolding touch
token_count-touch caller id now none tokens f = omega arith
token_count-touch caller id now (some t) tokens f =
    omega (arith, count_replaced caller id now t tokens f)

-- Every operator has at most as many tokens as the limit says.
abbrev Limited : ApiTokens → Type 0
Limited tokens = (caller : String) → token_count caller tokens ≤ api_token_max_per

insert-Limited :
    (id : String) (t : ApiTokenRecord) (tokens : ApiTokens)
    → leb api_token_max_per (token_count t.operator tokens) ≡ false
    → Limited tokens
    → Limited (insert id t tokens)
insert-Limited id t tokens room l name = elim (Bool-cases (str_eq t.operator name)) [
  | inl e ↦ ground (
    arith,
    token_count-insert name id t tokens,
    ap (λ n. token_count n tokens) ((eq_iff t.operator name).0 e),
  )
  | inr e ↦ ground (arith, token_count-insert name id t tokens, l name)
]

store_token-Limited :
    (f : FreshToken) (now : ℕ) (caller label : String) (x : ℤ) (h : Option String)
    (tokens : ApiTokens)
    → leb api_token_max_per (token_count caller tokens) ≡ false
    → Limited tokens
    → Limited (store_token f now caller label x h tokens).0
unfolding store_token
store_token-Limited f now caller label x none tokens room l = l
store_token-Limited f now caller label x (some h) tokens room l =
    insert-Limited f.id _ tokens room l

delete_token-Limited :
    (p : Bool) (caller id : String) (o : Option ApiTokenRecord) (tokens : ApiTokens)
    → Limited tokens
    → Limited (delete_token p caller id o tokens).0
unfolding delete_token
delete_token-Limited p caller id none tokens l = l
delete_token-Limited p caller id (some t) tokens l =
    if_cases (λ (r : ApiTokens × TokenAnswer). Limited r.0) (not (str_eq t.operator caller)) _ _
      (λ _. l) (λ _ name. omega (arith, token_count-delete name id tokens, l name))

module _ {K : Type 0} where
  verify_candidate-Limited :
      (now : ℕ) (o : Option ApiTokenRecord) (ops : Operators K) (tokens : ApiTokens)
      → Limited tokens
      → Limited (verify_candidate now o ops tokens).0
  unfolding verify_candidate
  verify_candidate-Limited now none ops tokens l = l
  verify_candidate-Limited now (some t) ops tokens l =
      if_cases (λ (r : ApiTokens × ApiVerdict). Limited r.0)
        (not (owner_approved (lookup t.operator ops))) _ _ (λ _. l)
        (λ _ name.
          omega (arith, token_count-touch name t.id now (lookup t.id tokens) tokens refl, l name))

  -- No operator has more bearer tokens than the limit after a token was created, deleted or used, if
  -- none had before.
  pub api_token-Limited :
      (b : Bcrypt) (f : FreshToken) (now : ℕ) (caller label id token : String) (x : ℤ) (p : Bool)
      (ops : Operators K) (tokens : ApiTokens)
      → Limited tokens
      → Limited (api_token_create b f now caller label x tokens).0
        × Limited (api_token_delete p caller id tokens).0
        × Limited (verify_api_token b now token ops tokens).0
  unfolding api_token_create api_token_delete verify_api_token
  api_token-Limited b f now caller label id token x p ops tokens l = (
    if_cases (λ (r : ApiTokens × TokenAnswer). Limited r.0)
        (str_eq (trim_space label) "" || ltb api_token_max_lbl (byte_length (trim_space label))) _ _
        (λ _. l)
        (λ _.
          if_cases (λ (r : ApiTokens × TokenAnswer). Limited r.0)
            (leb api_token_max_per (token_count caller tokens)) _ _ (λ _. l)
            (λ h.
              store_token-Limited f now caller (trim_space label) x (hash_plain b f.plaintext)
                tokens h l)),
    if_cases (λ (r : ApiTokens × TokenAnswer). Limited r.0) (str_eq id "") _ _ (λ _. l)
        (λ _. delete_token-Limited p caller id (lookup id tokens) tokens l),
    if_cases (λ (r : ApiTokens × ApiVerdict). Limited r.0)
        (not (has_prefix "ncntok_" (trim_space token))) _ _ (λ _. l)
        (λ _.
          verify_candidate-Limited now (first_live b now (trim_space token) tokens) ops tokens l),
  )

  owner_approved-found :
      (o : Option (OperatorRecord K))
      → owner_approved o ≡ true
      → (op : OperatorRecord K) × (o ≡ some op) × (op.approved ≡ true)
  unfolding owner_approved
  owner_approved-found none e = cc
  owner_approved-found (some op) e = (op, refl, e)

  -- What a recognised secret has shown.
  abbrev pub Owned : Bcrypt → ℕ → String → Operators K → ApiTokens → SessionClaims → Type 0
  Owned b now raw ops tokens c =
      (any (valid_for b now raw c.sub) tokens ≡ true)
      × ((op : OperatorRecord K) × (lookup c.sub ops ≡ some op) × (op.approved ≡ true))

  verify_candidate-Owned :
      (b : Bcrypt) (now : ℕ) (raw : String) (o : Option ApiTokenRecord) (ops : Operators K)
      (tokens : ApiTokens) (c : SessionClaims)
      → first_live b now raw tokens ≡ o
      → (verify_candidate now o ops tokens).1 ≡ recognized c
      → Owned b now raw ops tokens c
  unfolding verify_candidate
  verify_candidate-Owned b now raw none ops tokens c f = λ e. absurd (not-recognized c e)
  verify_candidate-Owned b now raw (some t) ops tokens c f =
      if_cases (λ (r : ApiTokens × ApiVerdict). r.1 ≡ recognized c → Owned b now raw ops tokens c)
        (not (owner_approved (lookup t.operator ops))) _ _ (λ _ e. absurd (not-owner_gone c e))
        (λ h e. subst (Owned b now raw ops tokens) (recognized-same _ c e) (
          first_live-valid b now raw t tokens f,
          owner_approved-found (lookup t.operator ops) (ground arith),
        ))

  -- A bearer token that is recognised is the secret of a stored token that is not expired, and signs in
  -- the operator that this token belongs to, who is there and approved.
  pub verify_api_token-recognized :
      (b : Bcrypt) (now : ℕ) (token : String) (ops : Operators K) (tokens : ApiTokens)
      (c : SessionClaims)
      → (verify_api_token b now token ops tokens).1 ≡ recognized c
      → Owned b now (trim_space token) ops tokens c
  unfolding verify_api_token
  verify_api_token-recognized b now token ops tokens c =
      if_cases
        (λ (r : ApiTokens × ApiVerdict).
          r.1 ≡ recognized c → Owned b now (trim_space token) ops tokens c)
        (not (has_prefix "ncntok_" (trim_space token))) _ _ (λ _ e. absurd (not-no_prefix c e))
        (λ _. verify_candidate-Owned b now (trim_space token) _ ops tokens c refl)
