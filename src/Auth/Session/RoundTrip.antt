-- ===== src/Auth/Session/RoundTrip.antt =====
-- A token is accepted until it expires, and one of the two-step sign-in is no session.
use Prim.Native.String.append
use Prim.Native.String.{len}
use text.Mathlib.TextPositions.{len-append}
use mathlib.Core.Option.{some-injective}
use ncn_platform.Base.{
  ℕ, ◌+◌, ◌==◌, ltb, true, false, not, List, Option, none, some, String, str_eq, text_append, codes,
  all, ◌≡◌, refl, sym, ap, ◌∙◌, if◌then◌else◌, arith, eq_refl, eq_iff, Bool-cases, inl, inr,
}
use ncn_platform.Auth.Session.{
  Codec, Json, SessionClaims, bad_signature, expired, accepted, cut_at_dot, session_domain,
  intent_domain, sign, seal, check_exp, read_body, open_parts, open_token, session_exp, session_of,
  issue_token, verify_token, intent_of, issue_login_intent, session_ttl,
}

-- A text without a dot, as base64 makes it.
abbrev Dotless : String → Type 0
Dotless s = all (λ x. not (x == b'.')) (codes s) ≡ true

cut_at_dot-append :
    (payload sig : String)
    → Dotless payload
    → cut_at_dot (text_append payload (text_append "." sig)) ≡ some (payload, sig)
unfolding cut_at_dot
cut_at_dot-append String.[] sig d =
    ap cut_at_dot (append.nil (text_append "." sig) ∙ append.cons _ "" sig)
    ∙ ap (λ s. some ("", s)) (append.nil sig)
cut_at_dot-append (String.◌∷◌ c s) sig d =
    ap cut_at_dot (append.cons c s (text_append "." sig)) ∙ ground (arith, cut_at_dot-append s sig)

-- An option whose value is known.
abbrev Gives {ℓ} : {A : Type ℓ} → Option A → A → Type ℓ
Gives o a = o ≡ some a

module _ (c : Codec) (secret : List ℕ) where
  seal-parts :
      (domain token : String) (o : Option (List ℕ))
      → seal c secret domain o ≡ some token
      → (body : List ℕ) × (o ≡ some body)
        × (token
            ≡ text_append (c.encode body) (text_append "." (sign c secret domain (c.encode body))))
  unfolding seal
  seal-parts domain token none e = cc
  seal-parts domain token (some body) e = (body, refl, sym (some-injective _ token e))

  -- What a token made for a domain is read as.
  open_token-seal :
      {A : Type 0} (json : Json A) (exp_of : A → ℕ) (domain : String) (now : ℕ) (a : A)
      (body : List ℕ)
      → Dotless (c.encode body)
      → c.decode (c.encode body) ≡ some body
      → json.unmarshal body ≡ some a
      → open_token c secret json exp_of domain now
          (text_append (c.encode body) (text_append "." (sign c secret domain (c.encode body))))
        ≡ (if ltb (exp_of a) now then expired else accepted a)
  unfolding open_token open_parts read_body check_exp
  open_token-seal json exp_of domain now a body dot dec un =
      rw
        (
          cut_at_dot-append (c.encode body) (sign c secret domain (c.encode body)) dot,
          eq_refl (sign c secret domain (c.encode body)),
          dec,
          un,
        )
        refl

  -- A session's token is accepted for its operator until eight hours after it was issued, and is
  -- refused as expired later: if base64 and JSON read what they write, and base64 writes no dot.
  pub verify_token-issue_token :
      ((bytes : List ℕ) → c.decode (c.encode bytes) ≡ some bytes)
      → ((bytes : List ℕ) → Dotless (c.encode bytes))
      → ((a : SessionClaims) (body : List ℕ)
          → c.session_json.marshal a ≡ some body
          → c.session_json.unmarshal body ≡ some a)
      → (now later : ℕ) (sid : List ℕ) (username token : String)
      → issue_token c secret now (some sid) username ≡ some token
      → verify_token c secret later token ≡ (
          if ltb (now + session_ttl) later
          then expired
          else accepted
              (record { sub = username; iat = now; exp = now + session_ttl; sid = c.encode sid }))
  unfolding verify_token issue_token session_of
  verify_token-issue_token dec dot un now later sid username token e =
      let a : SessionClaims = record {
        sub = username;
        iat = now;
        exp = now + session_ttl;
        sid = c.encode sid;
      } in
      let made = seal-parts session_domain token (c.session_json.marshal a) e in
      ap (open_token c secret c.session_json (session_exp c secret) session_domain later) made.2
      ∙ open_token-seal c.session_json (session_exp c secret) session_domain later a made.0
          (dot made.0) (dec made.0) (un a made.0 made.1)

  apart : (p : String) → text_append session_domain p ≡ text_append intent_domain p → ⊥
  apart p e =
      absurd
        (omega (arith, ap len e, len-append session_domain p, len-append intent_domain p, short))
    where
      short : len session_domain + 7 ≡ len intent_domain
      short = refl

  -- The ticket of the two-step sign-in is refused as a session: if base64 reads what it writes and
  -- writes no dot, and no two texts have the same code under the secret.
  pub verify_token-issue_login_intent :
      ((bytes : List ℕ) → c.decode (c.encode bytes) ≡ some bytes)
      → ((bytes : List ℕ) → Dotless (c.encode bytes))
      → ((s t : String) → c.mac secret s ≡ c.mac secret t → s ≡ t)
      → (now later : ℕ) (nonce : Option (List ℕ)) (username token : String)
      → issue_login_intent c secret now nonce username ≡ some token
      → verify_token c secret later token ≡ bad_signature
  unfolding verify_token issue_login_intent open_token open_parts sign
  verify_token-issue_login_intent dec dot inj now later nonce username token e =
      let made = seal-parts intent_domain token (intent_of c secret now username nonce) e in
      ap (open_token c secret c.session_json (session_exp c secret) session_domain later) made.2
      ∙ rw
          (
            cut_at_dot-append (c.encode made.0) (sign c secret intent_domain (c.encode made.0))
                (dot made.0),
            differ (c.encode made.0),
          )
          refl
    where
      same :
          (p : String)
          → sign c secret session_domain p ≡ sign c secret intent_domain p
          → c.mac secret (text_append session_domain p) ≡ c.mac secret (text_append intent_domain p)
      same p h = some-injective _ _ (sym (dec _) ∙ ap c.decode h ∙ dec _)

      differ :
          (p : String)
          → str_eq (sign c secret session_domain p) (sign c secret intent_domain p) ≡ false
      differ p =
          elim (Bool-cases
            (str_eq (sign c secret session_domain p) (sign c secret intent_domain p))) [
              | inl h ↦ absurd (apart p (inj _ _ (same p ((eq_iff _ _).0 h))))
              | inr h ↦ h
            ]
