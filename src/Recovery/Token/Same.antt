-- ===== src/Recovery/Token/Same.antt =====
-- Two checks of one token.
use ncn_platform.Base.{
  ℕ, ◌+◌, ◌≤◌, ◌≡◌, false, List, [], ◌∷◌, Option, none, some, String, arith, ℤ, ltb_ℤ, gtb_ℤ,
}
use ncn_platform.Recovery.Token.{
  Claims, Crypto, Verdict, valid, max_ttl, check_claims, check_sig, check_payload, check_parts,
  check_body, verify_with, strip, split_dots,
}

-- What two successful checks of one token agree on.
abbrev pub Agree : Verdict → ℕ → Verdict → ℕ → Type 0
Agree v now v' now' =
    (u n u' n' : String)
    → v ≡ valid u n
    → v' ≡ valid u' n'
    → (n' ≡ n) × (now' ≤ now + (max_ttl + 60))

exp_bound :
    (e : ℤ) (now now' : ℕ) → ltb_ℤ e now' ≡ false → gtb_ℤ e (now + 960) ≡ false → now' ≤ now + 960
exp_bound e now now' h k = ground arith

check_claims-Agree :
    (now now' : ℕ) (o : Option Claims) → Agree (check_claims now o) now (check_claims now' o) now'
unfolding check_claims
check_claims-Agree now now' none u n u' n' h k = cc
check_claims-Agree now now' (some c) u n u' n' h k = ground (arith, exp_bound c.exp now now')

module _ (cr : Crypto) (key key' : List ℕ) (now now' : ℕ) where
  check_sig-Agree :
      (part : String) (payload : List ℕ) (o : Option (List ℕ))
      → Agree (check_sig cr key part now payload o) now (check_sig cr key' part now' payload o) now'
  unfolding check_sig
  check_sig-Agree part payload none u n u' n' h k = cc
  check_sig-Agree part payload (some sig) u n u' n' h k =
      ground (arith, check_claims-Agree now now' (cr.parse payload) u n u' n')

  check_payload-Agree :
      (part sig : String) (o : Option (List ℕ))
      → Agree (check_payload cr key part now sig o) now (check_payload cr key' part now' sig o) now'
  unfolding check_payload
  check_payload-Agree part sig none u n u' n' h k = cc
  check_payload-Agree part sig (some payload) u n u' n' h k =
      check_sig-Agree part payload (cr.decode sig) u n u' n' h k

  check_parts-Agree :
      (parts : List String)
      → Agree (check_parts cr key now parts) now (check_parts cr key' now' parts) now'
  unfolding check_parts
  check_parts-Agree [] u n u' n' h k = cc
  check_parts-Agree (a ∷ []) u n u' n' h k = cc
  check_parts-Agree (a ∷ b ∷ []) u n u' n' h k = check_payload-Agree a b (cr.decode a) u n u' n' h k
  check_parts-Agree (a ∷ b ∷ c ∷ l) u n u' n' h k = cc

  check_body-Agree :
      (o : Option String) → Agree (check_body cr key now o) now (check_body cr key' now' o) now'
  unfolding check_body
  check_body-Agree none u n u' n' h k = cc
  check_body-Agree (some body) u n u' n' h k = check_parts-Agree (split_dots body) u n u' n' h k

  pub verify_with-Agree :
      (token : String)
      → Agree (verify_with cr key token now) now (verify_with cr key' token now') now'
  unfolding verify_with
  verify_with-Agree token = check_body-Agree (strip "rcv-" token)
