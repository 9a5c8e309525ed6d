-- ===== src/Recovery/Submit/Replay.antt =====
-- A recovery link works once.
use ncn_platform.Base.{
  ℕ, ◌+◌, ◌≤◌, ◌≡◌, ◌≢◌, refl, ◌∙◌, sym, subst, Bool, true, false, ◌&&◌, List, [], ◌∷◌, ◌++◌,
  Option, none, some, String, str_eq, arith, eq_refl, leb, ltb, any, keep, any-append, All, All-map,
  ap, if_cases, byte_length, Bool-cases, inl, inr,
}
use ncn_platform.Base.Dict.{lookup}
use ncn_platform.Recovery.Token.{Crypto, Verdict, refused, valid, load_key}
use ncn_platform.Recovery.Token.Same.{Agree, verify_with-Agree}
use ncn_platform.Recovery.Nonces.{UsedNonce, seen, burn, is_recent}
use ncn_platform.Recovery.Submit.{
  Service, Request, Reply, bad_request, done, with_key, verify_loaded, set_password, redeem, submit,
  submit_all,
}

-- The nonce was burnt at the given time or later.
abbrev Burnt : String → ℕ → List UsedNonce → Type 0
Burnt n at l = any (λ e. str_eq e.nonce n && leb at e.used_at) l ≡ true

any-keep {ℓ} :
    {A : Type ℓ} (q p : A → Bool) (xs : List A)
    → ((x : A) → q x ≡ true → p x ≡ true)
    → any q (keep p xs) ≡ any q xs
any-keep q p [] f = refl
any-keep q p (x ∷ xs) f = ground (arith, f x, any-keep q p xs f)

Burnt-seen : (n : String) (at : ℕ) (l : List UsedNonce) → Burnt n at l → seen n l ≡ true
unfolding seen
Burnt-seen n at [] b = b
Burnt-seen n at (e ∷ l) b = ground (arith, Burnt-seen n at l)

burn-any :
    (n : String) (at now : ℕ) (m u : String) (l : List UsedNonce)
    → now ≤ at + 86400
    → any (λ e. str_eq e.nonce n && leb at e.used_at) (burn now m u l)
      ≡ any
          (λ e. str_eq e.nonce n && leb at e.used_at)
          (l ++ record { nonce = m; user = u; used_at = now } ∷ [])
unfolding burn
burn-any n at now m u l h =
    any-keep (λ e. str_eq e.nonce n && leb at e.used_at) (is_recent now)
      (l ++ record { nonce = m; user = u; used_at = now } ∷ []) (λ e q. ground arith)

burn-Burnt :
    (n : String) (at now : ℕ) (m u : String) (l : List UsedNonce)
    → now ≤ at + 86400
    → Burnt n at l
    → Burnt n at (burn now m u l)
burn-Burnt n at now m u l h b =
    burn-any n at now m u l h
    ∙ any-append (λ e. str_eq e.nonce n && leb at e.used_at) l _
    ∙ rw b refl

burn_self : (n u : String) (now : ℕ) (l : List UsedNonce) → Burnt n now (burn now n u l)
burn_self n u now l =
    burn-any n now now n u l (omega arith)
    ∙ any-append (λ e. str_eq e.nonce n && leb now e.used_at) l _
    ∙ ground (arith, eq_refl n)

module _ (cr : Crypto) (hash : String → Option String) where
  set_password-Burnt :
      (n : String) (at : ℕ) (r : Request) (user nonce : String) (o h : Option String) (s : Service)
      → r.recorded_at ≤ at + 86400
      → Burnt n at s.used
      → Burnt n at (set_password cr hash r user nonce o h s).0.used
  unfolding set_password
  set_password-Burnt n at r user nonce none h s k b = b
  set_password-Burnt n at r user nonce (some old) none s k b = b
  set_password-Burnt n at r user nonce (some old) (some h) s k b =
      ground (arith, burn-Burnt n at r.recorded_at nonce user s.used k b)

  redeem-Burnt :
      (n : String) (at : ℕ) (r : Request) (v : Verdict) (s : Service)
      → r.recorded_at ≤ at + 86400
      → Burnt n at s.used
      → Burnt n at (redeem cr hash r v s).0.used
  unfolding redeem
  redeem-Burnt n at r (refused e) s k b = b
  redeem-Burnt n at r (valid user nonce) s k b = ground (
    arith,
    set_password-Burnt n at r user nonce (lookup user s.passwords) (hash r.new_password) s k b,
  )

  with_key-used : (o : Option (List ℕ)) (s : Service) → (with_key cr hash o s).used ≡ s.used
  with_key-used none s = refl
  with_key-used (some k) s = refl

  submit-Burnt :
      (n : String) (at : ℕ) (r : Request) (s : Service)
      → r.recorded_at ≤ at + 86400
      → Burnt n at s.used
      → Burnt n at (submit cr hash r s).0.used
  unfolding submit
  submit-Burnt n at r s k b =
      if_cases (λ (x : Service × Reply). Burnt n at x.0.used) (ltb (byte_length r.new_password) 8) _
        _ (λ _. b)
        (λ _.
          redeem-Burnt n at r _ _ k
            (subst (Burnt n at) (sym (with_key-used (load_key r.key_file s.key) s)) b))

  submit_all-Burnt :
      (n : String) (at : ℕ) (rs : List Request) (s : Service)
      → All (λ r. r.recorded_at ≤ at + 86400) rs
      → Burnt n at s.used
      → Burnt n at (submit_all cr hash rs s).used
  unfolding submit_all
  submit_all-Burnt n at [] s k b = b
  submit_all-Burnt n at (r ∷ rs) s k b =
      submit_all-Burnt n at rs (submit cr hash r s).0 k.1 (submit-Burnt n at r s k.0 b)

  -- What a request that is answered with success has passed and done.
  record Redeemed (r : Request) (v : Verdict) (used used' : List UsedNonce) : Type 0 where
    user : String
    nonce : String
    verdict : v ≡ valid user nonce
    unseen : seen nonce used ≡ false
    burnt : used' ≡ burn r.recorded_at nonce user used

  set_password-burn :
      (r : Request) (user nonce u : String) (o h : Option String) (s : Service)
      → (set_password cr hash r user nonce o h s).1 ≡ done u
      → (set_password cr hash r user nonce o h s).0.used ≡ burn r.recorded_at nonce user s.used
  unfolding set_password
  set_password-burn r user nonce u none h s e = cc
  set_password-burn r user nonce u (some old) none s e = cc
  set_password-burn r user nonce u (some old) (some h) s e = ground arith

  redeem-Redeemed :
      (r : Request) (u : String) (v : Verdict) (s : Service)
      → (redeem cr hash r v s).1 ≡ done u
      → Redeemed r v s.used (redeem cr hash r v s).0.used
  unfolding redeem
  redeem-Redeemed r u (refused x) s e = absurd (ground arith)
  redeem-Redeemed r u (valid user nonce) s e = record {
    user = user;
    nonce = nonce;
    verdict = refl;
    unseen = ground arith;
    burnt =
        ground (
          arith,
          set_password-burn r user nonce u (lookup user s.passwords) (hash r.new_password) s,
        );
  }

  no_clash : (b : Bool) → b ≡ true → b ≡ false → ⊥
  no_clash b h k = cc

  not-done : (u : String) → bad_request ≡ done u → ⊥
  not-done u e = cc

  submit-Redeemed :
      (r : Request) (u : String) (s : Service)
      → (submit cr hash r s).1 ≡ done u
      → Redeemed r
          (verify_loaded cr hash (load_key r.key_file s.key) r.token r.checked_at)
          s.used
          (submit cr hash r s).0.used
  unfolding submit
  submit-Redeemed r u s e = elim (Bool-cases (ltb (byte_length r.new_password) 8)) [
    | inl short ↦ absurd (not-done u (rw short at e))
    | inr long ↦
        let k = load_key r.key_file s.key in
        let v = verify_loaded cr hash k r.token r.checked_at in
        let s' = with_key cr hash k s in
        rw long (
          subst (λ l. Redeemed r v l (redeem cr hash r v s').0.used) (with_key-used k s)
            (redeem-Redeemed r u v s' (rw long at e)))
  ]

  verify_loaded-Agree :
      (o o' : Option (List ℕ)) (token : String) (now now' : ℕ)
      → Agree (verify_loaded cr hash o token now) now (verify_loaded cr hash o' token now') now'
  verify_loaded-Agree none o' token now now' u n u' n' h k = cc
  verify_loaded-Agree (some key) none token now now' u n u' n' h k = cc
  verify_loaded-Agree (some key) (some key') token now now' u n u' n' h k =
      verify_with-Agree cr key key' now now' token u n u' n' h k

  -- A recovery link works once: after a request with a token succeeded, no later request with the
  -- same token succeeds, whatever requests are handled in between and whatever key is loaded, if the
  -- first was recorded no earlier than it was checked and those in between no later than the later one
  -- is checked.
  pub submit_once :
      (first later : Request) (between : List Request) (s : Service) (u u' : String)
      → first.checked_at ≤ first.recorded_at
      → All (λ r. r.recorded_at ≤ later.checked_at) between
      → later.token ≡ first.token
      → (submit cr hash first s).1 ≡ done u
      → (submit cr hash later (submit_all cr hash between (submit cr hash first s).0)).1 ≢ done u'
  submit_once first later between s u u' ordered past same ok again =
      let s1 = (submit cr hash first s).0 in
      let s2 = submit_all cr hash between s1 in
      let a = submit-Redeemed first u s ok in
      let b = submit-Redeemed later u' s2 again in
      let k = load_key first.key_file s.key in
      let k' = load_key later.key_file s2.key in
      let verdict =
        subst (λ token. verify_loaded cr hash k' token later.checked_at ≡ valid b.user b.nonce) same
          b.verdict in
      let agree =
        verify_loaded-Agree k k' first.token first.checked_at later.checked_at a.user a.nonce b.user
          b.nonce a.verdict verdict in
      let kept =
        submit_all-Burnt a.nonce first.recorded_at between s1
          (All-map (λ r. r.recorded_at ≤ later.checked_at)
            (λ r. r.recorded_at ≤ first.recorded_at + 86400)
            (λ r h. omega (arith, h, agree.1, ordered)) between past)
          (subst (Burnt a.nonce first.recorded_at) (sym a.burnt)
            (burn_self a.nonce a.user first.recorded_at s.used)) in
      no_clash (seen b.nonce s2.used)
        (ap (λ n. seen n s2.used) agree.0 ∙ Burnt-seen a.nonce first.recorded_at s2.used kept)
        b.unseen
