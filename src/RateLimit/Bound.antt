-- ===== src/RateLimit/Bound.antt =====
-- What `Allow` of a new limiter grants: exactly what the window has room for.
use ncn_platform.Base.{
  ℕ, ◌≤◌, ◌≡◌, refl, ap, ◌∙◌, inl, inr, [], ◌∷◌, String, str_eq, eq_iff, arith, ltb, length, keep,
  length-keep-le, pos, Bool-cases, subst,
}
use ncn_platform.Base.Dict.{lookup}
use ncn_platform.RateLimit.{RateLimiter, hits_of, within, allow, new_rate_limiter}
use ncn_platform.RateLimit.Window.{
  Calls, Until, after, is_allowed, granted, Until-mono, after_config, hits_of-allow_at,
  granted_window, granted_cons, keep-within-le, allow_others, is_allowed_at,
}

-- A limiter just made, whose limit is a number.
module _ (l w : ℕ) where
  abbrev pub new : RateLimiter
  new = new_rate_limiter (pos l) w

  abbrev pub in_window : String → ℕ → Calls → ℕ
  in_window key now h = length (keep (within w now) (granted new key h))

  pub config : (h : Calls) → ((after new h).limit ≡ pos l) × ((after new h).window ≡ w)
  unfolding new_rate_limiter
  config h = after_config new h

  hits_step :
      (k : String) (t now : ℕ) (h : Calls)
      → t ≤ now
      → length (keep (within w now) (hits_of (after new h) k)) ≡ in_window k now h
      → length (keep (within w now) (hits_of (allow (after new h) k t).0 k))
        ≡ in_window k now ((k, t) ∷ h)
  hits_step k t now h a ih = omega (
    arith,
    hits_of-allow_at (after new h) k t now w (config h).1 a,
    granted_window new w k t now h,
    ih,
  )

  pub hits_are_grants :
      (key : String) (now : ℕ) (h : Calls)
      → Until now h
      → length (keep (within w now) (hits_of (after new h) key)) ≡ in_window key now h
  unfolding after granted hits_of new_rate_limiter lookup
  hits_are_grants key now [] u = refl
  hits_are_grants key now ((k, t) ∷ h) u =
      let ih = hits_are_grants key now h (Until-mono t now h u.0 u.1) in
      elim (Bool-cases (str_eq k key)) [
        | inr e ↦
            rw e (
              ap (λ ts. length (keep (within w now) ts)) (allow_others (after new h) k key t e)
              ∙ ih)
        | inl e ↦
            subst
              (λ j.
                length (keep (within w now) (hits_of (allow (after new h) k t).0 j))
                ≡ in_window j now ((k, t) ∷ h))
              ((eq_iff k key).0 e)
              (hits_step k t now h u.0 (hits_are_grants k now h (Until-mono t now h u.0 u.1)))
      ]

  -- For a limiter just made and calls whose times never go back: a call is let through exactly when,
  -- of the calls let through before for the same key, fewer than the limit lie in the window that
  -- ends at this call.
  pub allow_exactly :
      (key : String) (now : ℕ) (h : Calls)
      → Until now h
      → is_allowed (allow (after new h) key now).1 ≡ ltb (in_window key now h) l
  allow_exactly key now h u =
      is_allowed_at (after new h) key now l w (config h).0 (config h).1
      ∙ ap (λ n. ltb n l) (hits_are_grants key now h u)

  in_window_nil : (key : String) (now : ℕ) → in_window key now [] ≤ l
  unfolding granted
  in_window_nil key now = omega arith

  -- For a limiter just made and calls whose times never go back: at every moment from the latest call
  -- on, no more calls than the limit were let through for a key within the window that ends at that
  -- moment.
  pub window_bound : (key : String) (now : ℕ) (h : Calls) → Until now h → in_window key now h ≤ l
  window_bound key now [] u = in_window_nil key now
  window_bound key now ((k, t) ∷ h) u =
      let u' = Until-mono t now h u.0 u.1 in
      elim (Bool-cases (str_eq k key)) [
        | inr e ↦ rw (granted_cons new key k t h) (rw e (window_bound key now h u'))
        | inl e ↦
            subst (λ j. in_window j now ((k, t) ∷ h) ≤ l) ((eq_iff k key).0 e)
              (ground (
                arith,
                granted_window new w k t now h,
                allow_exactly k t h u.1,
                keep-within-le w t now (granted new k h) u.0,
                window_bound k now h u',
                length-keep-le (within w now) (t ∷ []),
              ))
      ]
