-- ===== src/RateLimit/Retry.antt =====
-- The wait that a refused call is told.
use ncn_platform.Base.{
  ℕ, ◌+◌, ◌≤◌, ◌≡◌, refl, sym, ap, ◌∙◌, inl, inr, true, List, [], ◌∷◌, String, eq_refl, arith, ltb,
  length, keep, length-keep-le, pos, leb_ℤ, Bool-cases, subst,
}
use ncn_platform.Base.Dict.{insert, lookup-insert}
use ncn_platform.RateLimit.{RateLimiter, blocked, hits_of, within, block, admit, allow}
use ncn_platform.RateLimit.Window.{Calls, Until, after, is_allowed, is_allowed_at}
use ncn_platform.RateLimit.Bound.{new, window_bound, hits_are_grants, config}

hits_of-insert :
    (rl : RateLimiter) (key : String) (ts : List ℕ)
    → hits_of (record rl { hits = insert key ts rl.hits }) key ≡ ts
unfolding hits_of
hits_of-insert rl key ts = rw (lookup-insert key key ts rl.hits) (rw (eq_refl key) refl)

block_retry :
    (rl : RateLimiter) (key : String) (now r l w : ℕ) (out : List ℕ)
    → rl.limit ≡ pos l
    → rl.window ≡ w
    → length out ≤ l
    → (block rl key now out).1 ≡ blocked r
    → is_allowed (allow (block rl key now out).0 key (now + r)).1 ≡ true
unfolding block
block_retry rl key now r l w [] e f short b = cc
block_retry rl key now r l w (t ∷ out) e f short b =
    let c = record rl { hits = insert key (t ∷ out) rl.hits } in
    is_allowed_at c key (now + r) l w e f
    ∙ ap (λ ts. ltb (length (keep (within w (now + r)) ts)) l) (hits_of-insert rl key (t ∷ out))
    ∙ ground (arith, length-keep-le (within w (now + r)) out)

allow_retry :
    (rl : RateLimiter) (key : String) (now r l w : ℕ)
    → rl.limit ≡ pos l
    → rl.window ≡ w
    → length (keep (within rl.window now) (hits_of rl key)) ≤ l
    → (allow rl key now).1 ≡ blocked r
    → is_allowed (allow (allow rl key now).0 key (now + r)).1 ≡ true
unfolding allow admit
allow_retry rl key now r l w e f short b =
    elim (Bool-cases (leb_ℤ rl.limit (length (keep (within rl.window now) (hits_of rl key))))) [
      | inl full ↦ rw full (
          block_retry rl key now r l w (keep (within rl.window now) (hits_of rl key)) e f short
            (rw full at b))
      | inr free ↦ absurd (ground arith)
    ]

module _ (l w : ℕ) where
  -- For a limiter just made and calls whose times never go back: a caller that is refused and told to
  -- wait `r` is let through when it calls next, `r` later, with no call in between.
  pub retry_succeeds :
      (key : String) (now r : ℕ) (h : Calls)
      → Until now h
      → (allow (after (new l w) h) key now).1 ≡ blocked r
      → is_allowed (allow (allow (after (new l w) h) key now).0 key (now + r)).1 ≡ true
  retry_succeeds key now r h u b =
      let c = config l w h in
      allow_retry (after (new l w) h) key now r l w c.0 c.1
        (subst (λ v. length (keep (within v now) (hits_of (after (new l w) h) key)) ≤ l) (sym c.1)
          (rw (hits_are_grants l w key now h u) (window_bound l w key now h u)))
        b
