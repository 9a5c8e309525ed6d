-- ===== src/RateLimit/Window.antt =====
-- What `Allow` grants over a history of calls, newest first, by a clock that never goes back.
use ncn_platform.Base.{
  ℕ, not, ◌+◌, ◌≤◌, ◌≡◌, refl, ap, ap₂, ◌∙◌, inl, inr, Bool, true, false, ◌&&◌, List, [], ◌∷◌, ◌++◌,
  String, str_eq, eq_refl, arith, ltb, if◌then◌else◌, length, keep, pos, leb_ℤ, Bool-cases, subst,
}
use ncn_platform.Base.Dict.{lookup-insert}
use ncn_platform.RateLimit.{
  RateLimiter, Outcome, allowed, blocked, panics, hits_of, within, block, admit, allow,
}

abbrev pub Calls : Type 0
Calls = List (String × ℕ)

-- The limiter after the calls of a history.
unfoldable pub after : RateLimiter → Calls → RateLimiter
after rl [] = rl
after rl ((key, now) ∷ h) = (allow (after rl h) key now).0

abbrev pub is_allowed : Outcome → Bool
is_allowed allowed = true
is_allowed (blocked _) = false
is_allowed panics = false

-- The times at which `key` was let through, newest first.
unfoldable pub granted : RateLimiter → String → Calls → List ℕ
granted rl key [] = []
granted rl key ((k, now) ∷ h) =
    if str_eq k key && is_allowed (allow (after rl h) k now).1
    then now ∷ granted rl key h
    else granted rl key h

-- No call of the history is later than `now`, and each is no earlier than those before it.
abbrev pub Until : ℕ → Calls → Type 0
Until now [] = Unit {0}
Until now ((k, t) ∷ h) = (t ≤ now) × Until t h

pub Until-mono : (now later : ℕ) (h : Calls) → now ≤ later → Until now h → Until later h
Until-mono now later [] a u = tt
Until-mono now later ((k, t) ∷ h) a u = (omega arith, u.1)

keep-append :
    (p : ℕ → Bool) (xs ys : List ℕ)
    → length (keep p (xs ++ ys)) ≡ length (keep p xs) + length (keep p ys)
keep-append p [] ys = omega arith
keep-append p (x ∷ xs) ys = ground (arith, keep-append p xs ys)

-- What is in the window later was in it before.
keep-within :
    (w now later : ℕ) (ts : List ℕ)
    → now ≤ later
    → keep (within w later) (keep (within w now) ts) ≡ keep (within w later) ts
keep-within w now later [] h = refl
keep-within w now later (t ∷ ts) h = ground (arith, keep-within w now later ts h)

pub keep-within-le :
    (w now later : ℕ) (ts : List ℕ)
    → now ≤ later
    → length (keep (within w later) ts) ≤ length (keep (within w now) ts)
keep-within-le w now later [] h = omega arith
keep-within-le w now later (t ∷ ts) h = ground (arith, keep-within-le w now later ts h)

allow_config :
    (rl : RateLimiter) (key : String) (now : ℕ)
    → ((allow rl key now).0.limit ≡ rl.limit) × ((allow rl key now).0.window ≡ rl.window)
unfolding allow admit block
allow_config rl key now = elim (Bool-cases (leb_ℤ rl.limit (length (fresh)))) [
  | inl e ↦ rw e (blocks fresh)
  | inr e ↦ rw e (refl, refl)
]
  where
    fresh : List ℕ
    fresh = keep (within rl.window now) (hits_of rl key)

    blocks :
        (out : List ℕ)
        → ((block rl key now out).0.limit ≡ rl.limit)
          × ((block rl key now out).0.window ≡ rl.window)
    blocks [] = (refl, refl)
    blocks (t ∷ out) = (refl, refl)

pub after_config :
    (rl : RateLimiter) (h : Calls)
    → ((after rl h).limit ≡ rl.limit) × ((after rl h).window ≡ rl.window)
unfolding after
after_config rl [] = (refl, refl)
after_config rl ((key, now) ∷ h) =
    let a = allow_config (after rl h) key now in
    let ih = after_config rl h in (a.0 ∙ ih.0, a.1 ∙ ih.1)

abbrev fresh_hits : RateLimiter → String → ℕ → List ℕ
fresh_hits rl key now = keep (within rl.window now) (hits_of rl key)

block_hits :
    (rl : RateLimiter) (key : String) (now later : ℕ) (out : List ℕ)
    → now ≤ later
    → out ≡ fresh_hits rl key now
    → length (keep (within rl.window later) (hits_of (block rl key now out).0 key))
      ≡ length (keep (within rl.window later) (hits_of rl key))
unfolding block hits_of
block_hits rl key now later [] h e = refl
block_hits rl key now later (t ∷ out) h e = rw (lookup-insert key key (t ∷ out) rl.hits) (
    rw (eq_refl key) (
      ap (λ l. length (keep (within rl.window later) l)) e
      ∙ ap length (keep-within rl.window now later (hits_of rl key) h)))

block_refuses :
    (rl : RateLimiter) (key : String) (now : ℕ) (out : List ℕ)
    → is_allowed (block rl key now out).1 ≡ false
unfolding block
block_refuses rl key now [] = refl
block_refuses rl key now (t ∷ out) = refl

is_allowed-allow :
    (rl : RateLimiter) (key : String) (now : ℕ)
    → is_allowed (allow rl key now).1 ≡ not (leb_ℤ rl.limit (length (fresh_hits rl key now)))
unfolding allow admit
is_allowed-allow rl key now = elim (Bool-cases (leb_ℤ rl.limit (length (fresh_hits rl key now)))) [
  | inl e ↦ rw e (block_refuses rl key now (fresh_hits rl key now))
  | inr e ↦ rw e refl
]

hits_of-allow :
    (rl : RateLimiter) (key : String) (now later : ℕ)
    → now ≤ later
    → length (keep (within rl.window later) (hits_of (allow rl key now).0 key))
      ≡ length (keep (within rl.window later) (hits_of rl key))
        + (if is_allowed (allow rl key now).1
            then length (keep (within rl.window later) (now ∷ []))
            else 0)
unfolding allow admit hits_of
hits_of-allow rl key now later h =
    elim (Bool-cases (leb_ℤ rl.limit (length (fresh_hits rl key now)))) [
      | inl e ↦ rw e (
          rw (block_refuses rl key now (fresh_hits rl key now))
            (omega (arith, block_hits rl key now later (fresh_hits rl key now) h refl)))
      | inr e ↦ rw e (
          rw (lookup-insert key key (fresh_hits rl key now ++ now ∷ []) rl.hits) (
            rw (eq_refl key) (
              rw (keep-append (within rl.window later) (fresh_hits rl key now) (now ∷ []))
                (rw (keep-within rl.window now later (hits_of rl key) h) refl))))
    ]

block_others :
    (rl : RateLimiter) (key j : String) (now : ℕ) (out : List ℕ)
    → str_eq key j ≡ false
    → hits_of (block rl key now out).0 j ≡ hits_of rl j
unfolding block hits_of
block_others rl key j now [] e = refl
block_others rl key j now (t ∷ out) e = rw (lookup-insert key j (t ∷ out) rl.hits, e) refl

-- A call for one key leaves the others' hits alone.
pub allow_others :
    (rl : RateLimiter) (key j : String) (now : ℕ)
    → str_eq key j ≡ false
    → hits_of (allow rl key now).0 j ≡ hits_of rl j
unfolding allow admit hits_of
allow_others rl key j now e = elim (Bool-cases (leb_ℤ rl.limit (length (fresh_hits rl key now)))) [
  | inl b ↦ rw b (block_others rl key j now (fresh_hits rl key now) e)
  | inr b ↦ rw b (rw (lookup-insert key j (fresh_hits rl key now ++ now ∷ []) rl.hits, e) refl)
]

pub granted_cons :
    (rl : RateLimiter) (key k : String) (t : ℕ) (h : Calls)
    → granted rl key ((k, t) ∷ h) ≡ (
        if str_eq k key && is_allowed (allow (after rl h) k t).1
        then t ∷ granted rl key h
        else granted rl key h)
unfolding granted
granted_cons rl key k t h = refl

length-if :
    (p : ℕ → Bool) (b : Bool) (t : ℕ) (ts : List ℕ)
    → length (keep p (if b then t ∷ ts else ts))
      ≡ length (keep p ts) + (if b then length (keep p (t ∷ [])) else 0)
length-if p true t ts = ground arith
length-if p false t ts = omega arith

pub granted_window :
    (rl : RateLimiter) (w : ℕ) (k : String) (t now : ℕ) (h : Calls)
    → length (keep (within w now) (granted rl k ((k, t) ∷ h)))
      ≡ length (keep (within w now) (granted rl k h))
        + (if is_allowed (allow (after rl h) k t).1
            then length (keep (within w now) (t ∷ []))
            else 0)
granted_window rl w k t now h = rw (granted_cons rl k k t h) (
    rw (eq_refl k)
      (length-if (within w now) (is_allowed (allow (after rl h) k t).1) t (granted rl k h)))

pub hits_of-allow_at :
    (rl : RateLimiter) (key : String) (now later w : ℕ)
    → rl.window ≡ w
    → now ≤ later
    → length (keep (within w later) (hits_of (allow rl key now).0 key))
      ≡ length (keep (within w later) (hits_of rl key))
        + (if is_allowed (allow rl key now).1 then length (keep (within w later) (now ∷ [])) else 0)
hits_of-allow_at rl key now later w e h =
    subst
      (λ v.
        length (keep (within v later) (hits_of (allow rl key now).0 key))
        ≡ length (keep (within v later) (hits_of rl key))
          + (if is_allowed (allow rl key now).1
              then length (keep (within v later) (now ∷ []))
              else 0))
      e (hits_of-allow rl key now later h)

not-leb : (l n : ℕ) → not (leb_ℤ (pos l) n) ≡ ltb n l
not-leb l n = ground arith

pub is_allowed_at :
    (rl : RateLimiter) (key : String) (now l w : ℕ)
    → rl.limit ≡ pos l
    → rl.window ≡ w
    → is_allowed (allow rl key now).1 ≡ ltb (length (keep (within w now) (hits_of rl key))) l
is_allowed_at rl key now l w e f =
    is_allowed-allow rl key now
    ∙ ap₂ (λ x v. not (leb_ℤ x (length (keep (within v now) (hits_of rl key))))) e f
    ∙ not-leb l (length (keep (within w now) (hits_of rl key)))
