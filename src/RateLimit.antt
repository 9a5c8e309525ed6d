-- ===== src/RateLimit.antt =====
-- core-console/backend/ratelimit.go: the sliding-window limiter of the public Looking Glass. A time
-- is a number of nanoseconds on the process's clock; the clock's reading is an argument.
pub mod Window
pub mod Bound
pub mod Retry
mod Tests
use ncn_platform.Base.{
  ℕ, ◌+◌, ◌-◌, Bool, List, [], ◌∷◌, ◌++◌, Option, none, some, String, ltb, if◌then◌else◌, length,
  keep, ℤ, leb_ℤ,
}
use ncn_platform.Base.Dict.{Dict, lookup, insert}

pub record RateLimiter : Type 0 where
  pub hits : Dict (List ℕ)
  pub limit : ℤ
  pub window : ℕ

pub new_rate_limiter : ℤ → ℕ → RateLimiter
new_rate_limiter limit window = record { hits = []; limit = limit; window = window }

-- `Allow` answers yes, or no with the time to wait; with a limit of 0 or less it reads `out[0]` of
-- an empty slice.
pub data Outcome : Type 0 where
  allowed : Outcome
  blocked : ℕ → Outcome
  panics : Outcome

-- A key that is not in the map reads as the empty slice.
abbrev or_nil : Option (List ℕ) → List ℕ
or_nil none = []
or_nil (some ts) = ts

pub hits_of : RateLimiter → String → List ℕ
hits_of rl key = or_nil (lookup key rl.hits)

-- `t.After(now.Add(-window))`.
abbrev pub within : ℕ → ℕ → ℕ → Bool
within window now t = ltb now (t + window)

-- The branch `len(out) >= rl.limit`. The wait is `out[0].Add(window).Sub(now)`, and 0 if that is
-- negative.
block : RateLimiter → String → ℕ → List ℕ → RateLimiter × Outcome
block rl key now [] = (rl, panics)
block rl key now (t ∷ out) =
    (record rl { hits = insert key (t ∷ out) rl.hits }, blocked (t + rl.window - now))

admit : RateLimiter → String → ℕ → List ℕ → RateLimiter × Outcome
unfolding block
admit rl key now out =
    if leb_ℤ rl.limit (length out)
    then block rl key now out
    else (record rl { hits = insert key (out ++ now ∷ []) rl.hits }, allowed)

pub allow : RateLimiter → String → ℕ → RateLimiter × Outcome
unfolding admit hits_of
allow rl key now = admit rl key now (keep (within rl.window now) (hits_of rl key))
