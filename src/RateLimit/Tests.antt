-- ===== src/RateLimit/Tests.antt =====
-- A limiter of two calls in a minute, and a caller's history.
use ncn_platform.Base.{◌+◌, ◌≤◌, ◌≡◌, refl, arith, true, [], ◌∷◌, ltb}
use ncn_platform.Base.Dict.{lookup, insert}
use ncn_platform.RateLimit.{blocked, hits_of, block, admit, allow, new_rate_limiter}
use ncn_platform.RateLimit.Window.{Calls, Until, after, is_allowed}
use ncn_platform.RateLimit.Bound.{new, in_window, allow_exactly, window_bound}
use ncn_platform.RateLimit.Retry.{retry_succeeds}

abbrev history : Calls
history = ("a", 30) ∷ ("b", 20) ∷ ("a", 10) ∷ []

ordered : Until 50 history
ordered = omega arith

window_bound_example : in_window 2 60 "a" 50 history ≤ 2
window_bound_example = window_bound 2 60 "a" 50 history ordered

allow_exactly_example :
    is_allowed (allow (after (new 2 60) history) "a" 50).1 ≡ ltb (in_window 2 60 "a" 50 history) 2
allow_exactly_example = allow_exactly 2 60 "a" 50 history ordered

refusal : (allow (after (new 2 60) history) "a" 50).1 ≡ blocked 20
unfolding allow admit block hits_of after new_rate_limiter lookup insert
refusal = refl

retry_succeeds_example :
    is_allowed (allow (allow (after (new 2 60) history) "a" 50).0 "a" (50 + 20)).1 ≡ true
retry_succeeds_example = retry_succeeds 2 60 "a" 50 20 history ordered refusal
