-- ===== src/Alerts/Debounce.antt =====
-- core-console/backend/alerts.go: the two-sided debounce of `tickOnce`, in 30-second ticks.
use ncn_platform.Base.{
  ℕ, suc, Bool, true, false, Option, none, some, String, ltb, leb, if◌then◌else◌, is_some,
}
use ncn_platform.Base.Dict.{Dict, lookup, insert, delete}
use ncn_platform.Alerts.Rule.{AlertRule, req_ticks}
use ncn_platform.Alerts.Event.{AlertEngine}

abbrev pub or_zero : Option ℕ → ℕ
or_zero none = 0
or_zero (some n) = n

-- `m[key]` of a `map[string]int`.
abbrev pub count_of : String → Dict ℕ → ℕ
count_of key m = or_zero (lookup key m)

pub record Debounced : Type 0 where
  pub pending : Dict ℕ
  pub clearing : Dict ℕ
  pub firing : Bool

-- An active event is held until the condition has been clear for `req` ticks in a row.
hold : ℕ → String → Bool → Dict ℕ → Dict ℕ → Debounced
hold req key true pending clearing = record {
  pending = delete key pending;
  clearing = delete key clearing;
  firing = true;
}
hold req key false pending clearing =
    let n = suc (count_of key clearing) in
    record { pending = delete key pending; clearing = insert key n clearing; firing = ltb n req }

-- A rule that is not active arms after `req` ticks in a row in which the condition holds.
arm : ℕ → String → Bool → Dict ℕ → Dict ℕ → Debounced
arm req key false pending clearing = record {
  pending = delete key pending;
  clearing = clearing;
  firing = false;
}
arm req key true pending clearing =
    let n = count_of key pending in
    if ltb n req
    then record {
      pending = insert key (suc n) pending;
      clearing = clearing;
      firing = leb req (suc n);
    }
    else record { pending = pending; clearing = clearing; firing = leb req n }

module _ {B S : Type 0} where
  unfoldable pub debounce : AlertRule B S → String → Bool → AlertEngine B S → Debounced
  unfolding hold arm
  debounce r key cond e =
      if is_some (lookup key e.active)
      then hold (req_ticks r.resolve_secs) key cond e.pending e.clearing
      else arm (req_ticks r.sustain_secs) key cond e.pending e.clearing
