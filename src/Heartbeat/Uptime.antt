-- ===== src/Heartbeat/Uptime.antt =====
-- core-console/backend/heartbeat.go: the uptime that the public status page shows.
use ncn_platform.Base.{
  ℕ, zero, suc, ◌+◌, ◌-◌, ◌≤◌, ltb, leb, Bool, true, false, not, ◌&&◌, List, [], ◌∷◌, Option, none,
  some, String, str_eq, ◌≡◌, refl, sym, ap, ap₂, ◌∙◌, if◌then◌else◌, arith, length, keep, is_some,
}
use ncn_platform.Base.Dict.{Dict, lookup}
use ncn_platform.Heartbeat.{
  HbDay, HbComponent, HeartbeatStore, Reading, Floats, today, record_all, heartbeat_retention_days,
}
use ncn_platform.Heartbeat.Summary.{HbDayOut, days_out, sum_up, sum_down, uptime_of, component_out}
use ncn_platform.Heartbeat.Count.{
  Sorts, Timed, is_reading, tally, days_of, tally-record_all, is_some-record_all,
}

-- The reading is of this component on one of the `window` days that end with this one, and it is up, or
-- down.
abbrev pub is_counted : {F : Type 0} → Bool → String → ℕ → ℕ → Reading F → Bool
is_counted way name day window r =
    str_eq r.name name
    && (leb (today r.at) day && (ltb day (today r.at + window) && (if way then r.up else not r.up)))

abbrev sum_of : Bool → List HbDayOut → ℕ
sum_of way ds = if way then sum_up ds else sum_down ds

sum_of-days_out :
    (way : Bool) (format : ℕ → String) (day window : ℕ) (days : Dict HbDay)
    → sum_of way (days_out format day (suc window) days)
      ≡ tally way (lookup (format (day - window)) days)
        + sum_of way (days_out format day window days)
unfolding days_out sum_up sum_down
sum_of-days_out true format day window days = refl
sum_of-days_out false format day window days = refl

sum_of-zero :
    (way : Bool) (format : ℕ → String) (day : ℕ) (days : Dict HbDay)
    → sum_of way (days_out format day zero days) ≡ 0
unfolding days_out sum_up sum_down
sum_of-zero true format day days = refl
sum_of-zero false format day days = refl

tally-fresh : (way : Bool) (n : ℕ) → tally way none + n ≡ n
tally-fresh true n = omega arith
tally-fresh false n = omega arith

not-none : false ≡ true → ⊥
not-none e = cc

is_some-found : {A : Type 0} (o : Option A) → is_some o ≡ true → (x : A) × (o ≡ some x)
is_some-found none e = absurd (not-none e)
is_some-found (some x) e = (x, refl)

module _ {F : Type 0} where
  counted_suc :
      (way : Bool) (name : String) (day window : ℕ) (rs : List (Reading F))
      → window ≤ day
      → length (keep (is_counted way name day (suc window)) rs)
        ≡ length (keep (is_reading way name (day - window)) rs)
          + length (keep (is_counted way name day window) rs)
  counted_suc way name day window [] h = refl
  counted_suc way name day window (r ∷ rs) h =
      ground (arith, h, counted_suc way name day window rs h)

  counted_zero :
      (way : Bool) (name : String) (day : ℕ) (rs : List (Reading F))
      → length (keep (is_counted way name day 0) rs) ≡ 0
  counted_zero way name day [] = refl
  counted_zero way name day (r ∷ rs) = ground (arith, counted_zero way name day rs)

  module _ (format : ℕ → String) (last : ℕ) (sorts : Sorts last format) where
    window_sum :
        (way : Bool) (name : String) (from now window : ℕ) (rs : List (Reading F))
        (s : HeartbeatStore F)
        → Timed from rs now
        → today now ≤ last
        → window ≤ heartbeat_retention_days
        → window ≤ today now
        → is_some (lookup name s.components) ≡ true
        → days_of (lookup name s.components) ≡ []
        → sum_of way (
            days_out format
              (today now)
              window
              (days_of (lookup name (record_all format rs s).components)))
          ≡ length (keep (is_counted way name (today now) window) rs)
    unfolding lookup
    window_sum way name from now zero rs s t h w k def e =
        sum_of-zero way format (today now)
          (days_of (lookup name (record_all format rs s).components))
        ∙ sym (counted_zero way name (today now) rs)
    window_sum way name from now (suc window) rs s t h w k def e =
        sum_of-days_out way format (today now) window
          (days_of (lookup name (record_all format rs s).components))
        ∙ ap₂ (λ x y. x + y)
            (tally-record_all format last sorts way name (today now - window) from now rs s t h
                (omega arith) (omega (arith, w, k)) def
              ∙ ap
                  (λ days.
                    tally way (lookup (format (today now - window)) days)
                    + length (keep (is_reading way name (today now - window)) rs))
                  e
              ∙ tally-fresh way (length (keep (is_reading way name (today now - window)) rs)))
            (window_sum way name from now window rs s t h (omega (arith, w)) (omega (arith, k)) def
              e)
        ∙ sym (counted_suc way name (today now) window rs (omega (arith, k)))

    -- For a component that is defined and has no history, and checks whose times do not go back: after
    -- them the component is there, and its uptime as the status page shows it is the share of the ups
    -- among the checks of this component on the days of the window, today's the last, or 0 without a
    -- check; if the window is at most the 90 days that are kept and has no day before the year 0, and the
    -- texts of the days up to `last`, which today is not after, sort as the days do.
    pub component_out-record_all :
        (fl : Floats F) (name : String) (from now window : ℕ) (rs : List (Reading F))
        (s : HeartbeatStore F)
        → Timed from rs now
        → today now ≤ last
        → window ≤ heartbeat_retention_days
        → window ≤ today now
        → is_some (lookup name s.components) ≡ true
        → days_of (lookup name s.components) ≡ []
        → (c : HbComponent F) × (lookup name (record_all format rs s).components ≡ some c)
          × ((component_out format fl now window c).uptime
              ≡ uptime_of format fl
                  (length (keep (is_counted true name (today now) window) rs))
                  (length (keep (is_counted false name (today now) window) rs)))
    unfolding component_out
    component_out-record_all fl name from now window rs s t h w k def e =
        let found =
          is_some-found (lookup name (record_all format rs s).components)
            (is_some-record_all format last sorts name rs s def) in
        (
          found.0,
          found.1,
          ap₂ (uptime_of format fl)
              (ap (λ o. sum_up (days_out format (today now) window (days_of o))) (sym found.1)
                ∙ window_sum true name from now window rs s t h w k def e)
              (ap (λ o. sum_down (days_out format (today now) window (days_of o))) (sym found.1)
                ∙ window_sum false name from now window rs s t h w k def e),
        )
