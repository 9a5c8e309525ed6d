-- ===== src/Heartbeat/Summary.antt =====
-- core-console/backend/heartbeat.go: what the public status page shows of the store.
use ncn_platform.Base.{
  ℕ, zero, suc, ◌+◌, ◌-◌, ltb, not, ◌&&◌, List, [], ◌∷◌, Option, none, some, String, str_eq,
  if◌then◌else◌, any, ℤ,
}
use ncn_platform.Base.Dict.{Dict, lookup}
use ncn_platform.Heartbeat.{HbDay, HbComponent, HeartbeatStore, Floats, today}

pub record HbDayOut : Type 0 where
  pub day : String
  pub up : ℕ
  pub down : ℕ
  pub total : ℕ

pub record HbComponentOut (F : Type 0) : Type 0 where
  pub name : String
  pub category : String
  pub type : String
  pub url : String
  pub last_status : ℤ
  pub last_latency : F
  pub last_check : ℕ
  pub uptime : F
  pub days : List HbDayOut

abbrev pub up_of : Option HbDay → ℕ
up_of none = 0
up_of (some d) = d.up

abbrev pub down_of : Option HbDay → ℕ
down_of none = 0
down_of (some d) = d.down

module _ (format : ℕ → String) where
  abbrev pub day_out : ℕ → Dict HbDay → HbDayOut
  day_out n days =
      let d = lookup (format n) days in
      record { day = format n; up = up_of d; down = down_of d; total = up_of d + down_of d }

  -- The loop of `summary`, from the oldest day of the window to the last.
  unfoldable pub days_out : ℕ → ℕ → Dict HbDay → List HbDayOut
  days_out last zero days = []
  days_out last (suc window) days = day_out (last - window) days ∷ days_out last window days

unfoldable pub sum_up : List HbDayOut → ℕ
sum_up [] = 0
sum_up (d ∷ ds) = d.up + sum_up ds

unfoldable pub sum_down : List HbDayOut → ℕ
sum_down [] = 0
sum_down (d ∷ ds) = d.down + sum_down ds

module _ {F : Type 0} (format : ℕ → String) (fl : Floats F) where
  abbrev pub uptime_of : ℕ → ℕ → F
  uptime_of up down = if ltb 0 (up + down) then fl.ratio up (up + down) else fl.nought

  unfoldable pub component_out : ℕ → ℕ → HbComponent F → HbComponentOut F
  unfolding days_out sum_up sum_down
  component_out now window c =
      let days = days_out format (today now) window c.days in
      record {
        name = c.name;
        category = c.category;
        type = c.type;
        url = c.url;
        last_status = c.last_status;
        last_latency = c.last_latency;
        last_check = c.last_check;
        uptime = uptime_of (sum_up days) (sum_down days);
        days = days;
      }

  shown_found :
      ℕ
      → ℕ
      → List String
      → Option (HbComponent F)
      → List (HbComponentOut F)
      → List (HbComponentOut F)
  unfolding component_out
  shown_found now window active none rest = rest
  shown_found now window active (some c) rest =
      if str_eq c.type "pop" && not (any (str_eq c.name) active)
      then rest
      else component_out now window c ∷ rest

  summary_from : ℕ → ℕ → List String → Dict (HbComponent F) → List String → List (HbComponentOut F)
  unfolding shown_found
  summary_from now window active cs [] = []
  summary_from now window active cs (name ∷ names) =
      shown_found now window active (lookup name cs) (summary_from now window active cs names)

  -- `active` are the nodes of the fleet, none where there is no fleet.
  unfoldable pub summary : ℕ → ℕ → List String → HeartbeatStore F → List (HbComponentOut F)
  unfolding summary_from
  summary now window active s = summary_from now window active s.components s.order
