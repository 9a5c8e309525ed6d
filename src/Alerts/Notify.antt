-- ===== src/Alerts/Notify.antt =====
-- core-console/backend/alerts.go: the gates of a Telegram notification: inhibition, severity floor,
-- sustain, cooldown and repeat interval.
pub mod Cooldown
use ncn_platform.Base.{
  ℕ, ◌+◌, ◌*◌, Bool, true, false, not, ◌&&◌, ◌||◌, List, [], ◌∷◌, Option, none, some, String,
  str_eq, ltb, leb, if◌then◌else◌, any, is_some, ℤ, to_ℕ, leb_ℤ,
}
use ncn_platform.Base.Dict.{Dict, lookup, insert}
use ncn_platform.Alerts.Rule.{sev_info, sev_weight}
use ncn_platform.Alerts.Event.{
  AlertEvent, AlertEngine, PendingFire, Effect, nudge, alert_sustain_ticks, alert_tg_cooldown,
  alert_key,
}

-- `alertInhibits`.
pub alert_inhibits : List (String × List String)
alert_inhibits =
    (
      "node-unreachable",
      "bgp-peer-down" ∷ "bird-unreachable" ∷ "probe-down" ∷ "probe-slow" ∷ "cpu-high"
          ∷ "cpu-saturated" ∷ "mem-pressure" ∷ "disk-pressure" ∷ "load-high" ∷ [],
    )
    ∷ ("bird-unreachable", "bgp-peer-down" ∷ [])
    ∷ []

-- `last, ok := e.lastTGFire[key]; ok && now.Sub(last) < d`.
abbrev pub recent : Option ℕ → ℕ → ℕ → Bool
recent none now d = false
recent (some last) now d = ltb now (last + d)

abbrev pub floor_of : String → String
floor_of min_sev = if str_eq min_sev "" then sev_info else min_sev

-- `RepeatSecs` as a duration, at least a minute.
abbrev pub interval_of : ℤ → ℕ
interval_of secs =
    let iv = to_ℕ secs * 1000000000 in if ltb iv (60 * 1000000000) then 60 * 1000000000 else iv

pub record Outcome : Type 0 where
  pub ev : AlertEvent
  pub last_tg_fire : Dict ℕ
  pub fire : Option PendingFire
  pub effects : List Effect

module _ {B S : Type 0} where
  inhibited_by : AlertEngine B S → String → String → List (String × List String) → Bool
  inhibited_by e node_id rule_id [] = false
  inhibited_by e node_id rule_id ((inhibitor, suppressed) ∷ rest) =
      (is_some (lookup (alert_key node_id inhibitor) e.active)
        && any (λ s. str_eq s rule_id) suppressed)
      || inhibited_by e node_id rule_id rest

  unfoldable pub inhibited_locked : AlertEngine B S → String → String → Bool
  unfolding inhibited_by alert_inhibits
  inhibited_locked e node_id rule_id = inhibited_by e node_id rule_id alert_inhibits

  -- The gates that come before the question whether this is the first message.
  unfoldable pub gates : AlertEngine B S → AlertEvent → Bool
  gates e ev =
      (e.notify && ev.notify_tg && not ev.suppress_tg)
      && (leb (sev_weight (floor_of ev.min_sev)) (sev_weight ev.severity)
          && (leb alert_sustain_ticks ev.tick_count
              && not (inhibited_locked e ev.node_id ev.rule_id)))

  abbrev pub quiet : AlertEngine B S → AlertEvent → Outcome
  quiet e ev = record { ev = ev; last_tg_fire = e.last_tg_fire; fire = none; effects = [] }

  -- The first message of an incident.
  first_nudge : AlertEngine B S → AlertEvent → String → ℕ → Outcome
  first_nudge e ev key now =
      let ev' = record ev { tg_fire_sent = true } in
      if recent (lookup key e.last_tg_fire) now alert_tg_cooldown then quiet e ev else record {
        ev = ev';
        last_tg_fire = insert key now e.last_tg_fire;
        fire = some (record { ev = ev'; key = key });
        effects = [];
      }

  -- A repeat while the incident lasts.
  repeat_nudge : AlertEngine B S → AlertEvent → String → ℕ → Outcome
  repeat_nudge e ev key now =
      if not ev.tg_posted || (leb_ℤ ev.repeat_secs 0 || ev.acked)
      then quiet e ev
      else if recent (lookup key e.last_tg_fire) now (interval_of ev.repeat_secs)
      then quiet e ev
      else record {
        ev = ev;
        last_tg_fire = insert key now e.last_tg_fire;
        fire = none;
        effects = nudge ev "fired" ∷ [];
      }

  unfoldable pub maybe_fire_tg : AlertEngine B S → AlertEvent → String → ℕ → Outcome
  unfolding first_nudge repeat_nudge
  maybe_fire_tg e ev key now =
      if gates e ev
      then if ev.tg_fire_sent then repeat_nudge e ev key now else first_nudge e ev key now
      else quiet e ev
