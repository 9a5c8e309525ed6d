-- ===== src/Alerts/Tests.antt =====
-- Concrete nodes, rules and events of the alert engine.
use mathlib.Core.List.{Perm}
use ncn_platform.Base.{
  ◌*◌, ℕ, ◌≡◌, refl, Bool, true, false, List, [], ◌∷◌, Option, none, some, String, is_some, arith,
  pos,
}
use ncn_platform.Base.Dict.{lookup, insert, delete}
use ncn_platform.Alerts.Rule.{AlertRule, NodeStatus, req_ticks, sev_weight}
use ncn_platform.Alerts.Event.{AlertEvent, AlertEngine, PendingFire, alert_key, push_trail}
use ncn_platform.Alerts.Notify.{maybe_fire_tg, gates, inhibited_locked}
use ncn_platform.Alerts.Dispatch.{flush_fires}
use ncn_platform.Alerts.Dispatch.Groups.{all_handed_on, events, flush_fires_exact}
use ncn_platform.Alerts.Engine.{
  tick_once, step_cond, on_fire, on_continue, on_resolve, unchanged, update_history_by_id,
  push_history, new_event,
}
use ncn_platform.Alerts.Engine.Firing.{Tick, Ticks, run_ticks, is_up, run_ticks_up}
use ncn_platform.Alerts.Engine.Spacing.{Spaced, fire_times, fire_times-Spaced}
use ncn_platform.Alerts.Engine.Bounds.{Bounded, tick_once-Bounded}
use ncn_platform.Alerts.Debounce.{debounce}
use ncn_platform.Alerts.Evolve.{continued, resolved}
use ncn_platform.Alerts.Admin.{belongs, evict_node, evict_loop}
use ncn_platform.Alerts.Admin.Evict.{evict_node_lem}

-- One scrape is the CPU load in percent; nothing is learned.
abbrev node : String → ℕ → NodeStatus ℕ
node id load = record { node_id = id; region = pos 51; body = load }

abbrev busy : ℕ → NodeStatus ℕ → Option (Bool × String)
busy learned n = some (elim n.body [ ℕ.zero ↦ false | ℕ.suc _ ↦ true ], "cpu")

abbrev cpu_rule : AlertRule ℕ ℕ
cpu_rule = record {
  id = "cpu-high";
  title = "CPU";
  description = "";
  threshold = "> 0";
  severity = "warn";
  evaluate = busy;
  enabled = true;
  notify_tg = true;
  sustain_secs = pos 60;
  mute_until = pos 0;
  scope = none;
  resolve_secs = pos 60;
  escalate_secs = pos 0;
  repeat_secs = pos 0;
  suppress_tg = false;
  min_sev = "";
  group_key = "";
}

abbrev event : ℕ → String → String → AlertEvent
event id node_id rule_id = record {
  id = id;
  node_id = node_id;
  rule_id = rule_id;
  title = "";
  description = "";
  threshold = "";
  severity = "crit";
  message = "down";
  trail = record { at = 0; message = "down" } ∷ [];
  fired_at = 0;
  resolved_at = 0;
  state = "firing";
  acked = false;
  acked_by = "";
  updated = 0;
  tick_count = 2;
  tg_fire_sent = false;
  tg_posted = false;
  notify_tg = true;
  suppress_tg = false;
  min_sev = "";
  repeat_secs = pos 0;
  escalate_secs = pos 0;
  escalated = false;
  group_key = "";
}

abbrev idle : AlertEngine ℕ ℕ
idle = record {
  notify = true;
  rules = cpu_rule ∷ [];
  pending = [];
  clearing = [];
  active = [];
  history = [];
  hist_cap = 200;
  history_dirty = false;
  last_tg_fire = [];
  baselines = 0;
  last_seq = 0;
}

abbrev two_down : AlertEngine ℕ ℕ
two_down = record idle {
  active =
      ("n1:node-unreachable", event 1 "n1" "node-unreachable")
      ∷ ("n2:node-unreachable", event 2 "n2" "node-unreachable")
      ∷ [];
}

abbrev ticks : Ticks
ticks =
    record { cond = true; msg = "cpu"; now = 60 }
    ∷ record { cond = true; msg = "cpu"; now = 30 }
    ∷ record { cond = false; msg = ""; now = 0 }
    ∷ []

run_ticks_up_example :
    is_some
      (lookup (alert_key "n1" "cpu-high") (run_ticks cpu_rule (node "n1" 9) idle ticks).active)
    ≡ is_up (req_ticks (pos 60)) (req_ticks (pos 60)) ticks
unfolding lookup
run_ticks_up_example = run_ticks_up cpu_rule (node "n1" 9) idle ticks refl refl refl

abbrev tick_at : Bool → ℕ → Tick
tick_at cond seconds = record { cond = cond; msg = "cpu"; now = seconds * 1000000000 }

-- Newest first: three flaps of the load, the second within half an hour of the first.
abbrev flapping : Ticks
flapping =
    tick_at true 2460
    ∷ tick_at true 2430
    ∷ tick_at true 2400
    ∷ tick_at false 750
    ∷ tick_at false 720
    ∷ tick_at true 660
    ∷ tick_at true 630
    ∷ tick_at true 600
    ∷ tick_at false 180
    ∷ tick_at false 150
    ∷ tick_at true 90
    ∷ tick_at true 60
    ∷ tick_at true 30
    ∷ []

flapping_times : fire_times cpu_rule (node "n1" 9) idle flapping ≡ 2460000000000 ∷ 90000000000 ∷ []
unfolding fire_times run_ticks step_cond debounce maybe_fire_tg gates inhibited_locked lookup insert
    delete alert_key req_ticks continued resolved push_trail sev_weight on_fire on_continue
    on_resolve unchanged update_history_by_id push_history new_event
flapping_times = refl

fire_times-Spaced_example : Spaced (fire_times cpu_rule (node "n1" 9) idle flapping)
fire_times-Spaced_example = fire_times-Spaced cpu_rule (node "n1" 9) idle flapping

abbrev fire : ℕ → PendingFire
fire id = record { ev = event id "n1" "probe-down"; key = "n1:probe-down" }

abbrev storm : List PendingFire
storm = fire 1 ∷ fire 2 ∷ fire 3 ∷ fire 4 ∷ fire 5 ∷ fire 6 ∷ []

flush_fires_exact_example :
    Perm (all_handed_on (flush_fires (fire 1 ∷ fire 2 ∷ []) idle).1) (events (fire 1 ∷ fire 2 ∷ []))
flush_fires_exact_example = flush_fires_exact (fire 1 ∷ fire 2 ∷ []) idle

two_down-Bounded : Bounded two_down
two_down-Bounded = record { trails = omega arith; past = tt; ring = omega arith }

tick_once-Bounded_example :
    Bounded (tick_once (λ b n. b) 30 (some (node "n1" 9) ∷ none ∷ []) two_down).0
tick_once-Bounded_example =
    tick_once-Bounded (λ b n. b) 30 (some (node "n1" 9) ∷ none ∷ []) two_down two_down-Bounded

still_active :
    lookup "n2:node-unreachable" (evict_node "n1" two_down).active
    ≡ some (event 2 "n2" "node-unreachable")
unfolding evict_node evict_loop belongs lookup delete
still_active = refl

evict_node_lem_example :
    (lookup "n2:node-unreachable" two_down.active ≡ some (event 2 "n2" "node-unreachable"))
    × (belongs "n1" ("n2:node-unreachable", event 2 "n2" "node-unreachable") ≡ false)
evict_node_lem_example =
    evict_node_lem "n1" "n2:node-unreachable" two_down (event 2 "n2" "node-unreachable")
      still_active
