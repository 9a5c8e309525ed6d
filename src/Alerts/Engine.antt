-- ===== src/Alerts/Engine.antt =====
-- core-console/backend/alerts.go: one tick of the alert engine, and the calls that change its active
-- events between ticks. A tick visits each node and each rule as the source does; what it sends or
-- starts is collected as effects in order. The baselines of the anomaly rules are fed by the
-- argument `feed`, once for each node, before its rules are evaluated.
pub mod Firing
pub mod Spacing
pub mod Bounds
use ncn_platform.Base.{
  ℕ, suc, ◌+◌, ◌-◌, ◌/◌, Bool, true, false, not, ◌&&◌, ◌||◌, List, [], ◌∷◌, ◌++◌, Option, none,
  some, String, text_append, str_eq, itoa, ltb, leb, ◌==◌, if◌then◌else◌, length, keep, is_some, ℤ,
  to_ℕ, gtb_ℤ,
}
use text.Mathlib.Text.{starts_with}
use ncn_platform.Base.Dict.{Dict, lookup, insert, delete}
use ncn_platform.Alerts.Rule.{
  AlertRule, NodeStatus, sev_critical, sev_weight, applicable, eval_rule_safe, req_ticks,
}
use ncn_platform.Alerts.Event.{
  AlertSample, AlertEvent, AlertEngine, PendingFire, Effect, webhook, nudge, unix, last_n,
  push_trail, alert_key,
}
use ncn_platform.Alerts.Notify.{Outcome, maybe_fire_tg}
use ncn_platform.Alerts.Dispatch.{flush_fires}
use ncn_platform.Alerts.Evolve.{continued, resolved}
use ncn_platform.Alerts.Debounce.{Debounced, debounce}

pub replace_by_id : ℕ → AlertEvent → List AlertEvent → List AlertEvent
replace_by_id id ev [] = []
replace_by_id id ev (x ∷ xs) = if x.id == id then ev ∷ xs else x ∷ replace_by_id id ev xs

pub has_id : ℕ → List AlertEvent → Bool
has_id id [] = false
has_id id (x ∷ xs) = x.id == id || has_id id xs

pub record Step (B S : Type 0) : Type 0 where
  pub engine : AlertEngine B S
  pub fires : List PendingFire
  pub effects : List Effect

abbrev to_list {ℓ} : {A : Type ℓ} → Option A → List A
to_list none = []
to_list (some a) = a ∷ []

module _ {B S : Type 0} where
  unfoldable pub push_history : AlertEvent → AlertEngine B S → AlertEngine B S
  push_history ev e = record e {
    history = last_n e.hist_cap (e.history ++ ev ∷ []);
    history_dirty = true;
  }

  unfoldable pub update_history_by_id : ℕ → AlertEvent → AlertEngine B S → AlertEngine B S
  unfolding replace_by_id has_id
  update_history_by_id id ev e =
      if has_id id e.history
      then record e { history = replace_by_id id ev e.history; history_dirty = true }
      else e

  -- The event that a rule opens on a node.
  unfoldable pub new_event : AlertRule B S → NodeStatus S → ℕ → String → ℕ → AlertEvent
  new_event r n id msg now = record {
    id = id;
    node_id = n.node_id;
    rule_id = r.id;
    title = r.title;
    description = r.description;
    threshold = r.threshold;
    severity = r.severity;
    message = msg;
    trail = record { at = unix now; message = msg } ∷ [];
    fired_at = unix now;
    resolved_at = 0;
    state = "firing";
    acked = false;
    acked_by = "";
    updated = now;
    tick_count = 1;
    tg_fire_sent = false;
    tg_posted = false;
    notify_tg = r.notify_tg;
    suppress_tg = r.suppress_tg;
    min_sev = r.min_sev;
    repeat_secs = r.repeat_secs;
    escalate_secs = r.escalate_secs;
    escalated = false;
    group_key = r.group_key;
  }

  -- What `maybeFireTG` does to the event and the engine.
  after_fire_tg : String → Outcome → AlertEngine B S → AlertEngine B S
  after_fire_tg key o e = record e {
    active = insert key o.ev e.active;
    last_tg_fire = o.last_tg_fire;
  }

  -- `case firing && existing == nil`; the pending fire that `maybeFireTG` may return is dropped.
  unfoldable pub on_fire :
      AlertRule B S → NodeStatus S → String → String → ℕ → AlertEngine B S → Step B S
  unfolding new_event push_history after_fire_tg
  on_fire r n key msg now e =
      let seq = suc e.last_seq in
      let ev = new_event r n seq msg now in
      let e1 = record e { last_seq = seq; active = insert key ev e.active } in
      let e2 = push_history ev e1 in
      let o = maybe_fire_tg e2 ev key now in
      record {
        engine = after_fire_tg key o e2;
        fires = [];
        effects = webhook ev "fired" ∷ o.effects;
      }

  -- `case firing && existing != nil`.
  unfoldable pub on_continue : Bool → String → String → ℕ → AlertEvent → AlertEngine B S → Step B S
  unfolding update_history_by_id after_fire_tg
  on_continue cond key msg now ev e =
      let ev' = continued cond msg now ev in
      let e1 = update_history_by_id ev.id ev' (record e { active = insert key ev' e.active }) in
      let o = maybe_fire_tg e1 ev' key now in
      record { engine = after_fire_tg key o e1; fires = to_list o.fire; effects = o.effects }

  -- `case !firing && existing != nil`.
  unfoldable pub on_resolve : String → ℕ → AlertEvent → AlertEngine B S → Step B S
  unfolding update_history_by_id
  on_resolve key now ev e =
      let ev' = resolved now ev in
      let e1 = update_history_by_id ev.id ev' e in
      record {
        engine = record e1 {
          active = delete key e1.active;
          pending = delete key e1.pending;
          clearing = delete key e1.clearing;
        };
        fires = [];
        effects =
            webhook ev' "resolved"
            ∷ (if e.notify && ev.tg_posted then nudge ev' "resolved" ∷ [] else []);
      }

  unfoldable pub unchanged : AlertEngine B S → Step B S
  unchanged e = record { engine = e; fires = []; effects = [] }

  -- The switch at the end of the loop's body.
  act :
      AlertRule B S
      → NodeStatus S
      → String
      → Bool
      → String
      → ℕ
      → Bool
      → Option AlertEvent
      → AlertEngine B S
      → Step B S
  unfolding on_fire on_continue on_resolve unchanged
  act r n key cond msg now true none e = on_fire r n key msg now e
  act r n key cond msg now true (some ev) e = on_continue cond key msg now ev e
  act r n key cond msg now false (some ev) e = on_resolve key now ev e
  act r n key cond msg now false none e = unchanged e

  -- The loop's body from the condition on.
  unfoldable pub step_cond :
      AlertRule B S → NodeStatus S → Bool → String → ℕ → AlertEngine B S → Step B S
  unfolding act
  step_cond r n cond msg now e =
      let key = alert_key n.node_id r.id in
      let d = debounce r key cond e in
      act r n key cond msg now d.firing (lookup key e.active)
        (record e { pending = d.pending; clearing = d.clearing })

  -- The loop's body for one rule on one node.
  pub step_rule : NodeStatus S → ℕ → AlertRule B S → AlertEngine B S → Step B S
  unfolding step_cond
  step_rule n now r e =
      let (cond, msg) =
        if applicable r n.node_id n.region (unix now)
        then eval_rule_safe r e.baselines n
        else (false, "") in
      step_cond r n cond msg now e

  abbrev then_step : Step B S → Step B S → Step B S
  then_step a b = record {
    engine = b.engine;
    fires = a.fires ++ b.fires;
    effects = a.effects ++ b.effects;
  }

  pub step_rules : NodeStatus S → ℕ → List (AlertRule B S) → AlertEngine B S → Step B S
  unfolding unchanged
  step_rules n now [] e = unchanged e
  step_rules n now (r ∷ rs) e =
      let first = step_rule n now r e in then_step first (step_rules n now rs first.engine)

  -- A node that has not been scraped yet is `none`.
  pub step_nodes :
      (B → NodeStatus S → B) → ℕ → List (Option (NodeStatus S)) → AlertEngine B S → Step B S
  unfolding unchanged step_rules
  step_nodes feed now [] e = unchanged e
  step_nodes feed now (none ∷ ns) e = step_nodes feed now ns e
  step_nodes feed now (some n ∷ ns) e =
      let fed = record e { baselines = feed e.baselines n } in
      let first = step_rules n now e.rules fed in
      then_step first (step_nodes feed now ns first.engine)

  -- `tickOnce` once the fleet is wired.
  pub tick_once :
      (B → NodeStatus S → B)
      → ℕ
      → List (Option (NodeStatus S))
      → AlertEngine B S
      → AlertEngine B S × List Effect
  unfolding step_nodes
  tick_once feed now nodes e =
      let s = step_nodes feed now nodes e in
      let (e', sent) = flush_fires s.fires s.engine in (e', s.effects ++ sent)
