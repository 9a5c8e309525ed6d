-- ===== src/Alerts/Engine/Bounds.antt =====
-- The bounds that every tick keeps: no trail is longer than its cap, and the history ring is no
-- longer than its own.
use ncn_platform.Base.{
  ℕ, zero, suc, ◌-◌, ◌≤◌, ◌≡◌, refl, sym, ap, subst, Bool, true, false, List, [], ◌∷◌, ◌++◌, Option,
  none, some, String, arith, ltb, ◌==◌, if◌then◌else◌, if_cases, length, drop, All, All-append,
  length-drop, ltb→lt,
}
use ncn_platform.Base.Dict.{lookup, insert, All-insert, All-delete, All-lookup}
use ncn_platform.Alerts.Rule.{AlertRule, NodeStatus, applicable, eval_rule_safe}
use ncn_platform.Alerts.Event.{
  AlertEvent, AlertEngine, alert_key, last_n, push_trail, alert_trail_cap, unix,
}
use ncn_platform.Alerts.Evolve.{
  continued, resolved, note_sample, escalate, escalates, escalated_event,
}
use ncn_platform.Alerts.Notify.{maybe_fire_tg}
use ncn_platform.Alerts.Notify.Cooldown.{maybe_fire_tg-trail}
use ncn_platform.Alerts.Dispatch.Marks.{Short, flush_fires_keeps}
use ncn_platform.Alerts.Debounce.{debounce}
use ncn_platform.Alerts.Engine.{
  act, step_cond, step_rule, step_rules, step_nodes, tick_once, on_fire, on_continue, on_resolve,
  unchanged, update_history_by_id, push_history, new_event, replace_by_id, has_id,
}

length-last_n-le {ℓ} : {A : Type ℓ} (n : ℕ) (xs : List A) → length (last_n n xs) ≤ n
length-last_n-le n xs =
    if_cases (λ ys. length ys ≤ n) (ltb n (length xs)) (drop (length xs - n) xs) xs
      (λ h. omega (arith, length-drop (length xs - n) xs, ltb→lt n (length xs) h))
      (λ h. ground arith)

All-drop {ℓ κ} : {A : Type ℓ} (P : A → Type κ) (n : ℕ) (xs : List A) → All P xs → All P (drop n xs)
All-drop P zero xs a = a
All-drop P (suc n) [] a = a
All-drop P (suc n) (x ∷ xs) a = All-drop P n xs a.1

All-last_n {ℓ κ} :
    {A : Type ℓ} (P : A → Type κ) (n : ℕ) (xs : List A) → All P xs → All P (last_n n xs)
All-last_n P n xs a =
    if_cases (All P) (ltb n (length xs)) (drop (length xs - n) xs) xs
      (λ _. All-drop P (length xs - n) xs a) (λ _. a)

push_trail-Short : (at : ℕ) (msg : String) (ev : AlertEvent) → Short (push_trail at msg ev)
unfolding push_trail
push_trail-Short at msg ev =
    length-last_n-le alert_trail_cap (ev.trail ++ record { at = at; message = msg } ∷ [])

note_sample-Short :
    (at : ℕ) (msg : String) (ev : AlertEvent) → Short ev → Short (note_sample at msg ev)
unfolding note_sample
note_sample-Short at msg ev s =
    if_cases Short _ (record ev { message = msg }) (push_trail at msg (record ev { message = msg }))
      (λ _. s) (λ _. push_trail-Short at msg _)

escalate-Short : (at : ℕ) (ev : AlertEvent) → Short ev → Short (escalate at ev)
unfolding escalate escalated_event
escalate-Short at ev s =
    if_cases Short (escalates at ev) (escalated_event at ev) ev (λ _. push_trail-Short at _ ev)
      (λ _. s)

continued-Short :
    (cond : Bool) (msg : String) (now : ℕ) (ev : AlertEvent)
    → Short ev
    → Short (continued cond msg now ev)
unfolding continued
continued-Short true msg now ev s =
    let ev1 = note_sample (unix now) msg ev in
    escalate-Short (unix now) (record ev1 { tick_count = suc ev1.tick_count })
      (note_sample-Short (unix now) msg ev s)
continued-Short false msg now ev s =
    escalate-Short (unix now) (record ev { tick_count = suc ev.tick_count }) s

resolved-Short : (now : ℕ) (ev : AlertEvent) → Short (resolved now ev)
unfolding resolved
resolved-Short now ev = push_trail-Short (unix now) _ _

All-replace_by_id :
    (id : ℕ) (ev : AlertEvent) (xs : List AlertEvent)
    → Short ev
    → All Short xs
    → All Short (replace_by_id id ev xs)
unfolding replace_by_id
All-replace_by_id id ev [] s a = tt
All-replace_by_id id ev (x ∷ xs) s a =
    if_cases (All Short) (x.id == id) (ev ∷ xs) (x ∷ replace_by_id id ev xs) (λ _. (s, a.1))
      (λ _. (a.0, All-replace_by_id id ev xs s a.1))

length-replace_by_id :
    (id : ℕ) (ev : AlertEvent) (xs : List AlertEvent) → length (replace_by_id id ev xs) ≡ length xs
unfolding replace_by_id
length-replace_by_id id ev [] = refl
length-replace_by_id id ev (x ∷ xs) =
    if_cases (λ ys. length ys ≡ suc (length xs)) (x.id == id) (ev ∷ xs) (x ∷ replace_by_id id ev xs)
      (λ _. refl) (λ _. ap suc (length-replace_by_id id ev xs))

module _ {B S : Type 0} where
  pub record Bounded (e : AlertEngine B S) : Type 0 where
    pub trails : All (λ x. Short x.1) e.active
    pub past : All Short e.history
    pub ring : length e.history ≤ e.hist_cap

  maybe_fire_tg-Short :
      (e : AlertEngine B S) (ev : AlertEvent) (key : String) (now : ℕ)
      → Short ev
      → Short (maybe_fire_tg e ev key now).ev
  maybe_fire_tg-Short e ev key now s =
      subst (λ t. length t ≤ alert_trail_cap) (sym (maybe_fire_tg-trail e ev key now)) s

  update_history-Bounded :
      (id : ℕ) (ev : AlertEvent) (e : AlertEngine B S)
      → Short ev
      → Bounded e
      → Bounded (update_history_by_id id ev e)
  unfolding update_history_by_id
  update_history-Bounded id ev e s b =
      if_cases Bounded (has_id id e.history)
        (record e { history = replace_by_id id ev e.history; history_dirty = true }) e
        (λ _. record {
          trails = b.trails;
          past = All-replace_by_id id ev e.history s b.past;
          ring = omega (arith, length-replace_by_id id ev e.history, b.ring);
        })
        (λ _. b)

  push_history-Bounded :
      (ev : AlertEvent) (e : AlertEngine B S) → Short ev → Bounded e → Bounded (push_history ev e)
  unfolding push_history
  push_history-Bounded ev e s b = record {
    trails = b.trails;
    past =
        All-last_n Short e.hist_cap (e.history ++ ev ∷ [])
          (All-append Short e.history (ev ∷ []) b.past (s, tt));
    ring = length-last_n-le e.hist_cap (e.history ++ ev ∷ []);
  }

  act-Bounded :
      (r : AlertRule B S) (n : NodeStatus S) (key msg : String) (cond : Bool) (now : ℕ)
      (firing : Bool) (existing : Option AlertEvent) (e : AlertEngine B S)
      → lookup key e.active ≡ existing
      → Bounded e
      → Bounded (act r n key cond msg now firing existing e).engine
  unfolding act on_fire on_continue on_resolve unchanged new_event
  act-Bounded r n key msg cond now true none e x b =
      let ev = new_event r n (suc e.last_seq) msg now in
      let e1 = record e { last_seq = suc e.last_seq; active = insert key ev e.active } in
      let e2 = push_history ev e1 in
      let b2 = push_history-Bounded ev e1 (omega arith) (record {
        trails = All-insert (λ y. Short y.1) key ev e.active (omega arith) b.trails;
        past = b.past;
        ring = b.ring;
      }) in
      record {
        trails =
            All-insert (λ y. Short y.1) key (maybe_fire_tg e2 ev key now).ev e2.active
              (maybe_fire_tg-Short e2 ev key now (omega arith)) b2.trails;
        past = b2.past;
        ring = b2.ring;
      }
  act-Bounded r n key msg cond now true (some ev) e x b =
      let ev' = continued cond msg now ev in
      let (j, _, old) = All-lookup (λ y. Short y.1) key ev e.active b.trails x in
      let s = continued-Short cond msg now ev old in
      let e0 = record e { active = insert key ev' e.active } in
      let e1 = update_history_by_id ev.id ev' e0 in
      let b1 = update_history-Bounded ev.id ev' e0 s (record {
        trails = All-insert (λ y. Short y.1) key ev' e.active s b.trails;
        past = b.past;
        ring = b.ring;
      }) in
      record {
        trails =
            All-insert (λ y. Short y.1) key (maybe_fire_tg e1 ev' key now).ev e1.active
              (maybe_fire_tg-Short e1 ev' key now s) b1.trails;
        past = b1.past;
        ring = b1.ring;
      }
  act-Bounded r n key msg cond now false (some ev) e x b =
      let ev' = resolved now ev in
      let e1 = update_history_by_id ev.id ev' e in
      let b1 = update_history-Bounded ev.id ev' e (resolved-Short now ev) b in
      record {
        trails = All-delete (λ y. Short y.1) key e1.active b1.trails;
        past = b1.past;
        ring = b1.ring;
      }
  act-Bounded r n key msg cond now false none e x b = b

  step_rule-Bounded :
      (n : NodeStatus S) (now : ℕ) (r : AlertRule B S) (e : AlertEngine B S)
      → Bounded e
      → Bounded (step_rule n now r e).engine
  unfolding step_rule step_cond
  step_rule-Bounded n now r e b =
      let (cond, msg) =
        if applicable r n.node_id n.region (unix now)
        then eval_rule_safe r e.baselines n
        else (false, "") in
      let key = alert_key n.node_id r.id in
      let d = debounce r key cond e in
      act-Bounded r n key msg cond now d.firing (lookup key e.active)
        (record e { pending = d.pending; clearing = d.clearing }) refl
        (record { trails = b.trails; past = b.past; ring = b.ring })

  step_rules-Bounded :
      (n : NodeStatus S) (now : ℕ) (rs : List (AlertRule B S)) (e : AlertEngine B S)
      → Bounded e
      → Bounded (step_rules n now rs e).engine
  unfolding step_rules
  step_rules-Bounded n now [] e b = b
  step_rules-Bounded n now (r ∷ rs) e b =
      step_rules-Bounded n now rs (step_rule n now r e).engine (step_rule-Bounded n now r e b)

  step_nodes-Bounded :
      (feed : B → NodeStatus S → B) (now : ℕ) (ns : List (Option (NodeStatus S)))
      (e : AlertEngine B S)
      → Bounded e
      → Bounded (step_nodes feed now ns e).engine
  unfolding step_nodes
  step_nodes-Bounded feed now [] e b = b
  step_nodes-Bounded feed now (none ∷ ns) e b = step_nodes-Bounded feed now ns e b
  step_nodes-Bounded feed now (some n ∷ ns) e b =
      let fed = record e { baselines = feed e.baselines n } in
      step_nodes-Bounded feed now ns (step_rules n now e.rules fed).engine (
        step_rules-Bounded n now e.rules fed
          (record { trails = b.trails; past = b.past; ring = b.ring }))

  -- A tick over any nodes and rules, dispatch included, keeps every active trail and every trail in
  -- the history within 60 samples and the history within its capacity.
  pub tick_once-Bounded :
      (feed : B → NodeStatus S → B) (now : ℕ) (ns : List (Option (NodeStatus S)))
      (e : AlertEngine B S)
      → Bounded e
      → Bounded (tick_once feed now ns e).0
  unfolding tick_once
  tick_once-Bounded feed now ns e b =
      let s = step_nodes feed now ns e in
      let k = step_nodes-Bounded feed now ns e b in
      let f = flush_fires_keeps s.fires s.engine k.trails in
      record {
        trails = f.0;
        past = subst (All Short) (sym f.1) k.past;
        ring = omega (arith, ap length f.1, f.2, k.ring);
      }
