-- ===== src/Alerts/Engine/Firing.antt =====
-- The debounce over the ticks of one rule on one node, against a description by the rows of equal
-- conditions at the end of the history, newest first.
use ncn_platform.Base.{
  ℕ, suc, ◌<◌, ◌≡◌, refl, ap, ◌∙◌, inl, inr, Bool, true, false, not, ◌&&◌, ◌||◌, List, [], ◌∷◌,
  Option, none, some, String, eq_refl, arith, ltb, leb, if◌then◌else◌, is_some, ℤ, Bool-cases,
  lt→ltb,
}
use ncn_platform.Base.Dict.{Dict, lookup, insert, delete, lookup-insert, lookup-delete}
use ncn_platform.Alerts.Rule.{AlertRule, NodeStatus, req_ticks}
use ncn_platform.Alerts.Event.{AlertEvent, AlertEngine, alert_key}
use ncn_platform.Alerts.Debounce.{or_zero, count_of, debounce}
use ncn_platform.Alerts.Evolve.{continued}
use ncn_platform.Alerts.Engine.{
  act, step_cond, on_fire, on_continue, on_resolve, unchanged, update_history_by_id,
}

pub record Tick : Type 0 where
  pub cond : Bool
  pub msg : String
  pub now : ℕ

abbrev pub Ticks : Type 0
Ticks = List Tick

-- How many of the latest ticks in a row had the condition, and how many did not.
pub met_run : Ticks → ℕ
met_run [] = 0
met_run (t ∷ h) = if t.cond then suc (met_run h) else 0

pub clear_run : Ticks → ℕ
clear_run [] = 0
clear_run (t ∷ h) = if t.cond then 0 else suc (clear_run h)

-- Whether an alert is up: it starts when the condition was met in `fire` ticks in a row, and ends
-- when it was clear in `resolve` ticks in a row.
pub is_up : ℕ → ℕ → Ticks → Bool
is_up fire resolve [] = false
is_up fire resolve (t ∷ h) =
    let before = is_up fire resolve h in
    if before
    then t.cond || ltb (clear_run (t ∷ h)) resolve
    else t.cond && leb fire (met_run (t ∷ h))

count_of-insert : (k : String) (n : ℕ) (m : Dict ℕ) → count_of k (insert k n m) ≡ n
count_of-insert k n m = rw (lookup-insert k k n m) (rw (eq_refl k) refl)

count_of-delete : (k : String) (m : Dict ℕ) → count_of k (delete k m) ≡ 0
count_of-delete k m = rw (lookup-delete k k m) (rw (eq_refl k) refl)

is_some-insert {ℓ} :
    {V : Type ℓ} (k : String) (v : V) (m : Dict V) → is_some (lookup k (insert k v m)) ≡ true
is_some-insert k v m = rw (lookup-insert k k v m) (rw (eq_refl k) refl)

is_some-delete {ℓ} :
    {V : Type ℓ} (k : String) (m : Dict V) → is_some (lookup k (delete k m)) ≡ false
is_some-delete k m = rw (lookup-delete k k m) (rw (eq_refl k) refl)

req_ticks-pos : (s : ℤ) → 0 < req_ticks s
unfolding req_ticks
req_ticks-pos s = ground arith

met_run-lt :
    (fire resolve : ℕ) (h : Ticks) → 0 < fire → is_up fire resolve h ≡ false → met_run h < fire
unfolding is_up met_run
met_run-lt fire resolve [] p d = p
met_run-lt fire resolve (t ∷ h) p d = ground (arith, met_run-lt fire resolve h p)

module _ {B S : Type 0} where
  -- What `act` leaves under the key: the event is there exactly when the rule fires, and the
  -- counters are the debounced ones unless an event was resolved.
  record Acted (key : String) (firing existed : Bool) (e e' : AlertEngine B S) : Type 0 where
    up : is_some (lookup key e'.active) ≡ firing
    pending :
        count_of key e'.pending ≡ (if firing || not existed then count_of key e.pending else 0)
    clearing :
        count_of key e'.clearing ≡ (if firing || not existed then count_of key e.clearing else 0)

  update_history_keeps :
      (id : ℕ) (ev : AlertEvent) (e : AlertEngine B S)
      → ((update_history_by_id id ev e).active ≡ e.active)
        × ((update_history_by_id id ev e).pending ≡ e.pending)
        × ((update_history_by_id id ev e).clearing ≡ e.clearing)
  unfolding update_history_by_id
  update_history_keeps id ev e = ground arith

  act-Acted :
      (r : AlertRule B S) (n : NodeStatus S) (key msg : String) (cond : Bool) (now : ℕ)
      (firing : Bool) (existing : Option AlertEvent) (e : AlertEngine B S)
      → lookup key e.active ≡ existing
      → Acted key firing (is_some existing) e (act r n key cond msg now firing existing e).engine
  unfolding act on_fire on_continue on_resolve unchanged
  act-Acted r n key msg cond now true none e x = record {
    up = is_some-insert key _ _;
    pending = refl;
    clearing = refl;
  }
  act-Acted r n key msg cond now true (some ev) e x =
      let ev' = continued cond msg now ev in
      let k = update_history_keeps ev.id ev' (record e { active = insert key ev' e.active }) in
      record {
        up = is_some-insert key _ _;
        pending = ap (count_of key) k.1;
        clearing = ap (count_of key) k.2;
      }
  act-Acted r n key msg cond now false (some ev) e x = record {
    up = is_some-delete key _;
    pending = count_of-delete key _;
    clearing = count_of-delete key _;
  }
  act-Acted r n key msg cond now false none e x = record {
    up = rw x refl;
    pending = refl;
    clearing = refl;
  }

  unfoldable pub run_ticks :
      AlertRule B S → NodeStatus S → AlertEngine B S → Ticks → AlertEngine B S
  run_ticks r n e [] = e
  run_ticks r n e (t ∷ h) = (step_cond r n t.cond t.msg t.now (run_ticks r n e h)).engine

  -- The state of the two counters and of the event, as the history determines them.
  record Tracks (key : String) (up : Bool) (met clear : ℕ) (e : AlertEngine B S) : Type 0 where
    is_active : is_some (lookup key e.active) ≡ up
    armed : up ≡ false → count_of key e.pending ≡ met
    held : count_of key e.clearing ≡ (if up then clear else 0)

  step_cond-Acted :
      (r : AlertRule B S) (n : NodeStatus S) (cond : Bool) (msg : String) (now : ℕ)
      (e : AlertEngine B S)
      → let key = alert_key n.node_id r.id in
        let d = debounce r key cond e in
        Acted key d.firing
          (is_some (lookup key e.active))
          (record e { pending = d.pending; clearing = d.clearing })
          (step_cond r n cond msg now e).engine
  unfolding step_cond
  step_cond-Acted r n cond msg now e =
      let key = alert_key n.node_id r.id in
      let d = debounce r key cond e in
      act-Acted r n key msg cond now d.firing (lookup key e.active)
        (record e { pending = d.pending; clearing = d.clearing }) refl

  debounce-active :
      (r : AlertRule B S) (key : String) (cond : Bool) (e : AlertEngine B S)
      → is_some (lookup key e.active) ≡ true
      → let d = debounce r key cond e in
        (count_of key d.clearing ≡ (if cond then 0 else suc (count_of key e.clearing)))
        × (count_of key d.pending ≡ 0)
        × (d.firing ≡ (cond || ltb (suc (count_of key e.clearing)) (req_ticks r.resolve_secs)))
  unfolding debounce
  debounce-active r key true e a =
      rw a (count_of-delete key e.clearing, count_of-delete key e.pending, refl)
  debounce-active r key false e a =
      rw a (count_of-insert key _ e.clearing, count_of-delete key e.pending, refl)

  debounce-idle :
      (r : AlertRule B S) (key : String) (cond : Bool) (e : AlertEngine B S)
      → is_some (lookup key e.active) ≡ false
      → count_of key e.pending < req_ticks r.sustain_secs
      → let d = debounce r key cond e in
        let n = suc (count_of key e.pending) in
        (count_of key d.clearing ≡ count_of key e.clearing)
        × (count_of key d.pending ≡ (if cond then n else 0))
        × (d.firing ≡ (cond && leb (req_ticks r.sustain_secs) n))
  unfolding debounce
  debounce-idle r key true e a l =
      rw a (rw (lt→ltb _ _ l) (refl, count_of-insert key _ e.pending, refl))
  debounce-idle r key false e a l = rw a (refl, count_of-delete key e.pending, refl)

  Tracks-step :
      (r : AlertRule B S) (n : NodeStatus S) (t : Tick) (h : Ticks) (e : AlertEngine B S)
      → let key = alert_key n.node_id r.id in
        let fire = req_ticks r.sustain_secs in
        let resolve = req_ticks r.resolve_secs in
        Tracks key (is_up fire resolve h) (met_run h) (clear_run h) e
        → Tracks key
            (is_up fire resolve (t ∷ h))
            (met_run (t ∷ h))
            (clear_run (t ∷ h))
            (step_cond r n t.cond t.msg t.now e).engine
  unfolding is_up met_run clear_run
  Tracks-step r n t h e ih =
      let key = alert_key n.node_id r.id in
      let fire = req_ticks r.sustain_secs in
      let resolve = req_ticks r.resolve_secs in
      elim (Bool-cases (is_up fire resolve h)) [
        | inl u ↦ ground (
          arith,
          debounce-active r key t.cond e (ih.is_active ∙ u),
          step_cond-Acted r n t.cond t.msg t.now e,
        )
        | inr u ↦ ground (
          arith,
          met_run-lt fire resolve h (req_ticks-pos r.sustain_secs) u,
          debounce-idle r key t.cond e (ih.is_active ∙ u),
          step_cond-Acted r n t.cond t.msg t.now e,
        )
      ]

  run_ticks-Tracks :
      (r : AlertRule B S) (n : NodeStatus S) (e : AlertEngine B S) (h : Ticks)
      → let key = alert_key n.node_id r.id in
        lookup key e.active ≡ none
        → lookup key e.pending ≡ none
        → lookup key e.clearing ≡ none
        → Tracks key
            (is_up (req_ticks r.sustain_secs) (req_ticks r.resolve_secs) h)
            (met_run h)
            (clear_run h)
            (run_ticks r n e h)
  unfolding run_ticks is_up met_run clear_run
  run_ticks-Tracks r n e [] a p c = record {
    is_active = ap is_some a;
    armed = λ _. ap or_zero p;
    held = ap or_zero c;
  }
  run_ticks-Tracks r n e (t ∷ h) a p c =
      Tracks-step r n t h (run_ticks r n e h) (run_ticks-Tracks r n e h a p c)

  -- A rule that has left no trace on a node has an active alert there, after any ticks, exactly
  -- when the description says so: it comes up once the condition was met in as many ticks in a row
  -- as the sustain time asks for, and goes down once it was clear in as many as the resolve time
  -- asks for.
  pub run_ticks_up :
      (r : AlertRule B S) (n : NodeStatus S) (e : AlertEngine B S) (h : Ticks)
      → lookup (alert_key n.node_id r.id) e.active ≡ none
      → lookup (alert_key n.node_id r.id) e.pending ≡ none
      → lookup (alert_key n.node_id r.id) e.clearing ≡ none
      → is_some (lookup (alert_key n.node_id r.id) (run_ticks r n e h).active)
        ≡ is_up (req_ticks r.sustain_secs) (req_ticks r.resolve_secs) h
  run_ticks_up r n e h a p c = (run_ticks-Tracks r n e h a p c).is_active
