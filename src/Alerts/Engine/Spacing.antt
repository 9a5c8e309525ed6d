-- ===== src/Alerts/Engine/Spacing.antt =====
-- The times of the ticks at which a rule on a node yields a first fire, which is then sent or handed to
-- the triage, over any ticks.
use ncn_platform.Base.{
  ℕ, suc, ◌+◌, ◌≤◌, ◌≡◌, refl, sym, subst, ◌∙◌, Bool, true, false, List, [], ◌∷◌, Option, none,
  some, String, arith, if◌then◌else◌, is_some, if_cases,
}
use ncn_platform.Base.Dict.{lookup, insert}
use ncn_platform.Alerts.Rule.{AlertRule, NodeStatus}
use ncn_platform.Alerts.Event.{AlertEvent, AlertEngine, PendingFire, alert_key, alert_tg_cooldown}
use ncn_platform.Alerts.Evolve.{continued, resolved}
use ncn_platform.Alerts.Notify.{recent, maybe_fire_tg}
use ncn_platform.Alerts.Notify.Cooldown.{NoEarlier, NoEarlier-refl, maybe_fire_tg-Fired}
use ncn_platform.Alerts.Debounce.{debounce}
use ncn_platform.Alerts.Engine.{
  Step, to_list, act, step_cond, on_fire, on_continue, on_resolve, unchanged, update_history_by_id,
  push_history, new_event,
}
use ncn_platform.Alerts.Engine.Firing.{Tick, Ticks, run_ticks}

abbrev nonempty {ℓ} : {A : Type ℓ} → List A → Bool
nonempty [] = false
nonempty (_ ∷ _) = true

nonempty-to_list : (o : Option PendingFire) → nonempty (to_list o) ≡ is_some o
nonempty-to_list none = refl
nonempty-to_list (some pf) = refl

-- Each time is at least the cooldown after the one before it.
abbrev pub Spaced : List ℕ → Type 0
Spaced [] = Unit {0}
Spaced (t ∷ []) = Unit {0}
Spaced (t ∷ u ∷ ts) = (u + alert_tg_cooldown ≤ t) × Spaced (u ∷ ts)

abbrev Since : List ℕ → Option ℕ → Type 0
Since [] last = Unit {0}
Since (t ∷ ts) last = NoEarlier (some t) last

Spaced-cons :
    (now : ℕ) (ts : List ℕ) (last : Option ℕ)
    → recent last now alert_tg_cooldown ≡ false
    → Since ts last
    → Spaced ts
    → Spaced (now ∷ ts)
Spaced-cons now [] last h k s = tt
Spaced-cons now (t ∷ ts) none h k s = absurd k
Spaced-cons now (t ∷ ts) (some l) h k s = (ground arith, s)

Since-later :
    (ts : List ℕ) (last last' : Option ℕ) → Since ts last → NoEarlier last last' → Since ts last'
Since-later [] last last' k n = tt
Since-later (t ∷ ts) none last' k n = absurd k
Since-later (t ∷ ts) (some a) none k n = absurd n
Since-later (t ∷ ts) (some a) (some b) k n = omega arith

module _ {B S : Type 0} where
  record Noted (e : AlertEngine B S) (key : String) (now : ℕ) (s : Step B S) : Type 0 where
    no_earlier : NoEarlier (lookup key e.last_tg_fire) (lookup key s.engine.last_tg_fire)
    spaced :
        nonempty s.fires ≡ true → recent (lookup key e.last_tg_fire) now alert_tg_cooldown ≡ false
    stamped : nonempty s.fires ≡ true → lookup key s.engine.last_tg_fire ≡ some now

  update_history_last :
      (id : ℕ) (ev : AlertEvent) (e : AlertEngine B S)
      → (update_history_by_id id ev e).last_tg_fire ≡ e.last_tg_fire
  unfolding update_history_by_id
  update_history_last id ev e = ground arith

  act-Noted :
      (r : AlertRule B S) (n : NodeStatus S) (key msg : String) (cond : Bool) (now : ℕ)
      (firing : Bool) (existing : Option AlertEvent) (e : AlertEngine B S)
      → Noted e key now (act r n key cond msg now firing existing e)
  unfolding act on_fire on_continue on_resolve unchanged
  act-Noted r n key msg cond now true none e =
      let ev = new_event r n (suc e.last_seq) msg now in
      let e2 =
        push_history ev (record e { last_seq = suc e.last_seq; active = insert key ev e.active }) in
      let f = maybe_fire_tg-Fired e2 ev key now in
      record {
        no_earlier = f.no_earlier;
        spaced = λ (h : false ≡ true). cc;
        stamped = λ (h : false ≡ true). cc;
      }
  act-Noted r n key msg cond now true (some ev) e =
      let ev' = continued cond msg now ev in
      let e1 = update_history_by_id ev.id ev' (record e { active = insert key ev' e.active }) in
      let f = maybe_fire_tg-Fired e1 ev' key now in
      let last = update_history_last ev.id ev' (record e { active = insert key ev' e.active }) in
      record {
        no_earlier =
            subst
              (λ m.
                NoEarlier (lookup key m) (lookup key (maybe_fire_tg e1 ev' key now).last_tg_fire))
              last f.no_earlier;
        spaced = λ h.
            subst (λ m. recent (lookup key m) now alert_tg_cooldown ≡ false) last
              (f.spaced (sym (nonempty-to_list (maybe_fire_tg e1 ev' key now).fire) ∙ h));
        stamped = λ h. f.stamped (sym (nonempty-to_list (maybe_fire_tg e1 ev' key now).fire) ∙ h);
      }
  act-Noted r n key msg cond now false (some ev) e = record {
    no_earlier =
        subst (λ m. NoEarlier (lookup key e.last_tg_fire) (lookup key m))
          (sym (update_history_last ev.id (resolved now ev) e)) (NoEarlier-refl _);
    spaced = λ (h : false ≡ true). cc;
    stamped = λ (h : false ≡ true). cc;
  }
  act-Noted r n key msg cond now false none e = record {
    no_earlier = NoEarlier-refl _;
    spaced = λ (h : false ≡ true). cc;
    stamped = λ (h : false ≡ true). cc;
  }

  -- The times of the ticks that yielded a first fire, newest first.
  unfoldable pub fire_times : AlertRule B S → NodeStatus S → AlertEngine B S → Ticks → List ℕ
  fire_times r n e [] = []
  fire_times r n e (t ∷ h) =
      if nonempty (step_cond r n t.cond t.msg t.now (run_ticks r n e h)).fires
      then t.now ∷ fire_times r n e h
      else fire_times r n e h

  step_cond-Noted :
      (r : AlertRule B S) (n : NodeStatus S) (t : Tick) (e : AlertEngine B S)
      → Noted e (alert_key n.node_id r.id) t.now (step_cond r n t.cond t.msg t.now e)
  unfolding step_cond
  step_cond-Noted r n t e =
      let key = alert_key n.node_id r.id in
      let d = debounce r key t.cond e in
      let k =
        act-Noted r n key t.msg t.cond t.now d.firing (lookup key e.active)
          (record e { pending = d.pending; clearing = d.clearing }) in
      record { no_earlier = k.no_earlier; spaced = k.spaced; stamped = k.stamped }

  fire_times-Since :
      (r : AlertRule B S) (n : NodeStatus S) (e : AlertEngine B S) (h : Ticks)
      → Spaced (fire_times r n e h)
        × Since
            (fire_times r n e h)
            (lookup (alert_key n.node_id r.id) (run_ticks r n e h).last_tg_fire)
  unfolding fire_times run_ticks
  fire_times-Since r n e [] = (tt, tt)
  fire_times-Since r n e (t ∷ h) =
      let ih = fire_times-Since r n e h in
      let key = alert_key n.node_id r.id in
      let e' = run_ticks r n e h in
      let s = step_cond r n t.cond t.msg t.now e' in
      let k = step_cond-Noted r n t e' in
      if_cases (λ ts. Spaced ts × Since ts (lookup key s.engine.last_tg_fire)) (nonempty s.fires)
        (t.now ∷ fire_times r n e h) (fire_times r n e h)
        (λ f. (
          Spaced-cons t.now (fire_times r n e h) (lookup key e'.last_tg_fire) (k.spaced f) ih.1
              ih.0,
          rw (k.stamped f) (omega arith),
        ))
        (λ _. (ih.0, Since-later (fire_times r n e h) _ _ ih.1 k.no_earlier))

  -- However a rule on a node flaps: of the ticks at which it yields a first fire, which is then sent or
  -- handed to the triage, two that follow one another are never closer together than the cooldown of
  -- 30 minutes, from any engine and over any ticks.
  pub fire_times-Spaced :
      (r : AlertRule B S) (n : NodeStatus S) (e : AlertEngine B S) (h : Ticks)
      → Spaced (fire_times r n e h)
  fire_times-Spaced r n e h = (fire_times-Since r n e h).0
