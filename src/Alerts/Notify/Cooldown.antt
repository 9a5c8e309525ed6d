-- ===== src/Alerts/Notify/Cooldown.antt =====
-- The times at which `maybeFireTG` lets a first message through, and the inhibited rules.
use ncn_platform.Base.{
  ℕ, ◌≤◌, ◌≡◌, refl, inl, inr, true, false, not, ◌||◌, Option, none, some, String, str_eq, eq_refl,
  Bool, ◌&&◌, arith, if◌then◌else◌, is_some, Bool-cases, if_cases, leb_ℤ,
}
use ncn_platform.Base.Dict.{lookup, insert, lookup-insert}
use ncn_platform.Alerts.Event.{AlertEvent, AlertEngine, alert_key, alert_tg_cooldown}
use ncn_platform.Alerts.Notify.{
  Outcome, maybe_fire_tg, gates, recent, quiet, first_nudge, repeat_nudge, interval_of,
}

-- A recorded time is kept or replaced by one that is no earlier.
abbrev pub NoEarlier : Option ℕ → Option ℕ → Type 0
NoEarlier none _ = Unit {0}
NoEarlier (some a) none = ⊥
NoEarlier (some a) (some b) = a ≤ b

pub NoEarlier-refl : (a : Option ℕ) → NoEarlier a a
NoEarlier-refl none = tt
NoEarlier-refl (some a) = omega arith

recent-NoEarlier :
    (last : Option ℕ) (now d : ℕ) → recent last now d ≡ false → NoEarlier last (some now)
recent-NoEarlier none now d h = tt
recent-NoEarlier (some a) now d h = ground arith

-- What is left of a call when its outcome is known.
pub record Fired {B S : Type 0} (e : AlertEngine B S) (key : String) (now : ℕ) (o : Outcome)
    : Type 0 where
  pub no_earlier : NoEarlier (lookup key e.last_tg_fire) (lookup key o.last_tg_fire)
  pub spaced :
      is_some o.fire ≡ true → recent (lookup key e.last_tg_fire) now alert_tg_cooldown ≡ false
  pub stamped : is_some o.fire ≡ true → lookup key o.last_tg_fire ≡ some now

abbrev pub needs_node : String → Bool
needs_node rule =
    str_eq rule "bgp-peer-down"
    || (str_eq rule "bird-unreachable"
        || (str_eq rule "probe-down"
            || (str_eq rule "probe-slow"
                || (str_eq rule "cpu-high"
                    || (str_eq rule "cpu-saturated"
                        || (str_eq rule "mem-pressure"
                            || (str_eq rule "disk-pressure" || str_eq rule "load-high")))))))

module _ {B S : Type 0} where
  quiet-Fired :
      (e : AlertEngine B S) (ev : AlertEvent) (key : String) (now : ℕ)
      → Fired e key now (quiet e ev)
  quiet-Fired e ev key now = record {
    no_earlier = NoEarlier-refl (lookup key e.last_tg_fire);
    spaced = λ (h : false ≡ true). cc;
    stamped = λ (h : false ≡ true). cc;
  }

  stamp :
      (e : AlertEngine B S) (key : String) (now : ℕ)
      → lookup key (insert key now e.last_tg_fire) ≡ some now
  stamp e key now = rw (lookup-insert key key now e.last_tg_fire) (rw (eq_refl key) refl)

  first_nudge-Fired :
      (e : AlertEngine B S) (ev : AlertEvent) (key : String) (now : ℕ)
      → Fired e key now (first_nudge e ev key now)
  unfolding first_nudge
  first_nudge-Fired e ev key now =
      elim (Bool-cases (recent (lookup key e.last_tg_fire) now alert_tg_cooldown)) [
        | inl h ↦ rw h (quiet-Fired e ev key now)
        | inr h ↦ rw h (record {
          no_earlier = rw (stamp e key now) (recent-NoEarlier _ now alert_tg_cooldown h);
          spaced = λ _. h;
          stamped = λ _. stamp e key now;
        })
      ]

  repeat_nudge-Fired :
      (e : AlertEngine B S) (ev : AlertEvent) (key : String) (now : ℕ)
      → Fired e key now (repeat_nudge e ev key now)
  unfolding repeat_nudge
  repeat_nudge-Fired e ev key now =
      elim (Bool-cases (not ev.tg_posted || (leb_ℤ ev.repeat_secs 0 || ev.acked))) [
        | inl h ↦ rw h (quiet-Fired e ev key now)
        | inr h ↦
            rw h
              (elim (Bool-cases
                (recent (lookup key e.last_tg_fire) now (interval_of ev.repeat_secs))) [
                  | inl k ↦ rw k (quiet-Fired e ev key now)
                  | inr k ↦ rw k (record {
                    no_earlier = rw (stamp e key now) (recent-NoEarlier _ now _ k);
                    spaced = λ (h : false ≡ true). cc;
                    stamped = λ (h : false ≡ true). cc;
                  })
                ])
      ]

  pub maybe_fire_tg-Fired :
      (e : AlertEngine B S) (ev : AlertEvent) (key : String) (now : ℕ)
      → Fired e key now (maybe_fire_tg e ev key now)
  unfolding maybe_fire_tg
  maybe_fire_tg-Fired e ev key now =
      if_cases (Fired e key now) (gates e ev)
        (if ev.tg_fire_sent then repeat_nudge e ev key now else first_nudge e ev key now)
        (quiet e ev)
        (λ _.
          if_cases (Fired e key now) ev.tg_fire_sent (repeat_nudge e ev key now)
            (first_nudge e ev key now) (λ _. repeat_nudge-Fired e ev key now)
            (λ _. first_nudge-Fired e ev key now))
        (λ _. quiet-Fired e ev key now)

  first_nudge-trail :
      (e : AlertEngine B S) (ev : AlertEvent) (key : String) (now : ℕ)
      → (first_nudge e ev key now).ev.trail ≡ ev.trail
  unfolding first_nudge
  first_nudge-trail e ev key now = ground arith

  repeat_nudge-trail :
      (e : AlertEngine B S) (ev : AlertEvent) (key : String) (now : ℕ)
      → (repeat_nudge e ev key now).ev.trail ≡ ev.trail
  unfolding repeat_nudge
  repeat_nudge-trail e ev key now = ground arith

  -- The messages leave an event's trail alone.
  pub maybe_fire_tg-trail :
      (e : AlertEngine B S) (ev : AlertEvent) (key : String) (now : ℕ)
      → (maybe_fire_tg e ev key now).ev.trail ≡ ev.trail
  unfolding maybe_fire_tg
  maybe_fire_tg-trail e ev key now =
      ground (arith, first_nudge-trail e ev key now, repeat_nudge-trail e ev key now)

  abbrev pub has_alert : AlertEngine B S → String → String → Bool
  has_alert e node_id rule_id = is_some (lookup (alert_key node_id rule_id) e.active)

  -- The node of the alert is reported down and the rule is one that needs the node, or its BIRD is
  -- reported down and the rule is that of a BGP peer.
  abbrev pub silenced : AlertEngine B S → AlertEvent → Bool
  silenced e ev =
      (has_alert e ev.node_id "node-unreachable" && needs_node ev.rule_id)
      || (has_alert e ev.node_id "bird-unreachable" && str_eq ev.rule_id "bgp-peer-down")
