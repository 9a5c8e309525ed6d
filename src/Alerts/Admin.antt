-- ===== src/Alerts/Admin.antt =====
-- core-console/backend/alerts.go: the calls that change or read the active events between two ticks:
-- acknowledgement, the eviction of a node, and the input of the on-call loop.
pub mod Evict
use ncn_platform.Base.{
  ℕ, Bool, true, not, ◌&&◌, ◌||◌, List, [], ◌∷◌, Option, none, some, String, text_append, str_eq,
  ◌==◌, if◌then◌else◌,
}
use text.Mathlib.Text.{starts_with}
use ncn_platform.Base.Dict.{Dict, lookup, insert, delete}
use ncn_platform.Alerts.Event.{AlertEvent, AlertEngine, alert_key}
use ncn_platform.Alerts.Engine.{update_history_by_id}

abbrev acknowledge : String → AlertEvent → AlertEvent
acknowledge by ev = record ev { acked = true; acked_by = by }

find_by_id : ℕ → Dict AlertEvent → Option (String × AlertEvent)
find_by_id id [] = none
find_by_id id ((k, ev) ∷ m) = if ev.id == id then some (k, ev) else find_by_id id m

unfoldable pub belongs : String → String × AlertEvent → Bool
belongs id (key, ev) = str_eq ev.node_id id || starts_with key (text_append id ":")

active_unacked_in : Dict AlertEvent → List AlertEvent
active_unacked_in [] = []
active_unacked_in ((k, ev) ∷ m) =
    if str_eq ev.state "firing" && not ev.acked
    then ev ∷ active_unacked_in m
    else active_unacked_in m

module _ {B S : Type 0} where
  -- The two ways in which `handleAlertAck` finds the event; `none` is the 404.
  ack_event : String → String → AlertEvent → AlertEngine B S → AlertEngine B S
  ack_event by key ev e =
      update_history_by_id ev.id (acknowledge by ev)
        (record e { active = insert key (acknowledge by ev) e.active })

  pub ack_by_key : String → String → String → AlertEngine B S → Option (AlertEngine B S)
  unfolding ack_event
  ack_by_key by node_id rule_id e =
      let key = alert_key node_id rule_id in
      elim (lookup key e.active) [ none ↦ none | some ev ↦ some (ack_event by key ev e) ]

  pub ack_by_id : String → ℕ → AlertEngine B S → Option (AlertEngine B S)
  unfolding ack_event find_by_id
  ack_by_id by id e = elim (find_by_id id e.active) [
    | none ↦ none
    | some (key, ev) ↦ some (ack_event by key ev e)
  ]

  -- By node and rule where the request has both, else by the event's ID.
  pub handle_alert_ack : String → ℕ → String → String → AlertEngine B S → Option (AlertEngine B S)
  handle_alert_ack by id node_id rule_id e =
      if not (str_eq node_id "") && not (str_eq rule_id "")
      then ack_by_key by node_id rule_id e
      else ack_by_id by id e

  -- The loop of `evictNode`: the deletions hit the entry that the loop is at.
  unfoldable pub evict_loop : String → Dict AlertEvent → AlertEngine B S → AlertEngine B S
  unfolding belongs
  evict_loop id [] e = e
  evict_loop id ((key, ev) ∷ m) e = evict_loop id m (
      if belongs id (key, ev)
      then record e { active = delete key e.active; last_tg_fire = delete key e.last_tg_fire }
      else e)

  unfoldable pub evict_node : String → AlertEngine B S → AlertEngine B S
  unfolding evict_loop
  evict_node id e = evict_loop id e.active e

  pub active_unacked : AlertEngine B S → List AlertEvent
  unfolding active_unacked_in
  active_unacked e = active_unacked_in e.active
