-- ===== src/Alerts/Evolve.antt =====
-- core-console/backend/alerts.go: how an active event changes from tick to tick.
use ncn_platform.Base.{
  ℕ, suc, ◌-◌, ◌/◌, Bool, true, false, not, ◌&&◌, List, [], ◌∷◌, String, text_append, str_eq, itoa,
  ltb, leb, if◌then◌else◌, ℤ, to_ℕ, gtb_ℤ,
}
use ncn_platform.Alerts.Rule.{sev_critical, sev_weight}
use ncn_platform.Alerts.Event.{AlertSample, AlertEvent, unix, push_trail}

same_as_last : List AlertSample → String → Bool
same_as_last [] msg = false
same_as_last (x ∷ []) msg = str_eq x.message msg
same_as_last (x ∷ y ∷ xs) msg = same_as_last (y ∷ xs) msg

-- The latest reading, and a new sample where it differs from the last one.
unfoldable pub note_sample : ℕ → String → AlertEvent → AlertEvent
unfolding same_as_last
note_sample at msg ev =
    let ev' = record ev { message = msg } in
    if same_as_last ev.trail msg then ev' else push_trail at msg ev'

-- The test for auto-escalation.
unfoldable pub escalates : ℕ → AlertEvent → Bool
escalates at ev =
    (gtb_ℤ ev.escalate_secs 0 && (not ev.escalated && not ev.acked))
    && (ltb (sev_weight ev.severity) (sev_weight sev_critical)
        && leb (to_ℕ ev.escalate_secs) (at - ev.fired_at))

escalation_text : ℤ → String
escalation_text secs =
    text_append "↑ escalated to crit (firing " (text_append (itoa (to_ℕ secs / 60)) "m)")

unfoldable pub escalated_event : ℕ → AlertEvent → AlertEvent
unfolding escalation_text
escalated_event at ev =
    let ev' = push_trail at (escalation_text ev.escalate_secs) ev in
    record ev' { severity = sev_critical; escalated = true; tg_fire_sent = false }

unfoldable pub escalate : ℕ → AlertEvent → AlertEvent
unfolding escalates escalated_event
escalate at ev = if escalates at ev then escalated_event at ev else ev

unfoldable pub continued : Bool → String → ℕ → AlertEvent → AlertEvent
unfolding note_sample escalate
continued cond msg now ev =
    let ev1 = if cond then note_sample (unix now) msg ev else ev in
    let ev2 = escalate (unix now) (record ev1 { tick_count = suc ev1.tick_count }) in
    record ev2 { updated = now }

unfoldable pub resolved : ℕ → AlertEvent → AlertEvent
resolved now ev =
    let ev' =
      push_trail (unix now) "✓ resolved"
        (record ev { resolved_at = unix now; state = "resolved" }) in
    record ev' { updated = now }
