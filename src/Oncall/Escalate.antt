-- ===== src/Oncall/Escalate.antt =====
-- core-console/backend/oncall.go: one tick of the escalation loop. `sent` gives the number of tiers
-- already paged for an alert; an alert that is not in the source's map reads as 0. The pages are the
-- output, each the alert and its tier, counted from 1. The argument `minutes` is `int(d.Minutes())` of a
-- duration in nanoseconds, which rounds in 64-bit floats.
pub mod Climb
use ncn_platform.Base.{
  ℕ, zero, suc, ◌-◌, ◌*◌, ◌/◌, Bool, true, false, ◌==◌, leb, List, [], ◌∷◌, ◌++◌, if◌then◌else◌,
  any, ℤ, less_ℤ, minus, not,
}
use ncn_platform.Alerts.Event.{AlertEvent}
use ncn_platform.Oncall.Rota.{Tier}

abbrev pub Sent : Type 0
Sent = ℕ → ℕ

pub record Page : Type 0 where
  pub alert : AlertEvent
  pub tier : ℕ

-- `int(now.Sub(time.Unix(ev.FiredAt, 0)).Minutes())`.
abbrev pub age_minutes : (ℤ → ℤ) → ℕ → AlertEvent → ℤ
age_minutes minutes now ev = minutes (minus now (ev.fired_at * 1000000000))

-- The number of the last tier whose threshold has passed, 0 if there is none; `n` tiers came before.
pub reached : ℤ → ℕ → List Tier → ℕ → ℕ
reached age n [] best = best
reached age n (t ∷ ts) best =
    reached age (suc n) ts (if not (less_ℤ age t.after_min) then suc n else best)

abbrev mark : ℕ → ℕ → Sent → Sent
mark id n sent other = if id == other then n else sent other

escalate_to : ℕ → AlertEvent → Sent → Sent × List Page
escalate_to n ev sent =
    if leb n (sent ev.id)
    then (sent, [])
    else (mark ev.id n sent, record { alert = ev; tier = n } ∷ [])

abbrev pub is_live : List AlertEvent → ℕ → Bool
is_live active id = any (λ ev. ev.id == id) active

module _ (minutes : ℤ → ℤ) where
  escalate_alert : List Tier → ℕ → AlertEvent → Sent → Sent × List Page
  unfolding escalate_to reached
  escalate_alert tiers now ev sent =
      escalate_to (reached (age_minutes minutes now ev) 0 tiers 0) ev sent

  escalate_all : List Tier → ℕ → List AlertEvent → Sent → Sent × List Page
  unfolding escalate_alert
  escalate_all tiers now [] sent = (sent, [])
  escalate_all tiers now (ev ∷ evs) sent =
      let (sent1, pages1) = escalate_alert tiers now ev sent in
      let (sent2, pages2) = escalate_all tiers now evs sent1 in (sent2, pages1 ++ pages2)

  -- `tick` on what `activeUnacked` gave; alerts that are no longer among these are forgotten.
  unfoldable pub tick : List Tier → ℕ → List AlertEvent → Sent → Sent × List Page
  unfolding escalate_all
  tick [] now active sent = (sent, [])
  tick (t ∷ ts) now active sent =
      let (sent', pages) = escalate_all (t ∷ ts) now active sent in
      ((λ id. if is_live active id then sent' id else 0), pages)
