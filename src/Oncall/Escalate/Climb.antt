-- ===== src/Oncall/Escalate/Climb.antt =====
-- The tiers that are paged for one alert, over any number of ticks.
use ncn_platform.Base.{
  ℕ, ◌≤◌, ◌<◌, ◌≡◌, refl, true, ◌==◌, List, [], ◌∷◌, ◌++◌, if◌then◌else◌, arith, All, subst, sym, ℤ,
}
use ncn_platform.Alerts.Event.{AlertEvent}
use ncn_platform.Oncall.Rota.{Tier}
use ncn_platform.Oncall.Escalate.{
  Sent, Page, reached, age_minutes, escalate_to, escalate_alert, escalate_all, is_live, tick,
}

-- The tiers paged for an alert, in order.
pub paged : ℕ → List Page → List ℕ
paged id [] = []
paged id (p ∷ ps) = if p.alert.id == id then p.tier ∷ paged id ps else paged id ps

-- The numbers rise strictly, from above the first bound up to the second.
abbrev pub Climbs : ℕ → List ℕ → ℕ → Type 0
Climbs low [] high = low ≤ high
Climbs low (n ∷ ns) high = (low < n) × Climbs n ns high

Climbs-append :
    (low mid high : ℕ) (xs ys : List ℕ)
    → Climbs low xs mid
    → Climbs mid ys high
    → Climbs low (xs ++ ys) high
Climbs-append low mid high [] [] h k = omega arith
Climbs-append low mid high [] (y ∷ ys) h k = (omega (arith, h, k.0), k.1)
Climbs-append low mid high (x ∷ xs) ys h k = (h.0, Climbs-append x mid high xs ys h.1 k)

paged-append : (id : ℕ) (ps qs : List Page) → paged id (ps ++ qs) ≡ paged id ps ++ paged id qs
unfolding paged
paged-append id [] qs = refl
paged-append id (p ∷ ps) qs = ground (arith, paged-append id ps qs)

escalate_to-Climbs :
    (id n : ℕ) (ev : AlertEvent) (sent : Sent)
    → Climbs (sent id) (paged id (escalate_to n ev sent).1) ((escalate_to n ev sent).0 id)
unfolding escalate_to paged
escalate_to-Climbs id n ev sent = ground arith

module _ (minutes : ℤ → ℤ) where
  escalate_all-Climbs :
      (id : ℕ) (tiers : List Tier) (now : ℕ) (evs : List AlertEvent) (sent : Sent)
      → Climbs
          (sent id)
          (paged id (escalate_all minutes tiers now evs sent).1)
          ((escalate_all minutes tiers now evs sent).0 id)
  unfolding escalate_all escalate_alert paged
  escalate_all-Climbs id tiers now [] sent = omega arith
  escalate_all-Climbs id tiers now (ev ∷ evs) sent =
      let n = reached (age_minutes minutes now ev) 0 tiers 0 in
      let a = escalate_to n ev sent in
      let b = escalate_all minutes tiers now evs a.0 in
      subst (λ l. Climbs (sent id) l (b.0 id)) (sym (paged-append id a.1 b.1))
        (Climbs-append (sent id) (a.0 id) (b.0 id) (paged id a.1) (paged id b.1)
          (escalate_to-Climbs id n ev sent) (escalate_all-Climbs id tiers now evs a.0))

  -- Ticks in order, each with its time and the alerts that nobody acknowledged.
  pub run_ticks : List Tier → List (ℕ × List AlertEvent) → Sent → Sent × List Page
  run_ticks tiers [] sent = (sent, [])
  run_ticks tiers ((now, active) ∷ rest) sent =
      let (sent1, pages1) = tick minutes tiers now active sent in
      let (sent2, pages2) = run_ticks tiers rest sent1 in (sent2, pages1 ++ pages2)

  tick-Climbs :
      (id : ℕ) (tiers : List Tier) (now : ℕ) (active : List AlertEvent) (sent : Sent)
      → is_live active id ≡ true
      → Climbs
          (sent id)
          (paged id (tick minutes tiers now active sent).1)
          ((tick minutes tiers now active sent).0 id)
  unfolding tick paged
  tick-Climbs id [] now active sent h = omega arith
  tick-Climbs id (t ∷ ts) now active sent h = rw h (escalate_all-Climbs id (t ∷ ts) now active sent)

  -- While an alert stays unacknowledged, the tiers that are paged for it over any ticks rise strictly:
  -- no tier is paged twice, and none after a higher one.
  pub run_ticks-Climbs :
      (id : ℕ) (tiers : List Tier) (ticks : List (ℕ × List AlertEvent)) (sent : Sent)
      → All (λ t. is_live t.1 id ≡ true) ticks
      → Climbs
          (sent id)
          (paged id (run_ticks tiers ticks sent).1)
          ((run_ticks tiers ticks sent).0 id)
  unfolding run_ticks paged
  run_ticks-Climbs id tiers [] sent h = omega arith
  run_ticks-Climbs id tiers ((now, active) ∷ rest) sent h =
      let a = tick minutes tiers now active sent in
      let b = run_ticks tiers rest a.0 in
      subst (λ l. Climbs (sent id) l (b.0 id)) (sym (paged-append id a.1 b.1))
        (Climbs-append (sent id) (a.0 id) (b.0 id) (paged id a.1) (paged id b.1)
          (tick-Climbs id tiers now active sent h.0) (run_ticks-Climbs id tiers rest a.0 h.1))
