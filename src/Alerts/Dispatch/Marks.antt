-- ===== src/Alerts/Dispatch/Marks.antt =====
-- What the dispatch does to the engine: it sets marks on active events and nothing else.
use mathlib.Core.List.{map}
use ncn_platform.Base.{
  true, ◌≤◌, ◌≡◌, refl, ◌∙◌, List, [], ◌∷◌, Option, none, some, String, text_append, itoa, leb,
  if◌then◌else◌, if_cases, length, All,
}
use ncn_platform.Base.Dict.{Dict, lookup, All-insert, All-lookup}
use ncn_platform.Alerts.Rule.{sev_info}
use ncn_platform.Alerts.Event.{
  AlertEvent, AlertEngine, PendingFire, Effect, nudge, triage_fire, triage_group, group_card,
  alert_trail_cap, alert_storm_threshold,
}
use ncn_platform.Alerts.Dispatch.{
  group_fires, group_title, dispatch_fire, dispatch_group, dispatch_one, dispatch_all, flush_fires,
  max_sev, is_triaged, mark_found, mark_posted,
}

abbrev pub Short : AlertEvent → Type 0
Short ev = length ev.trail ≤ alert_trail_cap

module _ {B S : Type 0} where
  -- The trails stay short, and the history and its capacity are as before.
  abbrev pub Kept : AlertEngine B S → AlertEngine B S → Type 0
  Kept e e' = All (λ y. Short y.1) e'.active × (e'.history ≡ e.history) × (e'.hist_cap ≡ e.hist_cap)

  mark_found_keeps :
      (k : String) (o : Option AlertEvent) (e : AlertEngine B S)
      → lookup k e.active ≡ o
      → All (λ y. Short y.1) e.active
      → Kept e (mark_found k o e)
  unfolding mark_found
  mark_found_keeps k none e x a = (a, refl, refl)
  mark_found_keeps k (some ev) e x a =
      let (j, _, old) = All-lookup (λ y. Short y.1) k ev e.active a x in
      (All-insert (λ y. Short y.1) k (record ev { tg_posted = true }) e.active old a, refl, refl)

  mark_posted_keeps :
      (ks : List String) (e : AlertEngine B S)
      → All (λ y. Short y.1) e.active
      → Kept e (mark_posted ks e)
  unfolding mark_posted
  mark_posted_keeps [] e a = (a, refl, refl)
  mark_posted_keeps (k ∷ ks) e a =
      let m = mark_found_keeps k (lookup k e.active) e refl a in
      let (a', h, c) = mark_posted_keeps ks (mark_found k (lookup k e.active) e) m.0 in
      (a', h ∙ m.1, c ∙ m.2)

  dispatch_fire_keeps :
      (pf : PendingFire) (e : AlertEngine B S)
      → All (λ y. Short y.1) e.active
      → Kept e (dispatch_fire pf e).0
  unfolding dispatch_fire
  dispatch_fire_keeps pf e a =
      if_cases (λ (r : AlertEngine B S × List Effect). Kept e r.0) (is_triaged pf.ev.severity)
        (e, triage_fire pf.ev pf.key ∷ []) (mark_posted (pf.key ∷ []) e, nudge pf.ev "fired" ∷ [])
        (λ _. (a, refl, refl)) (λ _. mark_posted_keeps (pf.key ∷ []) e a)

  dispatch_group_keeps :
      (g : List PendingFire) (title : String) (e : AlertEngine B S)
      → All (λ y. Short y.1) e.active
      → Kept e (dispatch_group g title e).0
  unfolding dispatch_group
  dispatch_group_keeps g title e a =
      if_cases (λ (r : AlertEngine B S × List Effect). Kept e r.0) (is_triaged (max_sev g sev_info))
        (e, triage_group g (max_sev g sev_info) title ∷ [])
        (mark_posted (map (λ pf. pf.key) g) e, group_card g (max_sev g sev_info) title ∷ [])
        (λ _. (a, refl, refl)) (λ _. mark_posted_keeps (map (λ pf. pf.key) g) e a)

  dispatch_one_keeps :
      (g : List PendingFire) (e : AlertEngine B S)
      → All (λ y. Short y.1) e.active
      → Kept e (dispatch_one g e).0
  unfolding dispatch_one
  dispatch_one_keeps [] e a = (a, refl, refl)
  dispatch_one_keeps (pf ∷ []) e a = dispatch_fire_keeps pf e a
  dispatch_one_keeps (pf ∷ pf' ∷ g) e a =
      dispatch_group_keeps (pf ∷ pf' ∷ g) (group_title pf (pf ∷ pf' ∷ g)) e a

  dispatch_all_keeps :
      (m : Dict (List PendingFire)) (e : AlertEngine B S)
      → All (λ y. Short y.1) e.active
      → Kept e (dispatch_all m e).0
  unfolding dispatch_all
  dispatch_all_keeps [] e a = (a, refl, refl)
  dispatch_all_keeps ((k, g) ∷ m) e a =
      let d = dispatch_one_keeps g e a in
      let (a', h, c) = dispatch_all_keeps m (dispatch_one g e).0 d.0 in (a', h ∙ d.1, c ∙ d.2)

  pub flush_fires_keeps :
      (fires : List PendingFire) (e : AlertEngine B S)
      → All (λ y. Short y.1) e.active
      → Kept e (flush_fires fires e).0
  unfolding flush_fires
  flush_fires_keeps fires e a =
      let title = text_append "告警风暴 · " (text_append (itoa (length fires)) " 条同时触发") in
      let storm = dispatch_group fires title e in
      let apart = dispatch_all (group_fires fires []) e in
      if_cases (λ (r : AlertEngine B S × List Effect). Kept e r.0) (leb (length fires) 0) (e, [])
        (if leb alert_storm_threshold (length fires) then storm else apart) (λ _. (a, refl, refl))
        (λ _.
          if_cases (λ (r : AlertEngine B S × List Effect). Kept e r.0)
            (leb alert_storm_threshold (length fires)) storm apart
            (λ _. dispatch_group_keeps fires title e a)
            (λ _. dispatch_all_keeps (group_fires fires []) e a))
