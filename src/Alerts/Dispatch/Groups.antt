-- ===== src/Alerts/Dispatch/Groups.antt =====
-- What the gathering of first fires does to them: none is lost and none is handed on twice.
use mathlib.Core.List.{Perm, map, map-append, append_assoc, append-nil, perm_middle}
use mathlib.Core.List.Perm
use ncn_platform.Base.{
  ◌≤◌, ◌≡◌, refl, ap, sym, ◌∙◌, true, List, [], ◌∷◌, ◌++◌, String, str_eq, text_append, itoa, arith,
  leb, if◌then◌else◌, if_cases, length,
}
use ncn_platform.Base.Dict.{Dict}
use ncn_platform.Alerts.Rule.{sev_info}
use ncn_platform.Alerts.Event.{
  AlertEvent, AlertEngine, PendingFire, Effect, webhook, nudge, triage_fire, triage_group,
  group_card, alert_storm_threshold,
}
use ncn_platform.Alerts.Dispatch.{
  group_of, add_to_group, group_fires, group_title, dispatch_fire, dispatch_group, dispatch_one,
  dispatch_all, flush_fires, max_sev, is_triaged, mark_posted,
}

-- The events of the first fires that an effect hands on: to the chat, or to the triage, which may then
-- decide to say nothing.
abbrev pub handed_on : Effect → List AlertEvent
handed_on (webhook ev kind) = []
handed_on (nudge ev kind) = ev ∷ []
handed_on (triage_fire ev key) = ev ∷ []
handed_on (triage_group g sev title) = map (λ pf. pf.ev) g
handed_on (group_card g sev title) = map (λ pf. pf.ev) g

abbrev pub all_handed_on : List Effect → List AlertEvent
all_handed_on [] = []
all_handed_on (x ∷ xs) = handed_on x ++ all_handed_on xs

abbrev pub events : List PendingFire → List AlertEvent
events = map (λ pf. pf.ev)

members : Dict (List PendingFire) → List PendingFire
members [] = []
members ((k, g) ∷ m) = g ++ members m

members-add_to_group :
    (pf : PendingFire) (m : Dict (List PendingFire))
    → Perm (members (add_to_group pf m)) (pf ∷ members m)
unfolding members add_to_group
members-add_to_group pf [] = Perm.refl _
members-add_to_group pf ((k, g) ∷ m) =
    if_cases (λ m'. Perm (members m') (pf ∷ g ++ members m)) (str_eq k (group_of pf))
      ((k, g ++ pf ∷ []) ∷ m) ((k, g) ∷ add_to_group pf m)
      (λ _. rw append_assoc (perm_middle g (members m)))
      (λ _.
        Perm.trans (Perm.append (Perm.refl g) (members-add_to_group pf m))
          (perm_middle g (members m)))

members-group_fires :
    (fires : List PendingFire) (m : Dict (List PendingFire))
    → Perm (members (group_fires fires m)) (fires ++ members m)
unfolding group_fires
members-group_fires [] m = Perm.refl _
members-group_fires (pf ∷ fires) m = Perm.trans (members-group_fires fires (add_to_group pf m)) (
    Perm.trans (Perm.append (Perm.refl fires) (members-add_to_group pf m))
      (perm_middle fires (members m)))

members-all : (fires : List PendingFire) → Perm (members (group_fires fires [])) fires
unfolding members
members-all fires = Perm.trans (members-group_fires fires []) (rw append-nil (Perm.refl fires))

none_to_send : (fires : List PendingFire) → leb (length fires) 0 ≡ true → Perm [] (events fires)
none_to_send [] z = Perm.refl _
none_to_send (pf ∷ fires) z = absurd (ground arith)

all_handed_on-append :
    (xs ys : List Effect) → all_handed_on (xs ++ ys) ≡ all_handed_on xs ++ all_handed_on ys
all_handed_on-append [] ys = refl
all_handed_on-append (x ∷ xs) ys =
    rw (all_handed_on-append xs ys)
      (sym (append_assoc (handed_on x) (all_handed_on xs) (all_handed_on ys)))

module _ {B S : Type 0} where
  handed_on-dispatch_group :
      (g : List PendingFire) (title : String) (e : AlertEngine B S)
      → all_handed_on (dispatch_group g title e).1 ≡ events g
  unfolding dispatch_group
  handed_on-dispatch_group g title e =
      if_cases (λ (r : AlertEngine B S × List Effect). all_handed_on r.1 ≡ events g)
        (is_triaged (max_sev g sev_info)) (e, triage_group g (max_sev g sev_info) title ∷ [])
        (mark_posted (map (λ pf. pf.key) g) e, group_card g (max_sev g sev_info) title ∷ [])
        (λ _. append-nil _) (λ _. append-nil _)

  handed_on-dispatch_one :
      (g : List PendingFire) (e : AlertEngine B S) → all_handed_on (dispatch_one g e).1 ≡ events g
  unfolding dispatch_one dispatch_fire
  handed_on-dispatch_one [] e = refl
  handed_on-dispatch_one (pf ∷ []) e = ground arith
  handed_on-dispatch_one (pf ∷ pf' ∷ g) e =
      handed_on-dispatch_group (pf ∷ pf' ∷ g) (group_title pf (pf ∷ pf' ∷ g)) e

  handed_on-dispatch_all :
      (m : Dict (List PendingFire)) (e : AlertEngine B S)
      → all_handed_on (dispatch_all m e).1 ≡ events (members m)
  unfolding dispatch_all members
  handed_on-dispatch_all [] e = refl
  handed_on-dispatch_all ((k, g) ∷ m) e =
      let e' = (dispatch_one g e).0 in
      all_handed_on-append (dispatch_one g e).1 (dispatch_all m e').1
      ∙ ap (λ l. l ++ all_handed_on (dispatch_all m e').1) (handed_on-dispatch_one g e)
      ∙ ap (λ l. events g ++ l) (handed_on-dispatch_all m e')
      ∙ sym (map-append _ g (members m))

  -- One tick's first fires are each handed on exactly once, to the chat or to the triage, which may then
  -- decide to say nothing; whether they go alone, gathered by their correlation key, or as one storm.
  pub flush_fires_exact :
      (fires : List PendingFire) (e : AlertEngine B S)
      → Perm (all_handed_on (flush_fires fires e).1) (events fires)
  unfolding flush_fires
  flush_fires_exact fires e =
      let title = text_append "告警风暴 · " (text_append (itoa (length fires)) " 条同时触发") in
      let storm = dispatch_group fires title e in
      let apart = dispatch_all (group_fires fires []) e in
      if_cases Exact (leb (length fires) 0) (e, [])
        (if leb alert_storm_threshold (length fires) then storm else apart)
        (λ z. none_to_send fires z)
        (λ _.
          if_cases Exact (leb alert_storm_threshold (length fires)) storm apart
            (λ _. rw (handed_on-dispatch_group fires title e) (Perm.refl _))
            (λ _.
              rw (handed_on-dispatch_all (group_fires fires []) e)
                (Perm.map (λ p. p.ev) (members-all fires))))
    where
      Exact : AlertEngine B S × List Effect → Type 0
      Exact r = Perm (all_handed_on r.1) (events fires)

  -- A storm, six first fires or more in one tick, is sent as one card.
  pub storm_one_card :
      (fires : List PendingFire) (e : AlertEngine B S)
      → alert_storm_threshold ≤ length fires
      → length (flush_fires fires e).1 ≡ 1
  unfolding flush_fires dispatch_group
  storm_one_card fires e h = ground arith
