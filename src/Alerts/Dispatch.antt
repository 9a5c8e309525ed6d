-- ===== src/Alerts/Dispatch.antt =====
-- core-console/backend/alerts.go: the dispatch of one tick's first fires, gathered by correlation
-- key, and the marks that it leaves on the active events.
pub mod Groups
pub mod Marks
use mathlib.Core.List.{map}
use ncn_platform.Base.{
  Option, none, some, Bool, true, ◌||◌, List, [], ◌∷◌, ◌++◌, String, text_append, str_eq, itoa, ltb,
  leb, if◌then◌else◌, length, all,
}
use ncn_platform.Base.Dict.{Dict, lookup, insert}
use ncn_platform.Alerts.Rule.{sev_info, sev_warn, sev_critical, sev_weight}
use ncn_platform.Alerts.Event.{
  AlertEvent, AlertEngine, PendingFire, Effect, nudge, triage_fire, triage_group, group_card,
  alert_storm_threshold,
}

abbrev is_triaged : String → Bool
is_triaged sev = str_eq sev sev_critical || str_eq sev sev_warn

pub max_sev : List PendingFire → String → String
max_sev [] m = m
max_sev (pf ∷ g) m =
    max_sev g (if ltb (sev_weight m) (sev_weight pf.ev.severity) then pf.ev.severity else m)

module _ {B S : Type 0} where
  -- `if cur := e.active[key]; cur != nil { cur.tgPosted = true }`.
  mark_found : String → Option AlertEvent → AlertEngine B S → AlertEngine B S
  mark_found k none e = e
  mark_found k (some ev) e = record e {
    active = insert k (record ev { tg_posted = true }) e.active;
  }

  -- `markPosted`.
  pub mark_posted : List String → AlertEngine B S → AlertEngine B S
  unfolding mark_found
  mark_posted [] e = e
  mark_posted (k ∷ ks) e = mark_posted ks (mark_found k (lookup k e.active) e)

  pub dispatch_fire : PendingFire → AlertEngine B S → AlertEngine B S × List Effect
  dispatch_fire pf e =
      if is_triaged pf.ev.severity
      then (e, triage_fire pf.ev pf.key ∷ [])
      else (mark_posted (pf.key ∷ []) e, nudge pf.ev "fired" ∷ [])

  pub dispatch_group : List PendingFire → String → AlertEngine B S → AlertEngine B S × List Effect
  unfolding max_sev
  dispatch_group g title e =
      let sev = max_sev g sev_info in
      if is_triaged sev
      then (e, triage_group g sev title ∷ [])
      else (mark_posted (map (λ pf. pf.key) g) e, group_card g sev title ∷ [])

-- The key by which first fires are gathered.
pub group_of : PendingFire → String
group_of pf =
    if str_eq pf.ev.group_key "" then text_append "rule:" pf.ev.rule_id else pf.ev.group_key

-- `byKey[k] = append(byKey[k], pf)`, with the keys in the order of their first fire.
pub add_to_group : PendingFire → Dict (List PendingFire) → Dict (List PendingFire)
unfolding group_of
add_to_group pf [] = (group_of pf, pf ∷ []) ∷ []
add_to_group pf ((k, g) ∷ m) =
    if str_eq k (group_of pf) then (k, g ++ pf ∷ []) ∷ m else (k, g) ∷ add_to_group pf m

pub group_fires : List PendingFire → Dict (List PendingFire) → Dict (List PendingFire)
unfolding add_to_group
group_fires [] m = m
group_fires (pf ∷ fires) m = group_fires fires (add_to_group pf m)

pub group_title : PendingFire → List PendingFire → String
group_title first g =
    if all (λ pf. str_eq pf.ev.rule_id first.ev.rule_id) g
    then first.ev.title
    else text_append "关联告警 · " (if str_eq first.ev.group_key "" then "相关告警" else first.ev.group_key)

module _ {B S : Type 0} where
  pub dispatch_one : List PendingFire → AlertEngine B S → AlertEngine B S × List Effect
  unfolding dispatch_fire dispatch_group group_title
  dispatch_one [] e = (e, [])
  dispatch_one (pf ∷ []) e = dispatch_fire pf e
  dispatch_one (pf ∷ pf' ∷ g) e = dispatch_group (pf ∷ pf' ∷ g) (group_title pf (pf ∷ pf' ∷ g)) e

  pub dispatch_all : Dict (List PendingFire) → AlertEngine B S → AlertEngine B S × List Effect
  unfolding dispatch_one
  dispatch_all [] e = (e, [])
  dispatch_all ((k, g) ∷ m) e =
      let (e', now_sent) = dispatch_one g e in
      let (e'', later) = dispatch_all m e' in (e'', now_sent ++ later)

  pub flush_fires : List PendingFire → AlertEngine B S → AlertEngine B S × List Effect
  unfolding dispatch_all group_fires dispatch_group
  flush_fires fires e =
      if leb (length fires) 0
      then (e, [])
      else if leb alert_storm_threshold (length fires)
      then dispatch_group fires (text_append "告警风暴 · " (text_append (itoa (length fires)) " 条同时触发"))
          e
      else dispatch_all (group_fires fires []) e
