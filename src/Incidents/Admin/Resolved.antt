-- ===== src/Incidents/Admin/Resolved.antt =====
-- Every incident has a known status and severity, and a time of resolution exactly if it is resolved.
use ncn_platform.Base.{
  ℕ, Bool, true, false, not, List, Option, none, some, String, str_eq, ◌≡◌, refl, is_some, All,
  All-append, if_cases, arith, trim_space, ◌&&◌,
}
use ncn_platform.Base.Keyed.{find, put-All, drop_first-All, find-All}
use ncn_platform.Incidents.{
  Incident, status_resolved, is_valid_incident_status, is_valid_incident_severity, incident_id,
}
use ncn_platform.Incidents.Admin.{
  IncidentAnswer, resolved_by, CreateIncident, create_valid, check_create, with_defaults,
  incident_create, PatchIncident, Mutation, set_title, set_status, set_severity, set_pops, and_then,
  apply_patch, store_mutation, update_found, incident_patch, append_update, incident_add_update,
  delete_found, incident_delete, IncidentCall, call_create, call_patch, call_add_update,
  call_delete, after_incident_call,
}

abbrev pub Good : Incident → Type 0
Good i =
    (is_valid_incident_status i.status ≡ true)
    × (is_valid_incident_severity i.severity ≡ true)
    × (is_some i.resolved_at ≡ str_eq i.status status_resolved)

abbrev Kept : List Incident × IncidentAnswer → Type 0
Kept r = All Good r.0

resolved_by-some : (now : ℕ) (s : String) → is_some (resolved_by now s) ≡ str_eq s status_resolved
resolved_by-some now s = ground arith

check_create-Good :
    (p : Bool) (now : ℕ) (id operator : String) (r : CreateIncident) (l : List Incident)
    → All Good l
    → All Good (check_create p now id operator r l).0
unfolding check_create create_valid
check_create-Good p now id operator r l a =
    if_cases Kept (str_eq r.title "") _ _ (λ _. a)
      (λ _.
        if_cases Kept (str_eq r.body "") _ _ (λ _. a)
          (λ _.
            if_cases Kept (not (is_valid_incident_status r.status)) _ _ (λ _. a)
              (λ s.
                if_cases Kept (not (is_valid_incident_severity r.severity)) _ _ (λ _. a)
                  (λ v.
                    All-append Good l _ a
                      ((ground arith, ground arith, resolved_by-some now r.status), tt)))))

set_title-Good : (o : Option String) (i : Incident) → Good i → Good (set_title o i).0
unfolding set_title
set_title-Good none i g = g
set_title-Good (some t) i g =
    if_cases (λ (m : Mutation). Good m.0) (str_eq (trim_space t) "") _ _ (λ _. g) (λ _. g)

set_status-Good :
    (now : ℕ) (o : Option String) (i : Incident) → Good i → Good (set_status now o i).0
unfolding set_status
set_status-Good now none i g = g
set_status-Good now (some s) i g =
    if_cases (λ (m : Mutation). Good m.0) (not (is_valid_incident_status s)) _ _ (λ _. g)
      (λ h. (ground arith, g.1, resolved_by-some now s))

set_severity-Good : (o : Option String) (i : Incident) → Good i → Good (set_severity o i).0
unfolding set_severity
set_severity-Good none i g = g
set_severity-Good (some s) i g =
    if_cases (λ (m : Mutation). Good m.0) (not (is_valid_incident_severity s)) _ _ (λ _. g)
      (λ h. (g.0, ground arith, g.2))

set_pops-Good : (o : Option (List String)) (i : Incident) → Good i → Good (set_pops o i).0
unfolding set_pops
set_pops-Good none i g = g
set_pops-Good (some l) i g = g

and_then-Good :
    (f : Incident → Mutation) (m : Mutation)
    → ((i : Incident) → Good i → Good (f i).0)
    → Good m.0
    → Good (and_then f m).0
unfolding and_then
and_then-Good f (i, some e) h g = g
and_then-Good f (i, none) h g = h i g

apply_patch-Good :
    (now : ℕ) (p : PatchIncident) (i : Incident) → Good i → Good (apply_patch now p i).0
unfolding apply_patch
apply_patch-Good now p i g =
    and_then-Good (set_pops p.affected_pops) _ (set_pops-Good p.affected_pops) (
      and_then-Good (set_severity p.severity) _ (set_severity-Good p.severity) (
        and_then-Good (set_status now p.status) _ (set_status-Good now p.status)
          (set_title-Good p.title i g)))

store_mutation-Good :
    (p : Bool) (now : ℕ) (id : String) (m : Mutation) (l : List Incident)
    → Good m.0
    → All Good l
    → All Good (store_mutation p now id m l).0
unfolding store_mutation
store_mutation-Good p now id (i, some e) l g a = put-All incident_id Good id i l g a
store_mutation-Good p now id (i, none) l g a =
    put-All incident_id Good id (record i { updated_at = now }) l g a

update_found-Good :
    (p : Bool) (now : ℕ) (id : String) (f : Incident → Mutation) (o : Option Incident)
    (l : List Incident)
    → find incident_id id l ≡ o
    → ((i : Incident) → Good i → Good (f i).0)
    → All Good l
    → All Good (update_found p now id f o l).0
unfolding update_found
update_found-Good p now id f none l e h a = a
update_found-Good p now id f (some i) l e h a =
    store_mutation-Good p now id (f i) l (h i (find-All incident_id Good id l i a e)) a

append_update-Good :
    (now : ℕ) (operator message status : String)
    → (not (str_eq status "") && not (is_valid_incident_status status)) ≡ false
    → (i : Incident) → Good i
    → Good (append_update now operator message status i).0
unfolding append_update
append_update-Good now operator message status h i g =
    if_cases Good (str_eq status "") _ _ (λ _. g)
      (λ e. (ground arith, g.1, resolved_by-some now status))

delete_found-Good :
    (p : Bool) (id : String) (o : Option Incident) (l : List Incident)
    → All Good l
    → All Good (delete_found p id o l).0
unfolding delete_found
delete_found-Good p id none l a = a
delete_found-Good p id (some i) l a = drop_first-All incident_id Good id l a

-- Whatever an administrator asks for, and also where a change is refused halfway or cannot be written:
-- every incident keeps a known status and a known severity, and has a time of resolution exactly if its
-- status is resolved.
pub after_incident_call-Good :
    (p : Bool) (now : ℕ) (c : IncidentCall) (l : List Incident)
    → All Good l
    → All Good (after_incident_call p now c l)
unfolding after_incident_call incident_create incident_patch incident_add_update incident_delete
after_incident_call-Good p now (call_create id operator r) l a =
    check_create-Good p now id operator (with_defaults r) l a
after_incident_call-Good p now (call_patch id r) l a =
    update_found-Good p now id (apply_patch now r) (find incident_id id l) l refl
      (apply_patch-Good now r) a
after_incident_call-Good p now (call_add_update id operator message status) l a =
    if_cases Kept (str_eq (trim_space message) "") _ _ (λ _. a)
      (λ _.
        if_cases Kept (not (str_eq status "") && not (is_valid_incident_status status)) _ _ (λ _. a)
          (λ h.
            update_found-Good p now id (append_update now operator (trim_space message) status)
              (find incident_id id l) l refl
              (append_update-Good now operator (trim_space message) status h) a))
after_incident_call-Good p now (call_delete id) l a =
    delete_found-Good p id (find incident_id id l) l a
