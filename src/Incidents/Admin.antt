-- ===== src/Incidents/Admin.antt =====
-- core-console/backend/incidents.go: the requests of the administrators. A new ID and the clock are
-- arguments; the paths are decoded, and an empty ID or one with a slash is refused before.
pub mod Resolved
use ncn_platform.Base.{
  ℕ, Bool, not, List, [], ◌∷◌, ◌++◌, Option, none, some, String, str_eq, if◌then◌else◌, trim_space,
  ◌&&◌,
}
use ncn_platform.Base.Keyed.{find, put, drop_first}
use ncn_platform.Incidents.{
  Incident, status_investigating, status_resolved, severity_minor, is_valid_incident_status,
  is_valid_incident_severity, incident_id,
}

pub data IncidentAnswer : Type 0 where
  title_required body_required message_required invalid_status invalid_severity no_incident
        not_written incident_done :
      IncidentAnswer

abbrev pub incident_written : Bool → IncidentAnswer
incident_written persisted = if persisted then incident_done else not_written

-- `ResolvedAt` for a status that is set now.
abbrev pub resolved_by : ℕ → String → Option ℕ
resolved_by now status = if str_eq status status_resolved then some now else none

pub record CreateIncident : Type 0 where
  pub title : String
  pub status : String
  pub severity : String
  pub affected_pops : List String
  pub body : String

abbrev or_default : String → String → String
or_default s default = if str_eq s "" then default else s

create_valid :
    Bool → ℕ → String → String → CreateIncident → List Incident → List Incident × IncidentAnswer
create_valid persisted now id operator r incidents = (
  incidents
      ++ record {
        id = id;
        title = r.title;
        status = r.status;
        severity = r.severity;
        affected_pops = r.affected_pops;
        body = r.body;
        updates = [];
        created_by = operator;
        created_at = now;
        updated_at = now;
        resolved_at = resolved_by now r.status;
      }
        ∷ [],
  incident_written persisted,
)

check_create :
    Bool → ℕ → String → String → CreateIncident → List Incident → List Incident × IncidentAnswer
unfolding create_valid
check_create persisted now id operator r incidents =
    if str_eq r.title ""
    then (incidents, title_required)
    else if str_eq r.body ""
    then (incidents, body_required)
    else if not (is_valid_incident_status r.status)
    then (incidents, invalid_status)
    else if not (is_valid_incident_severity r.severity)
    then (incidents, invalid_severity)
    else create_valid persisted now id operator r incidents

-- The trimmed texts, and the defaults of the status and the severity.
abbrev with_defaults : CreateIncident → CreateIncident
with_defaults r = record r {
  title = trim_space r.title;
  body = trim_space r.body;
  status = or_default r.status status_investigating;
  severity = or_default r.severity severity_minor;
}

-- `handleIncidentsAdminCreate` by an operator, with a new ID.
unfoldable pub incident_create :
    Bool
    → ℕ
    → (id operator : String) → CreateIncident
    → List Incident
    → List Incident × IncidentAnswer
unfolding check_create
incident_create persisted now id operator r incidents =
    check_create persisted now id operator (with_defaults r) incidents

pub record PatchIncident : Type 0 where
  pub title : Option String
  pub status : Option String
  pub severity : Option String
  pub affected_pops : Option (List String)

-- The steps of a change: each takes the incident as the ones before left it, and stops the change with
-- an error or goes on.
abbrev Mutation : Type 0
Mutation = Incident × Option IncidentAnswer

set_title : Option String → Incident → Mutation
set_title none i = (i, none)
set_title (some t) i =
    if str_eq (trim_space t) ""
    then (i, some title_required)
    else (record i { title = trim_space t }, none)

set_status : ℕ → Option String → Incident → Mutation
set_status now none i = (i, none)
set_status now (some s) i =
    if not (is_valid_incident_status s)
    then (i, some invalid_status)
    else (record i { status = s; resolved_at = resolved_by now s }, none)

set_severity : Option String → Incident → Mutation
set_severity none i = (i, none)
set_severity (some s) i =
    if not (is_valid_incident_severity s)
    then (i, some invalid_severity)
    else (record i { severity = s }, none)

set_pops : Option (List String) → Incident → Mutation
set_pops none i = (i, none)
set_pops (some pops) i = (record i { affected_pops = pops }, none)

and_then : (Incident → Mutation) → Mutation → Mutation
and_then f (i, some e) = (i, some e)
and_then f (i, none) = f i

unfoldable pub apply_patch : ℕ → PatchIncident → Incident → Mutation
unfolding and_then set_title set_status set_severity set_pops
apply_patch now p i =
    and_then (set_pops p.affected_pops) (
      and_then (set_severity p.severity) (and_then (set_status now p.status) (set_title p.title i)))

-- `update`: the change is made in place, so an incident whose change stopped halfway keeps the half.
store_mutation : Bool → ℕ → String → Mutation → List Incident → List Incident × IncidentAnswer
store_mutation persisted now id (i, some e) incidents = (put incident_id id i incidents, e)
store_mutation persisted now id (i, none) incidents =
    (put incident_id id (record i { updated_at = now }) incidents, incident_written persisted)

update_found :
    Bool
    → ℕ
    → String
    → (Incident → Mutation)
    → Option Incident
    → List Incident
    → List Incident × IncidentAnswer
unfolding store_mutation
update_found persisted now id f none incidents = (incidents, no_incident)
update_found persisted now id f (some i) incidents = store_mutation persisted now id (f i) incidents

-- `handleIncidentsAdminPatch`.
unfoldable pub incident_patch :
    Bool → ℕ → String → PatchIncident → List Incident → List Incident × IncidentAnswer
unfolding update_found
incident_patch persisted now id p incidents =
    update_found persisted now id (apply_patch now p) (find incident_id id incidents) incidents

append_update : ℕ → String → String → String → Incident → Mutation
append_update now operator message status i =
    let said = record i {
      updates =
          i.updates
          ++ record { ts = now; status = status; message = message; author = operator } ∷ [];
    } in
    (
      (if str_eq status ""
          then said
          else record said { status = status; resolved_at = resolved_by now status }),
      none,
    )

-- `handleIncidentsAdminAddUpdate` by an operator.
unfoldable pub incident_add_update :
    Bool
    → ℕ
    → (id operator message status : String) → List Incident
    → List Incident × IncidentAnswer
unfolding update_found append_update
incident_add_update persisted now id operator message status incidents =
    if str_eq (trim_space message) ""
    then (incidents, message_required)
    else if not (str_eq status "") && not (is_valid_incident_status status)
    then (incidents, invalid_status)
    else update_found persisted now id (append_update now operator (trim_space message) status)
        (find incident_id id incidents) incidents

delete_found : Bool → String → Option Incident → List Incident → List Incident × IncidentAnswer
delete_found persisted id none incidents = (incidents, no_incident)
delete_found persisted id (some i) incidents =
    (drop_first incident_id id incidents, incident_written persisted)

-- `handleIncidentsAdminDelete`.
unfoldable pub incident_delete : Bool → String → List Incident → List Incident × IncidentAnswer
unfolding delete_found
incident_delete persisted id incidents =
    delete_found persisted id (find incident_id id incidents) incidents

pub data IncidentCall : Type 0 where
  call_create : (id operator : String) → CreateIncident → IncidentCall
  call_patch : String → PatchIncident → IncidentCall
  call_add_update : (id operator message status : String) → IncidentCall
  call_delete : String → IncidentCall

unfoldable pub after_incident_call : Bool → ℕ → IncidentCall → List Incident → List Incident
after_incident_call p now (call_create id operator r) l = (incident_create p now id operator r l).0
after_incident_call p now (call_patch id r) l = (incident_patch p now id r l).0
after_incident_call p now (call_add_update id operator message status) l =
    (incident_add_update p now id operator message status l).0
after_incident_call p now (call_delete id) l = (incident_delete p id l).0
