-- ===== src/Incidents.antt =====
-- core-console/backend/incidents.go: the incidents of the status page. Whether `persist` succeeds is an
-- argument; where it fails the change stays in memory. Times are nanoseconds.
pub mod Admin
mod Tests
use ncn_platform.Base.{
  ℕ, ◌+◌, Bool, true, false, ltb, ◌||◌, List, [], ◌∷◌, Option, none, some, String, str_eq,
  if◌then◌else◌,
}
use ncn_platform.Base.Keyed.{find}

-- `incidentPublicWindow`: 30 days.
abbrev pub public_window : ℕ
public_window = 2592000000000000

abbrev pub status_investigating : String
status_investigating = "investigating"

abbrev pub status_identified : String
status_identified = "identified"

abbrev pub status_monitoring : String
status_monitoring = "monitoring"

abbrev pub status_resolved : String
status_resolved = "resolved"

abbrev pub severity_minor : String
severity_minor = "minor"

abbrev pub severity_major : String
severity_major = "major"

abbrev pub severity_critical : String
severity_critical = "critical"

pub record IncidentUpdate : Type 0 where
  pub ts : ℕ
  pub status : String
  pub message : String
  pub author : String

pub record Incident : Type 0 where
  pub id : String
  pub title : String
  pub status : String
  pub severity : String
  pub affected_pops : List String
  pub body : String
  pub updates : List IncidentUpdate
  pub created_by : String
  pub created_at : ℕ
  pub updated_at : ℕ
  pub resolved_at : Option ℕ

pub record IncidentUpdatePublic : Type 0 where
  pub ts : ℕ
  pub status : String
  pub message : String

pub record IncidentPublic : Type 0 where
  pub id : String
  pub title : String
  pub status : String
  pub severity : String
  pub affected_pops : List String
  pub body : String
  pub updates : List IncidentUpdatePublic
  pub created_at : ℕ
  pub updated_at : ℕ
  pub resolved_at : Option ℕ

unfoldable pub is_valid_incident_status : String → Bool
is_valid_incident_status s =
    (str_eq s status_investigating || str_eq s status_identified)
    || (str_eq s status_monitoring || str_eq s status_resolved)

unfoldable pub is_valid_incident_severity : String → Bool
is_valid_incident_severity s =
    str_eq s severity_minor || (str_eq s severity_major || str_eq s severity_critical)

abbrev pub incident_id : Incident → String
incident_id i = i.id

pub find_by_id : String → List Incident → Option Incident
find_by_id id incidents = find incident_id id incidents

-- `sort.Slice` by `CreatedAt.After`. Of two that were created at one time it leaves the order open.
insert_newest : Incident → List Incident → List Incident
insert_newest i [] = i ∷ []
insert_newest i (j ∷ rest) =
    if ltb i.created_at j.created_at then j ∷ insert_newest i rest else i ∷ j ∷ rest

unfoldable pub list_snapshot : List Incident → List Incident
unfolding insert_newest
list_snapshot [] = []
list_snapshot (i ∷ rest) = insert_newest i (list_snapshot rest)

public_updates : List IncidentUpdate → List IncidentUpdatePublic
public_updates [] = []
public_updates (u ∷ us) =
    record { ts = u.ts; status = u.status; message = u.message } ∷ public_updates us

pub public_view : Incident → IncidentPublic
unfolding public_updates
public_view i = record {
  id = i.id;
  title = i.title;
  status = i.status;
  severity = i.severity;
  affected_pops = i.affected_pops;
  body = i.body;
  updates = public_updates i.updates;
  created_at = i.created_at;
  updated_at = i.updated_at;
  resolved_at = i.resolved_at;
}

public_from : ℕ → List Incident → List IncidentPublic
public_from now [] = []
public_from now (i ∷ rest) =
    let later = public_from now rest in
    if ltb (i.created_at + public_window) now then later else public_view i ∷ later

-- `handleIncidentsPublic`.
unfoldable pub incidents_public : ℕ → List Incident → List IncidentPublic
unfolding public_from
incidents_public now incidents = public_from now (list_snapshot incidents)
