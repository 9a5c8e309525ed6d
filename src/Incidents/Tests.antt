-- ===== src/Incidents/Tests.antt =====
-- An incident that is opened, and patched with a severity that is none.
use ncn_platform.Base.{◌≡◌, refl, true, false, [], ◌∷◌, none, some, All}
use ncn_platform.Base.Keyed.{find, put}
use ncn_platform.Incidents.{
  Incident, incident_id, is_valid_incident_status, is_valid_incident_severity,
}
use ncn_platform.Incidents.Admin.{
  CreateIncident, invalid_severity, incident_patch, apply_patch, call_create, after_incident_call,
}
use ncn_platform.Incidents.Admin.Resolved.{Good, after_incident_call-Good}

abbrev opened : Incident
opened = record {
  id = "i1";
  title = "loss";
  status = "investigating";
  severity = "minor";
  affected_pops = [];
  body = "packets";
  updates = [];
  created_by = "ann";
  created_at = 5;
  updated_at = 5;
  resolved_at = none;
}

opened-Good : All Good (opened ∷ [])
unfolding is_valid_incident_status is_valid_incident_severity
opened-Good = ((refl, refl, refl), tt)

abbrev resolved_cut : CreateIncident
resolved_cut = record {
  title = "cut";
  status = "resolved";
  severity = "";
  affected_pops = [];
  body = "fibre";
}

after_incident_call-Good_example :
    All Good (after_incident_call false 9 (call_create "i2" "ann" resolved_cut) (opened ∷ []))
after_incident_call-Good_example =
    after_incident_call-Good false 9 (call_create "i2" "ann" resolved_cut) (opened ∷ []) opened-Good

-- A patch with a severity that is none is refused, and the status has changed all the same.
half_patched :
    incident_patch true 9 "i1"
      (record {
        title = none;
        status = some "resolved";
        severity = some "huge";
        affected_pops = none;
      })
      (opened ∷ [])
    ≡ (
      put incident_id "i1"
          (record opened { status = "resolved"; resolved_at = some 9 })
          (opened ∷ []),
      invalid_severity,
    )
unfolding incident_patch apply_patch find put is_valid_incident_status is_valid_incident_severity
half_patched = refl
