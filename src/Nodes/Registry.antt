-- ===== src/Nodes/Registry.antt =====
-- core-console/backend/noderegistry.go: the operations of `nodeRegistry`. Whether `persistLocked`
-- succeeds is an argument; where it fails the change stays in memory and an error is returned.
pub mod Refinement
use ncn_platform.Base.{
  ℕ, Bool, true, false, ◌&&◌, List, [], ◌∷◌, ◌++◌, Option, none, some, String, str_eq,
  if◌then◌else◌, ℤ, pos, gtb_ℤ,
}
use ncn_platform.Base.Keyed.{has, find, put, drop_first}
use ncn_platform.Nodes.Record.{
  NodeRecord, FleetNode, NodePatch, is_active, to_fleet_node, patch_node,
}

abbrev pub record_id : {F : Type 0} → NodeRecord F → String
record_id r = r.id

pub data Answer (A : Type 0) : Type 0 where
  already_exists : Answer A
  not_found : Answer A
  not_persisted : Answer A
  answer : A → Answer A

abbrev persist : {A : Type 0} → Bool → A → Answer A
persist true a = answer a
persist false a = not_persisted

module _ {F : Type 0} where
  pub list_snapshot : List (NodeRecord F) → List (NodeRecord F)
  list_snapshot recs = recs

  pub active_fleet_nodes : List (NodeRecord F) → List (FleetNode F)
  active_fleet_nodes [] = []
  active_fleet_nodes (r ∷ recs) =
      if is_active r then to_fleet_node r ∷ active_fleet_nodes recs else active_fleet_nodes recs

  pub get : String → List (NodeRecord F) → Option (NodeRecord F)
  get id recs = find record_id id recs

  pub add : Bool → NodeRecord F → List (NodeRecord F) → List (NodeRecord F) × Answer (Unit {0})
  add persisted r recs =
      if has record_id r.id recs
      then (recs, already_exists)
      else (recs ++ r ∷ [], persist persisted tt)

  change_found :
      Bool
      → String
      → (NodeRecord F → NodeRecord F)
      → Option (NodeRecord F)
      → List (NodeRecord F)
      → List (NodeRecord F) × Answer (NodeRecord F)
  change_found persisted id f none recs = (recs, not_found)
  change_found persisted id f (some r) recs = (put record_id id (f r) recs, persist persisted (f r))

  pub update :
      (String → String)
      → ℕ
      → Bool
      → String
      → NodePatch F
      → List (NodeRecord F)
      → List (NodeRecord F) × Answer (NodeRecord F)
  unfolding change_found
  update upper now persisted id p recs =
      change_found persisted id (λ r. record (patch_node upper p r) { updated_at = now })
        (find record_id id recs) recs

  pub set_status :
      ℕ → Bool → String → String → List (NodeRecord F) → List (NodeRecord F) × Answer (NodeRecord F)
  unfolding change_found
  set_status now persisted id status recs =
      change_found persisted id (λ r. record r { status = status; updated_at = now })
        (find record_id id recs) recs

  pub remove : Bool → String → List (NodeRecord F) → List (NodeRecord F) × Answer (Unit {0})
  remove persisted id recs =
      if has record_id id recs
      then (drop_first record_id id recs, persist persisted tt)
      else (recs, not_found)
