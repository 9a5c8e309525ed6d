-- ===== src/Nodes/Registry/Refinement.antt =====
-- The registry as a finite map from IDs to records.
use ncn_platform.Base.{
  ℕ, Bool, true, is_some, List, Option, none, some, String, str_eq, ◌≡◌, refl, ◌∙◌, arith,
  if◌then◌else◌, eq_iff, if_cases,
}
use ncn_platform.Base.Keyed.{
  has, find, Distinct, find-has, find-append, find-put, find-drop_first, find-key, not-has-find,
  Distinct-append, put-Distinct, drop_first-Distinct,
}
use ncn_platform.Nodes.Record.{NodeRecord, NodePatch, patch_node}
use ncn_platform.Nodes.Registry.{
  record_id, Answer, change_found, get, add, update, set_status, remove,
}

-- A call of one of the four operations that change the registry.
pub data NodeCall (F : Type 0) : Type 0 where
  call_add : NodeRecord F → NodeCall F
  call_update : String → NodePatch F → NodeCall F
  call_set_status : String → String → NodeCall F
  call_remove : String → NodeCall F

abbrev map_at {ℓ} : {A : Type ℓ} → Bool → (A → A) → Option A → Option A
map_at true f (some a) = some (f a)
map_at _ f o = o

module _ {F : Type 0} (upper : String → String) (now : ℕ) (persisted : Bool) where
  -- The records after a call.
  unfoldable pub after_call : NodeCall F → List (NodeRecord F) → List (NodeRecord F)
  after_call (call_add r) recs = (add persisted r recs).0
  after_call (call_update id p) recs = (update upper now persisted id p recs).0
  after_call (call_set_status id status) recs = (set_status now persisted id status recs).0
  after_call (call_remove id) recs = (remove persisted id recs).0

  -- What a call promises of the map from IDs to records.
  pub map_after : NodeCall F → (String → Option (NodeRecord F)) → String → Option (NodeRecord F)
  map_after (call_add r) m id =
      if is_some (m r.id) then m id else if str_eq r.id id then some r else m id
  map_after (call_update k p) m id =
      map_at (str_eq k id) (λ r. record (patch_node upper p r) { updated_at = now }) (m id)
  map_after (call_set_status k status) m id =
      map_at (str_eq k id) (λ r. record r { status = status; updated_at = now }) (m id)
  map_after (call_remove k) m id = if str_eq k id then none else m id

  change_found-find :
      (k id : String) (f : NodeRecord F → NodeRecord F) (o : Option (NodeRecord F))
      (recs : List (NodeRecord F))
      → ((r : NodeRecord F) → (f r).id ≡ r.id)
      → find record_id k recs ≡ o
      → find record_id id (change_found persisted k f o recs).0
        ≡ map_at (str_eq k id) f (find record_id id recs)
  unfolding change_found
  change_found-find k id f none recs i e = ground (arith, eq_iff k id)
  change_found-find k id f (some r) recs i e = ground (
    arith,
    eq_iff k id,
    find-put record_id k id (f r) recs (i r ∙ find-key record_id k recs r e),
    find-has record_id k recs,
  )

  change_found-Distinct :
      (k : String) (f : NodeRecord F → NodeRecord F) (o : Option (NodeRecord F))
      (recs : List (NodeRecord F))
      → ((r : NodeRecord F) → (f r).id ≡ r.id)
      → find record_id k recs ≡ o
      → Distinct record_id recs
      → Distinct record_id (change_found persisted k f o recs).0
  unfolding change_found
  change_found-Distinct k f none recs i e d = d
  change_found-Distinct k f (some r) recs i e d =
      put-Distinct record_id k (f r) recs (i r ∙ find-key record_id k recs r e) d

  -- No operation, persisted or not, makes two records of one ID.
  pub after_call-Distinct :
      (c : NodeCall F) (recs : List (NodeRecord F))
      → Distinct record_id recs
      → Distinct record_id (after_call c recs)
  unfolding after_call add update set_status remove patch_node
  after_call-Distinct (call_add r) recs d =
      if_cases (λ (x : List (NodeRecord F) × Answer (Unit {0})). Distinct record_id x.0)
        (has record_id r.id recs) _ _ (λ _. d) (λ h. Distinct-append record_id recs r h d)
  after_call-Distinct (call_update k p) recs d =
      change_found-Distinct k _ (find record_id k recs) recs (λ r. refl) refl d
  after_call-Distinct (call_set_status k status) recs d =
      change_found-Distinct k _ (find record_id k recs) recs (λ r. refl) refl d
  after_call-Distinct (call_remove k) recs d =
      if_cases (λ (x : List (NodeRecord F) × Answer (Unit {0})). Distinct record_id x.0)
        (has record_id k recs) _ _ (λ _. drop_first-Distinct record_id k recs d) (λ _. d)

  -- With distinct IDs, `get` after an operation is what the operation promises of the map from IDs
  -- to records: an added record is found unless its ID was taken, an update or a new status changes
  -- the record of that ID alone, and a removed ID is found no more.
  pub get-after_call :
      (c : NodeCall F) (recs : List (NodeRecord F)) (id : String)
      → Distinct record_id recs
      → get id (after_call c recs) ≡ map_after c (λ k. get k recs) id
  unfolding after_call map_after get add update set_status remove patch_node
  get-after_call (call_add r) recs id d = ground (
    arith,
    find-has record_id r.id recs,
    find-append record_id id recs r,
    eq_iff r.id id,
    not-has-find record_id id recs,
  )
  get-after_call (call_update k p) recs id d =
      change_found-find k id _ (find record_id k recs) recs (λ r. refl) refl
  get-after_call (call_set_status k status) recs id d =
      change_found-find k id _ (find record_id k recs) recs (λ r. refl) refl
  get-after_call (call_remove k) recs id d =
      ground
        (arith, find-drop_first record_id k id recs d, eq_iff k id, not-has-find record_id id recs)
