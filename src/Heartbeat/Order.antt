-- ===== src/Heartbeat/Order.antt =====
-- core-console/backend/heartbeat.go: the order of display against the components.
use mathlib.Core.Option.{some-injective}
use ncn_platform.Base.{
  All, subst, ℕ, Bool, true, false, not, ◌&&◌, List, [], ◌∷◌, ◌++◌, map, Option, none, some, String,
  str_eq, ◌≡◌, refl, sym, ap, ◌∙◌, inl, inr, if◌then◌else◌, Bool-cases, eq_iff, arith, is_some,
}
use ncn_platform.Base.Dict.{Dict, lookup, insert, lookup-insert}
use ncn_platform.Base.Keyed.{has, Distinct, Distinct-append, has-append}
use ncn_platform.Heartbeat.{
  hb_status_unknown, merge, merge_found, define_all, fresh_store, merged_store, store_found,
  load_saved, DbLoad, has_database, new_heartbeat_store, status_http_checks, website_component,
  HbComponent, HeartbeatStore, Reading, Floats, FleetEntry, PopRead, with_reading, record_found,
  record_reading, record_all, record_pops, sample, define, ensure_pop, ensure_absent, pop_component,
  pop_reads,
}

abbrev whole : String → String
whole x = x

-- No name stands twice in the order, and the names in it are those of the components.
pub record WellFormed {F : Type 0} (s : HeartbeatStore F) : Type 0 where
  pub distinct : Distinct whole s.order
  pub listed : (name : String) → is_some (lookup name s.components) ≡ has whole name s.order

module _ {F : Type 0} (fl : Floats F) where
  define-WellFormed :
      (c : HbComponent F) (s : HeartbeatStore F)
      → has whole c.name s.order ≡ false
      → WellFormed s
      → WellFormed (define fl c s)
  unfolding define
  define-WellFormed c s e w = record {
    distinct = Distinct-append whole s.order c.name e w.distinct;
    listed = λ name. ground (
      arith,
      lookup-insert c.name name (record c { last_status = hb_status_unknown }) s.components,
      has-append whole name s.order c.name,
      w.listed name,
    );
  }

  ensure-WellFormed :
      (id : String) (o : Option (HbComponent F)) (s : HeartbeatStore F)
      → lookup id s.components ≡ o
      → WellFormed s
      → WellFormed (ensure_absent fl id o s)
  unfolding ensure_absent
  ensure-WellFormed id none s e w =
      define-WellFormed (pop_component fl id) s (sym (w.listed id) ∙ ap is_some e) w
  ensure-WellFormed id (some c) s e w = w

  ensure_pop-WellFormed :
      (id : String) (s : HeartbeatStore F) → WellFormed s → WellFormed (ensure_pop fl id s)
  unfolding ensure_pop
  ensure_pop-WellFormed id s w = ensure-WellFormed id (lookup id s.components) s refl w

-- A component is changed and the names stay.
is_some-insert :
    {A : Type 0} (at name : String) (x y : A) (cs : Dict A)
    → lookup at cs ≡ some x
    → is_some (lookup name (insert at y cs)) ≡ is_some (lookup name cs)
is_some-insert at name x y cs e = elim (Bool-cases (str_eq at name)) [
  | inl t ↦
      ap is_some (lookup-insert at name y cs)
      ∙ ap (λ b. is_some (if b then some y else lookup name cs)) t
      ∙ sym (ap is_some (sym (ap (λ key. lookup key cs) ((eq_iff at name).0 t)) ∙ e))
  | inr t ↦
      ap is_some (lookup-insert at name y cs)
      ∙ ap (λ b. is_some (if b then some y else lookup name cs)) t
]

module _ {F : Type 0} where
  WellFormed-same :
      (s : HeartbeatStore F) (cs : Dict (HbComponent F))
      → ((name : String) → is_some (lookup name cs) ≡ is_some (lookup name s.components))
      → WellFormed s
      → WellFormed (record s { components = cs })
  WellFormed-same s cs e w = record {
    distinct = w.distinct;
    listed = λ name. e name ∙ w.listed name;
  }

module _ {F : Type 0} (format : ℕ → String) where
  is_some-record_found :
      (name : String) (r : Reading F) (o : Option (HbComponent F)) (cs : Dict (HbComponent F))
      → lookup r.name cs ≡ o
      → is_some (lookup name (record_found format r o cs)) ≡ is_some (lookup name cs)
  unfolding record_found
  is_some-record_found name r none cs e = refl
  is_some-record_found name r (some c) cs e =
      is_some-insert r.name name c (with_reading format r c) cs e

  record_reading-WellFormed :
      (r : Reading F) (s : HeartbeatStore F) → WellFormed s → WellFormed (record_reading format r s)
  unfolding record_reading
  record_reading-WellFormed r s w =
      WellFormed-same s (record_found format r (lookup r.name s.components) s.components)
        (λ name. is_some-record_found name r (lookup r.name s.components) s.components refl) w

  record_all-WellFormed :
      (rs : List (Reading F)) (s : HeartbeatStore F)
      → WellFormed s
      → WellFormed (record_all format rs s)
  unfolding record_all
  record_all-WellFormed [] s w = w
  record_all-WellFormed (r ∷ rs) s w =
      record_all-WellFormed rs (record_reading format r s) (record_reading-WellFormed r s w)

  record_pops-WellFormed :
      (fl : Floats F) (now : ℕ) (ps : List (PopRead F)) (s : HeartbeatStore F)
      → WellFormed s
      → WellFormed (record_pops format fl now ps s)
  unfolding record_pops
  record_pops-WellFormed fl now [] s w = w
  record_pops-WellFormed fl now (p ∷ ps) s w =
      record_pops-WellFormed fl now ps
        (record_reading format (record { at = now; name = p.id; up = p.ok; latency = p.lat })
          (ensure_pop fl p.id s))
        (record_reading-WellFormed (record { at = now; name = p.id; up = p.ok; latency = p.lat })
          (ensure_pop fl p.id s) (ensure_pop-WellFormed fl p.id s w))

  -- The samples in their order, each with its time, the fleet and what the public addresses answered.
  unfoldable pub run_samples :
      Floats F
      → List (ℕ × (List (FleetEntry F) × List (Reading F)))
      → HeartbeatStore F
      → HeartbeatStore F
  run_samples fl [] s = s
  run_samples fl ((now, (nodes, probes)) ∷ samples) s =
      run_samples fl samples (sample format fl now nodes probes s)

  run_samples-WellFormed :
      (fl : Floats F) (samples : List (ℕ × (List (FleetEntry F) × List (Reading F))))
      (s : HeartbeatStore F)
      → WellFormed s
      → WellFormed (run_samples fl samples s)
  unfolding run_samples sample
  run_samples-WellFormed fl [] s w = w
  run_samples-WellFormed fl ((now, (nodes, probes)) ∷ samples) s w =
      run_samples-WellFormed fl samples (sample format fl now nodes probes s) (
        record_all-WellFormed probes (record_pops format fl now (pop_reads fl nodes) s)
          (record_pops-WellFormed fl now (pop_reads fl nodes) s w))

module _ {F : Type 0} (fl : Floats F) where
  abbrev component_names : List (HbComponent F) → List String
  component_names cs = map (λ c. c.name) cs

  still_new :
      (c : HbComponent F) (cs : List (HbComponent F)) (order : List String)
      → has whole c.name (component_names cs) ≡ false
      → All (λ d. has whole d.name order ≡ false) cs
      → All (λ d. has whole d.name (order ++ c.name ∷ []) ≡ false) cs
  unfolding has
  still_new c [] order h a = tt
  still_new c (d ∷ ds) order h a = (
    ground
        (arith, has-append whole d.name order c.name, eq_iff c.name d.name, eq_iff d.name c.name),
    still_new c ds order (ground arith) a.1,
  )

  define_all-WellFormed :
      (cs : List (HbComponent F)) (s : HeartbeatStore F)
      → Distinct whole (component_names cs)
      → All (λ d. has whole d.name s.order ≡ false) cs
      → WellFormed s
      → WellFormed (define_all fl cs s)
  unfolding define_all Distinct define
  define_all-WellFormed [] s d a w = w
  define_all-WellFormed (c ∷ cs) s d a w =
      define_all-WellFormed cs (define fl c s) d.1 (still_new c cs s.order d.0 a.1)
        (define-WellFormed fl c s a.0 w)

  is_some-merge_found :
      (at name : String) (saved : HbComponent F) (o : Option (HbComponent F))
      (cs : Dict (HbComponent F))
      → lookup at cs ≡ o
      → is_some (lookup name (merge_found fl at saved o cs)) ≡ is_some (lookup name cs)
  unfolding merge_found
  is_some-merge_found at name saved none cs e = refl
  is_some-merge_found at name saved (some c) cs e = is_some-insert at name c _ cs e

  is_some-merge :
      (name : String) (saved cs : Dict (HbComponent F))
      → is_some (lookup name (merge fl saved cs)) ≡ is_some (lookup name cs)
  unfolding merge
  is_some-merge name [] cs = refl
  is_some-merge name ((at, c) ∷ rest) cs =
      is_some-merge name rest (merge_found fl at c (lookup at cs) cs)
      ∙ is_some-merge_found at name c (lookup at cs) cs refl

  none_listed : (cs : List (HbComponent F)) → All (λ d. has whole d.name [] ≡ false) cs
  unfolding has
  none_listed [] = tt
  none_listed (c ∷ cs) = (refl, none_listed cs)

  nothing : HeartbeatStore F
  nothing = record { components = []; order = [] }

  nothing-WellFormed : WellFormed nothing
  unfolding nothing lookup has Distinct
  nothing-WellFormed = record { distinct = tt; listed = λ name. refl }

  component_names-defined :
      (nodes : List String)
      → component_names
          (map (pop_component fl) nodes ++ map (website_component fl) status_http_checks)
        ≡ nodes ++ map (λ c. c.name) status_http_checks
  unfolding status_http_checks
  component_names-defined [] = refl
  component_names-defined (n ∷ ns) = ap (λ l. n ∷ l) (component_names-defined ns)

  -- The IDs of the nodes are distinct, and none is the name of a public service.
  abbrev pub Named : List String → Type 0
  Named nodes = Distinct whole (nodes ++ map (λ c. c.name) status_http_checks)

  merged_store-WellFormed :
      (nodes : List String) (saved : Dict (HbComponent F))
      → Named nodes
      → WellFormed (merged_store fl nodes saved)
  unfolding merged_store fresh_store nothing
  merged_store-WellFormed nodes saved d =
      WellFormed-same (fresh_store fl nodes) (merge fl saved (fresh_store fl nodes).components)
        (λ name. is_some-merge name saved (fresh_store fl nodes).components)
        (define_all-WellFormed
          (map (pop_component fl) nodes ++ map (website_component fl) status_http_checks) nothing
          (subst (Distinct whole) (sym (component_names-defined nodes)) d)
          (none_listed
            (map (pop_component fl) nodes ++ map (website_component fl) status_http_checks))
          nothing-WellFormed)

  not-some : (s : HeartbeatStore F) → none ≡ some s → ⊥
  not-some s e = cc

  store_found-WellFormed :
      (has_db persisted : Bool) (nodes : List String) (o : Option (Dict (HbComponent F) × Bool))
      (s : HeartbeatStore F)
      → Named nodes
      → store_found fl has_db persisted nodes o ≡ some s
      → WellFormed s
  unfolding store_found
  store_found-WellFormed has_db persisted nodes none s d e = absurd (not-some s e)
  store_found-WellFormed has_db persisted nodes (some (saved, from_db)) s d e =
      elim (Bool-cases (has_db && (not from_db && not persisted))) [
        | inl t ↦ cc
        | inr t ↦
            subst WellFormed (some-injective (merged_store fl nodes saved) s (rw t at e))
              (merged_store-WellFormed nodes saved d)
      ]

  -- Where the IDs of the nodes are distinct and none is the name of a public service: whatever was saved
  -- when the store was made, and after any samples of any fleet, no name stands twice in the order of
  -- display, and the names in it are exactly those of the components.
  pub run_samples-new_heartbeat_store :
      (format : ℕ → String) (made persisted : Bool) (db : DbLoad F)
      (file : Option (Option (Dict (HbComponent F)))) (nodes : List String) (s : HeartbeatStore F)
      (samples : List (ℕ × (List (FleetEntry F) × List (Reading F))))
      → Named nodes
      → new_heartbeat_store fl made db file persisted nodes ≡ some s
      → WellFormed (run_samples format fl samples s)
  unfolding new_heartbeat_store
  run_samples-new_heartbeat_store format true persisted db file nodes s samples d e =
      run_samples-WellFormed format fl samples s
        (store_found-WellFormed (has_database db) persisted nodes (load_saved fl db file) s d e)
  run_samples-new_heartbeat_store format false persisted db file nodes s samples d e =
      absurd (not-some s e)
