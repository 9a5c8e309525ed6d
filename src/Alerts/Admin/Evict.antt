-- ===== src/Alerts/Admin/Evict.antt =====
-- The eviction of a node, and what an acknowledgement stops.
use ncn_platform.Base.{
  ◌≡◌, refl, sym, ◌∙◌, ◌&&◌, eq_iff, ◌⊎◌, inl, inr, true, false, [], ◌∷◌, Option, none, some,
  String, str_eq, arith, if◌then◌else◌, Bool-cases,
}
use ncn_platform.Base.Dict.{Dict, lookup, delete, lookup-delete}
use ncn_platform.Alerts.Event.{AlertEvent, AlertEngine}
use ncn_platform.Alerts.Admin.{belongs, evict_loop, evict_node}

-- What is left under a key: nothing, or the entry that was there, which does not belong.
abbrev Left : String → String → Dict AlertEvent → Option AlertEvent → Option AlertEvent → Type 0
Left id k m before now =
    (now ≡ none)
    ⊎ ((now ≡ before) × ((ev : AlertEvent) → lookup k m ≡ some ev → belongs id (k, ev) ≡ false))

lookup_nil : (k : String) (ev : AlertEvent) → lookup {V = AlertEvent} k [] ≡ some ev → ⊥
unfolding lookup
lookup_nil k ev h = cc

lookup_cons :
    (k j : String) (w ev : AlertEvent) (m : Dict AlertEvent)
    → lookup k ((j, w) ∷ m) ≡ some ev
    → (if str_eq j k then some w else lookup k m) ≡ some ev
unfolding lookup
lookup_cons k j w ev m h = h

same_entry :
    (id k j : String) (w ev : AlertEvent)
    → str_eq j k ≡ true
    → (belongs id (j, w) && str_eq j k) ≡ false
    → some w ≡ some ev
    → belongs id (k, ev) ≡ false
same_entry id k j w ev t b h = ground (arith, eq_iff j k)

Left-step :
    (id k j : String) (w : AlertEvent) (m : Dict AlertEvent) (before mid now : Option AlertEvent)
    → mid ≡ (if belongs id (j, w) && str_eq j k then none else before)
    → Left id k m mid now
    → Left id k ((j, w) ∷ m) before now
Left-step id k j w m before mid now e (inl gone) = inl gone
Left-step id k j w m before mid now e (inr (same, f)) =
    elim (Bool-cases (belongs id (j, w) && str_eq j k)) [
      | inl b ↦ inl (same ∙ e ∙ rw b refl)
      | inr b ↦ inr (same ∙ e ∙ rw b refl, (λ ev h. kept ev b h))
    ]
  where
    kept :
        (ev : AlertEvent)
        → (belongs id (j, w) && str_eq j k) ≡ false
        → lookup k ((j, w) ∷ m) ≡ some ev
        → belongs id (k, ev) ≡ false
    kept ev b h = elim (Bool-cases (str_eq j k)) [
      | inl t ↦ same_entry id k j w ev t b (rw t at (lookup_cons k j w ev m h))
      | inr t ↦ f ev (rw t at (lookup_cons k j w ev m h))
    ]

module _ {B S : Type 0} where
  deleted :
      (id k j : String) (w : AlertEvent) (e : AlertEngine B S)
      → lookup k
          (if belongs id (j, w)
            then record e { active = delete j e.active; last_tg_fire = delete j e.last_tg_fire }
            else e).active
        ≡ (if belongs id (j, w) && str_eq j k then none else lookup k e.active)
  deleted id k j w e = ground (arith, lookup-delete j k e.active)

  evict_loop-Left :
      (id k : String) (m : Dict AlertEvent) (e : AlertEngine B S)
      → Left id k m (lookup k e.active) (lookup k (evict_loop id m e).active)
  unfolding evict_loop
  evict_loop-Left id k [] e = inr (refl, (λ ev h. absurd (lookup_nil k ev h)))
  evict_loop-Left id k ((j, w) ∷ m) e =
      let e1 =
        if belongs id (j, w)
        then record e { active = delete j e.active; last_tg_fire = delete j e.last_tg_fire }
        else e in
      Left-step id k j w m (lookup k e.active) (lookup k e1.active)
        (lookup k (evict_loop id m e1).active) (deleted id k j w e) (evict_loop-Left id k m e1)

  -- After the eviction of a node no alert is active that carries the node's ID or stands under a
  -- key of the node; an alert that is still active was active before.
  pub evict_node_lem :
      (id k : String) (e : AlertEngine B S) (ev : AlertEvent)
      → lookup k (evict_node id e).active ≡ some ev
      → (lookup k e.active ≡ some ev) × (belongs id (k, ev) ≡ false)
  unfolding evict_node
  evict_node_lem id k e ev h = elim (evict_loop-Left id k e.active e) [
    | inl gone ↦ cc
    | inr (same, f) ↦ (sym same ∙ h, f ev (sym same ∙ h))
  ]
