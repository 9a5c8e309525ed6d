-- ===== src/RuleStore/Store/WellFormed.antt =====
-- The invariant of the rule store, and the operations as steps that keep it.
use ncn_platform.Base.{
  ℕ, Bool, true, false, List, ◌∷◌, [], ◌++◌, Option, none, some, String, str_eq, ◌≡◌, refl, ◌∙◌,
  inl, inr, any, All, All-append, All-map, Option-cases, eq_iff, arith, if_cases, not,
}
use ncn_platform.Alerts.Rule.{RuleGroup}
use ncn_platform.RuleStore.Def.{FloatTests, RuleDef, RulePatch, GroupPatch, Refusal}
use ncn_platform.Base.Keyed.{
  has, find, put, drop_first, Distinct, has-append, Distinct-append, find-key, find-All, has-put,
  put-Distinct, put-All, drop_first-All, has-drop_first-other, drop_first-Distinct,
}
use ncn_platform.RuleStore.Validate.{
  validate_rule, validate_rule-stamped, validate_group, valid_rule_id,
}
use ncn_platform.RuleStore.Store.{
  RuleStore, Change, all_nodes_group_id, rule_id, group_id_of, has_group, or_keep, patch_rule,
  patch_group, missing_group, with_default, admit_rule, add_rule, store_rule, update_found,
  update_rule, remove_found, remove_rule, admit_group, add_group, store_group, update_group_found,
  update_group, remove_group,
}

-- A call of one of the six operations.
pub data Call (F : Type 0) : Type 0 where
  call_add_rule : RuleDef F → Call F
  call_update_rule : String → RulePatch F → Call F
  call_remove_rule : String → Call F
  call_add_group : RuleGroup → Call F
  call_update_group : String → GroupPatch → Call F
  call_remove_group : String → Call F

module _ {F : Type 0} (t : FloatTests F) (now : ℕ) (persisted : Bool) where
  -- The store after a call.
  unfoldable pub after_call : Call F → RuleStore F → RuleStore F
  after_call (call_add_rule r) s = (add_rule t now persisted r s).0
  after_call (call_update_rule id p) s = (update_rule t now persisted id p s).0
  after_call (call_remove_rule id) s = (remove_rule t now persisted id s).0
  after_call (call_add_group g) s = (add_group t now persisted g s).0
  after_call (call_update_group id p) s = (update_group t now persisted id p s).0
  after_call (call_remove_group id) s = (remove_group t now persisted id s).0

module _ {F : Type 0} (t : FloatTests F) where
  abbrev pub InOrder : List RuleGroup → RuleDef F → Type 0
  InOrder gs r = (has_group r.group_id gs ≡ true) × (validate_rule t r ≡ none)

  -- The IDs of the rules are distinct, those of the groups too, the default group is there, and
  -- every rule passes the validation and names a group that is there.
  pub record WellFormed (s : RuleStore F) : Type 0 where
    pub rules_distinct : Distinct rule_id s.rules
    pub groups_distinct : Distinct group_id_of s.groups
    pub default_there : has_group all_nodes_group_id s.groups ≡ true
    pub in_order : All (InOrder s.groups) s.rules

  abbrev Kept : {A : Type 0} → Change F A → Type 0
  Kept x = WellFormed x.0

  has_group-append :
      (k : String) (gs : List RuleGroup) (g : RuleGroup)
      → has_group k gs ≡ true
      → has_group k (gs ++ g ∷ []) ≡ true
  has_group-append k gs g h = ground (arith, has-append group_id_of k gs g)

  or_keep_group :
      (o : Option String) (id : String) (gs : List RuleGroup)
      → missing_group o gs ≡ false
      → has_group id gs ≡ true
      → has_group (or_keep o id) gs ≡ true
  or_keep_group none id gs m h = h
  or_keep_group (some j) id gs m h = ground arith

  admit_rule-WellFormed :
      (now : ℕ) (persisted : Bool) (r : RuleDef F) (s : RuleStore F)
      → validate_rule t r ≡ none
      → WellFormed s
      → WellFormed (admit_rule t now persisted r s).0
  unfolding admit_rule
  admit_rule-WellFormed now persisted r s v w =
      if_cases Kept (not (has_group r.group_id s.groups)) _ _ (λ _. w)
        (λ g.
          if_cases Kept (has rule_id r.id s.rules) _ _ (λ _. w)
            (λ h. record {
              rules_distinct = Distinct-append rule_id s.rules _ h w.rules_distinct;
              groups_distinct = w.groups_distinct;
              default_there = w.default_there;
              in_order =
                  All-append (InOrder s.groups) s.rules _ w.in_order
                    ((ground arith, validate_rule-stamped t r r.group_id false now now ∙ v), tt);
            }))

  store_rule-WellFormed :
      (now : ℕ) (persisted : Bool) (id : String) (r : RuleDef F) (o : Option Refusal)
      (s : RuleStore F)
      → r.id ≡ id
      → has_group r.group_id s.groups ≡ true
      → validate_rule t r ≡ o
      → WellFormed s
      → WellFormed (store_rule t now persisted id r o s).0
  unfolding store_rule
  store_rule-WellFormed now persisted id r (some e) s i g v w = w
  store_rule-WellFormed now persisted id r none s i g v w = record {
    rules_distinct = put-Distinct rule_id id _ s.rules i w.rules_distinct;
    groups_distinct = w.groups_distinct;
    default_there = w.default_there;
    in_order =
        put-All rule_id (InOrder s.groups) id _ s.rules
          (g, validate_rule-stamped t r r.group_id r.builtin r.created_at now ∙ v) w.in_order;
  }

  update_found-WellFormed :
      (now : ℕ) (persisted : Bool) (id : String) (p : RulePatch F) (o : Option (RuleDef F))
      (s : RuleStore F)
      → find rule_id id s.rules ≡ o
      → WellFormed s
      → WellFormed (update_found t now persisted id p o s).0
  unfolding update_found patch_rule
  update_found-WellFormed now persisted id p none s f w = w
  update_found-WellFormed now persisted id p (some r) s f w =
      if_cases Kept (missing_group p.group_id s.groups) _ _ (λ _. w)
        (λ m.
          store_rule-WellFormed now persisted id (patch_rule p r) (validate_rule t (patch_rule p r))
            s (find-key rule_id id s.rules r f)
            (or_keep_group p.group_id r.group_id s.groups m
              (find-All rule_id (InOrder s.groups) id s.rules r w.in_order f).0)
            refl w)

  remove_found-WellFormed :
      (now : ℕ) (persisted : Bool) (id : String) (o : Option (RuleDef F)) (s : RuleStore F)
      → WellFormed s
      → WellFormed (remove_found t now persisted id o s).0
  unfolding remove_found
  remove_found-WellFormed now persisted id none s w = w
  remove_found-WellFormed now persisted id (some r) s w =
      if_cases Kept r.builtin _ _ (λ _. w)
        (λ _. record {
          rules_distinct = drop_first-Distinct rule_id id s.rules w.rules_distinct;
          groups_distinct = w.groups_distinct;
          default_there = w.default_there;
          in_order = drop_first-All rule_id (InOrder s.groups) id s.rules w.in_order;
        })

  admit_group-WellFormed :
      (now : ℕ) (persisted : Bool) (g : RuleGroup) (o : Option Refusal) (s : RuleStore F)
      → WellFormed s
      → WellFormed (admit_group t now persisted g o s).0
  unfolding admit_group
  admit_group-WellFormed now persisted g (some e) s w = w
  admit_group-WellFormed now persisted g none s w =
      if_cases Kept (has_group g.id s.groups) _ _ (λ _. w)
        (λ h. record {
          rules_distinct = w.rules_distinct;
          groups_distinct = Distinct-append group_id_of s.groups _ h w.groups_distinct;
          default_there = has_group-append all_nodes_group_id s.groups _ w.default_there;
          in_order =
              All-map (InOrder s.groups) (InOrder (s.groups ++ _ ∷ []))
                (λ r i. (has_group-append r.group_id s.groups _ i.0, i.1)) s.rules w.in_order;
        })

  store_group-WellFormed :
      (now : ℕ) (persisted : Bool) (id : String) (g : RuleGroup) (o : Option Refusal)
      (s : RuleStore F)
      → g.id ≡ id
      → WellFormed s
      → WellFormed (store_group t now persisted id g o s).0
  unfolding store_group
  store_group-WellFormed now persisted id g (some e) s i w = w
  store_group-WellFormed now persisted id g none s i w =
      let new = record g { updated_at = now } in
      record {
        rules_distinct = w.rules_distinct;
        groups_distinct = put-Distinct group_id_of id new s.groups i w.groups_distinct;
        default_there = has-put group_id_of id all_nodes_group_id new s.groups i ∙ w.default_there;
        in_order =
            All-map (InOrder s.groups) (InOrder (put group_id_of id new s.groups))
              (λ r j. (has-put group_id_of id r.group_id new s.groups i ∙ j.0, j.1)) s.rules
              w.in_order;
      }

  update_group_found-WellFormed :
      (now : ℕ) (persisted : Bool) (id : String) (p : GroupPatch) (o : Option RuleGroup)
      (s : RuleStore F)
      → find group_id_of id s.groups ≡ o
      → WellFormed s
      → WellFormed (update_group_found t now persisted id p o s).0
  unfolding update_group_found patch_group
  update_group_found-WellFormed now persisted id p none s f w = w
  update_group_found-WellFormed now persisted id p (some g) s f w =
      store_group-WellFormed now persisted id (patch_group p g) (validate_group (patch_group p g)) s
        (find-key group_id_of id s.groups g f) w

  -- The rules that do not name a group are in order without it.
  InOrder-drop_first :
      (id : String) (gs : List RuleGroup) (rs : List (RuleDef F))
      → any (λ r. str_eq r.group_id id) rs ≡ false
      → All (InOrder gs) rs
      → All (InOrder (drop_first group_id_of id gs)) rs
  InOrder-drop_first id gs [] n a = tt
  InOrder-drop_first id gs (r ∷ rs) n a = (
    (
      has-drop_first-other group_id_of id r.group_id gs
            (ground (arith, eq_iff r.group_id id, eq_iff id r.group_id))
          ∙ a.0.0,
      a.0.1,
    ),
    InOrder-drop_first id gs rs (ground arith) a.1,
  )

  remove_group-WellFormed :
      (now : ℕ) (persisted : Bool) (id : String) (s : RuleStore F)
      → WellFormed s
      → WellFormed (remove_group t now persisted id s).0
  unfolding remove_group
  remove_group-WellFormed now persisted id s w =
      if_cases Kept (str_eq id all_nodes_group_id) _ _ (λ _. w)
        (λ n.
          if_cases Kept (any (λ r. str_eq r.group_id id) s.rules) _ _ (λ _. w)
            (λ u.
              if_cases Kept (has_group id s.groups) _ _
                (λ _. record {
                  rules_distinct = w.rules_distinct;
                  groups_distinct = drop_first-Distinct group_id_of id s.groups w.groups_distinct;
                  default_there =
                      has-drop_first-other group_id_of id all_nodes_group_id s.groups n
                      ∙ w.default_there;
                  in_order = InOrder-drop_first id s.groups s.rules u w.in_order;
                })
                (λ _. w)))

  add_rule-WellFormed :
      (now : ℕ) (persisted : Bool) (r : RuleDef F) (s : RuleStore F)
      → WellFormed s
      → WellFormed (add_rule t now persisted r s).0
  unfolding add_rule with_default
  add_rule-WellFormed now persisted r s w = elim (Option-cases (validate_rule t r)) [
    | inl v ↦
        rw (v, add_rule)
          (if_cases (λ x. WellFormed (admit_rule t now persisted x s).0) (str_eq r.group_id "")
            (record r { group_id = all_nodes_group_id }) r
            (λ _.
              admit_rule-WellFormed now persisted _ s
                (validate_rule-stamped t r all_nodes_group_id r.builtin r.created_at r.updated_at
                  ∙ v)
                w)
            (λ _. admit_rule-WellFormed now persisted r s v w))
    | inr (e, v) ↦ rw (v, add_rule) w
  ]

  -- Each of the six operations, whether it is accepted or refused and whether or not it is
  -- persisted, keeps the store well-formed: distinct rule IDs, distinct group IDs, the default group
  -- there, and every rule valid and in a group that is there.
  pub after_call-WellFormed :
      (now : ℕ) (persisted : Bool) (c : Call F) (s : RuleStore F)
      → WellFormed s
      → WellFormed (after_call t now persisted c s)
  unfolding after_call add_group update_rule remove_rule update_group
  after_call-WellFormed now persisted (call_add_rule r) s w =
      add_rule-WellFormed now persisted r s w
  after_call-WellFormed now persisted (call_update_rule id p) s w =
      update_found-WellFormed now persisted id p (find rule_id id s.rules) s refl w
  after_call-WellFormed now persisted (call_remove_rule id) s w =
      remove_found-WellFormed now persisted id (find rule_id id s.rules) s w
  after_call-WellFormed now persisted (call_add_group g) s w =
      if_cases Kept (not (valid_rule_id g.id)) _ _ (λ _. w)
        (λ _.
          if_cases Kept (str_eq g.name "") _ _ (λ _. w)
            (λ _. admit_group-WellFormed now persisted g (validate_group g) s w))
  after_call-WellFormed now persisted (call_update_group id p) s w =
      update_group_found-WellFormed now persisted id p (find group_id_of id s.groups) s refl w
  after_call-WellFormed now persisted (call_remove_group id) s w =
      remove_group-WellFormed now persisted id s w
