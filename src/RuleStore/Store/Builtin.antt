-- ===== src/RuleStore/Store/Builtin.antt =====
-- The rules that ship with the platform, and the calls that are refused.
use ncn_platform.Base.{
  ℕ, Bool, true, false, not, ◌&&◌, List, ◌∷◌, [], Option, none, some, String, str_eq, ◌≡◌, refl,
  ◌∙◌, inl, inr, any, any-append, Option-cases, arith, if_cases,
}
use ncn_platform.Alerts.Rule.{RuleGroup}
use ncn_platform.RuleStore.Def.{FloatTests, RuleDef, RulePatch, GroupPatch, Refusal}
use ncn_platform.Base.Keyed.{has, find, put, drop_first}
use ncn_platform.RuleStore.Validate.{validate_rule, validate_group}
use ncn_platform.RuleStore.Store.{
  RuleStore, Change, rule_id, group_id_of, has_group, patch_rule, patch_group, missing_group,
  with_default, admit_rule, add_rule, store_rule, update_found, update_rule, remove_found,
  remove_rule, admit_group, add_group, store_group, update_group_found, update_group, remove_group,
}
use ncn_platform.RuleStore.Store.WellFormed.{
  Call, call_add_rule, call_update_rule, call_remove_rule, call_add_group, call_update_group,
  call_remove_group, after_call,
}

any-put :
    {A : Type 0} (key : A → String) (q : A → Bool) (k : String) (x new : A) (xs : List A)
    → find key k xs ≡ some x
    → q new ≡ q x
    → any q (put key k new xs) ≡ any q xs
unfolding find put
any-put key q k x new [] f e = cc
any-put key q k x new (y ∷ ys) f e = ground (arith, any-put key q k x new ys)

any-drop_first :
    {A : Type 0} (key : A → String) (q : A → Bool) (k : String) (x : A) (xs : List A)
    → find key k xs ≡ some x
    → q x ≡ false
    → any q (drop_first key k xs) ≡ any q xs
unfolding find drop_first
any-drop_first key q k x [] f e = cc
any-drop_first key q k x (y ∷ ys) f e = ground (arith, any-drop_first key q k x ys)

module _ {F : Type 0} where
  unfoldable pub is_builtin : String → RuleDef F → Bool
  is_builtin id r = str_eq r.id id && r.builtin

  abbrev pub Ships : String → RuleStore F → Type 0
  Ships id s = any (is_builtin id) s.rules ≡ true

  abbrev Kept : {A : Type 0} → String → Change F A → Type 0
  Kept id x = Ships id x.0

module _ {F : Type 0} (t : FloatTests F) (now : ℕ) (persisted : Bool) where
  admit_rule-Ships :
      (id : String) (r : RuleDef F) (s : RuleStore F)
      → Ships id s
      → Ships id (admit_rule t now persisted r s).0
  unfolding admit_rule
  admit_rule-Ships id r s b =
      if_cases (Kept id) (not (has_group r.group_id s.groups)) _ _ (λ _. b)
        (λ _.
          if_cases (Kept id) (has rule_id r.id s.rules) _ _ (λ _. b)
            (λ _. any-append (is_builtin id) s.rules _ ∙ ground arith))

  add_rule-Ships :
      (id : String) (r : RuleDef F) (s : RuleStore F)
      → Ships id s
      → Ships id (add_rule t now persisted r s).0
  unfolding add_rule
  add_rule-Ships id r s b = elim (Option-cases (validate_rule t r)) [
    | inl v ↦ rw (v, add_rule) (admit_rule-Ships id (with_default t now persisted r) s b)
    | inr (e, v) ↦ rw (v, add_rule) b
  ]

  store_rule-Ships :
      (id j : String) (r new : RuleDef F) (o : Option Refusal) (s : RuleStore F)
      → find rule_id j s.rules ≡ some r
      → new.id ≡ r.id
      → new.builtin ≡ r.builtin
      → Ships id s
      → Ships id (store_rule t now persisted j new o s).0
  unfolding store_rule is_builtin
  store_rule-Ships id j r new (some e) s f i k b = b
  store_rule-Ships id j r new none s f i k b =
      any-put rule_id (is_builtin id) j r (record new { updated_at = now }) s.rules f
        (rw (i, k) refl)
      ∙ b

  update_found-Ships :
      (id j : String) (p : RulePatch F) (o : Option (RuleDef F)) (s : RuleStore F)
      → find rule_id j s.rules ≡ o
      → Ships id s
      → Ships id (update_found t now persisted j p o s).0
  unfolding update_found patch_rule
  update_found-Ships id j p none s f b = b
  update_found-Ships id j p (some r) s f b =
      if_cases (Kept id) (missing_group p.group_id s.groups) _ _ (λ _. b)
        (λ _.
          store_rule-Ships id j r (patch_rule p r) (validate_rule t (patch_rule p r)) s f refl refl
            b)

  remove_found-Ships :
      (id j : String) (o : Option (RuleDef F)) (s : RuleStore F)
      → find rule_id j s.rules ≡ o
      → Ships id s
      → Ships id (remove_found t now persisted j o s).0
  unfolding remove_found is_builtin
  remove_found-Ships id j none s f b = b
  remove_found-Ships id j (some r) s f b =
      ground (arith, any-drop_first rule_id (is_builtin id) j r s.rules f)

  admit_group-rules :
      (g : RuleGroup) (o : Option Refusal) (s : RuleStore F)
      → (admit_group t now persisted g o s).0.rules ≡ s.rules
  unfolding admit_group
  admit_group-rules g (some e) s = refl
  admit_group-rules g none s = ground arith

  store_group-rules :
      (id : String) (new : RuleGroup) (o : Option Refusal) (s : RuleStore F)
      → (store_group t now persisted id new o s).0.rules ≡ s.rules
  unfolding store_group
  store_group-rules id new (some e) s = refl
  store_group-rules id new none s = refl

  update_group_found-rules :
      (id : String) (p : GroupPatch) (o : Option RuleGroup) (s : RuleStore F)
      → (update_group_found t now persisted id p o s).0.rules ≡ s.rules
  unfolding update_group_found
  update_group_found-rules id p none s = refl
  update_group_found-rules id p (some g) s =
      store_group-rules id (patch_group p g) (validate_group (patch_group p g)) s

  -- A rule that ships with the platform is still there, and still marked as such, after any of the
  -- six operations.
  pub after_call-Ships :
      (id : String) (c : Call F) (s : RuleStore F)
      → Ships id s
      → Ships id (after_call t now persisted c s)
  unfolding after_call update_rule remove_rule add_group update_group remove_group
  after_call-Ships id (call_add_rule r) s b = add_rule-Ships id r s b
  after_call-Ships id (call_update_rule j p) s b =
      update_found-Ships id j p (find rule_id j s.rules) s refl b
  after_call-Ships id (call_remove_rule j) s b =
      remove_found-Ships id j (find rule_id j s.rules) s refl b
  after_call-Ships id (call_add_group g) s b =
      ground (arith, admit_group-rules g (validate_group g) s)
  after_call-Ships id (call_update_group j p) s b =
      rw (update_group_found-rules j p (find group_id_of j s.groups) s) b
  after_call-Ships id (call_remove_group j) s b = ground arith
