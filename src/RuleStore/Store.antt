-- ===== src/RuleStore/Store.antt =====
-- core-console/backend/alertrules.go: the operations of `alertRuleStore`. `persistLocked` writes a
-- file and a database row: whether it fails is an argument, and the clock's reading is another.
use ncn_platform.Base.{
  ℕ, Bool, true, false, not, List, [], ◌∷◌, ◌++◌, Option, none, some, String, str_eq, if◌then◌else◌,
  any,
}
use ncn_platform.Alerts.Rule.{RuleGroup}
use ncn_platform.RuleStore.Def.{
  FloatTests, RuleDef, RulePatch, GroupPatch, Refusal, bad_group_id, name_required, unknown_group,
  rule_exists, rule_not_found, builtin_rule, group_exists, group_not_found, default_group,
  group_has_rules,
}
use ncn_platform.Base.Keyed.{has, find, put, drop_first}
use ncn_platform.RuleStore.Validate.{validate_rule, validate_group, valid_rule_id}
pub mod WellFormed
pub mod Builtin

abbrev pub all_nodes_group_id : String
all_nodes_group_id = "all"

pub record RuleStore (F : Type 0) : Type 0 where
  pub groups : List RuleGroup
  pub rules : List (RuleDef F)

-- An error before anything is changed; or the value with the answer of `persistLocked`.
pub data Reply (A : Type 0) : Type 0 where
  refused : Refusal → Reply A
  stored : A → Bool → Reply A

abbrev or_keep {ℓ} : {A : Type ℓ} → Option A → A → A
or_keep none a = a
or_keep (some b) a = b

abbrev pub rule_id : {F : Type 0} → RuleDef F → String
rule_id r = r.id

abbrev pub group_id_of : RuleGroup → String
group_id_of g = g.id

-- `s.group(id) != nil`.
abbrev pub has_group : String → List RuleGroup → Bool
has_group = has group_id_of

module _ {F : Type 0} where
  pub patch_rule : RulePatch F → RuleDef F → RuleDef F
  patch_rule p r = record r {
    name = or_keep p.name r.name;
    description = or_keep p.description r.description;
    group_id = or_keep p.group_id r.group_id;
    metric = or_keep p.metric r.metric;
    op = or_keep p.op r.op;
    threshold = or_keep p.threshold r.threshold;
    anomaly_sigma = or_keep p.anomaly_sigma r.anomaly_sigma;
    anomaly_window = or_keep p.anomaly_window r.anomaly_window;
    anomaly_min_delta = or_keep p.anomaly_min_delta r.anomaly_min_delta;
    sustain_secs = or_keep p.sustain_secs r.sustain_secs;
    resolve_secs = or_keep p.resolve_secs r.resolve_secs;
    escalate_secs = or_keep p.escalate_secs r.escalate_secs;
    repeat_secs = or_keep p.repeat_secs r.repeat_secs;
    severity = or_keep p.severity r.severity;
    enabled = or_keep p.enabled r.enabled;
    notify_tg = or_keep p.notify_tg r.notify_tg;
    mute_until = or_keep p.mute_until r.mute_until;
  }

pub patch_group : GroupPatch → RuleGroup → RuleGroup
patch_group p g = record g {
  name = or_keep p.name g.name;
  description = or_keep p.description g.description;
  enabled = or_keep p.enabled g.enabled;
  node_ids = or_keep p.node_ids g.node_ids;
  regions = or_keep p.regions g.regions;
  mute_until = or_keep p.mute_until g.mute_until;
  suppress_tg = or_keep p.suppress_tg g.suppress_tg;
  min_severity = or_keep p.min_severity g.min_severity;
  default_sustain_secs = or_keep p.default_sustain_secs g.default_sustain_secs;
}

-- Whether a patch names a group that is not there.
abbrev missing_group : Option String → List RuleGroup → Bool
missing_group none gs = false
missing_group (some id) gs = not (has_group id gs)

-- What an operation does once its checks are made.
abbrev Change : Type 0 → Type 0 → Type 0
Change F A = RuleStore F × Reply A

module _ {F : Type 0} (t : FloatTests F) (now : ℕ) (persisted : Bool) where
  -- An empty group stands for the default group.
  with_default : RuleDef F → RuleDef F
  with_default r = if str_eq r.group_id "" then record r { group_id = all_nodes_group_id } else r

  admit_rule : RuleDef F → RuleStore F → Change F (RuleDef F)
  admit_rule r s =
      let new = record r { builtin = false; created_at = now; updated_at = now } in
      if not (has_group r.group_id s.groups)
      then (s, refused unknown_group)
      else if has rule_id r.id s.rules
      then (s, refused rule_exists)
      else (record s { rules = s.rules ++ new ∷ [] }, stored new persisted)

  pub add_rule : RuleDef F → RuleStore F → Change F (RuleDef F)
  unfolding with_default admit_rule
  add_rule r s = elim (validate_rule t r) [
    | some e ↦ (s, refused e)
    | none ↦ admit_rule (with_default r) s
  ]

  store_rule : String → RuleDef F → Option Refusal → RuleStore F → Change F (RuleDef F)
  store_rule id r (some e) s = (s, refused e)
  store_rule id r none s =
      let new = record r { updated_at = now } in
      (record s { rules = put rule_id id new s.rules }, stored new persisted)

  update_found : String → RulePatch F → Option (RuleDef F) → RuleStore F → Change F (RuleDef F)
  unfolding store_rule
  update_found id p none s = (s, refused rule_not_found)
  update_found id p (some r) s =
      let patched = patch_rule p r in
      if missing_group p.group_id s.groups
      then (s, refused unknown_group)
      else store_rule id patched (validate_rule t patched) s

  pub update_rule : String → RulePatch F → RuleStore F → Change F (RuleDef F)
  unfolding update_found
  update_rule id p s = update_found id p (find rule_id id s.rules) s

  remove_found : String → Option (RuleDef F) → RuleStore F → Change F (Unit {0})
  remove_found id none s = (s, refused rule_not_found)
  remove_found id (some r) s =
      if r.builtin
      then (s, refused builtin_rule)
      else (record s { rules = drop_first rule_id id s.rules }, stored tt persisted)

  pub remove_rule : String → RuleStore F → Change F (Unit {0})
  unfolding remove_found
  remove_rule id s = remove_found id (find rule_id id s.rules) s

  admit_group : RuleGroup → Option Refusal → RuleStore F → Change F RuleGroup
  admit_group g (some e) s = (s, refused e)
  admit_group g none s =
      let new = record g { created_at = now; updated_at = now } in
      if has_group g.id s.groups
      then (s, refused group_exists)
      else (record s { groups = s.groups ++ new ∷ [] }, stored new persisted)

  pub add_group : RuleGroup → RuleStore F → Change F RuleGroup
  unfolding admit_group
  add_group g s =
      if not (valid_rule_id g.id)
      then (s, refused bad_group_id)
      else if str_eq g.name ""
      then (s, refused name_required)
      else admit_group g (validate_group g) s

  store_group : String → RuleGroup → Option Refusal → RuleStore F → Change F RuleGroup
  store_group id g (some e) s = (s, refused e)
  store_group id g none s =
      let new = record g { updated_at = now } in
      (record s { groups = put group_id_of id new s.groups }, stored new persisted)

  update_group_found : String → GroupPatch → Option RuleGroup → RuleStore F → Change F RuleGroup
  unfolding store_group
  update_group_found id p none s = (s, refused group_not_found)
  update_group_found id p (some g) s =
      let patched = patch_group p g in store_group id patched (validate_group patched) s

  pub update_group : String → GroupPatch → RuleStore F → Change F RuleGroup
  unfolding update_group_found
  update_group id p s = update_group_found id p (find group_id_of id s.groups) s

  pub remove_group : String → RuleStore F → Change F (Unit {0})
  remove_group id s =
      if str_eq id all_nodes_group_id
      then (s, refused default_group)
      else if any (λ r. str_eq r.group_id id) s.rules
      then (s, refused group_has_rules)
      else if has_group id s.groups
      then (record s { groups = drop_first group_id_of id s.groups }, stored tt persisted)
      else (s, refused group_not_found)
