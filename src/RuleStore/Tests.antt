-- ===== src/RuleStore/Tests.antt =====
-- A store with the default group and one rule that ships with the platform.
use ncn_platform.Base.{ℕ, ◌≡◌, refl, true, false, [], ◌∷◌, none, some, pos, valid_id}
use ncn_platform.Alerts.Rule.{RuleGroup}
use ncn_platform.RuleStore.Def.{FloatTests, RuleDef, RulePatch}
use ncn_platform.Base.Keyed.{has, Distinct}
use ncn_platform.RuleStore.Validate.{validate_rule}
use ncn_platform.RuleStore.Store.{RuleStore}
use ncn_platform.RuleStore.Store.WellFormed.{
  call_update_rule, after_call, WellFormed, after_call-WellFormed,
}
use ncn_platform.RuleStore.Store.Builtin.{Ships, is_builtin}

-- Thresholds in whole numbers.
abbrev whole : FloatTests ℕ
whole = record {
  is_zero = λ x. elim x [ ℕ.zero ↦ true | ℕ.suc _ ↦ false ];
  below_one = λ x. elim x [ ℕ.zero ↦ true | ℕ.suc _ ↦ false ];
  above_ten = λ x. false;
  negative = λ x. false;
}

abbrev everyone : RuleGroup
everyone = record {
  id = "all";
  name = "All nodes";
  description = "";
  enabled = true;
  node_ids = [];
  regions = [];
  mute_until = pos 0;
  suppress_tg = false;
  min_severity = "";
  default_sustain_secs = pos 0;
  created_by = "";
  created_at = 0;
  updated_at = 0;
}

abbrev cpu_high : RuleDef ℕ
cpu_high = record {
  id = "cpu-high";
  group_id = "all";
  name = "CPU";
  description = "";
  builtin = true;
  metric = "cpu_pct";
  op = "gt";
  threshold = 80;
  anomaly_sigma = 0;
  anomaly_window = pos 0;
  anomaly_min_delta = 0;
  sustain_secs = pos 60;
  resolve_secs = pos 0;
  escalate_secs = pos 0;
  repeat_secs = pos 0;
  group_key = "";
  severity = "warn";
  enabled = true;
  notify_tg = true;
  mute_until = pos 0;
  created_by = "";
  created_at = 0;
  updated_at = 0;
}

abbrev seeded : RuleStore ℕ
seeded = record { groups = everyone ∷ []; rules = cpu_high ∷ [] }

abbrev critical : RulePatch ℕ
critical = record {
  name = none;
  description = none;
  group_id = some "all";
  metric = none;
  op = none;
  threshold = none;
  anomaly_sigma = none;
  anomaly_window = none;
  anomaly_min_delta = none;
  sustain_secs = none;
  resolve_secs = none;
  escalate_secs = none;
  repeat_secs = none;
  severity = some "crit";
  enabled = none;
  notify_tg = none;
  mute_until = none;
}

cpu_high-valid : validate_rule whole cpu_high ≡ none
unfolding validate_rule valid_id
cpu_high-valid = refl

seeded-WellFormed : WellFormed whole seeded
unfolding Distinct has
seeded-WellFormed = record {
  rules_distinct = (refl, tt);
  groups_distinct = (refl, tt);
  default_there = refl;
  in_order = ((refl, cpu_high-valid), tt);
}

after_call-WellFormed_example :
    WellFormed whole (after_call whole 5 true (call_update_rule "cpu-high" critical) seeded)
after_call-WellFormed_example =
    after_call-WellFormed whole 5 true (call_update_rule "cpu-high" critical) seeded
      seeded-WellFormed

seeded-Ships : Ships "cpu-high" seeded
unfolding is_builtin
seeded-Ships = refl
