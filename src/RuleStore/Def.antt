-- ===== src/RuleStore/Def.antt =====
-- core-console/backend/alertrules.go: the rule definition and its patches. Thresholds are 64-bit
-- floats: their type `F` is an argument, and so are the four tests that the validation makes.
use ncn_platform.Base.{ℕ, Bool, List, Option, String, ℤ}

pub record FloatTests (F : Type 0) : Type 0 where
  pub is_zero : F → Bool
  pub below_one : F → Bool
  pub above_ten : F → Bool
  pub negative : F → Bool

pub record RuleDef (F : Type 0) : Type 0 where
  pub id : String
  pub group_id : String
  pub name : String
  pub description : String
  pub builtin : Bool
  pub metric : String
  pub op : String
  pub threshold : F
  pub anomaly_sigma : F
  pub anomaly_window : ℤ
  pub anomaly_min_delta : F
  pub sustain_secs : ℤ
  pub resolve_secs : ℤ
  pub escalate_secs : ℤ
  pub repeat_secs : ℤ
  pub group_key : String
  pub severity : String
  pub enabled : Bool
  pub notify_tg : Bool
  pub mute_until : ℤ
  pub created_by : String
  pub created_at : ℕ
  pub updated_at : ℕ

-- A nil pointer is `none`.
pub record RulePatch (F : Type 0) : Type 0 where
  pub name : Option String
  pub description : Option String
  pub group_id : Option String
  pub metric : Option String
  pub op : Option String
  pub threshold : Option F
  pub anomaly_sigma : Option F
  pub anomaly_window : Option ℤ
  pub anomaly_min_delta : Option F
  pub sustain_secs : Option ℤ
  pub resolve_secs : Option ℤ
  pub escalate_secs : Option ℤ
  pub repeat_secs : Option ℤ
  pub severity : Option String
  pub enabled : Option Bool
  pub notify_tg : Option Bool
  pub mute_until : Option ℤ

pub record GroupPatch : Type 0 where
  pub name : Option String
  pub description : Option String
  pub enabled : Option Bool
  pub node_ids : Option (List String)
  pub regions : Option (List ℤ)
  pub mute_until : Option ℤ
  pub suppress_tg : Option Bool
  pub min_severity : Option String
  pub default_sustain_secs : Option ℤ

-- Why an operation is refused.
pub data Refusal : Type 0 where
  bad_rule_id bad_group_id name_required unknown_metric invalid_op : Refusal
  sigma_range window_range min_delta_range anomaly_op : Refusal
  invalid_severity sustain_range resolve_range escalate_range repeat_range : Refusal
  invalid_min_severity default_sustain_range : Refusal
  unknown_group rule_exists rule_not_found builtin_rule : Refusal
  group_exists group_not_found default_group group_has_rules : Refusal
