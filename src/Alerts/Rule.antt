-- ===== src/Alerts/Rule.antt =====
-- core-console/backend/alerts.go, alertrules.go, bot_tg.go: severities, the scope of a rule group,
-- and a compiled rule. The type `S` is what one scrape of a node yields, `B` the learned baselines;
-- a rule's evaluator reads both, and `none` is a panic inside it.
use ncn_platform.Base.{
  ℕ, ◌+◌, ◌/◌, Bool, true, false, not, ◌||◌, List, [], Option, none, some, String, str_eq,
  if◌then◌else◌, any, ℤ, to_ℕ, gtb_ℤ, eq_ℤ,
}

abbrev pub sev_info : String
sev_info = "info"

abbrev pub sev_warn : String
sev_warn = "warn"

abbrev pub sev_critical : String
sev_critical = "crit"

unfoldable pub sev_weight : String → ℕ
sev_weight s =
    if str_eq s sev_critical
    then 3
    else if str_eq s sev_warn
    then 2
    else if str_eq s sev_info
    then 1
    else 0

pub record RuleGroup : Type 0 where
  pub id : String
  pub name : String
  pub description : String
  pub enabled : Bool
  pub node_ids : List String
  pub regions : List ℤ
  pub mute_until : ℤ
  pub suppress_tg : Bool
  pub min_severity : String
  pub default_sustain_secs : ℤ
  pub created_by : String
  pub created_at : ℕ
  pub updated_at : ℕ

abbrev unscoped : List String → List ℤ → Bool
unscoped [] [] = true
unscoped _ _ = false

-- An unscoped group covers every node; any other the nodes and the regions that it lists.
unfoldable pub matches : RuleGroup → String → ℤ → Bool
matches g node_id region =
    unscoped g.node_ids g.regions
    || (any (λ id. str_eq id node_id) g.node_ids || any (λ r. eq_ℤ r region) g.regions)

-- What `fleetNodeStatus` says of a node besides the metrics.
pub record NodeStatus (S : Type 0) : Type 0 where
  pub node_id : String
  pub region : ℤ
  pub body : S

pub record AlertRule (B S : Type 0) : Type 0 where
  pub id : String
  pub title : String
  pub description : String
  pub threshold : String
  pub severity : String
  pub evaluate : B → NodeStatus S → Option (Bool × String)
  pub enabled : Bool
  pub notify_tg : Bool
  pub sustain_secs : ℤ
  pub mute_until : ℤ
  pub scope : Option (String → ℤ → Bool)
  pub resolve_secs : ℤ
  pub escalate_secs : ℤ
  pub repeat_secs : ℤ
  pub suppress_tg : Bool
  pub min_sev : String
  pub group_key : String

abbrev in_scope : Option (String → ℤ → Bool) → String → ℤ → Bool
in_scope none node_id region = true
in_scope (some f) node_id region = f node_id region

module _ {B S : Type 0} where
  unfoldable pub applicable : AlertRule B S → String → ℤ → ℕ → Bool
  applicable r node_id region now =
      if not r.enabled
      then false
      else if gtb_ℤ r.mute_until now
      then false
      else in_scope r.scope node_id region

  -- A panic reads as not firing.
  unfoldable pub eval_rule_safe : AlertRule B S → B → NodeStatus S → Bool × String
  eval_rule_safe r b n = elim (r.evaluate b n) [ none ↦ (false, "") | some v ↦ v ]

-- The number of 30-second ticks for a debounce in seconds: at least one.
unfoldable pub req_ticks : ℤ → ℕ
req_ticks secs = if gtb_ℤ secs 0 then (to_ℕ secs + 29) / 30 else 1
