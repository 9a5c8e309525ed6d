-- ===== src/RuleStore/Validate.antt =====
-- core-console/backend/alertrules.go, alertmetrics.go: the checks on a rule and on a group.
use ncn_platform.Base.{
  ℕ, Bool, not, ◌&&◌, ◌||◌, List, [], ◌∷◌, Option, none, some, String, str_eq, if◌then◌else◌, any,
  ℤ, pos, ◌≡◌, refl, ltb_ℤ, gtb_ℤ, eq_ℤ, valid_id,
}
use ncn_platform.Alerts.Rule.{RuleGroup, sev_info, sev_warn, sev_critical}
use ncn_platform.RuleStore.Def.{
  FloatTests, RuleDef, Refusal, bad_rule_id, name_required, unknown_metric, invalid_op, sigma_range,
  window_range, min_delta_range, anomaly_op, invalid_severity, sustain_range, resolve_range,
  escalate_range, repeat_range, invalid_min_severity, default_sustain_range,
}

abbrev among : List String → String → Bool
among texts s = any (λ t. str_eq t s) texts

-- The keys of `metricExtractors`.
pub metrics : List String
metrics =
    "cpu_pct" ∷ "mem_pct" ∷ "disk_pct" ∷ "load1" ∷ "net_rx_mbps" ∷ "net_tx_mbps"
    ∷ "net_rx_total_mbps" ∷ "net_tx_total_mbps" ∷ "mem_used_gb" ∷ "disk_used_gb" ∷ "cert_days_left"
    ∷ "consec_fail" ∷ "reachable" ∷ "probe_fail_count" ∷ "probe_slow_count" ∷ "probe_max_rtt_ms"
    ∷ "bgp_down_count" ∷ "bird_absent" ∷ "route_count_total" ∷ "wg_peer_count" ∷ "tunnel_down_count"
    ∷ "link_saturation_eta_days" ∷ "sla_loss_pct" ∷ "sla_rtt_ms" ∷ "config_drift" ∷ []

pub valid_alert_op : String → Bool
valid_alert_op = among ("gt" ∷ "gte" ∷ "lt" ∷ "lte" ∷ "eq" ∷ "ne" ∷ [])

pub valid_severity : String → Bool
valid_severity = among (sev_info ∷ sev_warn ∷ sev_critical ∷ [])

pub valid_rule_id : String → Bool
valid_rule_id = valid_id 40

-- `x < low || x > high`, where low is 0 or a positive number.
abbrev pub outside : ℤ → ℕ → ℕ → Bool
outside x low high = ltb_ℤ x low || gtb_ℤ x high

-- `if bad { return err }`, before the checks that follow.
abbrev refuse_if : Bool → Refusal → Option Refusal → Option Refusal
refuse_if bad e rest = if bad then some e else rest

module _ {F : Type 0} (t : FloatTests F) where
  timing_refusal : RuleDef F → Option Refusal
  timing_refusal r = refuse_if (outside r.sustain_secs 0 3600) sustain_range (
      refuse_if (outside r.resolve_secs 0 3600) resolve_range (
        refuse_if (outside r.escalate_secs 0 86400) escalate_range
          (refuse_if (outside r.repeat_secs 0 86400) repeat_range none)))

  severity_refusal : RuleDef F → Option Refusal
  unfolding timing_refusal valid_severity
  severity_refusal r =
      refuse_if (not (valid_severity r.severity)) invalid_severity (timing_refusal r)

  anomaly_refusal : RuleDef F → Option Refusal
  unfolding severity_refusal
  anomaly_refusal r =
      refuse_if (t.below_one r.anomaly_sigma || t.above_ten r.anomaly_sigma) sigma_range (
        refuse_if (not (eq_ℤ r.anomaly_window (pos 0)) && outside r.anomaly_window 4 5000)
          window_range
          (refuse_if (t.negative r.anomaly_min_delta) min_delta_range (
            refuse_if (not (among ("gt" ∷ "lt" ∷ "ne" ∷ []) r.op)) anomaly_op
              (severity_refusal r))))

  -- `validateRule`; `none` is a rule in order.
  unfoldable pub validate_rule : RuleDef F → Option Refusal
  unfolding anomaly_refusal severity_refusal valid_rule_id valid_alert_op metrics
  validate_rule r = refuse_if (not (valid_rule_id r.id)) bad_rule_id (
      refuse_if (str_eq r.name "") name_required (
        refuse_if (not (among metrics r.metric)) unknown_metric (
          refuse_if (not (valid_alert_op r.op)) invalid_op
            (if t.is_zero r.anomaly_sigma then severity_refusal r else anomaly_refusal r))))

  -- The validation does not read the group, the origin and the times.
  pub validate_rule-stamped :
      (r : RuleDef F) (g : String) (b : Bool) (c u : ℕ)
      → validate_rule (record r { group_id = g; builtin = b; created_at = c; updated_at = u })
        ≡ validate_rule r
  unfolding validate_rule severity_refusal anomaly_refusal timing_refusal
  validate_rule-stamped r g b c u = refl

-- `validateGroup`.
pub validate_group : RuleGroup → Option Refusal
unfolding valid_severity
validate_group g =
    refuse_if (not (str_eq g.min_severity "" || valid_severity g.min_severity)) invalid_min_severity
      (refuse_if (outside g.default_sustain_secs 0 3600) default_sustain_range none)
