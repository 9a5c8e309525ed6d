-- ===== src/Oncall/Tests.antt =====
-- A rotation of two operators, and one alert over three ticks.
use ncn_platform.Base.{
  ℕ, ◌+◌, ◌*◌, ◌≡◌, refl, arith, true, false, List, [], ◌∷◌, Option, some, String, length,
  get_elem?, ◌%◌, ◌/◌, ℤ, pos, negsuc,
}
use ncn_platform.Alerts.Event.{AlertEvent}
use ncn_platform.Oncall.Rota.{OncallConfig, current_oncall, or_empty, day}
use ncn_platform.Oncall.Rota.Shifts.{Rounds, current_oncall_shift}
use ncn_platform.Oncall.Escalate.{Sent}
use ncn_platform.Oncall.Escalate.Climb.{paged, Climbs, run_ticks, run_ticks-Climbs}

abbrev rota : OncallConfig
rota = record {
  rotation = "ann" ∷ "bob" ∷ [];
  start_date = "1970-01-01";
  period_days = pos 7;
  tiers =
      record { after_min = pos 5; target = "oncall" }
      ∷ record { after_min = pos 15; target = "group" }
      ∷ [];
}

abbrev epoch : String → Option ℤ
epoch date = some (pos 0)

-- Whole units of a duration, rounded towards zero.
abbrev whole : ℕ → ℤ → ℤ
whole unit (pos d) = pos (d / unit)
whole unit (negsuc n) = elim ((n + 1) / unit) [ ℕ.zero ↦ pos 0 | ℕ.suc m ↦ negsuc m ]

whole-Rounds : Rounds (whole day)
whole-Rounds d h = (d / day, refl, omega arith, omega arith)

-- The second moment of the third shift.
current_oncall_shift_example :
    current_oncall epoch (whole day) rota ((2 * 7) * day + 1)
    ≡ or_empty (get_elem? rota.rotation (2 % length rota.rotation))
current_oncall_shift_example =
    current_oncall_shift epoch (whole day) rota ((2 * 7) * day + 1) 2 1 whole-Rounds refl
      (omega arith) (omega arith)

abbrev down : AlertEvent
down = record {
  id = 4;
  node_id = "n1";
  rule_id = "node-unreachable";
  title = "";
  description = "";
  threshold = "";
  severity = "crit";
  message = "";
  trail = [];
  fired_at = 0;
  resolved_at = 0;
  state = "firing";
  acked = false;
  acked_by = "";
  updated = 0;
  tick_count = 3;
  tg_fire_sent = true;
  tg_posted = true;
  notify_tg = true;
  suppress_tg = false;
  min_sev = "";
  repeat_secs = pos 0;
  escalate_secs = pos 0;
  escalated = false;
  group_key = "";
}

abbrev nobody : Sent
nobody id = 0

abbrev three_ticks : List (ℕ × List AlertEvent)
three_ticks = (360000000000, down ∷ []) ∷ (420000000000, down ∷ []) ∷ (960000000000, down ∷ []) ∷ []

run_ticks-Climbs_example :
    Climbs 0
      (paged 4 (run_ticks (whole 60000000000) rota.tiers three_ticks nobody).1)
      ((run_ticks (whole 60000000000) rota.tiers three_ticks nobody).0 4)
run_ticks-Climbs_example =
    run_ticks-Climbs (whole 60000000000) 4 rota.tiers three_ticks nobody (refl, (refl, (refl, tt)))
