-- ===== src/Lb/Controller/Tests.antt =====
-- Concrete sweeps of a primary and a standby.
use ncn_platform.Base.{
  ◌≤◌, ◌||◌, length, Option, ◌≡◌, refl, ◌↔◌, Bool, true, false, [], ◌∷◌, some, none, String, str_eq,
  pos, leb_ℤ,
}
use ncn_platform.Base.Dict.{lookup, insert}
use ncn_platform.Lb.Config.{
  Origin, Config, FileInfo, IsValid, load_config, parsed, load_config-IsValid,
}
use ncn_platform.Lb.Controller.{
  OriginState, Controller, Net, Probe, answered, failed, fresh_state, by_priority, is_healthy,
  reconcile, new_controller, add_origins, sort_by_priority, insert_by_priority, keys, priority_of,
  MapOrder, Round, FailoverRun, run_sweeps,
}
use ncn_platform.Lb.Controller.Health.{
  run_probes, longest_bad_run, bad_run, good_run, run_probes_healthy,
}
use ncn_platform.Lb.Controller.Failover.{reconcile_run_iff, run_sweeps_latched, run_sweeps_once}
use ncn_platform.Lb.Controller.Mode.{run_sweeps_mode, with_mode}
use ncn_platform.Lb.Controller.Startup.{startup_fails_over}

abbrev primary : Origin
primary = record {
  name = "ctrl-01";
  url = "https://ctrl/health";
  alt_url = "";
  host = "";
  priority = pos 1;
}

abbrev standby : Origin
standby = record {
  name = "pop-04";
  url = "https://pop/health";
  alt_url = "https://pop-public/health";
  host = "";
  priority = pos 2;
}

abbrev armed : Config
armed = record {
  mode = "armed";
  origins = standby ∷ primary ∷ [];
  interval_secs = pos 10;
  timeout_secs = pos 5;
  unhealthy_threshold = pos 2;
  healthy_threshold = pos 3;
  failover_script = "/etc/ncn-lb/failover.sh";
  status_addr = ":8090";
}

abbrev state : Origin → Bool → OriginState
state o up = record {
  origin = o;
  healthy = up;
  oks = 0;
  fails = 0;
  last_err = "";
  last_code = 200;
  last_check = "";
}

-- The primary is down, the standby is not known to be up, and nothing is latched.
abbrev primary_down : Controller
primary_down = record {
  cfg = armed;
  states = ("pop-04", state standby false) ∷ ("ctrl-01", state primary false) ∷ [];
  active = "ctrl-01";
  failing = false;
}

abbrev failed_over : Controller
failed_over = record primary_down { active = "pop-04"; failing = true }

abbrev watching : Controller
watching = record primary_down { cfg = record armed { mode = "observe" } }

abbrev all_up : Net
all_up u host = answered 200

abbrev all_down : Net
all_down u host = failed "timeout"

abbrev as_kept : MapOrder
as_kept l = l

abbrev round : Net → String → Round
round net now = record { net = net; visit = as_kept; now = now }

abbrev good : Probe
good = record { ok = true; code = 200; err = "" }

abbrev bad : Probe
bad = record { ok = false; code = 0; err = "timeout" }

abbrev no_files : String → Option FileInfo
no_files path = none

order : by_priority as_kept primary_down ≡ "ctrl-01" ∷ "pop-04" ∷ []
unfolding by_priority sort_by_priority insert_by_priority lookup priority_of keys
order = refl

abbrev to_standby : FailoverRun
to_standby = record { from = "ctrl-01"; to = "pop-04" }

reconcile_run_iff_example : ((reconcile as_kept primary_down).1 ≡ some to_standby) ↔ (
    (to_standby ≡ record { from = "ctrl-01"; to = "pop-04" })
    × (str_eq "armed" "armed" ≡ true)
    × (str_eq "ctrl-01" "" ≡ false)
    × (false ≡ false)
    × (is_healthy primary_down "ctrl-01" ≡ false)
    × (str_eq "pop-04" "" ≡ false))
reconcile_run_iff_example =
    reconcile_run_iff as_kept primary_down "ctrl-01" "pop-04" [] to_standby order

run_sweeps_latched_example :
    ((run_sweeps failed_over (round all_up "t1" ∷ round all_up "t2" ∷ [])).0.active ≡ "pop-04")
    × ((run_sweeps failed_over (round all_up "t1" ∷ round all_up "t2" ∷ [])).0.failing ≡ true)
    × ((run_sweeps failed_over (round all_up "t1" ∷ round all_up "t2" ∷ [])).1 ≡ [])
run_sweeps_latched_example =
    run_sweeps_latched failed_over (round all_up "t1" ∷ round all_up "t2" ∷ []) (refl, refl)

-- One bad probe between good ones, with an unhealthy threshold of 2.
blip_short :
    leb_ℤ armed.unhealthy_threshold
      (longest_bad_run (("t3", good) ∷ ("t2", bad) ∷ ("t1", good) ∷ []))
    ≡ false
unfolding longest_bad_run bad_run
blip_short = refl

start_order : by_priority as_kept (new_controller armed) ≡ "ctrl-01" ∷ "pop-04" ∷ []
unfolding by_priority sort_by_priority insert_by_priority lookup priority_of keys new_controller
    add_origins insert fresh_state
start_order = refl

startup_fails_over_example :
    ((run_sweeps (new_controller armed) (round all_up "t1" ∷ round all_up "t2" ∷ [])).0.active
      ≡ "pop-04")
    × ((run_sweeps (new_controller armed) (round all_up "t1" ∷ round all_up "t2" ∷ [])).0.failing
        ≡ true)
startup_fails_over_example =
    startup_fails_over armed (round all_up "t1") (round all_up "t2") "ctrl-01" "ctrl-01" "pop-04"
      ("pop-04" ∷ []) [] start_order start_order refl refl refl

run_sweeps_once_example :
    length (run_sweeps primary_down (round all_down "t1" ∷ round all_up "t2" ∷ [])).1 ≤ 1
run_sweeps_once_example =
    run_sweeps_once primary_down (round all_down "t1" ∷ round all_up "t2" ∷ [])

run_probes_healthy_example :
    (run_probes armed (fresh_state primary) (("t2", good) ∷ ("t1", good) ∷ [])).healthy ≡ (
      (run_probes armed (fresh_state primary) (("t1", good) ∷ [])).healthy
      || leb_ℤ armed.healthy_threshold (good_run (("t2", good) ∷ ("t1", good) ∷ [])))
run_probes_healthy_example = run_probes_healthy armed primary "t2" good (("t1", good) ∷ [])

run_sweeps_mode_example :
    (run_sweeps (with_mode "observe" primary_down) (round all_down "t1" ∷ [])).0
    ≡ with_mode "observe" (run_sweeps primary_down (round all_down "t1" ∷ [])).0
run_sweeps_mode_example = run_sweeps_mode "observe" primary_down (round all_down "t1" ∷ [])

load_config-IsValid_example : IsValid no_files (load_config no_files (parsed armed))
load_config-IsValid_example = load_config-IsValid no_files (parsed armed)
