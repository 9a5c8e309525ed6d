-- ===== src/Lb/Controller.antt =====
-- core-console/lb/main.go: the health bookkeeping of one origin, the probe, the sweep, and the
-- failover decision. The HTTP client is a function from URL and Host header to its answer; one such
-- function stands for the answers of one sweep, and so does the order of the map. Log lines are left
-- out; the script that `runFailover` starts is the second part of a result.
pub mod Health
pub mod Failover
pub mod Priority
pub mod Startup
pub mod Mode
mod Tests
use ncn_platform.Base.{
  ℕ, suc, Bool, true, false, not, ◌&&◌, ◌||◌, List, [], ◌∷◌, Option, none, some, String, str_eq,
  ltb, leb, if◌then◌else◌, leb_ℤ, less_ℤ, ℤ, pos,
}
use ncn_platform.Base.Dict.{Dict, lookup, insert}
use ncn_platform.Lb.Config.{Origin, Config}

pub record OriginState : Type 0 where
  pub origin : Origin
  pub healthy : Bool
  pub oks : ℕ
  pub fails : ℕ
  pub last_err : String
  pub last_code : ℕ
  pub last_check : String

pub record Controller : Type 0 where
  pub cfg : Config
  pub states : Dict OriginState
  pub active : String
  pub failing : Bool

pub fresh_state : Origin → OriginState
fresh_state o = record {
  origin = o;
  healthy = false;
  oks = 0;
  fails = 0;
  last_err = "";
  last_code = 0;
  last_check = "";
}

-- `for i := range cfg.Origins { c.states[o.Name] = … }`: a later origin of the same name replaces
-- an earlier one.
add_origins : List Origin → Dict OriginState → Dict OriginState
unfolding fresh_state
add_origins [] m = m
add_origins (o ∷ os) m = add_origins os (insert o.name (fresh_state o) m)

pub new_controller : Config → Controller
unfolding add_origins
new_controller cfg = record {
  cfg = cfg;
  states = add_origins cfg.origins [];
  active = "";
  failing = false;
}

-- What one GET gives: an error, or a status code.
pub data Response : Type 0 where
  failed : String → Response
  answered : ℕ → Response

abbrev pub Net : Type 0
Net = String → String → Response

-- (healthy, status code, error text); no error is the empty text.
pub record Probe : Type 0 where
  pub ok : Bool
  pub code : ℕ
  pub err : String

abbrev of_response : Response → Probe
of_response (failed e) = record { ok = false; code = 0; err = e }
of_response (answered n) = record { ok = leb 200 n && ltb n 400; code = n; err = "" }

pub probe_url : Net → String → String → Probe
probe_url net u host = of_response (net u host)

pub probe : Net → Origin → Probe
unfolding probe_url
probe net o =
    let first = probe_url net o.url o.host in
    let second = probe_url net o.alt_url o.host in
    if first.ok || str_eq o.alt_url ""
    then first
    else if second.ok
    then record { ok = true; code = second.code; err = "" }
    else record { ok = false; code = first.code; err = first.err }

-- `st.OKs++` and the threshold test of the branch `if ok`.
count_ok : Config → OriginState → OriginState
count_ok cfg st =
    let n = suc st.oks in
    if not st.healthy && leb_ℤ cfg.healthy_threshold n
    then record st { oks = n; fails = 0; healthy = true }
    else record st { oks = n; fails = 0 }

-- `st.Fails++` and the threshold test of the other branch.
count_fail : Config → OriginState → OriginState
count_fail cfg st =
    let n = suc st.fails in
    if st.healthy && leb_ℤ cfg.unhealthy_threshold n
    then record st { fails = n; oks = 0; healthy = false }
    else record st { fails = n; oks = 0 }

-- The body of the loop in `sweep` once the probe is made.
pub observe : Config → String → Probe → OriginState → OriginState
unfolding count_ok count_fail
observe cfg now p st =
    let st' = record st { last_check = now; last_code = p.code; last_err = p.err } in
    if p.ok then count_ok cfg st' else count_fail cfg st'

pub sweep_states : Config → Net → String → Dict OriginState → Dict OriginState
sweep_states cfg net now [] = []
sweep_states cfg net now ((name, st) ∷ m) =
    (name, observe cfg now (probe net st.origin) st) ∷ sweep_states cfg net now m

-- The order in which `range` over the map gives the names at one sweep, which Go leaves open.
abbrev pub MapOrder : Type 0
MapOrder = List String → List String

pub keys : Dict OriginState → List String
keys [] = []
keys ((k, _) ∷ m) = k ∷ keys m

-- The names are those of the map, so `none` does not occur.
pub priority_of : Option OriginState → ℤ
priority_of none = pos 0
priority_of (some st) = st.origin.priority

abbrev pub prefers : Dict OriginState → String → String → Bool
prefers m a b = less_ℤ (priority_of (lookup b m)) (priority_of (lookup a m))

-- `sort.Slice` by `Priority <`. Which of two equal priorities comes first depends on the order in which
-- the names were visited.
pub insert_by_priority : Dict OriginState → String → List String → List String
unfolding priority_of
insert_by_priority m a [] = a ∷ []
insert_by_priority m a (b ∷ l) = if prefers m a b then b ∷ insert_by_priority m a l else a ∷ b ∷ l

pub sort_by_priority : Dict OriginState → List String → List String
unfolding insert_by_priority
sort_by_priority m [] = []
sort_by_priority m (a ∷ l) = insert_by_priority m a (sort_by_priority m l)

pub by_priority : MapOrder → Controller → List String
unfolding keys sort_by_priority
by_priority visit c = sort_by_priority c.states (visit (keys c.states))

-- `st := c.states[name]; st != nil && st.Healthy`.
pub is_healthy : Controller → String → Bool
is_healthy c name = elim (lookup name c.states) [ none ↦ false | some st ↦ st.healthy ]

-- The failover script started with the names of the primary and the standby.
pub record FailoverRun : Type 0 where
  pub from : String
  pub to : String

abbrev pub Result : Type 0
Result = Controller × Option FailoverRun

abbrev standby_of : List String → String
standby_of [] = ""
standby_of (name ∷ _) = name

-- The last part of `reconcileLocked`: the primary is not healthy.
fail_over : String → String → Controller → Result
fail_over primary target c =
    if str_eq target ""
    then (c, none)
    else let c' = record c { active = target; failing = true } in
      if str_eq c.cfg.mode "armed"
      then (c', some (record { from = primary; to = target }))
      else (c', none)

reconcile_with : List String → Controller → Result
unfolding fail_over is_healthy
reconcile_with [] c = (c, none)
reconcile_with (primary ∷ rest) c =
    if str_eq c.active ""
    then (record c { active = primary }, none)
    else if c.failing
    then (c, none)
    else if is_healthy c primary
    then (record c { active = primary }, none)
    else fail_over primary (standby_of rest) c

pub reconcile : MapOrder → Controller → Result
unfolding reconcile_with
reconcile visit c = reconcile_with (by_priority visit c) c

-- What one sweep meets: the answers of the origins, the order of the map and the time.
pub record Round : Type 0 where
  pub net : Net
  pub visit : MapOrder
  pub now : String

pub sweep : Round → Controller → Result
sweep r c = reconcile r.visit (record c { states = sweep_states c.cfg r.net r.now c.states })

-- The ticker's loop: one sweep for each round, with the scripts started, oldest first.
abbrev pub cons_run : Option FailoverRun → List FailoverRun → List FailoverRun
cons_run none rs = rs
cons_run (some r) rs = r ∷ rs

pub run_sweeps : Controller → List Round → Controller × List FailoverRun
run_sweeps c [] = (c, [])
run_sweeps c (r ∷ rounds) =
    let (c', s) = sweep r c in let (c'', ss) = run_sweeps c' rounds in (c'', cons_run s ss)
