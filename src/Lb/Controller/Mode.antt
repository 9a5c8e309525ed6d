-- ===== src/Lb/Controller/Mode.antt =====
-- Observe mode against armed mode.
use ncn_platform.Base.{◌≡◌, refl, ap, ◌∙◌, false, List, [], ◌∷◌, none, String, str_eq, arith}
use ncn_platform.Base.Dict.{Dict}
use ncn_platform.Lb.Config.{Config}
use ncn_platform.Lb.Controller.{
  OriginState, Controller, Net, Round, Probe, probe, observe, sweep_states, by_priority,
  reconcile_with, reconcile, sweep, run_sweeps,
}

abbrev pub with_mode : String → Controller → Controller
with_mode m c = record c { cfg = record (c.cfg) { mode = m } }

observe_mode :
    (cfg : Config) (m now : String) (p : Probe) (st : OriginState)
    → observe (record cfg { mode = m }) now p st ≡ observe cfg now p st
unfolding observe
observe_mode cfg m now p st = refl

sweep_states_mode :
    (cfg : Config) (m : String) (net : Net) (now : String) (states : Dict OriginState)
    → sweep_states (record cfg { mode = m }) net now states ≡ sweep_states cfg net now states
unfolding sweep_states
sweep_states_mode cfg m net now [] = refl
sweep_states_mode cfg m net now ((k, st) ∷ states) =
    rw (observe_mode cfg m now (probe net st.origin) st) (
      ap (λ r. (k, observe cfg now (probe net st.origin) st) ∷ r)
        (sweep_states_mode cfg m net now states))

reconcile_with_mode :
    (l : List String) (m : String) (c : Controller)
    → (reconcile_with l (with_mode m c)).0 ≡ with_mode m (reconcile_with l c).0
unfolding reconcile_with
reconcile_with_mode [] m c = refl
reconcile_with_mode (p ∷ l) m c = ground arith

sweep_mode :
    (m : String) (r : Round) (c : Controller)
    → (sweep r (with_mode m c)).0 ≡ with_mode m (sweep r c).0
unfolding sweep reconcile by_priority
sweep_mode m r c = rw (sweep_states_mode c.cfg m r.net r.now c.states) (
    reconcile_with_mode
      (by_priority r.visit (record c { states = sweep_states c.cfg r.net r.now c.states })) m
      (record c { states = sweep_states c.cfg r.net r.now c.states }))

-- Over any run of sweeps the mode decides nothing but whether the script is started: with the mode
-- set to any text at the start, the run ends in the same controller with that mode.
pub run_sweeps_mode :
    (m : String) (c : Controller) (rounds : List Round)
    → (run_sweeps (with_mode m c) rounds).0 ≡ with_mode m (run_sweeps c rounds).0
unfolding run_sweeps
run_sweeps_mode m c [] = refl
run_sweeps_mode m c (r ∷ rounds) =
    ap (λ d. (run_sweeps d rounds).0) (sweep_mode m r c) ∙ run_sweeps_mode m (sweep r c).0 rounds

reconcile_with_observe :
    (l : List String) (c : Controller)
    → str_eq c.cfg.mode "armed" ≡ false
    → ((reconcile_with l c).1 ≡ none) × ((reconcile_with l c).0.cfg.mode ≡ c.cfg.mode)
unfolding reconcile_with
reconcile_with_observe [] c h = (refl, refl)
reconcile_with_observe (p ∷ l) c h = ground arith

sweep_observe :
    (r : Round) (c : Controller)
    → str_eq c.cfg.mode "armed" ≡ false
    → ((sweep r c).1 ≡ none) × ((sweep r c).0.cfg.mode ≡ c.cfg.mode)
unfolding sweep reconcile
sweep_observe r c h =
    reconcile_with_observe
      (by_priority r.visit (record c { states = sweep_states c.cfg r.net r.now c.states }))
      (record c { states = sweep_states c.cfg r.net r.now c.states }) h

-- A controller that is not armed starts no script in any run of sweeps.
pub run_sweeps_observe :
    (c : Controller) (rounds : List Round)
    → str_eq c.cfg.mode "armed" ≡ false
    → (run_sweeps c rounds).1 ≡ []
unfolding run_sweeps
run_sweeps_observe c [] h = refl
run_sweeps_observe c (r ∷ rounds) h =
    let s = sweep_observe r c h in rw (s.0) (run_sweeps_observe (sweep r c).0 rounds (rw (s.1) h))
