-- ===== src/Lb/Controller/Failover.antt =====
-- The failover decision over any number of sweeps: when it is made, that it is latched, that the
-- script runs at most once, and that observe mode follows the same states.
use ncn_platform.Base.{
  ◌≤◌, ◌≡◌, refl, ◌↔◌, ◌⊎◌, inl, inr, true, false, List, [], ◌∷◌, Option, none, some, String,
  str_eq, arith, length,
}
use ncn_platform.Lb.Controller.{
  Controller, Round, MapOrder, FailoverRun, is_healthy, by_priority, reconcile_with, reconcile,
  sweep, sweep_states, run_sweeps, cons_run,
}

-- With a primary and a next origin in the order of priority, the script is started exactly when the
-- mode is armed, an active origin was chosen earlier, no failover is latched, the primary is not
-- healthy, and the next origin has a name; and whatever script is started, it is from the primary to
-- that origin.
pub reconcile_run_iff :
    (visit : MapOrder) (c : Controller) (primary target : String) (rest : List String)
    (run : FailoverRun)
    → by_priority visit c ≡ primary ∷ target ∷ rest
    → ((reconcile visit c).1 ≡ some run) ↔ (
        (run ≡ record { from = primary; to = target })
        × (str_eq c.cfg.mode "armed" ≡ true)
        × (str_eq c.active "" ≡ false)
        × (c.failing ≡ false)
        × (is_healthy c primary ≡ false)
        × (str_eq target "" ≡ false))
unfolding reconcile reconcile_with
reconcile_run_iff visit c primary target rest run e = rw e (ground arith)

abbrev pub IsLatched : Controller → Type 0
IsLatched c = (c.failing ≡ true) × (str_eq c.active "" ≡ false)

reconcile_with_latched :
    (l : List String) (c : Controller) → IsLatched c → reconcile_with l c ≡ (c, none)
unfolding reconcile_with
reconcile_with_latched [] c h = refl
reconcile_with_latched (p ∷ l) c h = rw (h.1, h.0)

-- Once a failover is latched, no number of sweeps, whatever the probes say, changes the active
-- origin, clears the latch or starts the script again.
pub run_sweeps_latched :
    (c : Controller) (rounds : List Round)
    → IsLatched c
    → ((run_sweeps c rounds).0.active ≡ c.active)
      × ((run_sweeps c rounds).0.failing ≡ true)
      × ((run_sweeps c rounds).1 ≡ [])
unfolding run_sweeps sweep reconcile
run_sweeps_latched c [] h = (refl, h.0, refl)
run_sweeps_latched c (r ∷ rounds) h =
    let c' = record c { states = sweep_states c.cfg r.net r.now c.states } in
    rw (reconcile_with_latched (by_priority r.visit c') c' h) (run_sweeps_latched c' rounds h)

-- A started script leaves the controller latched.
reconcile_with_starts :
    (l : List String) (c : Controller) (r : FailoverRun)
    → (reconcile_with l c).1 ≡ some r
    → IsLatched (reconcile_with l c).0
unfolding reconcile_with
reconcile_with_starts [] c r e = absurd (cc)
reconcile_with_starts (p ∷ l) c r e = ground arith

run_sweeps_cons :
    (c' : Controller) (r : Option FailoverRun) (rounds : List Round)
    → (r ≡ none) ⊎ IsLatched c'
    → length (run_sweeps c' rounds).1 ≤ 1
    → length (cons_run r (run_sweeps c' rounds).1) ≤ 1
run_sweeps_cons c' none rounds h k = k
run_sweeps_cons c' (some r) rounds (inl e) k = absurd (cc)
run_sweeps_cons c' (some r) rounds (inr l) k = rw ((run_sweeps_latched c' rounds l).2) (omega arith)

starts_or_none :
    (l : List String) (c : Controller)
    → ((reconcile_with l c).1 ≡ none) ⊎ IsLatched (reconcile_with l c).0
unfolding reconcile_with
starts_or_none [] c = inl refl
starts_or_none (p ∷ l) c = ground arith

-- Over any run of sweeps from any controller the failover script is started at most once.
pub run_sweeps_once : (c : Controller) (rounds : List Round) → length (run_sweeps c rounds).1 ≤ 1
unfolding run_sweeps sweep reconcile
run_sweeps_once c [] = omega arith
run_sweeps_once c (r ∷ rounds) =
    let c' = record c { states = sweep_states c.cfg r.net r.now c.states } in
    run_sweeps_cons (reconcile_with (by_priority r.visit c') c').0
      (reconcile_with (by_priority r.visit c') c').1 rounds
      (starts_or_none (by_priority r.visit c') c')
      (run_sweeps_once (reconcile_with (by_priority r.visit c') c').0 rounds)
