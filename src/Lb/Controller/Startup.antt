-- ===== src/Lb/Controller/Startup.antt =====
-- The first sweeps after the start.
use ncn_platform.Base.{
  ℕ, suc, ◌≤◌, ◌≡◌, refl, true, false, List, [], ◌∷◌, none, some, String, str_eq, arith, All, leb_ℤ,
  ◌∙◌,
}
use ncn_platform.Base.Dict.{Dict, lookup, insert}
use ncn_platform.Lb.Config.{Origin, Config}
use ncn_platform.Lb.Controller.{
  OriginState, Controller, Net, Round, MapOrder, Probe, probe, observe, fresh_state, add_origins,
  new_controller, sweep_states, by_priority, is_healthy, reconcile_with, reconcile, sweep,
  run_sweeps,
}
use ncn_platform.Lb.Controller.Priority.{by_priority-sweep_states}

-- No origin has been counted good more than `n` times, and none is healthy.
abbrev Unproven : ℕ → Dict OriginState → Type 0
Unproven n = All (λ e. (e.1.healthy ≡ false) × (e.1.oks ≤ n))

lookup-Unproven :
    (n : ℕ) (k : String) (m : Dict OriginState)
    → Unproven n m
    → elim (lookup k m) [ none ↦ false | some st ↦ st.healthy ] ≡ false
unfolding lookup
lookup-Unproven n k [] h = refl
lookup-Unproven n k ((j, st) ∷ m) h = ground (arith, lookup-Unproven n k m h.1)

insert-Unproven :
    (n : ℕ) (k : String) (st : OriginState) (m : Dict OriginState)
    → (st.healthy ≡ false) × (st.oks ≤ n)
    → Unproven n m
    → Unproven n (insert k st m)
unfolding insert
insert-Unproven n k st [] h u = (h, tt)
insert-Unproven n k st ((j, w) ∷ m) h u = ground (arith, insert-Unproven n k st m h u.1)

add_origins-Unproven :
    (os : List Origin) (m : Dict OriginState) → Unproven 0 m → Unproven 0 (add_origins os m)
unfolding add_origins fresh_state
add_origins-Unproven [] m u = u
add_origins-Unproven (o ∷ os) m u =
    add_origins-Unproven os (insert o.name (fresh_state o) m)
      (insert-Unproven 0 o.name (fresh_state o) m (refl, omega arith) u)

observe_unproven :
    (cfg : Config) (now : String) (p : Probe) (st : OriginState) (n : ℕ)
    → leb_ℤ cfg.healthy_threshold (suc n) ≡ false
    → (st.healthy ≡ false) × (st.oks ≤ n)
    → ((observe cfg now p st).healthy ≡ false) × ((observe cfg now p st).oks ≤ suc n)
unfolding observe
observe_unproven cfg now p st n h u = ground arith

sweep_states-Unproven :
    (cfg : Config) (net : Net) (now : String) (n : ℕ) (m : Dict OriginState)
    → leb_ℤ cfg.healthy_threshold (suc n) ≡ false
    → Unproven n m
    → Unproven (suc n) (sweep_states cfg net now m)
unfolding sweep_states
sweep_states-Unproven cfg net now n [] h u = tt
sweep_states-Unproven cfg net now n ((k, st) ∷ m) h u = (
  observe_unproven cfg now (probe net st.origin) st n h u.0,
  sweep_states-Unproven cfg net now n m h u.1,
)

-- The second sweep: an active origin was chosen, nothing is latched, and the primary has not yet
-- been found healthy.
second_sweep :
    (c : Controller) (r : Round) (primary target : String) (rest : List String)
    → by_priority r.visit c ≡ primary ∷ target ∷ rest
    → str_eq c.active "" ≡ false
    → str_eq target "" ≡ false
    → c.failing ≡ false
    → leb_ℤ c.cfg.healthy_threshold 2 ≡ false
    → Unproven 1 c.states
    → ((sweep r c).0.active ≡ target) × ((sweep r c).0.failing ≡ true)
unfolding sweep reconcile reconcile_with is_healthy
second_sweep c r primary target rest order active named idle slow u =
    let c' = record c { states = sweep_states c.cfg r.net r.now c.states } in
    let order' = by_priority-sweep_states r.visit c r.net r.now ∙ order in
    let down =
      lookup-Unproven 2 primary c'.states
        (sweep_states-Unproven c.cfg r.net r.now 1 c.states slow u) in
    rw (order', active, idle, down, named) (ground arith)

first_sweep :
    (c : Controller) (r : Round) (primary : String) (rest : List String)
    → by_priority r.visit c ≡ primary ∷ rest
    → c.active ≡ ""
    → (sweep r c).0
      ≡ record c { states = sweep_states c.cfg r.net r.now c.states; active = primary }
unfolding sweep reconcile reconcile_with
first_sweep c r primary rest order none_yet =
    rw (by_priority-sweep_states r.visit c r.net r.now ∙ order, none_yet) refl

by_priority_active :
    (visit : MapOrder) (c : Controller) (a : String)
    → by_priority visit (record c { active = a }) ≡ by_priority visit c
unfolding by_priority
by_priority_active visit c a = refl

-- With a healthy threshold above 2, where the first sweep after the start sees a named origin first in
-- its order of priority and the second one a named origin second in its own, the second sweep latches a
-- failover to this one, whatever the probes of both sweeps answered, even if every probe of the primary
-- was good. The orders can differ where priorities are equal.
pub startup_fails_over :
    (cfg : Config) (r r' : Round) (first primary target : String) (others rest : List String)
    → by_priority r.visit (new_controller cfg) ≡ first ∷ others
    → by_priority r'.visit (new_controller cfg) ≡ primary ∷ target ∷ rest
    → str_eq first "" ≡ false
    → str_eq target "" ≡ false
    → leb_ℤ cfg.healthy_threshold 2 ≡ false
    → ((run_sweeps (new_controller cfg) (r ∷ r' ∷ [])).0.active ≡ target)
      × ((run_sweeps (new_controller cfg) (r ∷ r' ∷ [])).0.failing ≡ true)
unfolding run_sweeps new_controller
startup_fails_over cfg r r' first primary target others rest order order' named named' slow =
    let c = new_controller cfg in
    let swept = record c { states = sweep_states cfg r.net r.now c.states } in
    rw (first_sweep c r first others order refl) (
      second_sweep (record swept { active = first }) r' primary target rest
        (by_priority_active r'.visit swept first
          ∙ by_priority-sweep_states r'.visit c r.net r.now
          ∙ order')
        named named' refl slow
        (sweep_states-Unproven cfg r.net r.now 0 c.states (ground arith)
          (add_origins-Unproven cfg.origins [] tt)))
