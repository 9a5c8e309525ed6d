-- ===== src/Lb/Controller/Health.antt =====
-- The thresholds of `sweep` against the history of an origin's probes, newest first.
use Prim.Native.Nat.{max}
use ncn_platform.Base.{
  ℕ, suc, ◌≤◌, ◌≡◌, refl, true, false, not, ◌&&◌, ◌||◌, List, [], ◌∷◌, String, arith, if◌then◌else◌,
  ℤ, leb_ℤ,
}
use ncn_platform.Lb.Config.{Origin, Config}
use ncn_platform.Lb.Controller.{OriginState, Probe, fresh_state, observe}

abbrev pub History : Type 0
History = List (String × Probe)

pub run_probes : Config → OriginState → History → OriginState
run_probes cfg st [] = st
run_probes cfg st ((now, p) ∷ h) = observe cfg now p (run_probes cfg st h)

-- How many of the latest probes in a row were good, and how many were bad.
unfoldable pub good_run : History → ℕ
good_run [] = 0
good_run ((_, p) ∷ h) = if p.ok then suc (good_run h) else 0

unfoldable pub bad_run : History → ℕ
bad_run [] = 0
bad_run ((_, p) ∷ h) = if p.ok then 0 else suc (bad_run h)

-- The longest row of bad probes anywhere in the history.
unfoldable pub longest_bad_run : History → ℕ
longest_bad_run [] = 0
longest_bad_run (e ∷ h) = max (bad_run (e ∷ h)) (longest_bad_run h)

counters :
    (cfg : Config) (st : OriginState) (h : History)
    → st.oks ≡ 0
    → st.fails ≡ 0
    → ((run_probes cfg st h).oks ≡ good_run h) × ((run_probes cfg st h).fails ≡ bad_run h)
unfolding run_probes good_run bad_run observe
counters cfg st [] a b = (a, b)
counters cfg st ((now, p) ∷ h) a b = ground (arith, counters cfg st h a b)

observe_healthy :
    (cfg : Config) (now : String) (p : Probe) (st : OriginState)
    → (observe cfg now p st).healthy ≡ (
        if p.ok
        then st.healthy || leb_ℤ cfg.healthy_threshold (suc st.oks)
        else st.healthy && not (leb_ℤ cfg.unhealthy_threshold (suc st.fails)))
unfolding observe
observe_healthy cfg now p st = ground arith

-- Of an origin watched from its fresh state: a good probe leaves it healthy exactly when it was
-- healthy or the good probes in a row now reach the healthy threshold; a bad probe leaves it
-- healthy exactly when it was healthy and the bad probes in a row stay below the unhealthy
-- threshold.
pub run_probes_healthy :
    (cfg : Config) (o : Origin) (now : String) (p : Probe) (h : History)
    → (run_probes cfg (fresh_state o) ((now, p) ∷ h)).healthy ≡ (
        if p.ok
        then (run_probes cfg (fresh_state o) h).healthy
          || leb_ℤ cfg.healthy_threshold (good_run ((now, p) ∷ h))
        else (run_probes cfg (fresh_state o) h).healthy
          && not (leb_ℤ cfg.unhealthy_threshold (bad_run ((now, p) ∷ h))))
unfolding run_probes good_run bad_run fresh_state
run_probes_healthy cfg o now p h = ground (
  arith,
  observe_healthy cfg now p (run_probes cfg (fresh_state o) h),
  counters cfg (fresh_state o) h refl refl,
)

leb_ℤ-mono : (x : ℤ) (m n : ℕ) → m ≤ n → leb_ℤ x n ≡ false → leb_ℤ x m ≡ false
leb_ℤ-mono x m n h k = ground arith

-- A healthy origin whose counters are at 0 stays healthy through every history in which no row of
-- bad probes is as long as the unhealthy threshold.
pub blip_stays_healthy :
    (cfg : Config) (st : OriginState) (h : History)
    → st.healthy ≡ true
    → st.oks ≡ 0
    → st.fails ≡ 0
    → leb_ℤ cfg.unhealthy_threshold (longest_bad_run h) ≡ false
    → (run_probes cfg st h).healthy ≡ true
unfolding run_probes longest_bad_run bad_run
blip_stays_healthy cfg st [] good a b short = good
blip_stays_healthy cfg st ((now, p) ∷ h) good a b short = ground (
  arith,
  observe_healthy cfg now p (run_probes cfg st h),
  counters cfg st h a b,
  leb_ℤ-mono cfg.unhealthy_threshold (longest_bad_run h) (longest_bad_run ((now, p) ∷ h)),
  leb_ℤ-mono cfg.unhealthy_threshold (bad_run ((now, p) ∷ h)) (longest_bad_run ((now, p) ∷ h)),
  blip_stays_healthy cfg st h good a b,
)
