-- ===== src/Oncall/Rota/Shifts.antt =====
-- The turns of the rotation.
use native.Mathlib.Nat.{mul-add-div_right, div-eq_of_lt}
use ncn_platform.Base.{
  ℕ, ◌+◌, ◌-◌, ◌*◌, ◌/◌, ◌%◌, ◌<◌, ◌≤◌, ◌≡◌, refl, ap, Option, String, arith, length, get_elem?, ℤ,
  pos, ◌∙◌,
}
use ncn_platform.Oncall.Rota.{OncallConfig, current_oncall, elapsed, day, or_empty, positive_period}

abbrev pub millisecond : ℕ
millisecond = 1000000

-- The longest duration of Go, in nanoseconds.
abbrev pub max_duration : ℕ
max_duration = 9223372036854775807

-- What the rounding of the floats leaves of a number of days: a duration of some whole days gives at
-- least these, and at most what a duration longer by a millisecond would.
abbrev pub Rounds : (ℤ → ℤ) → Type 0
Rounds days =
    (d : ℕ)
    → d ≤ max_duration
    → (m : ℕ) × (days (pos d) ≡ pos m) × (d / day ≤ m) × (m * day ≤ d + millisecond)

-- A number of days that starts within shift number `k`, and not after it.
days_in_shift :
    (k p r m : ℕ)
    → r + millisecond < p * day
    → ((k * p) * day + r) / day ≤ m
    → m * day ≤ (k * p) * day + r + millisecond
    → m / p ≡ k
days_in_shift k p r m h low high =
    ap (λ n. n / p) split
    ∙ mul-add-div_right (omega (arith, h)) k (m - k * p)
    ∙ rw (div-eq_of_lt short) (omega arith)
  where
    from : k * p ≤ m
    from = omega (arith, low)

    split : m ≡ k * p + (m - k * p)
    split = omega (arith, from)

    short : m - k * p < p
    short = omega (arith, h, high, from)

-- In shift number `k` from the start, of `period` days each, the operator at place `k` of the
-- rotation, counted round, is on call from the first moment of the shift until a millisecond before its
-- end, within Go's longest duration from the start; if the floats round the days of a duration by no more
-- than a millisecond, and not below the whole days.
pub current_oncall_shift :
    (parse : String → Option ℤ) (days : ℤ → ℤ) (cfg : OncallConfig) (now k r : ℕ)
    → Rounds days
    → elapsed (parse cfg.start_date) now ≡ pos ((k * positive_period cfg.period_days) * day + r)
    → (k * positive_period cfg.period_days) * day + r ≤ max_duration
    → r + millisecond < positive_period cfg.period_days * day
    → current_oncall parse days cfg now
      ≡ or_empty (get_elem? cfg.rotation (k % length cfg.rotation))
unfolding current_oncall
current_oncall_shift parse days cfg now k r rounds e most h =
    let p = positive_period cfg.period_days in
    let m = rounds ((k * p) * day + r) most in
    rw (e, m.1) (rw (days_in_shift k p r m.0 h m.2 m.3) refl)
