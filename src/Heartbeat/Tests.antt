-- ===== src/Heartbeat/Tests.antt =====
-- A PoP that is down for one of three samples. The days are written as strokes, which sort as they do.
use ncn_platform.Base.{
  is_some, ℕ, zero, suc, ltb, true, false, List, [], ◌∷◌, none, some, String, text_less, ◌≡◌, refl,
  arith, length, keep, ◌+◌, ◌*◌, ◌/◌,
}
use ncn_platform.Base.Dict.{lookup, insert}
use ncn_platform.Heartbeat.{
  merged_store, no_database, new_heartbeat_store, load_saved, status_http_checks, HbComponent,
  HeartbeatStore, Reading, Floats, FleetEntry, today, record_all, fresh_store, sample, prune_days,
  record_day, record_found, record_reading, ensure_pop, define, pop_reads, anchor_latency,
}
use ncn_platform.Heartbeat.Summary.{
  HbComponentOut, days_out, sum_up, sum_down, uptime_of, component_out, summary,
}
use ncn_platform.Heartbeat.Count.{days_of}
use ncn_platform.Base.Keyed.{has, Distinct}
use ncn_platform.Heartbeat.Order.{Named, WellFormed, run_samples, run_samples-new_heartbeat_store}
use ncn_platform.Heartbeat.Uptime.{is_counted, component_out-record_all}

abbrev stroke : ℕ → String
stroke zero = ""
stroke (suc n) = String.◌∷◌ "a" (stroke n)

stroke-Sorts : (a b : ℕ) → text_less (stroke a) (stroke b) ≡ ltb a b
unfolding text_less
stroke-Sorts zero zero = refl
stroke-Sorts zero (suc b) = ground arith
stroke-Sorts (suc a) zero = ground arith
stroke-Sorts (suc a) (suc b) = ground (arith, stroke-Sorts a b)

-- Thousandths in place of floats.
abbrev thousandths : Floats ℕ
thousandths = record {
  nought = 0;
  plus = λ x y. x + y;
  over = λ x n. x / n;
  ratio = λ x n. x * 1000 / n;
}

abbrev checks : List (Reading ℕ)
checks =
    record { at = 8640000; name = "n1"; up = true; latency = 5 }
    ∷ record { at = 8640060; name = "n1"; up = false; latency = 0 }
    ∷ record { at = 8726400; name = "n1"; up = true; latency = 7 }
    ∷ []

abbrev start : HeartbeatStore ℕ
start = fresh_store thousandths ("n1" ∷ [])

start-defined : is_some (lookup "n1" start.components) ≡ true
unfolding lookup insert fresh_store define status_http_checks
start-defined = refl

start-fresh : days_of (lookup "n1" start.components) ≡ []
unfolding lookup insert fresh_store define status_http_checks
start-fresh = refl

component_out-record_all_example :
    (c : HbComponent ℕ) × (lookup "n1" (record_all stroke checks start).components ≡ some c)
    × ((component_out stroke thousandths 8726400 90 c).uptime
        ≡ uptime_of stroke thousandths
            (length (keep (is_counted true "n1" (today 8726400) 90) checks))
            (length (keep (is_counted false "n1" (today 8726400) 90) checks)))
component_out-record_all_example =
    component_out-record_all stroke 3652424 (λ a b h k. stroke-Sorts a b) thousandths "n1" 0 8726400
      90 checks start (omega arith) (omega arith) (omega arith) (omega arith) start-defined
      start-fresh

abbrev uptimes : List (HbComponentOut ℕ) → List ℕ
uptimes [] = []
uptimes (c ∷ cs) = c.uptime ∷ uptimes cs

-- Two of three checks were good: 666 thousandths.
two_thirds :
    uptimes (summary stroke thousandths 8726400 3 ("n1" ∷ []) (record_all stroke checks start))
    ≡ 666 ∷ 0 ∷ 0 ∷ 0 ∷ 0 ∷ []
unfolding summary component_out days_out sum_up sum_down lookup insert fresh_store define
    status_http_checks record_all record_reading record_found record_day prune_days text_less
two_thirds = refl

abbrev fleet : List (FleetEntry ℕ)
fleet =
    record { id = "n1"; cache = some (record { ok = true; probes = [] }) }
    ∷ record { id = "n2"; cache = none }
    ∷ record { id = "n3"; cache = some (record { ok = false; probes = [] }) }
    ∷ []

-- A node that was never scraped gets no component, and one that is not in the fleet any more is not shown.
sampled :
    uptimes (
      summary stroke thousandths 8726400 1
        ("n1" ∷ "n2" ∷ [])
        (sample stroke thousandths 8726400 fleet [] start))
    ≡ 1000 ∷ 0 ∷ 0 ∷ 0 ∷ 0 ∷ []
unfolding summary component_out days_out sum_up sum_down lookup insert fresh_store define
    status_http_checks record_all record_reading record_found record_day prune_days text_less sample
    ensure_pop pop_reads anchor_latency
sampled = refl

abbrev started : HeartbeatStore ℕ
started = merged_store thousandths ("n1" ∷ "n2" ∷ []) []

named : Named thousandths ("n1" ∷ "n2" ∷ [])
unfolding Distinct has status_http_checks
named = (refl, (refl, (refl, (refl, (refl, (refl, tt))))))

started-made :
    new_heartbeat_store thousandths true no_database none true ("n1" ∷ "n2" ∷ []) ≡ some started
unfolding new_heartbeat_store load_saved
started-made = refl

run_samples-new_heartbeat_store_example :
    WellFormed (run_samples stroke thousandths ((8726400, (fleet, checks)) ∷ []) started)
run_samples-new_heartbeat_store_example =
    run_samples-new_heartbeat_store thousandths stroke true true no_database none ("n1" ∷ "n2" ∷ [])
      started ((8726400, (fleet, checks)) ∷ []) named started-made
