-- ===== src/OpFailures/Tests.antt =====
-- A failure that comes back every twenty minutes is notified once.
use ncn_platform.Base.{none, some, if◌then◌else◌, ℕ, ◌≡◌, refl, arith, any, List, [], ◌∷◌, pos}
use ncn_platform.Base.Dict.{lookup, insert}
use ncn_platform.Base.Keyed.{find, put}
use ncn_platform.OpFailures.{
  OpFailure, should_notify, record_op_failure, add, prune, dismiss, open_count, completed,
}
use ncn_platform.OpFailures.Quiet.{
  FailureCall, run_failures, no_failures, is_like, record_op_failure-run_failures,
}

abbrev failure : OpFailure
failure = record {
  id = "";
  kind = "delete";
  target = "n1";
  actor = "ann";
  reason = "refused";
  at = 0;
  status = "";
  mesh_targets = [];
  mesh_transports = [];
  mesh_region = pos 0;
}

recorded :
    open_count (record_op_failure 1000 "f1" failure (record { ring = []; last = [] })).0.ring ≡ 1
unfolding open_count record_op_failure add
recorded = refl

settled :
    open_count
      (dismiss "f1"
        (record_op_failure 1000 "f1" failure (record { ring = []; last = [] })).0.ring).0
    ≡ 0
unfolding open_count record_op_failure add dismiss find put
settled = refl

abbrev again : ℕ → FailureCall
again now = record { now = now; new_id = "f"; failure = failure }

abbrev recurring : List FailureCall
recurring = again 1000 ∷ again 2200 ∷ again 3400 ∷ []

record_op_failure-run_failures_example :
    (record_op_failure 4600 "f4" failure (run_failures recurring no_failures)).1
    ≡ (if any (is_like 4600 failure) recurring then none else some (completed 4600 "f4" failure))
record_op_failure-run_failures_example =
    record_op_failure-run_failures recurring 4600 "f4" failure (omega arith) (refl, refl)
      ((refl, refl), ((refl, refl), ((refl, refl), tt)))

-- An hour after the first one no repeat has been notified.
still_quiet : (record_op_failure 4600 "f4" failure (run_failures recurring no_failures)).1 ≡ none
unfolding record_op_failure run_failures should_notify add prune lookup insert
still_quiet = refl
