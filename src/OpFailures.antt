-- ===== src/OpFailures.antt =====
-- core-console/backend/opfailures.go: the log of failed actions and the choice which are notified, as it
-- runs without the database: the ring in memory. Times are seconds, and a call reads the clock once.
pub mod Quiet
pub mod Signature
mod Tests
use ncn_platform.Base.{
  ℕ, zero, ◌+◌, ◌-◌, ◌*◌, ◌==◌, ltb, leb, Bool, true, false, not, ◌&&◌, ◌||◌, List, [], ◌∷◌, ◌++◌,
  Option, none, some, String, str_eq, text_append, if◌then◌else◌, keep, length, drop, ℤ,
}
use ncn_platform.Base.Dict.{Dict, lookup, insert, delete}
use ncn_platform.Base.Keyed.{find, put}

abbrev pub op_failure_cap : ℕ
op_failure_cap = 100

-- `opNotifyDedupWindow` in seconds.
abbrev pub op_notify_dedup_window : ℕ
op_notify_dedup_window = 1800

pub record OpFailure : Type 0 where
  pub id : String
  pub kind : String
  pub target : String
  pub actor : String
  pub reason : String
  pub at : ℕ
  pub status : String
  pub mesh_targets : List String
  pub mesh_transports : Dict String
  pub mesh_region : ℤ

abbrev pub failure_id : OpFailure → String
failure_id f = f.id

pub op_kind_label : String → String
op_kind_label kind =
    if str_eq kind "mesh-apply"
    then "mesh apply"
    else if str_eq kind "onboard"
    then "onboard / provision"
    else kind

unfoldable pub add : OpFailure → List OpFailure → List OpFailure
add f ring =
    let grown = ring ++ f ∷ [] in
    if ltb op_failure_cap (length grown) then drop (length grown - op_failure_cap) grown else grown

pub get : String → List OpFailure → Option OpFailure
get id ring = find failure_id id ring

-- `sort.Slice` by `At >`. Of two with one time it leaves the order open.
insert_latest : OpFailure → List OpFailure → List OpFailure
insert_latest f [] = f ∷ []
insert_latest f (g ∷ rest) = if ltb f.at g.at then g ∷ insert_latest f rest else f ∷ g ∷ rest

sort_latest : List OpFailure → List OpFailure
unfolding insert_latest
sort_latest [] = []
sort_latest (f ∷ rest) = insert_latest f (sort_latest rest)

abbrev pub is_open : OpFailure → Bool
is_open f = str_eq f.status "open"

pub list_snapshot : Bool → List OpFailure → List OpFailure
unfolding sort_latest
list_snapshot open_only ring = sort_latest (keep (λ f. not (open_only && not (is_open f))) ring)

dismiss_found : String → Option OpFailure → List OpFailure → List OpFailure × Bool
dismiss_found id none ring = (ring, false)
dismiss_found id (some f) ring = (put failure_id id (record f { status = "dismissed" }) ring, true)

unfoldable pub dismiss : String → List OpFailure → List OpFailure × Bool
unfolding dismiss_found
dismiss id ring = dismiss_found id (find failure_id id ring) ring

unfoldable pub open_count : List OpFailure → ℕ
open_count ring = length (keep is_open ring)

-- The loop that drops the signatures completed long ago.
unfoldable pub prune : ℕ → Dict ℕ → Dict ℕ
prune now [] = []
prune now ((sig, t) ∷ rest) =
    let pruned = prune now rest in
    if ltb (t + 4 * op_notify_dedup_window) now then delete sig pruned else (sig, t) ∷ pruned

abbrev pub due : ℕ → Option ℕ → Bool
due now none = true
due now (some last) = leb (last + op_notify_dedup_window) now

abbrev pub signature : OpFailure → String
signature f = text_append f.kind (text_append "|" (text_append f.target (text_append "|" f.reason)))

-- `opFailureShouldNotify` on the signature: it is completed whether or not it is notified.
unfoldable pub should_notify : ℕ → String → Dict ℕ → Dict ℕ × Bool
should_notify now sig last = (prune now (insert sig now last), due now (lookup sig last))

pub record OpLog : Type 0 where
  pub ring : List OpFailure
  pub last : Dict ℕ

-- The ID, the time and the status that a failure without them gets.
unfoldable pub completed : ℕ → String → OpFailure → OpFailure
completed now new_id f = record f {
  id = if str_eq f.id "" then new_id else f.id;
  at = if f.at == 0 then now else f.at;
  status = if str_eq f.status "" then "open" else f.status;
}

-- `recordOpFailure`: the new log, and the failure that is handed to the triage, if it is.
unfoldable pub record_op_failure : ℕ → String → OpFailure → OpLog → OpLog × Option OpFailure
unfolding completed
record_op_failure now new_id f log =
    let g = completed now new_id f in
    let n = should_notify now (signature g) log.last in
    (record { ring = add g log.ring; last = n.0 }, (if n.1 then some g else none))
