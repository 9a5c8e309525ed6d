-- ===== src/OpFailures/Quiet.antt =====
-- Which failures are notified: those with no like in the half hour before, notified or not.
use mathlib.Core.Option.{some-injective}
use ncn_platform.Base.{
  append-[], append-append, subst, ℕ, ◌+◌, ◌*◌, ◌≤◌, ltb, Bool, true, false, not, ◌&&◌, ◌||◌, List,
  [], ◌∷◌, ◌++◌, Option, none, some, String, str_eq, ◌≡◌, refl, sym, ap, ap₂, ◌∙◌, All, map,
  if◌then◌else◌, any, any-append, arith,
}
use ncn_platform.Base.Dict.{Dict, lookup, insert, lookup-insert, lookup-delete}
use ncn_platform.OpFailures.Signature.{Barless, same_failure, signature-same_failure}
use ncn_platform.OpFailures.{
  OpFailure, OpLog, completed, record_op_failure, signature, op_notify_dedup_window, prune, due,
  should_notify,
}

-- The stamp as long as it is not old.
abbrev not_old : ℕ → Option ℕ → Option ℕ
not_old now none = none
not_old now (some t) = if ltb (t + 4 * op_notify_dedup_window) now then none else some t

lookup-prune :
    (now : ℕ) (sig : String) (d : Dict ℕ) → lookup sig (prune now d) ≡ not_old now (lookup sig d)
unfolding lookup prune
lookup-prune now sig [] = refl
lookup-prune now sig ((at, t) ∷ rest) =
    ground (arith, lookup-prune now sig rest, lookup-delete at sig (prune now rest))

-- The calls in their order, each with its time and signature.
unfoldable pub run_notify : List (ℕ × String) → Dict ℕ → Dict ℕ
run_notify [] d = d
run_notify ((now, sig) ∷ calls) d = run_notify calls (should_notify now sig d).0

-- A call of the signature less than the window before.
abbrev pub is_repeat : ℕ → String → ℕ × String → Bool
is_repeat now sig c = str_eq c.1 sig && ltb now (c.0 + op_notify_dedup_window)

-- The times do not go back, and none is after the last one.
abbrev pub Timed : ℕ → List (ℕ × String) → ℕ → Type 0
Timed from [] last = from ≤ last
Timed from ((now, sig) ∷ calls) last = (from ≤ now) × Timed now calls last

-- What the stamps say of the calls so far: whether each signature had a call in the window before, and
-- that no stamp is later than now.
record Tracks (past : List (ℕ × String)) (d : Dict ℕ) (now : ℕ) : Type 0 where
  told :
      (sig : String) (at : ℕ) → now ≤ at → any (is_repeat at sig) past ≡ not (due at (lookup sig d))
  bounded : (sig : String) (t : ℕ) → lookup sig d ≡ some t → t ≤ now

step_told :
    (now at : ℕ) (same before : Bool) (o : Option ℕ)
    → now ≤ at
    → ((t : ℕ) → o ≡ some t → t ≤ now)
    → before ≡ not (due at o)
    → (before || (same && ltb at (now + op_notify_dedup_window)))
      ≡ not (due at (not_old now (if same then some now else o)))
step_told now at true before none k b h = ground (arith, k, h)
step_told now at false before none k b h = ground (arith, k, h)
step_told now at true before (some s) k b h = ground (arith, k, h, b s refl)
step_told now at false before (some s) k b h = ground (arith, k, h, b s refl)

not_old-some : (now t : ℕ) (o : Option ℕ) → not_old now o ≡ some t → o ≡ some t
not_old-some now t none e = e
not_old-some now t (some s) e = ground arith

-- The stamp of a signature after a call of another or the same.
stamp-after :
    (now : ℕ) (sig at : String) (d : Dict ℕ)
    → lookup at (should_notify now sig d).0
      ≡ not_old now (if str_eq sig at then some now else lookup at d)
unfolding should_notify
stamp-after now sig at d =
    lookup-prune now at (insert sig now d) ∙ ap (not_old now) (lookup-insert sig at now d)

stamp_bound :
    (from now t : ℕ) (same : Bool) (o : Option ℕ)
    → from ≤ now
    → ((t : ℕ) → o ≡ some t → t ≤ from)
    → (if same then some now else o) ≡ some t
    → t ≤ now
stamp_bound from now t true o k b e = omega (arith, some-injective now t e)
stamp_bound from now t false o k b e = omega (arith, b t e, k)

step-Tracks :
    (past : List (ℕ × String)) (d : Dict ℕ) (from now : ℕ) (sig : String)
    → from ≤ now
    → Tracks past d from
    → Tracks (past ++ (now, sig) ∷ []) (should_notify now sig d).0 now
step-Tracks past d from now sig k tr = record {
  told = λ at later h.
      any-append (is_repeat later at) past ((now, sig) ∷ [])
      ∙ ap (λ x. any (is_repeat later at) past || x)
          (last (str_eq sig at && ltb later (now + op_notify_dedup_window)))
      ∙ step_told now later (str_eq sig at) (any (is_repeat later at) past) (lookup at d) h
          (λ t e. omega (arith, tr.bounded at t e, k)) (tr.told at later (omega (arith, k, h)))
      ∙ ap (λ o. not (due later o)) (sym (stamp-after now sig at d));
  bounded = λ at t e. stamp_bound from now t (str_eq sig at) (lookup at d) k (tr.bounded at) (
      not_old-some now t (if str_eq sig at then some now else lookup at d)
        (sym (stamp-after now sig at d) ∙ e));
}
  where
    last : (b : Bool) → (b || false) ≡ b
    last b = ground arith

run-Tracks :
    (past calls : List (ℕ × String)) (d : Dict ℕ) (from last : ℕ)
    → Timed from calls last
    → Tracks past d from
    → Tracks (past ++ calls) (run_notify calls d) last
unfolding run_notify
run-Tracks past [] d from last k tr =
    subst (λ l. Tracks l d last) (sym (append-[] past))
      (record {
        told = λ sig at h. tr.told sig at (omega (arith, k, h));
        bounded = λ sig t e. omega (arith, tr.bounded sig t e, k);
      })
run-Tracks past ((now, sig) ∷ calls) d from last k tr =
    subst (λ l. Tracks l (run_notify calls (should_notify now sig d).0) last)
      (append-append past (now, sig) calls)
      (run-Tracks (past ++ (now, sig) ∷ []) calls (should_notify now sig d).0 now last k.1
        (step-Tracks past d from now sig k.0 tr))

-- After any calls whose times do not go back, the answer for a signature is yes exactly if no call with it
-- came less than half an hour before, whatever that one was answered.
should_notify-run_notify :
    (calls : List (ℕ × String)) (now : ℕ) (sig : String)
    → Timed 0 calls now
    → (should_notify now sig (run_notify calls [])).1 ≡ not (any (is_repeat now sig) calls)
unfolding should_notify lookup
should_notify-run_notify calls now sig h =
    twice (due now (lookup sig (run_notify calls [])))
    ∙ ap not (sym ((run-Tracks [] calls [] 0 now h none_yet).told sig now (omega arith)))
  where
    twice : (b : Bool) → b ≡ not (not b)
    twice b = ground arith

    not-none : (t : ℕ) → none ≡ some t → ⊥
    not-none t e = cc

    none_yet : Tracks [] [] 0
    none_yet = record { told = λ sig at h. refl; bounded = λ sig t e. absurd (not-none t e) }

pub record FailureCall : Type 0 where
  pub now : ℕ
  pub new_id : String
  pub failure : OpFailure

-- The failures in their order.
unfoldable pub run_failures : List FailureCall → OpLog → OpLog
run_failures [] log = log
run_failures (c ∷ cs) log = run_failures cs (record_op_failure c.now c.new_id c.failure log).0

abbrev pub no_failures : OpLog
no_failures = record { ring = []; last = [] }

-- A failure with this kind, target and reason, less than half an hour before.
abbrev pub is_like : ℕ → OpFailure → FailureCall → Bool
is_like now f c = same_failure c.failure f && ltb now (c.now + op_notify_dedup_window)

-- The times do not go back, and none is after the last one.
abbrev pub InOrder : ℕ → List FailureCall → ℕ → Type 0
InOrder from [] last = from ≤ last
InOrder from (c ∷ cs) last = (from ≤ c.now) × InOrder c.now cs last

abbrev signed : FailureCall → ℕ × String
signed c = (c.now, signature c.failure)

InOrder-Timed :
    (from last : ℕ) (cs : List FailureCall) → InOrder from cs last → Timed from (map signed cs) last
InOrder-Timed from last [] h = h
InOrder-Timed from last (c ∷ cs) h = (h.0, InOrder-Timed c.now last cs h.1)

run_failures-last :
    (cs : List FailureCall) (log : OpLog)
    → (run_failures cs log).last ≡ run_notify (map signed cs) log.last
unfolding run_failures run_notify record_op_failure
run_failures-last [] log = refl
run_failures-last (c ∷ cs) log =
    run_failures-last cs (record_op_failure c.now c.new_id c.failure log).0

any-is_like :
    (now : ℕ) (f : OpFailure) (cs : List FailureCall)
    → Barless f
    → All (λ c. Barless c.failure) cs
    → any (is_repeat now (signature f)) (map signed cs) ≡ any (is_like now f) cs
any-is_like now f [] h a = refl
any-is_like now f (c ∷ cs) h a =
    ap₂ (λ x y. (x && ltb now (c.now + op_notify_dedup_window)) || y)
      (signature-same_failure c.failure f a.0 h) (any-is_like now f cs h a.1)

-- After any failures whose times do not go back, a failure is handed to the triage, with its ID, time and
-- status filled in, exactly if no failure with its kind, target and reason came less than half an hour
-- before it, be it handed on or not; where no kind and no target has a bar.
pub record_op_failure-run_failures :
    (cs : List FailureCall) (now : ℕ) (new_id : String) (f : OpFailure)
    → InOrder 0 cs now
    → Barless f
    → All (λ c. Barless c.failure) cs
    → (record_op_failure now new_id f (run_failures cs no_failures)).1
      ≡ (if any (is_like now f) cs then none else some (completed now new_id f))
unfolding record_op_failure
record_op_failure-run_failures cs now new_id f order h a =
    ap (λ l. if (should_notify now (signature f) l).1 then some (completed now new_id f) else none)
      (run_failures-last cs no_failures)
    ∙ ap (λ b. if b then some (completed now new_id f) else none)
        (should_notify-run_notify (map signed cs) now (signature f) (InOrder-Timed 0 now cs order)
          ∙ ap not (any-is_like now f cs h a))
    ∙ turned (any (is_like now f) cs)
  where
    turned :
        (b : Bool)
        → (if not b then some (completed now new_id f) else none)
          ≡ (if b then none else some (completed now new_id f))
    turned true = refl
    turned false = refl
