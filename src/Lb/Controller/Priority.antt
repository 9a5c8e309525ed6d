-- ===== src/Lb/Controller/Priority.antt =====
-- The order of priority: it is sorted, it holds every visited name once, and a sweep does not change it.
use mathlib.Core.List.{Perm}
use mathlib.Core.List.Perm
use ncn_platform.Base.{
  ◌≡◌, refl, ap, ◌∙◌, inl, inr, true, false, List, [], ◌∷◌, String, arith, Bool-cases, All, ℤ,
  less_ℤ, str_eq,
}
use ncn_platform.Base.Dict.{Dict, lookup}
use ncn_platform.Lb.Config.{Config}
use ncn_platform.Lb.Controller.{
  OriginState, Controller, Net, Probe, MapOrder, probe, observe, sweep_states, sort_by_priority,
  insert_by_priority, keys, priority_of, prefers, by_priority,
}

less_ℤ-trans : (x y z : ℤ) → less_ℤ y x ≡ false → less_ℤ z y ≡ false → less_ℤ z x ≡ false
less_ℤ-trans x y z h k = ground arith

less_ℤ-asymm : (x y : ℤ) → less_ℤ y x ≡ true → less_ℤ x y ≡ false
less_ℤ-asymm x y h = ground arith

module _ (m : Dict OriginState) where
  -- No name stands behind one that it is preferred to.
  abbrev pub Sorted : List String → Type 0
  Sorted [] = Unit
  Sorted (a ∷ l) = All (λ b. prefers m a b ≡ false) l × Sorted l

  All-insert_by_priority {ℓ} :
      (P : String → Type ℓ) (a : String) (l : List String)
      → P a
      → All P l
      → All P (insert_by_priority m a l)
  unfolding insert_by_priority
  All-insert_by_priority P a [] h k = (h, k)
  All-insert_by_priority P a (b ∷ l) h k = elim (Bool-cases (prefers m a b)) [
    | inl t ↦ rw t (k.0, All-insert_by_priority P a l h k.1)
    | inr t ↦ rw t (h, k)
  ]

  All-prefers :
      (a b : String) (l : List String)
      → prefers m a b ≡ false
      → All (λ c. prefers m b c ≡ false) l
      → All (λ c. prefers m a c ≡ false) l
  All-prefers a b [] h k = tt
  All-prefers a b (c ∷ l) h k = (
    less_ℤ-trans (priority_of (lookup a m)) (priority_of (lookup b m)) (priority_of (lookup c m)) h
        k.0,
    All-prefers a b l h k.1,
  )

  insert_by_priority-Sorted :
      (a : String) (l : List String) → Sorted l → Sorted (insert_by_priority m a l)
  unfolding insert_by_priority
  insert_by_priority-Sorted a [] s = (tt, tt)
  insert_by_priority-Sorted a (b ∷ l) s = elim (Bool-cases (prefers m a b)) [
    | inl t ↦ rw t (
      All-insert_by_priority _ a l
          (less_ℤ-asymm (priority_of (lookup a m)) (priority_of (lookup b m)) t) s.0,
      insert_by_priority-Sorted a l s.1,
    )
    | inr t ↦ rw t ((t, All-prefers a b l t s.0), s)
  ]

  insert_by_priority-perm : (a : String) (l : List String) → Perm (insert_by_priority m a l) (a ∷ l)
  unfolding insert_by_priority
  insert_by_priority-perm a [] = Perm.refl _
  insert_by_priority-perm a (b ∷ l) = elim (Bool-cases (prefers m a b)) [
    | inl t ↦ rw t (Perm.trans (Perm.cons b (insert_by_priority-perm a l)) (Perm.swap a b l))
    | inr t ↦ rw t (Perm.refl _)
  ]

  -- Sorting by priority keeps exactly the given names, and puts no origin behind one whose priority
  -- number is larger.
  pub sort_by_priority_lem :
      (l : List String) → Sorted (sort_by_priority m l) × Perm (sort_by_priority m l) l
  unfolding sort_by_priority
  sort_by_priority_lem [] = (tt, Perm.refl _)
  sort_by_priority_lem (a ∷ l) =
      let ih = sort_by_priority_lem l in
      (
        insert_by_priority-Sorted a (sort_by_priority m l) ih.0,
        Perm.trans (insert_by_priority-perm a (sort_by_priority m l)) (Perm.cons a ih.1),
      )

observe-origin :
    (cfg : Config) (now : String) (p : Probe) (st : OriginState)
    → (observe cfg now p st).origin ≡ st.origin
unfolding observe
observe-origin cfg now p st = ground arith

module _ (cfg : Config) (net : Net) (now : String) where
  keys-sweep_states : (m : Dict OriginState) → keys (sweep_states cfg net now m) ≡ keys m
  unfolding keys sweep_states
  keys-sweep_states [] = refl
  keys-sweep_states ((k, a) ∷ m) = ap (λ r. k ∷ r) (keys-sweep_states m)

  priority-sweep_states :
      (name : String) (m : Dict OriginState)
      → priority_of (lookup name (sweep_states cfg net now m)) ≡ priority_of (lookup name m)
  unfolding lookup sweep_states priority_of
  priority-sweep_states name [] = refl
  priority-sweep_states name ((k, a) ∷ m) = elim (Bool-cases (str_eq k name)) [
    | inl t ↦ rw t (ap (λ o. o.priority) (observe-origin cfg now (probe net a.origin) a))
    | inr t ↦ rw t (priority-sweep_states name m)
  ]

  insert-sweep_states :
      (m : Dict OriginState) (a : String) (l : List String)
      → insert_by_priority (sweep_states cfg net now m) a l ≡ insert_by_priority m a l
  unfolding insert_by_priority
  insert-sweep_states m a [] = refl
  insert-sweep_states m a (b ∷ l) =
      rw (priority-sweep_states a m, priority-sweep_states b m, insert-sweep_states m a l) refl

  sort-sweep_states :
      (m : Dict OriginState) (l : List String)
      → sort_by_priority (sweep_states cfg net now m) l ≡ sort_by_priority m l
  unfolding sort_by_priority
  sort-sweep_states m [] = refl
  sort-sweep_states m (a ∷ l) =
      rw (sort-sweep_states m l) (insert-sweep_states m a (sort_by_priority m l))

-- For one order of the map, the order of priority is the same before and after the probes of a sweep.
pub by_priority-sweep_states :
    (visit : MapOrder) (c : Controller) (net : Net) (now : String)
    → by_priority visit (record c { states = sweep_states c.cfg net now c.states })
      ≡ by_priority visit c
unfolding by_priority
by_priority-sweep_states visit c net now =
    sort-sweep_states c.cfg net now c.states (visit (keys (sweep_states c.cfg net now c.states)))
    ∙ ap (λ l. sort_by_priority c.states (visit l)) (keys-sweep_states c.cfg net now c.states)
