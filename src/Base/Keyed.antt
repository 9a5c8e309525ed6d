-- ===== src/Base/Keyed.antt =====
-- A slice of entries with an ID: the loops of core-console/backend/alertrules.go and noderegistry.go over
-- it, which find, replace or remove the first entry of an ID.

use mathlib.Core.Option.{some-injective}
use ncn_platform.Base.{
  Bool, true, false, is_some, ◌||◌, List, [], ◌∷◌, ◌++◌, Option, none, some, String, str_eq, ◌≡◌,
  refl, subst, sym, ◌∙◌, inl, inr, if◌then◌else◌, any, All, Bool-cases, eq_iff, arith, if_cases,
}

module _ {A : Type 0} (key : A → String) where
  unfoldable pub has : String → List A → Bool
  has k xs = any (λ x. str_eq (key x) k) xs

  unfoldable pub find : String → List A → Option A
  find k [] = none
  find k (x ∷ xs) = if str_eq (key x) k then some x else find k xs

  -- `s.rules[i] = r` at the first entry of the ID.
  unfoldable pub put : String → A → List A → List A
  put k new [] = []
  put k new (x ∷ xs) = if str_eq (key x) k then new ∷ xs else x ∷ put k new xs

  -- `append(s.rules[:i], s.rules[i+1:]...)` at the first entry of the ID.
  unfoldable pub drop_first : String → List A → List A
  drop_first k [] = []
  drop_first k (x ∷ xs) = if str_eq (key x) k then xs else x ∷ drop_first k xs

  -- No two entries have one ID.
  unfoldable pub Distinct : List A → Type 0
  unfolding has
  Distinct [] = Unit
  Distinct (x ∷ xs) = (has (key x) xs ≡ false) × Distinct xs

  pub has-append :
      (k : String) (xs : List A) (y : A) → has k (xs ++ y ∷ []) ≡ (has k xs || str_eq (key y) k)
  unfolding has
  has-append k [] y = ground arith
  has-append k (x ∷ xs) y = ground (arith, has-append k xs y)

  pub Distinct-append :
      (xs : List A) (y : A) → has (key y) xs ≡ false → Distinct xs → Distinct (xs ++ y ∷ [])
  unfolding Distinct has
  Distinct-append [] y h d = (refl, tt)
  Distinct-append (x ∷ xs) y h d = (
    ground (arith, has-append (key x) xs y, eq_iff (key y) (key x), eq_iff (key x) (key y)),
    Distinct-append xs y (ground arith) d.1,
  )

  pub find-key : (k : String) (xs : List A) (x : A) → find k xs ≡ some x → key x ≡ k
  unfolding find
  find-key k [] x e = cc
  find-key k (y ∷ ys) x e = ground (arith, eq_iff (key y) k, find-key k ys x)

  pub find-All :
      (P : A → Type 0) (k : String) (xs : List A) (x : A) → All P xs → find k xs ≡ some x → P x
  unfolding find
  find-All P k [] x a e = cc
  find-All P k (y ∷ ys) x a e = elim (Bool-cases (str_eq (key y) k)) [
    | inl t ↦ subst P (some-injective y x (rw t at e)) a.0
    | inr t ↦ find-All P k ys x a.1 (rw t at e)
  ]

  pub has-put :
      (k j : String) (new : A) (xs : List A) → key new ≡ k → has j (put k new xs) ≡ has j xs
  unfolding has put
  has-put k j new [] e = refl
  has-put k j new (x ∷ xs) e = ground (arith, eq_iff (key x) k, has-put k j new xs e, e)

  pub put-Distinct :
      (k : String) (new : A) (xs : List A) → key new ≡ k → Distinct xs → Distinct (put k new xs)
  unfolding Distinct put
  put-Distinct k new [] e d = tt
  put-Distinct k new (x ∷ xs) e d = elim (Bool-cases (str_eq (key x) k)) [
    | inl t ↦ rw (t, e ∙ sym ((eq_iff (key x) k).0 t)) d
    | inr t ↦ rw t (has-put k (key x) new xs e ∙ d.0, put-Distinct k new xs e d.1)
  ]

  pub put-All :
      (P : A → Type 0) (k : String) (new : A) (xs : List A)
      → P new
      → All P xs
      → All P (put k new xs)
  unfolding put
  put-All P k new [] h a = tt
  put-All P k new (x ∷ xs) h a =
      if_cases (All P) (str_eq (key x) k) (new ∷ xs) (x ∷ put k new xs) (λ _. (h, a.1))
        (λ _. (a.0, put-All P k new xs h a.1))

  pub drop_first-All :
      (P : A → Type 0) (k : String) (xs : List A) → All P xs → All P (drop_first k xs)
  unfolding drop_first
  drop_first-All P k [] a = tt
  drop_first-All P k (x ∷ xs) a =
      if_cases (All P) (str_eq (key x) k) xs (x ∷ drop_first k xs) (λ _. a.1)
        (λ _. (a.0, drop_first-All P k xs a.1))

  pub has-drop_first :
      (k j : String) (xs : List A) → has j xs ≡ false → has j (drop_first k xs) ≡ false
  unfolding has drop_first
  has-drop_first k j [] h = refl
  has-drop_first k j (x ∷ xs) h = ground (arith, has-drop_first k j xs)

  pub has-drop_first-other :
      (k j : String) (xs : List A) → str_eq k j ≡ false → has j (drop_first k xs) ≡ has j xs
  unfolding has drop_first
  has-drop_first-other k j [] h = refl
  has-drop_first-other k j (x ∷ xs) h =
      ground (arith, has-drop_first-other k j xs h, eq_iff (key x) k, eq_iff (key x) j, eq_iff k j)

  pub drop_first-Distinct : (k : String) (xs : List A) → Distinct xs → Distinct (drop_first k xs)
  unfolding drop_first Distinct
  drop_first-Distinct k [] d = tt
  drop_first-Distinct k (x ∷ xs) d =
      if_cases Distinct (str_eq (key x) k) xs (x ∷ drop_first k xs) (λ _. d.1)
        (λ _. (has-drop_first k (key x) xs d.0, drop_first-Distinct k xs d.1))

  pub find-has : (k : String) (xs : List A) → is_some (find k xs) ≡ has k xs
  unfolding find has
  find-has k [] = refl
  find-has k (x ∷ xs) = ground (arith, find-has k xs)

  pub find-append :
      (k : String) (xs : List A) (y : A)
      → find k (xs ++ y ∷ [])
        ≡ (if has k xs then find k xs else if str_eq (key y) k then some y else none)
  unfolding find has
  find-append k [] y = refl
  find-append k (x ∷ xs) y = ground (arith, find-append k xs y)

  pub find-put :
      (k j : String) (new : A) (xs : List A)
      → key new ≡ k
      → has k xs ≡ true
      → find j (put k new xs) ≡ (if str_eq k j then some new else find j xs)
  unfolding find put has
  find-put k j new [] e h = cc
  find-put k j new (x ∷ xs) e h = ground (
    arith,
    eq_iff (key x) k,
    eq_iff (key x) j,
    eq_iff k j,
    eq_iff (key new) j,
    e,
    find-put k j new xs e,
  )

  pub not-has-find : (k : String) (xs : List A) → has k xs ≡ false → find k xs ≡ none
  unfolding find has
  not-has-find k [] h = refl
  not-has-find k (x ∷ xs) h = ground (arith, not-has-find k xs)

  pub find-drop_first :
      (k j : String) (xs : List A)
      → Distinct xs
      → find j (drop_first k xs) ≡ (if str_eq k j then none else find j xs)
  unfolding find drop_first Distinct
  find-drop_first k j [] d = ground arith
  find-drop_first k j (x ∷ xs) d = ground (
    arith,
    eq_iff (key x) k,
    eq_iff (key x) j,
    eq_iff k j,
    not-has-find (key x) xs d.0,
    find-drop_first k j xs d.1,
  )
