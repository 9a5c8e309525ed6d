-- ===== src/Base/Dict.antt =====
-- Go's `map[string]V` as an association list. Its order stands for the order in which one `range`
-- over the map visits the entries, which Go leaves open.
use Prim.Native.String.{String}
use mathlib.Core.Path.{◌≡◌, refl, subst}
use mathlib.Core.Option.{Option, none, some, some-injective}
use mathlib.Core.Logic.{inl, inr}
use mathlib.Core.List.{List, [], ◌∷◌}
use native.Mathlib.Omega.{arith}
use text.Mathlib.Text.{◌==◌}
use text.Mathlib.TextEquality.{eq_iff}
use ncn_platform.Base.Tests.{if◌then◌else◌, Bool-cases}
use ncn_platform.Base.Lists.{All}

abbrev pub Dict {ℓ} : Type ℓ → Type ℓ
Dict V = List (String × V)

module _ {ℓ} {V : Type ℓ} where
  unfoldable pub lookup : String → Dict V → Option V
  lookup key [] = none
  lookup key ((at, x) ∷ rest) = if at == key then some x else lookup key rest

  unfoldable pub insert : String → V → Dict V → Dict V
  insert key x [] = (key, x) ∷ []
  insert key x ((at, y) ∷ rest) = if at == key then (key, x) ∷ rest else (at, y) ∷ insert key x rest

  -- `delete(m, k)`.
  unfoldable pub delete : String → Dict V → Dict V
  delete key [] = []
  delete key ((at, y) ∷ rest) = if at == key then delete key rest else (at, y) ∷ delete key rest

  pub lookup-insert :
      (key at : String) (x : V) (rest : Dict V)
      → lookup at (insert key x rest) ≡ (if key == at then some x else lookup at rest)
  unfolding lookup insert
  lookup-insert key at x [] = refl
  lookup-insert key at x ((from, y) ∷ rest) =
      ground (arith, eq_iff key at, eq_iff from key, eq_iff from at, lookup-insert key at x rest)

  pub lookup-delete :
      (key at : String) (rest : Dict V)
      → lookup at (delete key rest) ≡ (if key == at then none else lookup at rest)
  unfolding lookup delete
  lookup-delete key at [] = ground arith
  lookup-delete key at ((from, y) ∷ rest) =
      ground (arith, eq_iff key at, eq_iff from key, eq_iff from at, lookup-delete key at rest)

module _ {ℓ κ} {V : Type ℓ} (P : String × V → Type κ) where
  pub All-insert :
      (key : String) (x : V) (rest : Dict V) → P (key, x) → All P rest → All P (insert key x rest)
  unfolding insert
  All-insert key x [] h a = (h, tt)
  All-insert key x ((at, y) ∷ rest) h a = elim (Bool-cases (at == key)) [
    | inl e ↦ rw e (h, a.1)
    | inr e ↦ rw e (a.0, All-insert key x rest h a.1)
  ]

  pub All-delete : (key : String) (rest : Dict V) → All P rest → All P (delete key rest)
  unfolding delete
  All-delete key [] a = tt
  All-delete key ((at, y) ∷ rest) a = elim (Bool-cases (at == key)) [
    | inl e ↦ rw e (All-delete key rest a.1)
    | inr e ↦ rw e (a.0, All-delete key rest a.1)
  ]

  -- A value that is found stands under a key equal to the one looked for.
  pub All-lookup :
      (key : String) (x : V) (rest : Dict V)
      → All P rest
      → lookup key rest ≡ some x
      → (at : String) × (at ≡ key) × P (at, x)
  unfolding lookup
  All-lookup key x [] a e = cc
  All-lookup key x ((at, y) ∷ rest) a e = elim (Bool-cases (at == key)) [
    | inl t ↦ (at, (eq_iff at key).0 t, subst (λ x. P (at, x)) (some-injective y x (rw t at e)) a.0)
    | inr t ↦ All-lookup key x rest a.1 (rw t at e)
  ]
