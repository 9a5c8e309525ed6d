-- ===== src/Auth/Operator/Filing.antt =====
-- The map of operators is filed by username: what keeps it so, and that it is filled again from
-- its records.
use ncn_platform.Base.{
  append-[], append-append, false, List, [], ◌∷◌, ◌++◌, none, some, String, str_eq, ◌≡◌, refl, sym,
  ap, ◌∙◌, inl, inr, arith, eq_iff, eq_refl, Bool-cases, All, All-map,
}
use ncn_platform.Base.Dict.{lookup, insert, delete, lookup-insert, lookup-delete}
use ncn_platform.Auth.Operator.{OperatorRecord, Operators, Absent, Filed, records, fill_from}

-- A property that holds on when the record of one operator is changed, but not its name and its role:
-- nor its identities, or these too.
abbrev pub Editable : {K : Type 0} → (Operators K → Type 0) → Type 0
Editable {K} P =
    (name : String) (old op : OperatorRecord K) (ops : Operators K)
    → lookup name ops ≡ some old
    → op.username ≡ old.username
    → op.role ≡ old.role
    → op.external_identities ≡ old.external_identities
    → P ops
    → P (insert name op ops)

abbrev pub Rebindable : {K : Type 0} → (Operators K → Type 0) → Type 0
Rebindable {K} P =
    (name : String) (old op : OperatorRecord K) (ops : Operators K)
    → lookup name ops ≡ some old
    → op.username ≡ old.username
    → op.role ≡ old.role
    → P ops
    → P (insert name op ops)

module _ {K : Type 0} where
  pub Filed-insert :
      (name : String) (op : OperatorRecord K) (ops : Operators K)
      → op.username ≡ name
      → Filed ops
      → Filed (insert name op ops)
  unfolding Filed insert lookup
  Filed-insert name op [] e w = (e, refl, tt)
  Filed-insert name op ((at, x) ∷ rest) e w = elim (Bool-cases (str_eq at name)) [
    | inl t ↦ rw t (e, rw (sym ((eq_iff at name).0 t)) w.1, w.2)
    | inr t ↦ rw t (
      w.0,
      lookup-insert name at op rest ∙ ground (arith, w.1, eq_iff name at, eq_iff at name),
      Filed-insert name op rest e w.2,
    )
  ]

  pub Filed-delete : (name : String) (ops : Operators K) → Filed ops → Filed (delete name ops)
  unfolding Filed delete
  Filed-delete name [] w = tt
  Filed-delete name ((at, x) ∷ rest) w = elim (Bool-cases (str_eq at name)) [
    | inl t ↦ rw t (Filed-delete name rest w.2)
    | inr t ↦
        rw t (w.0, lookup-delete name at rest ∙ ground (arith, w.1), Filed-delete name rest w.2)
  ]

  pub lookup-Filed :
      (name : String) (op : OperatorRecord K) (ops : Operators K)
      → Filed ops
      → lookup name ops ≡ some op
      → op.username ≡ name
  unfolding Filed lookup
  lookup-Filed name op [] w e = cc
  lookup-Filed name op ((at, x) ∷ rest) w e =
      ground (arith, lookup-Filed name op rest w.2, eq_iff at name, w.0)

  pub entries-cons :
      (name : String) (op : OperatorRecord K) (rest ops : Operators K)
      → lookup name rest ≡ none
      → All (λ e. lookup e.0 rest ≡ some e.1) ops
      → All (λ e. lookup e.0 ((name, op) ∷ rest) ≡ some e.1) ops
  unfolding lookup
  entries-cons name op rest ops h a = All-map _ _ (λ e f. ground (arith, eq_iff name e.0)) ops a

  pub Filed-entries : (ops : Operators K) → Filed ops → All (λ e. lookup e.0 ops ≡ some e.1) ops
  unfolding Filed lookup
  Filed-entries [] w = tt
  Filed-entries ((name, op) ∷ rest) w =
      (ground (arith, eq_refl name), entries-cons name op rest rest w.1 (Filed-entries rest w.2))

  insert-Absent :
      (name : String) (op : OperatorRecord K) (ops : Operators K)
      → Absent name ops
      → insert name op ops ≡ ops ++ (name, op) ∷ []
  unfolding lookup insert
  insert-Absent name op [] a = refl
  insert-Absent name op ((at, x) ∷ rest) a = ground (arith, insert-Absent name op rest)

  lookup-append :
      (name at : String) (op : OperatorRecord K) (ops : Operators K)
      → Absent name ops
      → str_eq at name ≡ false
      → Absent name (ops ++ (at, op) ∷ [])
  unfolding lookup
  lookup-append name at op [] a h = rw h refl
  lookup-append name at op ((from, x) ∷ rest) a h = ground (arith, lookup-append name at op rest)

  Absent-All :
      (name : String) (op : OperatorRecord K) (done rest : Operators K)
      → Absent name rest
      → All (λ e. Absent e.0 done) rest
      → All (λ e. Absent e.0 (done ++ (name, op) ∷ [])) rest
  unfolding lookup
  Absent-All name op done [] a all = tt
  Absent-All name op done ((at, x) ∷ rest) a all = (
    lookup-append at name op done all.0 (ground (arith, eq_iff name at, eq_iff at name)),
    Absent-All name op done rest (ground arith) all.1,
  )

  fill_from-records :
      (done ops : Operators K)
      → Filed ops
      → All (λ e. Absent e.0 done) ops
      → fill_from done (records ops) ≡ done ++ ops
  unfolding Filed fill_from
  fill_from-records done [] w a = sym (append-[] done)
  fill_from-records done ((name, op) ∷ rest) w a =
      ap (λ k. fill_from (insert k op done) (records rest)) w.0
      ∙ ap (λ d. fill_from d (records rest)) (insert-Absent name op done a.0)
      ∙ fill_from-records (done ++ (name, op) ∷ []) rest w.2 (Absent-All name op done rest w.1 a.1)
      ∙ append-append done (name, op) rest

  none-All : (ops : Operators K) → All (λ e. Absent {K = K} e.0 []) ops
  unfolding lookup
  none-All [] = tt
  none-All (e ∷ ops) = (refl, none-All ops)

  pub fill_from-Filed :
      (l : List (OperatorRecord K)) (ops : Operators K) → Filed ops → Filed (fill_from ops l)
  unfolding fill_from
  fill_from-Filed [] ops w = w
  fill_from-Filed (op ∷ l) ops w =
      fill_from-Filed l (insert op.username op ops) (Filed-insert op.username op ops refl w)

  -- The map is filled from its own records as it was.
  pub fill_from_lem : (ops : Operators K) → Filed ops → fill_from [] (records ops) ≡ ops
  fill_from_lem ops w = fill_from-records [] ops w (none-All ops)
