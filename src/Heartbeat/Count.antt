-- ===== src/Heartbeat/Count.antt =====
-- core-console/backend/heartbeat.go: what `record` adds to the days of a component.
use ncn_platform.Base.{
  ℕ, ◌+◌, ◌-◌, ◌≤◌, ◌==◌, ltb, Bool, true, false, not, ◌&&◌, List, [], ◌∷◌, Option, none, some,
  String, str_eq, text_less, ◌≡◌, refl, sym, ap, ap₂, ◌∙◌, inl, inr, if◌then◌else◌, Bool-cases,
  eq_iff, arith, length, keep, is_some,
}
use ncn_platform.Base.Dict.{Dict, lookup, insert, lookup-insert, lookup-delete}
use ncn_platform.Heartbeat.{
  HbDay, HbComponent, HeartbeatStore, Reading, today, prune_days, found_day, tallied, record_day,
  with_reading, record_found, record_reading, record_all, heartbeat_retention_days,
}
use ncn_platform.Heartbeat.Summary.{up_of, down_of}

-- The days up to `last` are written such that their texts sort as they do.
abbrev pub Sorts : ℕ → (ℕ → String) → Type 0
Sorts last format = (a b : ℕ) → a ≤ last → b ≤ last → text_less (format a) (format b) ≡ ltb a b

-- The ups or the downs of a day.
abbrev pub tally : Bool → Option HbDay → ℕ
tally way d = if way then up_of d else down_of d

abbrev pub days_of : {F : Type 0} → Option (HbComponent F) → Dict HbDay
days_of none = []
days_of (some c) = c.days

-- The reading is of this component on this day, and it is up, or down.
abbrev pub is_reading : {F : Type 0} → Bool → String → ℕ → Reading F → Bool
is_reading way name n r =
    str_eq r.name name && (today r.at == n && (if way then r.up else not r.up))

lookup-prune_days :
    (key cutoff : String) (days : Dict HbDay)
    → lookup key (prune_days cutoff days) ≡ (if text_less key cutoff then none else lookup key days)
unfolding lookup prune_days
lookup-prune_days key cutoff [] = ground arith
lookup-prune_days key cutoff ((k, d) ∷ rest) = ground (
  arith,
  lookup-prune_days key cutoff rest,
  lookup-delete k key (prune_days cutoff rest),
  eq_iff k key,
)

tally-tallied :
    (way up : Bool) (day : String) (o : Option HbDay)
    → tally way (some (tallied up (found_day day o)))
      ≡ tally way o + (if (if way then up else not up) then 1 else 0)
tally-tallied true true day none = refl
tally-tallied true false day none = refl
tally-tallied false true day none = refl
tally-tallied false false day none = refl
tally-tallied true true day (some d) = omega arith
tally-tallied true false day (some d) = omega arith
tally-tallied false true day (some d) = omega arith
tally-tallied false false day (some d) = omega arith

not-none : false ≡ true → ⊥
not-none e = cc

-- The day that is counted is the one looked at, or another.
tally-if :
    (way up b : Bool) (day : String) (o from : Option HbDay)
    → (b ≡ true → from ≡ o)
    → tally way (if b then some (tallied up (found_day day from)) else o)
      ≡ tally way o + (if b && (if way then up else not up) then 1 else 0)
tally-if way up true day o from e =
    tally-tallied way up day from
    ∙ ap (λ x. tally way x + (if (if way then up else not up) then 1 else 0)) (e refl)
tally-if way up false day o from e = omega arith

module _ (format : ℕ → String) (last : ℕ) (sorts : Sorts last format) where
  format-injective : (a b : ℕ) → a ≤ last → b ≤ last → format a ≡ format b → a ≡ b
  format-injective a b h k e = ground (
    arith,
    sorts a b h k,
    sorts b a k h,
    sorts a a h h,
    ap (λ x. text_less x (format b)) e,
    ap (λ x. text_less (format a) x) e,
  )

  same_day : (a b : ℕ) → a ≤ last → b ≤ last → str_eq (format a) (format b) ≡ (a == b)
  same_day a b h k =
      ground
        (arith, eq_iff (format a) (format b), format-injective a b h k, ap format {x = a} {y = b})

  abbrev cutoff : ℕ → String
  cutoff now = format (today now - heartbeat_retention_days)

  abbrev counted : ℕ → Bool → Dict HbDay → HbDay
  counted now up days =
      tallied up (found_day (format (today now)) (lookup (format (today now)) days))

  cutoff-kept :
      (now n : ℕ)
      → today now ≤ last
      → n ≤ last
      → today now ≤ n + heartbeat_retention_days
      → text_less (format n) (cutoff now) ≡ false
  cutoff-kept now n h k w =
      sorts n (today now - heartbeat_retention_days) k (omega (arith, h)) ∙ ground (arith, w)

  tally-record_day :
      (way up : Bool) (now n : ℕ) (days : Dict HbDay)
      → today now ≤ last
      → n ≤ last
      → today now ≤ n + heartbeat_retention_days
      → tally way (lookup (format n) (record_day format now up days))
        ≡ tally way (lookup (format n) days)
          + (if today now == n && (if way then up else not up) then 1 else 0)
  unfolding record_day
  tally-record_day way up now n days h k w =
      ap (tally way) (
        lookup-prune_days (format n) (cutoff now)
          (insert (format (today now)) (counted now up days) days)
        ∙ ap
            (λ b.
              if b
              then none
              else lookup (format n) (insert (format (today now)) (counted now up days) days))
            (cutoff-kept now n h k w)
        ∙ lookup-insert (format (today now)) (format n) (counted now up days) days)
      ∙ tally-if way up (str_eq (format (today now)) (format n)) (format (today now))
          (lookup (format n) days) (lookup (format (today now)) days)
          (λ e. ap (λ key. lookup key days) ((eq_iff (format (today now)) (format n)).0 e))
      ∙ ap
          (λ b.
            tally way (lookup (format n) days)
            + (if b && (if way then up else not up) then 1 else 0))
          (same_day (today now) n h k)

module _ {F : Type 0} where
  -- The times do not go back, and none is after the last one.
  abbrev pub Timed : ℕ → List (Reading F) → ℕ → Type 0
  Timed from [] now = from ≤ now
  Timed from (r ∷ rs) now = (from ≤ r.at) × Timed r.at rs now

  Timed-le : (from now : ℕ) (rs : List (Reading F)) → Timed from rs now → from ≤ now
  Timed-le from now [] h = h
  Timed-le from now (r ∷ rs) h = omega (arith, h.0, Timed-le r.at now rs h.1)

module _ {F : Type 0} (format : ℕ → String) (last : ℕ) (sorts : Sorts last format) where
  abbrev pub day_count : Bool → String → ℕ → HeartbeatStore F → ℕ
  day_count way name n s = tally way (lookup (format n) (days_of (lookup name s.components)))

  tally-found :
      (way : Bool) (name : String) (n : ℕ) (r : Reading F) (cs : Dict (HbComponent F))
      (from : Option (HbComponent F))
      → today r.at ≤ last
      → n ≤ last
      → today r.at ≤ n + heartbeat_retention_days
      → is_some (lookup name cs) ≡ true
      → (str_eq r.name name ≡ true → from ≡ lookup name cs)
      → tally way (lookup (format n) (days_of (lookup name (record_found format r from cs))))
        ≡ tally way (lookup (format n) (days_of (lookup name cs)))
          + (if is_reading way name n r then 1 else 0)
  unfolding record_found
  tally-found way name n r cs none h k w def same = elim (Bool-cases (str_eq r.name name)) [
    | inl e ↦ absurd (not-none (ap is_some (same e) ∙ def))
    | inr e ↦ rw e (omega arith)
  ]
  tally-found way name n r cs (some c) h k w def same = elim (Bool-cases (str_eq r.name name)) [
    | inl e ↦
        ap (λ o. tally way (lookup (format n) (days_of o)))
          (lookup-insert r.name name (with_reading format r c) cs
            ∙ ap (λ b. if b then some (with_reading format r c) else lookup name cs) e)
        ∙ tally-record_day format last sorts way r.up r.at n c.days h k w
        ∙ ap₂
            (λ o b.
              tally way (lookup (format n) (days_of o))
              + (if b && (today r.at == n && (if way then r.up else not r.up)) then 1 else 0))
            (same e) (sym e)
    | inr e ↦
        ap (λ o. tally way (lookup (format n) (days_of o)))
          (lookup-insert r.name name (with_reading format r c) cs
            ∙ ap (λ b. if b then some (with_reading format r c) else lookup name cs) e)
        ∙ rw e (omega arith)
  ]

  is_some-record_found :
      (name : String) (r : Reading F) (from : Option (HbComponent F)) (cs : Dict (HbComponent F))
      → is_some (lookup name cs) ≡ true
      → is_some (lookup name (record_found format r from cs)) ≡ true
  unfolding record_found
  is_some-record_found name r none cs def = def
  is_some-record_found name r (some c) cs def =
      ground (arith, def, lookup-insert r.name name (with_reading format r c) cs)

  pub is_some-record_all :
      (name : String) (rs : List (Reading F)) (s : HeartbeatStore F)
      → is_some (lookup name s.components) ≡ true
      → is_some (lookup name (record_all format rs s).components) ≡ true
  unfolding record_all record_reading
  is_some-record_all name [] s def = def
  is_some-record_all name (r ∷ rs) s def =
      is_some-record_all name rs (record_reading format r s)
        (is_some-record_found name r (lookup r.name s.components) s.components def)

  -- Each reading of a day that is still kept is counted once, and nothing else is.
  pub tally-record_all :
      (way : Bool) (name : String) (n from now : ℕ) (rs : List (Reading F)) (s : HeartbeatStore F)
      → Timed from rs now
      → today now ≤ last
      → n ≤ today now
      → today now ≤ n + heartbeat_retention_days
      → is_some (lookup name s.components) ≡ true
      → day_count way name n (record_all format rs s)
        ≡ day_count way name n s + length (keep (is_reading way name n) rs)
  unfolding record_all record_reading
  tally-record_all way name n from now [] s t h k w def = omega arith
  tally-record_all way name n from now (r ∷ rs) s t h k w def =
      tally-record_all way name n r.at now rs (record_reading format r s) t.1 h k w
        (is_some-record_found name r (lookup r.name s.components) s.components def)
      ∙ ground (
        arith,
        tally-found way name n r s.components (lookup r.name s.components) (omega (arith, h, le))
            (omega (arith, h, k)) (omega (arith, w, le)) def
            (λ e. ap (λ key. lookup key s.components) ((eq_iff r.name name).0 e)),
      )
    where
      le : today r.at ≤ today now
      le = omega (arith, Timed-le r.at now rs t.1)
