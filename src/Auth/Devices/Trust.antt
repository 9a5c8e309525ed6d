-- ===== src/Auth/Devices/Trust.antt =====
-- Which devices are trusted, and where the check of a cookie panics.
use ncn_platform.Base.{
  ℕ, suc, zero, ◌≤◌, ◌<◌, Bool, true, false, not, ◌==◌, List, [], ◌∷◌, ◌++◌, Option, none, some,
  String, str_eq, ◌≡◌, refl, ap, ◌∙◌, if◌then◌else◌, length, keep, any, All, All-map, arith, ◌&&◌,
  ◌||◌,
}
use ncn_platform.Base.Dict.{lookup, insert}
use ncn_platform.Auth.Operator.{TrustedDevice, OperatorRecord, Operators, Bcrypt}
use ncn_platform.Auth.Devices.{
  is_fresh, trusted, panicked, suc_some, change_at, match_index, bump, settle, seen_now, cons_some,
  check_found, check_device_trust,
}

module _ (b : Bcrypt) (now : ℕ) (cookie : String) where
  -- The device of the cookie, seen within the time to live.
  abbrev trusts : TrustedDevice → Bool
  trusts d = is_fresh now d && b.compare_hash d.hash cookie

  index_step :
      (d : TrustedDevice) (ds : List TrustedDevice) (i : ℕ) (o : Option ℕ)
      → ((j : ℕ) → o ≡ some j → any trusts ds ≡ true)
      → (if not (is_fresh now d)
          then suc_some o
          else if b.compare_hash d.hash cookie
          then some 0
          else suc_some o)
        ≡ some i
      → (trusts d || any trusts ds) ≡ true
  index_step d ds i none f e = ground arith
  index_step d ds i (some j) f e = rw (f j refl) (ground arith)

  match_index-any :
      (i : ℕ) (ds : List TrustedDevice)
      → match_index b now cookie ds ≡ some i
      → any trusts ds ≡ true
  unfolding match_index
  match_index-any i [] e = cc
  match_index-any i (d ∷ ds) e =
      index_step d ds i (match_index b now cookie ds) (λ j. match_index-any j ds) e

  -- What the devices before the first match are not.
  match_index-first :
      (pre rest : List TrustedDevice) (d : TrustedDevice)
      → All (λ e. trusts e ≡ false) pre
      → trusts d ≡ true
      → match_index b now cookie (pre ++ d ∷ rest) ≡ some (length pre)
  unfolding match_index
  match_index-first [] rest d a h = ground arith
  match_index-first (e ∷ pre) rest d a h =
      rw (match_index-first pre rest d a.1 h) (ground (arith, a.0))

  keep-fresh :
      (pre l : List TrustedDevice)
      → All (λ e. is_fresh now e ≡ true) pre
      → keep (is_fresh now) (pre ++ l) ≡ pre ++ keep (is_fresh now) l
  keep-fresh [] l a = refl
  keep-fresh (e ∷ pre) l a = rw a.0 (ap (λ r. e ∷ r) (keep-fresh pre l a.1))

  keep-stale :
      (pre l : List TrustedDevice)
      → All (λ e. is_fresh now e ≡ false) pre
      → keep (is_fresh now) (pre ++ l) ≡ keep (is_fresh now) l
  keep-stale [] l a = refl
  keep-stale (e ∷ pre) l a = rw a.0 (keep-stale pre l a.1)

  change_at-out :
      (f : TrustedDevice → TrustedDevice) (i : ℕ) (l : List TrustedDevice)
      → length l ≤ i
      → change_at f i l ≡ none
  unfolding change_at
  change_at-out f i [] h = refl
  change_at-out f zero (d ∷ l) h = absurd (omega (arith, h))
  change_at-out f (suc i) (d ∷ l) h = ap (cons_some d) (change_at-out f i l (omega (arith, h)))

  change_at-middle :
      (f : TrustedDevice → TrustedDevice) (d : TrustedDevice) (pre l : List TrustedDevice)
      → change_at f (length pre) (pre ++ d ∷ l) ≡ some (pre ++ f d ∷ l)
  unfolding change_at
  change_at-middle f d [] l = refl
  change_at-middle f d (e ∷ pre) l = ap (cons_some e) (change_at-middle f d pre l)

  not-empty :
      (pre rest : List TrustedDevice) (d : TrustedDevice) → (length (pre ++ d ∷ rest) == 0) ≡ false
  not-empty [] rest d = ground arith
  not-empty (e ∷ pre) rest d = ground arith

  module _ {K : Type 0} (ip username : String) (op : OperatorRecord K) where
    -- The check reaches the loop, which finds the given index.
    check-index :
        (ops : Operators K) (pre rest : List TrustedDevice) (d : TrustedDevice)
        → str_eq cookie "" ≡ false
        → lookup username ops ≡ some op
        → op.trusted_devices ≡ pre ++ d ∷ rest
        → All (λ e. trusts e ≡ false) pre
        → trusts d ≡ true
        → check_device_trust b now cookie ip username ops
          ≡ bump b now username op
              (change_at (seen_now now ip) (length pre) (keep (is_fresh now) op.trusted_devices))
              ops
    unfolding check_device_trust check_found settle
    check-index ops pre rest d c f e a h =
        rw
          (
            c,
            f,
            ap (λ l. length l == 0) e ∙ not-empty pre rest d,
            ap (match_index b now cookie) e ∙ match_index-first pre rest d a h,
          )
          refl

    -- A sign-in with a cookie of a trusted device, before which none was seen too long ago or has the
    -- same token, is trusted; the record then says that this device was seen now, and has lost the
    -- devices after it that were seen too long ago.
    pub check_device_trust-trusted :
        (ops : Operators K) (pre rest : List TrustedDevice) (d : TrustedDevice)
        → str_eq cookie "" ≡ false
        → lookup username ops ≡ some op
        → op.trusted_devices ≡ pre ++ d ∷ rest
        → All (λ e. is_fresh now e ≡ true) pre
        → All (λ e. trusts e ≡ false) pre
        → trusts d ≡ true
        → check_device_trust b now cookie ip username ops ≡ (
          insert username
              (record op { trusted_devices = pre ++ seen_now now ip d ∷ keep (is_fresh now) rest })
              ops,
          trusted,
        )
    unfolding bump
    check_device_trust-trusted ops pre rest d c f e fresh a h =
        check-index ops pre rest d c f e a h
        ∙ ap (λ o. bump b now username op o ops)
            (ap (λ l. change_at (seen_now now ip) (length pre) (keep (is_fresh now) l)) e
              ∙ ap (change_at (seen_now now ip) (length pre))
                  (keep-fresh pre (d ∷ rest) fresh ∙ ap (λ l. pre ++ l) (kept d rest h))
              ∙ change_at-middle (seen_now now ip) d pre (keep (is_fresh now) rest))
      where
        kept :
            (d : TrustedDevice) (rest : List TrustedDevice)
            → trusts d ≡ true
            → keep (is_fresh now) (d ∷ rest) ≡ d ∷ keep (is_fresh now) rest
        kept d rest h = ground arith

    -- A sign-in with a cookie of a trusted device panics when more devices before it, all seen too
    -- long ago, than devices after it that were not: its index in the list before the pruning is out
    -- of the pruned list.
    pub check_device_trust-panicked :
        (ops : Operators K) (pre rest : List TrustedDevice) (d : TrustedDevice)
        → str_eq cookie "" ≡ false
        → lookup username ops ≡ some op
        → op.trusted_devices ≡ pre ++ d ∷ rest
        → All (λ e. is_fresh now e ≡ false) pre
        → trusts d ≡ true
        → length (keep (is_fresh now) rest) < length pre
        → (check_device_trust b now cookie ip username ops).1 ≡ panicked
    unfolding bump
    check_device_trust-panicked ops pre rest d c f e stale h few =
        ap (λ r. r.1)
          (check-index ops pre rest d c f e (All-map _ _ (λ x s. rw s refl) pre stale) h
            ∙ ap (λ o. bump b now username op o ops)
                (ap (λ l. change_at (seen_now now ip) (length pre) (keep (is_fresh now) l)) e
                  ∙ change_at-out (seen_now now ip) (length pre)
                      (keep (is_fresh now) (pre ++ d ∷ rest)) (out pre d rest stale h few)))
      where
        out :
            (pre : List TrustedDevice) (d : TrustedDevice) (rest : List TrustedDevice)
            → All (λ e. is_fresh now e ≡ false) pre
            → trusts d ≡ true
            → length (keep (is_fresh now) rest) < length pre
            → length (keep (is_fresh now) (pre ++ d ∷ rest)) ≤ length pre
        out pre d rest stale h few = rw (keep-stale pre (d ∷ rest) stale) (ground (arith, few, h))
