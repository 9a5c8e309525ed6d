-- ===== src/Auth/Devices/Bounds.antt =====
-- An operator's trusted devices are few, and those seen last are kept.
use mathlib.Core.Option.{some-injective}
use ncn_platform.Base.{
  ℕ, suc, zero, ◌-◌, ◌≤◌, Bool, List, [], ◌∷◌, ◌++◌, Option, none, some, String, ◌≡◌, refl, ltb,
  length, keep, length-keep-le, ap, ◌∙◌, not, ◌<◌, sym, subst, ◌==◌, trim_space, lt→ltb, str_eq,
  take, drop-All, length-drop, length-append, drop, All, All-map, arith, if_cases,
}
use ncn_platform.Base.Dict.{lookup, insert, lookup-insert}
use ncn_platform.Auth.Operator.{TrustedDevice, OperatorRecord, Operators, Bcrypt, Answer}
use ncn_platform.Auth.Devices.{
  change_at, bump, settle, cons_some, check_found, check_device_trust, TrustOutcome, match_index,
  revoke_found, revoke_device, seen_now, register_trusted_device, hash_of, insert_by_seen,
  sort_by_seen, cap_devices, max_trusted_devices, NewDevice, register_found, register_hashed,
  shifted, is_fresh,
}

-- Each entry was seen no later than those after it.
abbrev Ordered : List TrustedDevice → Type 0
Ordered [] = Unit
Ordered (d ∷ ds) = All (λ e. d.last_seen_at ≤ e.last_seen_at) ds × Ordered ds

insert_by_seen-All :
    (P : TrustedDevice → Type 0) (d : TrustedDevice) (ds : List TrustedDevice)
    → P d
    → All P ds
    → All P (insert_by_seen d ds)
unfolding insert_by_seen
insert_by_seen-All P d [] h a = (h, tt)
insert_by_seen-All P d (e ∷ es) h a =
    if_cases (All P) (ltb e.last_seen_at d.last_seen_at) _ _
      (λ _. (a.0, insert_by_seen-All P d es h a.1)) (λ _. (h, a))

insert_by_seen-Ordered :
    (d : TrustedDevice) (ds : List TrustedDevice) → Ordered ds → Ordered (insert_by_seen d ds)
unfolding insert_by_seen
insert_by_seen-Ordered d [] o = (tt, tt)
insert_by_seen-Ordered d (e ∷ es) o =
    if_cases Ordered (ltb e.last_seen_at d.last_seen_at) _ _
      (λ h. (
        insert_by_seen-All (λ x. e.last_seen_at ≤ x.last_seen_at) d es (ground arith) o.0,
        insert_by_seen-Ordered d es o.1,
      ))
      (λ h. (
        (
          ground arith,
          All-map (λ x. e.last_seen_at ≤ x.last_seen_at) (λ x. d.last_seen_at ≤ x.last_seen_at)
              (λ x k. ground arith) es o.0,
        ),
        o,
      ))

sort_by_seen-Ordered : (ds : List TrustedDevice) → Ordered (sort_by_seen ds)
unfolding sort_by_seen
sort_by_seen-Ordered [] = tt
sort_by_seen-Ordered (d ∷ ds) = insert_by_seen-Ordered d (sort_by_seen ds) (sort_by_seen-Ordered ds)

length-insert_by_seen :
    (d : TrustedDevice) (ds : List TrustedDevice) → length (insert_by_seen d ds) ≡ suc (length ds)
unfolding insert_by_seen
length-insert_by_seen d [] = refl
length-insert_by_seen d (e ∷ es) = ground (arith, length-insert_by_seen d es)

length-sort_by_seen : (ds : List TrustedDevice) → length (sort_by_seen ds) ≡ length ds
unfolding sort_by_seen
length-sort_by_seen [] = refl
length-sort_by_seen (d ∷ ds) =
    omega (arith, length-insert_by_seen d (sort_by_seen ds), length-sort_by_seen ds)

pub length-cap_devices : (ds : List TrustedDevice) → length (cap_devices ds) ≤ max_trusted_devices
unfolding cap_devices
length-cap_devices ds =
    ground (
      arith,
      length-drop (length ds - max_trusted_devices) (sort_by_seen ds),
      length-sort_by_seen ds,
    )

Ordered-split :
    (n : ℕ) (ds : List TrustedDevice)
    → Ordered ds
    → All (λ d. All (λ e. d.last_seen_at ≤ e.last_seen_at) (drop n ds)) (take n ds)
Ordered-split zero ds o = tt
Ordered-split (suc n) [] o = tt
Ordered-split (suc n) (d ∷ ds) o = (drop-All _ n ds o.0, Ordered-split n ds o.1)

length-shifted : (now : ℕ) (ds : List TrustedDevice) → length (shifted now ds) ≡ length ds
unfolding shifted
length-shifted now ds = omega (
  arith,
  length-append (keep (is_fresh now) ds) (drop (length (keep (is_fresh now) ds)) ds),
  length-drop (length (keep (is_fresh now) ds)) ds,
  length-keep-le (is_fresh now) ds,
)

length-cons_some :
    (n : ℕ) (d : TrustedDevice) (o : Option (List TrustedDevice)) (l : List TrustedDevice)
    → ((m : List TrustedDevice) → o ≡ some m → length m ≡ n)
    → cons_some d o ≡ some l
    → length l ≡ suc n
length-cons_some n d none l f e = cc
length-cons_some n d (some m) l f e =
    ap length (sym (some-injective (d ∷ m) l e)) ∙ ap suc (f m refl)

length-change_at :
    (f : TrustedDevice → TrustedDevice) (i : ℕ) (ds l : List TrustedDevice)
    → change_at f i ds ≡ some l
    → length l ≡ length ds
unfolding change_at
length-change_at f i [] l e = cc
length-change_at f zero (d ∷ ds) l e = ap length (sym (some-injective _ _ e))
length-change_at f (suc i) (d ∷ ds) l e =
    length-cons_some (length ds) d (change_at f i ds) l (λ m. length-change_at f i ds m) e

module _ {K : Type 0} where
  abbrev pub devices_of : Option (OperatorRecord K) → List TrustedDevice
  devices_of none = []
  devices_of (some op) = op.trusted_devices

  -- Every operator has at most as many trusted devices as the cap allows.
  abbrev pub Few : Operators K → Type 0
  Few ops = (name : String) → length (devices_of (lookup name ops)) ≤ max_trusted_devices

  Few-insert :
      (key : String) (op : OperatorRecord K) (ops : Operators K)
      → length op.trusted_devices ≤ max_trusted_devices
      → Few ops
      → Few (insert key op ops)
  Few-insert key op ops h f name = rw (lookup-insert key name op ops) (
      if_cases (λ o. length (devices_of o) ≤ max_trusted_devices) (str_eq key name) _ _ (λ _. h)
        (λ _. f name))

  register_found-Few :
      (p : Bool) (username : String) (d : TrustedDevice) (o : Option (OperatorRecord K))
      (ops : Operators K)
      → Few ops
      → Few (register_found p username d o ops).0
  unfolding register_found
  register_found-Few p username d none ops f = f
  register_found-Few p username d (some op) ops f =
      Few-insert username _ ops (length-cap_devices (op.trusted_devices ++ d ∷ [])) f

  register_hashed-Few :
      (p : Bool) (now : ℕ) (n : NewDevice) (username : String) (h id : Option String)
      (ops : Operators K)
      → Few ops
      → Few (register_hashed p now n username h id ops).0
  unfolding register_hashed
  register_hashed-Few p now n username none id ops f = f
  register_hashed-Few p now n username (some h) none ops f = f
  register_hashed-Few p now n username (some h) (some id) ops f =
      register_found-Few p username _ (lookup username ops) ops f

  bump-Few :
      (b : Bcrypt) (now : ℕ) (username : String) (op : OperatorRecord K)
      (o : Option (List TrustedDevice)) (ops : Operators K)
      → ((l : List TrustedDevice) → o ≡ some l → length l ≤ length op.trusted_devices)
      → length op.trusted_devices ≤ max_trusted_devices
      → Few ops
      → Few (bump b now username op o ops).0
  unfolding bump
  bump-Few b now username op none ops g h f =
      Few-insert username _ ops (omega (arith, length-shifted now op.trusted_devices, h)) f
  bump-Few b now username op (some l) ops g h f =
      Few-insert username _ ops (omega (arith, g l refl, h)) f

  settle-Few :
      (b : Bcrypt) (now : ℕ) (ip username : String) (op : OperatorRecord K) (o : Option ℕ)
      (ops : Operators K)
      → length op.trusted_devices ≤ max_trusted_devices
      → Few ops
      → Few (settle b now ip username op o ops).0
  unfolding settle
  settle-Few b now ip username op none ops h f =
      Few-insert username _ ops (omega (arith, length-shifted now op.trusted_devices, h)) f
  settle-Few b now ip username op (some i) ops h f =
      bump-Few b now username op _ ops
        (λ (l : List TrustedDevice)
            (e : change_at (seen_now now ip) i (keep (is_fresh now) op.trusted_devices) ≡ some l).
          omega (
            arith,
            length-change_at (seen_now now ip) i (keep (is_fresh now) op.trusted_devices) l e,
            length-keep-le (is_fresh now) op.trusted_devices,
          ))
        h f

  check_found-Few :
      (b : Bcrypt) (now : ℕ) (cookie ip username : String) (o : Option (OperatorRecord K))
      (ops : Operators K)
      → lookup username ops ≡ o
      → Few ops
      → Few (check_found b now cookie ip username o ops).0
  unfolding check_found
  check_found-Few b now cookie ip username none ops e f = f
  check_found-Few b now cookie ip username (some op) ops e f =
      if_cases (λ (r : Operators K × TrustOutcome). Few r.0) (length op.trusted_devices == 0) _ _
        (λ _. f)
        (λ _.
          settle-Few b now ip username op (match_index b now cookie op.trusted_devices) ops
            (subst (λ o. length (devices_of o) ≤ max_trusted_devices) e (f username)) f)

  revoke_found-Few :
      (p : Bool) (caller id : String) (o : Option (OperatorRecord K)) (ops : Operators K)
      → lookup caller ops ≡ o
      → Few ops
      → Few (revoke_found p caller id o ops).0
  unfolding revoke_found
  revoke_found-Few p caller id none ops e f = f
  revoke_found-Few p caller id (some op) ops e f =
      Few-insert caller _ ops
        (le_through _ _ (length-keep-le (λ d. not (str_eq d.id id)) op.trusted_devices)
          (subst (λ o. length (devices_of o) ≤ max_trusted_devices) e (f caller)))
        f
    where
      le_through : (m n : ℕ) → m ≤ n → n ≤ max_trusted_devices → m ≤ max_trusted_devices
      le_through m n a c = omega (arith, a, c)

  -- No operator has more trusted devices than the cap after a sign-in registered one, after a cookie
  -- was checked, a panic included, or after one was revoked, if none had before.
  pub devices-Few :
      (b : Bcrypt) (p : Bool) (now : ℕ) (n : NewDevice) (cookie ip username id : String)
      (ops : Operators K)
      → Few ops
      → Few (register_trusted_device b p now n username ops).0
        × Few (check_device_trust b now cookie ip username ops).0
        × Few (revoke_device p username id ops).0
  unfolding register_trusted_device check_device_trust revoke_device
  devices-Few b p now n cookie ip username id ops f = (
    register_hashed-Few p now n username (hash_of b n.token) n.id ops f,
    if_cases (λ (r : Operators K × TrustOutcome). Few r.0) (str_eq cookie "") _ _ (λ _. f)
        (λ _. check_found-Few b now cookie ip username _ ops refl f),
    if_cases (λ (r : Operators K × Answer). Few r.0) (str_eq (trim_space id) "") _ _ (λ _. f)
        (λ _. revoke_found-Few p username (trim_space id) _ ops refl f),
  )

-- Of more devices than the cap, those that are dropped were seen no later than each that stays.
pub cap_devices-latest :
    (ds : List TrustedDevice)
    → max_trusted_devices < length ds
    → All
        (λ d. All (λ e. d.last_seen_at ≤ e.last_seen_at) (cap_devices ds))
        (take (length ds - max_trusted_devices) (sort_by_seen ds))
unfolding cap_devices
cap_devices-latest ds h =
    rw (lt→ltb max_trusted_devices (length ds) h)
      (Ordered-split (length ds - max_trusted_devices) (sort_by_seen ds) (sort_by_seen-Ordered ds))
