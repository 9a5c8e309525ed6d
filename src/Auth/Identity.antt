-- ===== src/Auth/Identity.antt =====
-- core-console/backend/auth.go: the external identities bound to the operators, their picture and
-- their name for the bot.
pub mod Unique
pub mod Found
pub mod Edits
use Prim.Native.Char.{code}
use ncn_platform.Base.{
  ℕ, suc, zero, Bool, true, false, not, ◌&&◌, ◌||◌, ◌==◌, ltb, List, [], ◌∷◌, ◌++◌, Option, none,
  some, String, str_eq, if◌then◌else◌, any, keep, map, length, byte_length, trim_space, codes,
}
use ncn_platform.Base.Dict.{lookup, insert}
use ncn_platform.Auth.Operator.{ExternalIdentity, OperatorRecord, Operators, role_admin}

-- The errors of the bindings; `persist` answers last.
pub data BindResult : Type 0 where
  empty_subject taken no_operator not_written bound : BindResult

pub ends_with : Bool → BindResult
ends_with persisted = if persisted then bound else not_written

abbrev pub is_identity : String → String → ExternalIdentity → Bool
is_identity provider subject ei = str_eq ei.provider provider && str_eq ei.subject subject

-- The identities of the other providers.
abbrev others_of : String → List ExternalIdentity → List ExternalIdentity
others_of provider = keep (λ ei. not (str_eq ei.provider provider))

abbrev stamp_used : String → String → String → ExternalIdentity → ExternalIdentity
stamp_used stamp provider subject ei =
    if is_identity provider subject ei then record ei { last_used_at = stamp } else ei

-- The prefix `https://`.
starts_with : String → String → Bool
starts_with String.[] s = true
starts_with (String.◌∷◌ p ps) String.[] = false
starts_with (String.◌∷◌ p ps) (String.◌∷◌ c s) = starts_with ps s && code p == code c

-- A character that `strings.ContainsAny` looks for in the URL of a picture.
unsafe_char : ℕ → Bool
unsafe_char c =
    (c == 32 || (c == 9 || (c == 10 || c == 13))) || (c == 34 || (c == 39 || (c == 60 || c == 62)))

acceptable_url : String → Bool
unfolding starts_with unsafe_char
acceptable_url url = not (
    str_eq url ""
    || (not (starts_with "https://" url)
        || (ltb 512 (byte_length url) || any unsafe_char (codes url))))

-- `strings.Map` with the function that drops the control characters.
strip_controls : String → String
strip_controls String.[] = ""
strip_controls (String.◌∷◌ c s) =
    let rest = strip_controls s in
    if ltb (code c) 32 || code c == 127 then rest else String.◌∷◌ c rest

-- `string(rs[:n])` of the characters `rs` of a text.
first_chars : ℕ → String → String
first_chars zero s = ""
first_chars (suc n) String.[] = ""
first_chars (suc n) (String.◌∷◌ c s) = String.◌∷◌ c (first_chars n s)

unfoldable pub normalize_bot_nick : String → String
unfolding strip_controls first_chars
normalize_bot_nick nick =
    let kept = strip_controls (trim_space nick) in
    if ltb 32 (length (codes kept)) then first_chars 32 kept else kept

telegram_subjects : List ExternalIdentity → List String
telegram_subjects [] = []
telegram_subjects (ei ∷ rest) =
    let subjects = telegram_subjects rest in
    if str_eq ei.provider "telegram" && not (str_eq ei.subject "")
    then ei.subject ∷ subjects
    else subjects

module _ {K : Type 0} where
  abbrev pub has_identity : String → String → OperatorRecord K → Bool
  has_identity provider subject op = any (is_identity provider subject) op.external_identities

  first_with : String → String → Operators K → Option String
  first_with provider subject [] = none
  first_with provider subject ((name, op) ∷ rest) =
      if has_identity provider subject op then some name else first_with provider subject rest

  unfoldable pub find_operator_by_identity : String → String → Operators K → Option String
  unfolding first_with
  find_operator_by_identity provider subject ops =
      if str_eq subject "" then none else first_with provider subject ops

  -- An operator of another name has the identity.
  abbrev taken_by_other : String → String → String → Operators K → Bool
  taken_by_other username provider subject ops =
      any (λ e. has_identity provider subject e.1 && not (str_eq e.0 username)) ops

  bind_found :
      Bool
      → String
      → ExternalIdentity
      → Option (OperatorRecord K)
      → Operators K
      → Operators K × BindResult
  bind_found persisted username ei none ops = (ops, no_operator)
  bind_found persisted username ei (some op) ops = (
    insert username
        (record op {
          external_identities = others_of ei.provider op.external_identities ++ ei ∷ [];
        })
        ops,
    ends_with persisted,
  )

  -- `bindIdentity`; `stamp` is the formatted time.
  unfoldable pub bind_identity :
      Bool
      → String
      → (username provider subject email : String) → Operators K
      → Operators K × BindResult
  unfolding bind_found ends_with
  bind_identity persisted stamp username provider subject email ops =
      if str_eq subject ""
      then (ops, empty_subject)
      else if taken_by_other username provider subject ops
      then (ops, taken)
      else bind_found persisted username
          (record {
            provider = provider;
            subject = subject;
            email = email;
            bound_at = stamp;
            last_used_at = "";
          })
          (lookup username ops) ops

  unbind_found :
      Bool → String → String → Option (OperatorRecord K) → Operators K → Operators K × BindResult
  unbind_found persisted username provider none ops = (ops, no_operator)
  unbind_found persisted username provider (some op) ops = (
    insert username (record op { external_identities = others_of provider op.external_identities })
        ops,
    ends_with persisted,
  )

  unfoldable pub unbind_identity : Bool → String → String → Operators K → Operators K × BindResult
  unfolding unbind_found ends_with
  unbind_identity persisted username provider ops =
      unbind_found persisted username provider (lookup username ops) ops

  touch_found :
      String → String → String → String → Option (OperatorRecord K) → Operators K → Operators K
  touch_found stamp username provider subject none ops = ops
  touch_found stamp username provider subject (some op) ops =
      insert username
        (record op {
          external_identities = map (stamp_used stamp provider subject) op.external_identities;
        })
        ops

  unfoldable pub touch_identity : String → String → String → String → Operators K → Operators K
  unfolding touch_found
  touch_identity stamp username provider subject ops =
      touch_found stamp username provider subject (lookup username ops) ops

  approved_of : Option (OperatorRecord K) → Bool
  approved_of none = false
  approved_of (some op) = op.approved

  unfoldable pub operator_approved : String → Operators K → Bool
  unfolding approved_of
  operator_approved username ops = approved_of (lookup username ops)

  pub admin_telegram_ids : Operators K → List String
  unfolding telegram_subjects
  admin_telegram_ids [] = []
  admin_telegram_ids ((name, op) ∷ rest) =
      let ids = admin_telegram_ids rest in
      if str_eq op.role role_admin then telegram_subjects op.external_identities ++ ids else ids

  avatar_found : String → String → Option (OperatorRecord K) → Operators K → Operators K
  avatar_found username url none ops = ops
  avatar_found username url (some op) ops =
      if str_eq op.avatar_url url then ops else insert username (record op { avatar_url = url }) ops

  -- `setAvatar`.
  unfoldable pub set_avatar : String → String → Operators K → Operators K
  unfolding avatar_found acceptable_url
  set_avatar username raw ops =
      let url = trim_space raw in
      if acceptable_url url then avatar_found username url (lookup username ops) ops else ops

  nick_found :
      Bool → String → String → Option (OperatorRecord K) → Operators K → Operators K × BindResult
  nick_found persisted username nick none ops = (ops, no_operator)
  nick_found persisted username nick (some op) ops =
      (insert username (record op { bot_nick = nick }) ops, ends_with persisted)

  -- `setBotNick`.
  unfoldable pub set_bot_nick : Bool → String → String → Operators K → Operators K × BindResult
  unfolding nick_found
  set_bot_nick persisted username nick ops =
      nick_found persisted username (normalize_bot_nick nick) (lookup username ops) ops
