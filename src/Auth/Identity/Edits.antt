-- ===== src/Auth/Identity/Edits.antt =====
-- The picture and the name for the bot: a change of one record, and neither of its name, its role nor
-- its identities; and the bindings: neither of its name nor its role.
use ncn_platform.Base.{Bool, Option, none, some, String, str_eq, ◌≡◌, refl, trim_space, if_cases}
use ncn_platform.Base.Dict.{lookup}
use ncn_platform.Auth.Operator.{ExternalIdentity, OperatorRecord, Operators}
use ncn_platform.Auth.Operator.Filing.{Editable, Rebindable}
use ncn_platform.Auth.Identity.{
  BindResult, taken_by_other, bind_found, bind_identity, unbind_found, unbind_identity, touch_found,
  touch_identity, acceptable_url, avatar_found, set_avatar, nick_found, normalize_bot_nick,
  set_bot_nick,
}

module _ {K : Type 0} (P : Operators K → Type 0) (edit : Editable P) where
  avatar_found-kept :
      (name url : String) (o : Option (OperatorRecord K)) (ops : Operators K)
      → lookup name ops ≡ o
      → P ops
      → P (avatar_found name url o ops)
  unfolding avatar_found
  avatar_found-kept name url none ops f k = k
  avatar_found-kept name url (some op) ops f k =
      if_cases P (str_eq op.avatar_url url) _ _ (λ _. k)
        (λ _. edit name op _ ops f refl refl refl k)

  pub set_avatar-kept :
      (name url : String) (ops : Operators K) → P ops → P (set_avatar name url ops)
  unfolding set_avatar
  set_avatar-kept name url ops k =
      if_cases P (acceptable_url (trim_space url)) _ _
        (λ _. avatar_found-kept name (trim_space url) (lookup name ops) ops refl k) (λ _. k)

  nick_found-kept :
      (p : Bool) (name nick : String) (o : Option (OperatorRecord K)) (ops : Operators K)
      → lookup name ops ≡ o
      → P ops
      → P (nick_found p name nick o ops).0
  unfolding nick_found
  nick_found-kept p name nick none ops f k = k
  nick_found-kept p name nick (some op) ops f k = edit name op _ ops f refl refl refl k

  pub set_bot_nick-kept :
      (p : Bool) (name nick : String) (ops : Operators K)
      → P ops
      → P (set_bot_nick p name nick ops).0
  unfolding set_bot_nick
  set_bot_nick-kept p name nick ops k =
      nick_found-kept p name (normalize_bot_nick nick) (lookup name ops) ops refl k

module _ {K : Type 0} (P : Operators K → Type 0) (edit : Rebindable P) where
  abbrev Kept : Operators K × BindResult → Type 0
  Kept r = P r.0

  bind_found-kept :
      (p : Bool) (name : String) (ei : ExternalIdentity) (o : Option (OperatorRecord K))
      (ops : Operators K)
      → lookup name ops ≡ o
      → P ops
      → P (bind_found p name ei o ops).0
  unfolding bind_found
  bind_found-kept p name ei none ops f k = k
  bind_found-kept p name ei (some op) ops f k = edit name op _ ops f refl refl k

  pub bind_identity-kept :
      (p : Bool) (stamp name provider subject email : String) (ops : Operators K)
      → P ops
      → P (bind_identity p stamp name provider subject email ops).0
  unfolding bind_identity
  bind_identity-kept p stamp name provider subject email ops k =
      if_cases Kept (str_eq subject "") _ _ (λ _. k)
        (λ _.
          if_cases Kept (taken_by_other name provider subject ops) _ _ (λ _. k)
            (λ _. bind_found-kept p name _ (lookup name ops) ops refl k))

  unbind_found-kept :
      (p : Bool) (name provider : String) (o : Option (OperatorRecord K)) (ops : Operators K)
      → lookup name ops ≡ o
      → P ops
      → P (unbind_found p name provider o ops).0
  unfolding unbind_found
  unbind_found-kept p name provider none ops f k = k
  unbind_found-kept p name provider (some op) ops f k = edit name op _ ops f refl refl k

  pub unbind_identity-kept :
      (p : Bool) (name provider : String) (ops : Operators K)
      → P ops
      → P (unbind_identity p name provider ops).0
  unfolding unbind_identity
  unbind_identity-kept p name provider ops k =
      unbind_found-kept p name provider (lookup name ops) ops refl k

  touch_found-kept :
      (stamp name provider subject : String) (o : Option (OperatorRecord K)) (ops : Operators K)
      → lookup name ops ≡ o
      → P ops
      → P (touch_found stamp name provider subject o ops)
  unfolding touch_found
  touch_found-kept stamp name provider subject none ops f k = k
  touch_found-kept stamp name provider subject (some op) ops f k = edit name op _ ops f refl refl k

  pub touch_identity-kept :
      (stamp name provider subject : String) (ops : Operators K)
      → P ops
      → P (touch_identity stamp name provider subject ops)
  unfolding touch_identity
  touch_identity-kept stamp name provider subject ops k =
      touch_found-kept stamp name provider subject (lookup name ops) ops refl k
