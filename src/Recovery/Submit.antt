-- ===== src/Recovery/Submit.antt =====
-- core-console/backend/recover_bootstrap.go: `handlePreview` and `handleSubmit` once the request is
-- decoded. Of the operators only the password hash is kept; bcrypt is the argument `hash`.
pub mod Replay
use Prim.Native.Char.{code}
use ncn_platform.Base.{
  ℕ, zero, ◌+◌, Bool, true, false, List, [], ◌∷◌, Option, none, some, String, ltb, if◌then◌else◌,
  byte_length,
}
use ncn_platform.Base.Dict.{Dict, lookup, insert}
use ncn_platform.Recovery.Token.{
  Crypto, TokenError, not_provisioned, Verdict, refused, valid, verify_with, load_key,
}
use ncn_platform.Recovery.Nonces.{UsedNonce, seen, burn}

pub record Service : Type 0 where
  pub key : List ℕ
  pub used : List UsedNonce
  pub passwords : Dict String

-- A decoded POST with what its handling meets: the key file, the clock at the check and at the
-- recording, and whether `authStore.persist` succeeds.
pub record Request : Type 0 where
  pub token : String
  pub new_password : String
  pub key_file : Option (List ℕ)
  pub checked_at : ℕ
  pub recorded_at : ℕ
  pub persisted : Bool

pub data Reply : Type 0 where
  bad_request : Reply
  unauthorized : Reply
  conflict : Reply
  server_error : Reply
  done : String → Reply

module _ (cr : Crypto) (hash : String → Option String) where
  abbrev with_key : Option (List ℕ) → Service → Service
  with_key none s = s
  with_key (some k) s = record s { key = k }

  abbrev verify_loaded : Option (List ℕ) → String → ℕ → Verdict
  verify_loaded none token now = refused not_provisioned
  verify_loaded (some k) token now = verify_with cr k token now

  -- The new hash is set in memory before it is persisted; the nonce is burnt after.
  set_password :
      Request → String → String → Option String → Option String → Service → Service × Reply
  set_password r user nonce none h s = (s, unauthorized)
  set_password r user nonce (some old) none s = (s, server_error)
  set_password r user nonce (some old) (some h) s =
      let changed = record s { passwords = insert user h s.passwords } in
      if r.persisted
      then (record changed { used = burn r.recorded_at nonce user s.used }, done user)
      else (changed, server_error)

  redeem : Request → Verdict → Service → Service × Reply
  unfolding set_password
  redeem r (refused e) s = (s, unauthorized)
  redeem r (valid user nonce) s =
      if seen nonce s.used
      then (s, conflict)
      else set_password r user nonce (lookup user s.passwords) (hash r.new_password) s

  unfoldable pub submit : Request → Service → Service × Reply
  unfolding redeem byte_length
  submit r s =
      let k = load_key r.key_file s.key in
      if ltb (byte_length r.new_password) 8
      then (s, bad_request)
      else redeem r (verify_loaded k r.token r.checked_at) (with_key k s)

  preview_verdict : Verdict → Service → Reply
  preview_verdict (refused e) s = unauthorized
  preview_verdict (valid user nonce) s = if seen nonce s.used then conflict else done user

  -- `handlePreview`; its `verify` loads the key too.
  pub preview : String → Option (List ℕ) → ℕ → Service → Service × Reply
  unfolding preview_verdict
  preview token key_file now s =
      let k = load_key key_file s.key in
      let s' = with_key k s in (s', preview_verdict (verify_loaded k token now) s')

  pub submit_all : List Request → Service → Service
  submit_all [] s = s
  submit_all (r ∷ rs) s = submit_all rs (submit r s).0
