-- ===== src/Auth/Password/Once.antt =====
-- A recovery code is used up by the reset that it allows.
use mathlib.Core.Option.{some-injective}
use ncn_platform.Base.{
  suc, Bool, true, List, [], ◌∷◌, Option, none, some, String, ◌≡◌, ◌≢◌, refl, sym, ap, ◌∙◌, ltb,
  ◌==◌, any, keep, length, byte_length, trim_space, if_cases, arith, eq_refl,
}
use ncn_platform.Base.Dict.{lookup, insert, lookup-insert}
use ncn_platform.Auth.Operator.{
  OperatorRecord, Operators, Bcrypt, Answer, done, unauthorized, forbidden,
}
use ncn_platform.Auth.Password.{drop_match, reset_to, recover_found, recover_password}

drop_match-count :
    (p : String → Bool) (hs : List String)
    → any p hs ≡ true
    → length (keep p hs) ≡ suc (length (keep p (drop_match p hs)))
unfolding drop_match
drop_match-count p [] h = cc
drop_match-count p (x ∷ hs) h = ground (arith, drop_match-count p hs)

any-count : (p : String → Bool) (hs : List String) → any p hs ≡ true → length (keep p hs) ≡ 0 → ⊥
any-count p [] h e = cc
any-count p (x ∷ hs) h e = ground (arith, any-count p hs)

abbrev matches_code : Bcrypt → String → String → Bool
matches_code b code h = b.compare_hash h code

not-unauthorized : unauthorized ≡ done → ⊥
not-unauthorized e = cc

not-forbidden : forbidden ≡ done → ⊥
not-forbidden e = cc

module _ {K : Type 0} (b : Bcrypt) where
  lookup-insert_same :
      (name : String) (op : OperatorRecord K) (ops : Operators K)
      → lookup name (insert name op ops) ≡ some op
  lookup-insert_same name op ops = lookup-insert name name op ops ∙ rw (eq_refl name) refl

  -- What a reset that succeeds has found and done.
  record Reset (name code : String) (o : Option (OperatorRecord K)) (ops after : Operators K)
      : Type 0 where
    op : OperatorRecord K
    hash : String
    found : o ≡ some op
    matched : any (matches_code b code) op.recovery_codes ≡ true
    changed :
        after
        ≡ insert name
            (record op {
              password_hash = hash;
              recovery_codes = drop_match (matches_code b code) op.recovery_codes;
            })
            ops

  reset_to-Reset :
      (p : Bool) (name code : String) (op : OperatorRecord K) (h : Option String)
      (ops : Operators K)
      → any (matches_code b code) op.recovery_codes ≡ true
      → (reset_to b p name code op h ops).1 ≡ done
      → Reset name code (some op) ops (reset_to b p name code op h ops).0
  unfolding reset_to
  reset_to-Reset p name code op none ops m e = absurd (not-done e)
    where
      not-done : Answer.server_error ≡ done → ⊥
      not-done e = cc
  reset_to-Reset p name code op (some h) ops m e = record {
    op = op;
    hash = h;
    found = refl;
    matched = m;
    changed = refl;
  }

  recover_found-Reset :
      (p : Bool) (name code password : String) (o : Option (OperatorRecord K)) (ops : Operators K)
      → (recover_found b p name code password o ops).1 ≡ done
      → Reset name code o ops (recover_found b p name code password o ops).0
  unfolding recover_found
  recover_found-Reset p name code password none ops = λ e. absurd (not-unauthorized e)
  recover_found-Reset p name code password (some op) ops =
      if_cases (λ (r : Operators K × Answer). r.1 ≡ done → Reset name code (some op) ops r.0)
        (length op.recovery_codes == 0) _ _ (λ _ e. absurd (not-forbidden e))
        (λ _.
          if_cases (λ (r : Operators K × Answer). r.1 ≡ done → Reset name code (some op) ops r.0)
            (any (matches_code b code) op.recovery_codes) _ _
            (λ m e. reset_to-Reset p name code op (b.generate password) ops m e)
            (λ _ e. absurd (not-unauthorized e)))

  recover_password-Reset :
      (upper : String → String) (p : Bool) (username recovery_code password : String)
      (ops : Operators K)
      → (recover_password b upper p username recovery_code password ops).1 ≡ done
      → Reset
          (trim_space username)
          (upper (trim_space recovery_code))
          (lookup (trim_space username) ops)
          ops
          (recover_password b upper p username recovery_code password ops).0
  unfolding recover_password
  recover_password-Reset upper p username recovery_code password ops =
      if_cases
        (λ (r : Operators K × Answer).
          r.1 ≡ done
          → Reset (trim_space username) (upper (trim_space recovery_code))
              (lookup (trim_space username) ops) ops r.0)
        (ltb (byte_length password) 8) _ _ (λ _ e. cc)
        (λ _ e.
          recover_found-Reset p (trim_space username) (upper (trim_space recovery_code)) password
            (lookup (trim_space username) ops) ops e)

  -- A recovery code resets a password once: where one of the operator's hashes is the code's, a second
  -- reset with the same code after one that succeeded does not succeed, whatever passwords are asked
  -- for.
  pub recover_password_once :
      (upper : String → String) (p q : Bool) (username recovery_code first second : String)
      (op : OperatorRecord K) (ops : Operators K)
      → lookup (trim_space username) ops ≡ some op
      → length (keep (λ h. b.compare_hash h (upper (trim_space recovery_code))) op.recovery_codes)
        ≡ 1
      → (recover_password b upper p username recovery_code first ops).1 ≡ done
      → (recover_password b upper q username recovery_code second
          (recover_password b upper p username recovery_code first ops).0).1
        ≢ done
  recover_password_once upper p q username recovery_code first second op ops f one e again =
      let code = upper (trim_space recovery_code) in
      let name = trim_space username in
      let after = (recover_password b upper p username recovery_code first ops).0 in
      let x = recover_password-Reset upper p username recovery_code first ops e in
      let y = recover_password-Reset upper q username recovery_code second after again in
      let own = some-injective _ _ (sym f ∙ x.found) in
      let seen =
        some-injective _ _
          (sym (ap (lookup name) x.changed ∙ lookup-insert_same name _ ops) ∙ y.found) in
      any-count (matches_code b code) (drop_match (matches_code b code) x.op.recovery_codes)
        (ap (λ (z : OperatorRecord K). any (matches_code b code) z.recovery_codes) seen ∙ y.matched)
        (omega (
          arith,
          drop_match-count (matches_code b code) x.op.recovery_codes x.matched,
          ap (λ (z : OperatorRecord K). length (keep (matches_code b code) z.recovery_codes)) own,
          one,
        ))
