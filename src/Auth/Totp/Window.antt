-- ===== src/Auth/Totp/Window.antt =====
-- When a one-time code is accepted.
use ncn_platform.Base.{
  ℕ, suc, ◌+◌, ◌-◌, ◌*◌, ◌/◌, ◌%◌, ◌^◌, ◌==◌, ◌≤◌, ◌<◌, true, false, List, some, String, str_eq,
  length, byte_length, ◌≡◌, sym, ap, ◌∙◌, arith, eq_iff, ◌⊎◌, inl, inr,
}
use ncn_platform.Auth.Totp.{
  TotpCrypto, clean_code, hotp, six_digits, truncated, big_endian, code_matches, check_key,
  verify_totp,
}

wrap : (n : ℕ) → (suc n + (2 ^ 64 - 1)) % 2 ^ 64 ≡ n % 2 ^ 64
wrap n = omega arith

by_step :
    (step counter : ℕ)
    → step ≤ counter + 1
    → counter ≤ step + 1
    → (step ≡ counter) ⊎ ((step ≡ counter + 1) ⊎ (counter ≡ suc step))
by_step step counter lo hi = omega (arith, lo, hi)

module _ (t : TotpCrypto) where
  -- The step before a counter, which is 64 bits wide.
  hotp-before : (key : List ℕ) (step : ℕ) → hotp t key (suc step + (2 ^ 64 - 1)) ≡ hotp t key step
  unfolding hotp
  hotp-before key step =
      ap (λ c. six_digits (truncated t (t.mac_sha1 key (big_endian 8 c)) % 1000000)) (wrap step)

  near :
      (code : String) (key : List ℕ) (step counter : ℕ)
      → code ≡ hotp t key step
      → step ≤ counter + 1
      → counter ≤ step + 1
      → code_matches t key code counter ≡ true
  unfolding code_matches
  near code key step counter h lo hi = elim (by_step step counter lo hi) [
    | inl e ↦ ground (arith, same (ap (hotp t key) (sym e) ∙ sym h))
    | inr (inl e) ↦ ground (arith, same (ap (hotp t key) (sym e) ∙ sym h))
    | inr (inr e) ↦
        ground
          (arith, same (ap (λ n. hotp t key (n + (2 ^ 64 - 1))) e ∙ hotp-before key step ∙ sym h))
  ]
    where
      same : {x : String} → x ≡ code → str_eq x code ≡ true
      same {x} e = (eq_iff x code).1 e

  -- A code is accepted at every time of its own step of thirty seconds, of the one before and of the one
  -- after, if the secret is base32 of a key.
  pub verify_totp-window :
      (secret code : String) (key : List ℕ) (step now : ℕ)
      → t.decode32 (t.upper secret) ≡ some key
      → (length key == 0) ≡ false
      → byte_length (clean_code code) ≡ 6
      → clean_code code ≡ hotp t key step
      → 30 * step ≤ now + 30
      → now < 30 * step + 60
      → verify_totp t secret code now ≡ true
  unfolding verify_totp check_key code_matches
  verify_totp-window secret code key step now d k six h lo hi =
      rw (ap (λ n. n == 6) six, d, k)
        (near (clean_code code) key step (now / 30) h (omega (arith, lo)) (omega (arith, hi)))
