-- ===== src/Recovery/Nonces.antt =====
-- core-console/backend/recover_bootstrap.go: `usedNonceStore`, less its file and database. The
-- two readings of the clock in `record` are one argument.
use ncn_platform.Base.{ℕ, ◌+◌, Bool, List, [], ◌∷◌, ◌++◌, String, str_eq, leb, any, keep}

pub record UsedNonce : Type 0 where
  pub nonce : String
  pub user : String
  pub used_at : ℕ

unfoldable pub seen : String → List UsedNonce → Bool
seen nonce = any (λ e. str_eq e.nonce nonce)

-- `e.UsedAt >= cutoff`, where the cutoff is 24 hours before `now`.
abbrev pub is_recent : ℕ → UsedNonce → Bool
is_recent now e = leb now (e.used_at + 86400)

unfoldable pub burn : ℕ → String → String → List UsedNonce → List UsedNonce
burn now nonce user entries =
    keep (is_recent now) (entries ++ record { nonce = nonce; user = user; used_at = now } ∷ [])
