-- ===== src/Base/Int.antt =====
-- Go's signed integers, as far as the models need them: a number or the negative of one. Sizes and
-- times are plain numbers; a field that a user or a file can make negative is a ℤ.
use Prim.Native.Nat.{ℕ, ◌-◌}
use mathlib.Core.Bool.{Bool, true, false}
use ncn_platform.Base.Tests.{leb, ltb, ◌==◌, if◌then◌else◌}

-- `negsuc n` is -(n + 1).
pub data ℤ : Type 0 where
  pos : ℕ → ℤ
  negsuc : ℕ → ℤ

-- The integer itself where it is at least 0, and 0 below.
abbrev pub to_ℕ : ℤ → ℕ
to_ℕ (pos n) = n
to_ℕ (negsuc n) = 0

-- x <= n, x < n and n < x for a number n.
abbrev pub leb_ℤ : ℤ → ℕ → Bool
leb_ℤ (pos m) n = leb m n
leb_ℤ (negsuc m) n = true

abbrev pub ltb_ℤ : ℤ → ℕ → Bool
ltb_ℤ (pos m) n = ltb m n
ltb_ℤ (negsuc m) n = true

abbrev pub gtb_ℤ : ℤ → ℕ → Bool
gtb_ℤ (pos m) n = ltb n m
gtb_ℤ (negsuc m) n = false

abbrev pub eq_ℤ : ℤ → ℤ → Bool
eq_ℤ (pos m) (pos n) = m == n
eq_ℤ (negsuc m) (negsuc n) = m == n
eq_ℤ _ _ = false

abbrev pub less_ℤ : ℤ → ℤ → Bool
less_ℤ (pos m) (pos n) = ltb m n
less_ℤ (pos m) (negsuc n) = false
less_ℤ (negsuc m) (pos n) = true
less_ℤ (negsuc m) (negsuc n) = ltb n m

-- The difference of two numbers.
abbrev pub minus : ℕ → ℕ → ℤ
minus m n = if leb n m then pos (m - n) else negsuc (n - m - 1)
