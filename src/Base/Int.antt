-- ===== src/Base/Int.antt =====
-- Python's integers: `pos n` is `n`, `negsuc n` is `-n-1`.
use mathlib.Core.Path.{◌≡◌}
use mathlib.Core.Logic.{◌↔◌}
use mathlib.Core.Bool.{Bool, true, false}
use native.Mathlib.Omega.{arith}
use Prim.Native.Nat.{ℕ, zero, suc, ◌+◌, ◌-◌}
use survol.Base.Tests.{◌==◌, leb, if◌then◌else◌}
use survol.Base.Maps.{Eq}

pub data ℤ : Type 0 where
  pos : ℕ → ℤ
  negsuc : ℕ → ℤ

-- `-n`
unfoldable pub neg : ℕ → ℤ
neg zero = pos zero
neg (suc n) = negsuc n

-- `m - n`
unfoldable pub minus : ℕ → ℕ → ℤ
minus m n = if leb n m then pos (m - n) else negsuc (n - (m + 1))

infixl 6 ◌+ℤ◌
unfoldable pub ◌+ℤ◌ : ℤ → ℤ → ℤ
unfolding minus
pos m +ℤ pos n = pos (m + n)
pos m +ℤ negsuc n = minus m (n + 1)
negsuc m +ℤ pos n = minus n (m + 1)
negsuc m +ℤ negsuc n = negsuc (m + n + 1)

unfoldable pub int_beq : ℤ → ℤ → Bool
int_beq (pos m) (pos n) = m == n
int_beq (pos m) (negsuc n) = false
int_beq (negsuc m) (pos n) = false
int_beq (negsuc m) (negsuc n) = m == n

pub int_beq_iff : (a b : ℤ) → (int_beq a b ≡ true) ↔ (a ≡ b)
unfolding int_beq
int_beq_iff (pos m) (pos n) = ground arith
int_beq_iff (pos m) (negsuc n) = ground arith
int_beq_iff (negsuc m) (pos n) = ground arith
int_beq_iff (negsuc m) (negsuc n) = ground arith

instance abbrev pub int_eq : Eq ℤ
int_eq = record { beq = int_beq; beq_iff = int_beq_iff }
