-- ===== src/Prelude/Int.antt =====
-- Python's `int`. `negsuc n` is -(n + 1).
use Prim.Native.Nat.{ℕ, zero, suc}
use mathlib.Core.Bool.{Bool, true, false}
use mathlib.Core.Path.{◌≡◌}
use native.Mathlib.Omega.{arith}
use neuronium.Prelude.Tests.{leb, nat_eq}

pub data ℤ : Type 0 where
  pos : ℕ → ℤ
  negsuc : ℕ → ℤ

-- n - 1
unfoldable pub pred : ℤ → ℤ
pred (pos zero) = negsuc zero
pred (pos (suc n)) = pos n
pred (negsuc n) = negsuc (suc n)

-- n + 1
unfoldable pub succ : ℤ → ℤ
succ (pos n) = pos (suc n)
succ (negsuc zero) = pos zero
succ (negsuc (suc n)) = negsuc n

unfoldable pub is_zero : ℤ → Bool
is_zero (pos n) = nat_eq n 0
is_zero (negsuc n) = false

unfoldable pub ltℤ : ℤ → ℤ → Bool
ltℤ (pos a) (pos b) = leb (suc a) b
ltℤ (pos a) (negsuc b) = false
ltℤ (negsuc a) (pos b) = true
ltℤ (negsuc a) (negsuc b) = leb (suc b) a

unfoldable pub eqℤ : ℤ → ℤ → Bool
eqℤ (pos a) (pos b) = nat_eq a b
eqℤ (negsuc a) (negsuc b) = nat_eq a b
eqℤ _ _ = false

pub is_zero_iff : (z : ℤ) → is_zero z ≡ true → z ≡ pos 0
unfolding is_zero
is_zero_iff z h = ground arith
