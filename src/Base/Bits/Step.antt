-- ===== src/Base/Bits/Step.antt =====
-- `|` and `&` by their lowest binary digit, from the recursion that the native operations mean.
use Prim.Native.Nat.{ℕ, zero, suc, ◌+◌, ◌*◌, ◌/◌, ◌%◌, ◌≤◌, min, max, bit_and, bit_or}
use Prim.Native.Nat.{digits, bit_and-bitwise, bit_or-bitwise}
use mathlib.Core.Path.{◌≡◌, refl}
use native.Mathlib.Omega.{arith}

-- More fuel than the number needs gives the same digits.
digits-fuel :
    (rest : ℕ → ℕ) (op : ℕ → ℕ → ℕ) (m n a b : ℕ)
    → a ≤ m
    → a ≤ n
    → digits rest op m a b ≡ digits rest op n a b
digits-fuel rest op zero zero a b p q = refl
digits-fuel rest op zero (suc n) zero b p q = refl
digits-fuel rest op zero (suc n) (suc a) b p q = absurd (omega arith)
digits-fuel rest op (suc m) zero zero b p q = refl
digits-fuel rest op (suc m) zero (suc a) b p q = absurd (omega arith)
digits-fuel rest op (suc m) (suc n) zero b p q = refl
digits-fuel rest op (suc m) (suc n) (suc a) b p q =
    rw (digits-fuel rest op m n (suc a / 2) (b / 2) (omega arith) (omega arith))

pub bit_or_step : (x y : ℕ) → bit_or x y ≡ bit_or (x / 2) (y / 2) * 2 + max (x % 2) (y % 2)
bit_or_step zero b = omega (arith, bit_or-bitwise 0 b, bit_or-bitwise 0 (b / 2))
bit_or_step (suc a) b = omega (
  arith,
  bit_or-bitwise (suc a) b,
  bit_or-bitwise (suc a / 2) (b / 2),
  digits-fuel (λ y. y) max a (suc a / 2) (suc a / 2) (b / 2) (omega arith) (omega arith),
)

pub bit_and_step : (x y : ℕ) → bit_and x y ≡ bit_and (x / 2) (y / 2) * 2 + min (x % 2) (y % 2)
bit_and_step zero b = omega (arith, bit_and-bitwise 0 b, bit_and-bitwise 0 (b / 2))
bit_and_step (suc a) b = omega (
  arith,
  bit_and-bitwise (suc a) b,
  bit_and-bitwise (suc a / 2) (b / 2),
  digits-fuel (λ y. zero) min a (suc a / 2) (suc a / 2) (b / 2) (omega arith) (omega arith),
)
