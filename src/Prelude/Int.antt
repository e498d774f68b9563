-- ===== src/Prelude/Int.antt =====
-- Integers, which a counter may fall below zero in.
use Prim.Native.Nat.{ℕ, zero, suc, ◌+◌}
use mathlib.Core.Path.{◌≡◌, ◌∙◌, ap}
use mathlib.Core.Bool.{Bool, false}
use native.Mathlib.Omega.{arith}
use contractplane.Prelude.Tests.{same_number}

-- `negsuc n` is -(n + 1).
pub data ℤ : Type 0 where
  pos : ℕ → ℤ
  negsuc : ℕ → ℤ

-- i - 1
abbrev pub pred : ℤ → ℤ
pred (pos (suc n)) = pos n
pred (pos zero) = negsuc 0
pred (negsuc n) = negsuc (suc n)

-- i == 0
abbrev pub is_zero : ℤ → Bool
is_zero (pos n) = same_number n 0
is_zero (negsuc n) = false

-- i - n
unfoldable pub minus : ℤ → ℕ → ℤ
minus i zero = i
minus i (suc n) = minus (pred i) n

pub minus-add : (a n : ℕ) → minus (pos (a + n)) n ≡ pos a
unfolding minus
minus-add a zero = ap pos (omega arith)
minus-add a (suc n) =
    ap (λ k. minus (pred (pos k)) n) (let e : a + suc n ≡ suc (a + n) = omega arith in e)
    ∙ minus-add a n
