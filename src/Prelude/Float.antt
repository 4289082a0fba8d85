-- ===== src/Prelude/Float.antt =====
-- Go's `float64` as an interface: a carrier with the comparison and the constants that the code uses.
-- The laws are those of IEEE 754 on the constants; nothing is assumed of other values (NaN included).
use Prim.Native.Nat.{ℕ}
use mathlib.Core.Path.{◌≡◌}
use mathlib.Core.Bool.{Bool, false, true}

pub record Float64 : Type 1 where
  pub F : Type 0
  pub zero_f : F
  pub one_f : F
  -- `a < b`
  pub lt : F → F → Bool
  -- `a <= b`
  pub le : F → F → Bool
  pub lt-zero-zero : lt zero_f zero_f ≡ false
  pub lt-one-zero : lt one_f zero_f ≡ false
  pub lt-zero-one : lt zero_f one_f ≡ true
  pub lt-one-one : lt one_f one_f ≡ false

-- The arithmetic of `float64`, with the value of an integer and that of a quotient written as a literal.
pub record FloatArithmetic : Type 1 where
  pub F : Type 0
  pub of_nat : ℕ → F
  pub literal : ℕ → ℕ → F
  pub minus : F → F
  pub sub : F → F → F
  pub mul : F → F → F
  pub div : F → F → F
  pub lt : F → F → Bool
  pub le : F → F → Bool
  pub eq : F → F → Bool
