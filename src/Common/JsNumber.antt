-- ===== src/Common/JsNumber.antt =====
-- A JavaScript number as the integer guards of the source tell them apart: an integer that is not
-- negative, a negative integer -(n + 1), or a value that is no integer: NaN, an infinity, or a
-- fraction n / 2 ^ k with its sign, which has n below 2 ^ 53 as a double.
use Prim.Native.Nat.{ℕ}
use mathlib.Core.Bool.{Bool, true, false}

pub data Fraction : Type 0 where
  not_finite : Fraction
  dyadic : Bool → ℕ → ℕ → Fraction

pub data JsNumber : Type 0 where
  nat : ℕ → JsNumber
  neg : ℕ → JsNumber
  frac : Fraction → JsNumber

-- `Number.isInteger(value)`.
abbrev pub is_integer : JsNumber → Bool
is_integer (frac q) = false
is_integer _ = true
