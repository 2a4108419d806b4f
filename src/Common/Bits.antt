-- ===== src/Common/Bits.antt =====
-- `^` at variables, digit by digit. (The libraries have its definition only.)
use Prim.Native.Nat.{
  ℕ, zero, suc, ◌+◌, ◌*◌, ◌/◌, ◌%◌, ◌^◌, ◌≤◌, ◌<◌, bit_xor, digits, differ, bit_xor-bitwise,
}
use mathlib.Core.Path.{◌≡◌, refl, ap, ◌∙◌}
use native.Mathlib.Omega.{arith}
use native.Mathlib.Nat.{pow-suc}

-- The recursion that the operation stands for, on a count of digits.
abbrev xor_digits : ℕ → ℕ → ℕ → ℕ
xor_digits n a b = digits (λ c. c) differ n a b

xor_digits_fuel : (n m a b : ℕ) → a ≤ n → a ≤ m → xor_digits n a b ≡ xor_digits m a b
xor_digits_fuel zero zero a b p q = refl
xor_digits_fuel zero (suc m) zero b p q = refl
xor_digits_fuel zero (suc m) (suc a) b p q = absurd (omega arith)
xor_digits_fuel (suc n) zero zero b p q = refl
xor_digits_fuel (suc n) zero (suc a) b p q = absurd (omega arith)
xor_digits_fuel (suc n) (suc m) zero b p q = refl
xor_digits_fuel (suc n) (suc m) (suc a) b p q =
    ap (λ t. t * 2 + differ (suc a % 2) (b % 2))
      (xor_digits_fuel n m (suc a / 2) (b / 2) (omega arith) (omega arith))

pub zero-bit_xor : (b : ℕ) → bit_xor 0 b ≡ b
zero-bit_xor b = bit_xor-bitwise 0 b

-- The lowest digit of `a ^ b` is that of `a + b`.
differ-mod : (x y : ℕ) → x < 2 → y < 2 → differ x y ≡ (x + y) % 2
differ-mod zero y h k = omega arith
differ-mod (suc zero) zero h k = omega arith
differ-mod (suc zero) (suc zero) h k = omega arith
differ-mod (suc zero) (suc (suc y)) h k = absurd (omega arith)
differ-mod (suc (suc x)) y h k = absurd (omega arith)

pub bit_xor_step : (a b : ℕ) → bit_xor a b ≡ bit_xor (a / 2) (b / 2) * 2 + (a + b) % 2
bit_xor_step zero b = omega (arith, zero-bit_xor b, zero-bit_xor (b / 2))
bit_xor_step (suc a) b = omega (
  arith,
  bit_xor-bitwise (suc a) b,
  bit_xor-bitwise (suc a / 2) (b / 2),
  xor_digits_fuel a (suc a / 2) (suc a / 2) (b / 2) (omega arith) (omega arith),
  differ-mod (suc a % 2) (b % 2),
)

-- Facts about numbers of k binary digits, by induction on k.
pub bit_xor-lt : (k a b : ℕ) → a < 2 ^ k → b < 2 ^ k → bit_xor a b < 2 ^ k
bit_xor-lt zero zero b p q = omega (arith, zero-bit_xor b)
bit_xor-lt zero (suc a) b p q = absurd (omega arith)
bit_xor-lt (suc k) a b p q =
    let e = pow-suc 2 k in
    omega (
      arith,
      pow-suc 2 k,
      bit_xor_step a b,
      bit_xor-lt k (a / 2) (b / 2) (omega (arith, e)) (omega (arith, e)),
    )

pub bit_xor_comm : (k a b : ℕ) → a < 2 ^ k → b < 2 ^ k → bit_xor a b ≡ bit_xor b a
bit_xor_comm zero zero zero p q = refl
bit_xor_comm zero (suc a) b p q = absurd (omega arith)
bit_xor_comm zero zero (suc b) p q = absurd (omega arith)
bit_xor_comm (suc k) a b p q =
    let e = pow-suc 2 k in
    omega (
      arith,
      bit_xor_step a b,
      bit_xor_step b a,
      bit_xor_comm k (a / 2) (b / 2) (omega (arith, e)) (omega (arith, e)),
    )

pub bit_xor_cancel_left :
    (k a b c : ℕ) → a < 2 ^ k → b < 2 ^ k → c < 2 ^ k → bit_xor a b ≡ bit_xor a c → b ≡ c
bit_xor_cancel_left zero a b c p q r h = omega arith
bit_xor_cancel_left (suc k) a b c p q r h =
    let e = pow-suc 2 k in
    let halves : b / 2 ≡ c / 2 =
      bit_xor_cancel_left k (a / 2) (b / 2) (c / 2) (omega (arith, e)) (omega (arith, e))
        (omega (arith, e)) (omega (arith, bit_xor_step a b, bit_xor_step a c)) in
    omega (arith, halves, bit_xor_step a b, bit_xor_step a c)

pub bit_xor_cancel_right :
    (k a b c : ℕ) → a < 2 ^ k → b < 2 ^ k → c < 2 ^ k → bit_xor b a ≡ bit_xor c a → b ≡ c
bit_xor_cancel_right k a b c p q r h =
    bit_xor_cancel_left k a b c p q r (bit_xor_comm k a b p q ∙ h ∙ bit_xor_comm k c a r p)

-- A digit above those of `a` stays.
pub bit_xor-ge : (k a b : ℕ) → a < 2 ^ k → 2 ^ k ≤ b → b < 2 ^ suc k → 2 ^ k ≤ bit_xor a b
bit_xor-ge zero zero b p q r = omega (arith, zero-bit_xor b)
bit_xor-ge zero (suc a) b p q r = absurd (omega arith)
bit_xor-ge (suc k) a b p q r =
    let e = pow-suc 2 k in
    let e' = pow-suc 2 (suc k) in
    omega (
      arith,
      e,
      bit_xor_step a b,
      bit_xor-ge k (a / 2) (b / 2) (omega (arith, e)) (omega (arith, e)) (omega (arith, e, e')),
    )
