-- ===== src/Cli/Config/Product.antt =====
-- The limit in the thousandfold of a double, for the intervals of src/cli/cli-config.ts, is enough.
use native.Mathlib.Nat.{pow-succ', div-div-eq-div-mul}
use bluetti_mqtt_node.Common.{
  ℕ, zero, suc, ◌*◌, ◌/◌, ◌^◌, ◌<◌, ◌≡◌, sym, ap, ◌∙◌, true, false, ltb, Bool-cases, inl, inr,
  arith,
}
use bluetti_mqtt_node.Cli.Config.{excess_bits}

excess_zero : (limit n : ℕ) → ltb n (2 ^ 53) ≡ true → excess_bits (suc limit) n ≡ 0
excess_zero limit n h = rw h

excess_suc :
    (limit n : ℕ)
    → ltb n (2 ^ 53) ≡ false
    → excess_bits (suc limit) n ≡ suc (excess_bits limit (n / 2))
excess_suc limit n h = rw h

excess_fits : (limit n : ℕ) → n < 2 ^ 53 * 2 ^ limit → n / 2 ^ excess_bits limit n < 2 ^ 53
excess_fits zero n h = ground arith
excess_fits (suc limit) n h = elim (Bool-cases (ltb n (2 ^ 53))) [
  | inl e ↦ rw (excess_zero limit n e) (ground arith)
  | inr e ↦
      let double : 2 ^ suc limit ≡ 2 * 2 ^ limit = pow-succ' 2 limit in
      let half : n / 2 < 2 ^ 53 * 2 ^ limit = omega arith in
      let rest = excess_fits limit (n / 2) half in
      let bits = excess_bits limit (n / 2) in
      let shift : n / 2 ^ suc bits ≡ n / 2 / 2 ^ bits =
        ap (λ d. n / d) (pow-succ' 2 bits) ∙ sym (div-div-eq-div-mul n 2 (2 ^ bits)) in
      rw (excess_suc limit n e, shift) rest
]

-- The product with 1000 of the numerator of a double, once its excess bits are taken off, has no
-- more than 53 bits.
product_fits : (n : ℕ) → n < 2 ^ 53 → (n * 1000) / 2 ^ excess_bits 10 (n * 1000) < 2 ^ 53
product_fits n h = excess_fits 10 (n * 1000) (omega arith)
