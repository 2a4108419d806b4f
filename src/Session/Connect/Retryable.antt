-- ===== src/Session/Connect/Retryable.antt =====
-- Which messages `isRetryableInitializationError` of src/bluetooth/session-utils.ts takes for
-- transient. Two of its three texts have capital letters, and are looked for in lower case.
use bluetti_mqtt_node.Common.{
  ℕ, ◌≡◌, refl, Bool, true, false, not, ◌&&◌, List, [], ◌∷◌, leb, arith, Bool-cases, inl, inr,
  and-true,
}
use bluetti_mqtt_node.Session.Connect.{
  to_lower_case, starts_with, includes, unreachable_error_text, gatt_unreachable_text,
  gatt_failed_unreachable_text, is_retryable_initialization_error,
}

abbrev no_capital : List ℕ → Bool
no_capital [] = true
no_capital (c ∷ text) = not (leb b'A' c && leb c b'Z') && no_capital text

no_capital-lower : (text : List ℕ) → no_capital (to_lower_case text) ≡ true
no_capital-lower [] = refl
no_capital-lower (c ∷ text) = ground (arith, no_capital-lower text)

starts_with-no_capital :
    (text part : List ℕ)
    → starts_with text part ≡ true
    → no_capital text ≡ true
    → no_capital part ≡ true
starts_with-no_capital text [] h k = refl
starts_with-no_capital [] (c ∷ part) h k = cc
starts_with-no_capital (d ∷ text) (c ∷ part) h k = ground (arith, starts_with-no_capital text part)

includes-no_capital :
    (text part : List ℕ)
    → includes text part ≡ true
    → no_capital text ≡ true
    → no_capital part ≡ true
includes-no_capital [] part h k = starts_with-no_capital [] part h refl
includes-no_capital (d ∷ text) part h k = elim (Bool-cases (starts_with (d ∷ text) part)) [
  | inl here ↦ starts_with-no_capital (d ∷ text) part here k
  | inr later ↦
      includes-no_capital text part (rw later at h)
        (and-true (not (leb b'A' d && leb d b'Z')) (no_capital text) k).1
]

never_in_lower :
    (text part : List ℕ) → no_capital part ≡ false → includes (to_lower_case text) part ≡ false
never_in_lower text part h = elim (Bool-cases (includes (to_lower_case text) part)) [
  | inl found ↦
      absurd (
        ground (arith, includes-no_capital (to_lower_case text) part found (no_capital-lower text)))
  | inr no_find ↦ no_find
]

-- The test comes down to one of its three texts, "unreachable" in any letter case: the two longer
-- texts have capital letters and are never found in a message in lower case.
pub is_retryable-eq :
    (message : List ℕ)
    → is_retryable_initialization_error message
      ≡ includes (to_lower_case message) unreachable_error_text
unfolding is_retryable_initialization_error
is_retryable-eq message = rw (
  never_in_lower message gatt_unreachable_text refl,
  never_in_lower message gatt_failed_unreachable_text refl,
)
