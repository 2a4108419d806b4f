-- ===== src/Errors.antt =====
-- src/bluetooth/errors.ts and the built-in errors that the source throws: the classes by which
-- `instanceof` tells them apart, with the exception code of a MODBUS error (`none` for UNKNOWN_ERROR_CODE). Messages are left
-- out.
use bluetti_mqtt_node.Common.{ℕ, Bool, true, false, Option, ◌≡◌, refl, ◌⊎◌, inl, inr}

pub data Error : Type 0 where
  error range_error aggregate_error : Error
  bad_connection_error command_timeout_error parse_error : Error
  modbus_error : Option ℕ → Error
  device_busy_error : ℕ → Error

-- What a function returns, or the error that it throws.
pub data Result {ℓ} (A : Type ℓ) : Type ℓ where
  ok : A → Result A
  throws : Error → Result A

infixl 5 ◌>>=◌ ◌>>◌
abbrev pub ◌>>=◌ {ℓ κ} : {A : Type ℓ} {B : Type κ} → Result A → (A → Result B) → Result B
ok a >>= k = k a
throws e >>= k = throws e

abbrev pub ◌>>◌ {ℓ κ} : {A : Type ℓ} {B : Type κ} → Result A → Result B → Result B
m >> k = m >>= λ _. k

abbrev pub is_ok {ℓ} : {A : Type ℓ} → Result A → Bool
is_ok (ok a) = true
is_ok (throws e) = false

pub ok_injective {ℓ} : {A : Type ℓ} {a b : A} → ok a ≡ ok b → a ≡ b
ok_injective h = cc

pub Result-cases {ℓ} :
    {A : Type ℓ} (r : Result A) → ((a : A) × (r ≡ ok a)) ⊎ ((e : Error) × (r ≡ throws e))
Result-cases (ok a) = inl (a, refl)
Result-cases (throws e) = inr (e, refl)
