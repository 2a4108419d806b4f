-- ===== src/Broker/Options.antt =====
-- Which published texts of src/broker/payload-utils.ts a setter of src/devices/device.ts takes back.
use text.Mathlib.Text.{◌==◌ as str_eq}
use text.Mathlib.TextEquality.{eq_iff}
use bluetti_mqtt_node.Common.{
  ℕ, ◌≡◌, ap, ◌∙◌, sym, true, false, [], ◌∷◌, ◌==◌, ==_iff, some, String, Bool-cases, inl, inr, ◌⊎◌,
  All,
}
use bluetti_mqtt_node.Common.JsNumber.{nat}
use bluetti_mqtt_node.Errors.{error, ok, throws}
use bluetti_mqtt_node.Devices.Field.{EnumDefinition, enum_value, named, enum_value_of, enum_field}
use bluetti_mqtt_node.Devices.Device.{enum_option, encode_value}
use bluetti_mqtt_node.Broker.Payload.{
  boolean_on_value, boolean_off_value, is_integer_payload, parse_command_value,
}

-- No two options have one name.
abbrev pub IsDistinct : EnumDefinition → Type 0
IsDistinct [] = Unit
IsDistinct ((name, value) ∷ entries) =
    All (λ entry. str_eq name entry.0 ≡ false) entries × IsDistinct entries

-- The text stands for no Boolean and no integer.
abbrev pub IsPlain : String → Type 0
IsPlain name =
    (str_eq name boolean_on_value ≡ false)
    × (str_eq name boolean_off_value ≡ false)
    × (is_integer_payload name ≡ false)

other_name :
    (key name : String) (value raw : ℕ) (entries : EnumDefinition)
    → enum_value_of entries raw ≡ enum_value (named name) value
    → All (λ entry. str_eq key entry.0 ≡ false) entries
    → str_eq key name ≡ false
unfolding enum_value_of
other_name key name value raw [] h differs = cc
other_name key name value raw ((k, v) ∷ entries) h (d, differs) = elim (Bool-cases (v == raw)) [
  | inl e ↦
      let found : enum_value_of ((k, v) ∷ entries) raw ≡ enum_value (named k) v = rw e in
      let same : k ≡ name = cc in ap (str_eq key) (sym same) ∙ d
  | inr e ↦
      let next : enum_value_of ((k, v) ∷ entries) raw ≡ enum_value_of entries raw = rw e in
      other_name key name value raw entries (sym next ∙ h) differs
]

enum_option-enum_value_of :
    (entries : EnumDefinition) (raw value : ℕ) (name : String)
    → enum_value_of entries raw ≡ enum_value (named name) value
    → IsDistinct entries
    → enum_option entries name ≡ some (nat raw)
unfolding enum_option enum_value_of
enum_option-enum_value_of [] raw value name h distinct = cc
enum_option-enum_value_of ((k, v) ∷ entries) raw value name h (differs, distinct) =
    elim (Bool-cases (v == raw)) [
      | inl e ↦
          let found : enum_value_of ((k, v) ∷ entries) raw ≡ enum_value (named k) v = rw e in
          let same : k ≡ name = cc in
          let (_, equal) = eq_iff k name in
          let (to_path, _) = ==_iff v raw in rw (equal same, to_path e)
      | inr e ↦
          let next : enum_value_of ((k, v) ∷ entries) raw ≡ enum_value_of entries raw = rw e in
          rw (
            other_name k name value raw entries (sym next ∙ h) differs,
            enum_option-enum_value_of entries raw value name (sym next ∙ h) distinct,
          )
    ]

-- The name that an enum value is published under comes back as its register value.
pub option_round_trip :
    (entries : EnumDefinition) (raw value : ℕ) (name : String)
    → enum_value_of entries raw ≡ enum_value (named name) value
    → IsDistinct entries
    → IsPlain name
    → encode_value (enum_field entries) (parse_command_value name) ≡ ok (nat raw)
unfolding encode_value parse_command_value
option_round_trip entries raw value name h distinct (on, off, integer) =
    rw (on, off, integer, enum_option-enum_value_of entries raw value name h distinct)

-- No enum field takes a text that is also that of a Boolean, though an option may have the name.
pub boolean_option_is_refused :
    (entries : EnumDefinition) (name : String)
    → (str_eq name boolean_on_value ≡ true) ⊎ (str_eq name boolean_off_value ≡ true)
    → encode_value (enum_field entries) (parse_command_value name) ≡ throws error
unfolding encode_value parse_command_value
boolean_option_is_refused entries name (inl on) = rw on
boolean_option_is_refused entries name (inr off) =
    elim (Bool-cases (str_eq name boolean_on_value)) [ inl e ↦ rw e | inr e ↦ rw (e, off) ]
