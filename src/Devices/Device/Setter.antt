-- ===== src/Devices/Device/Setter.antt =====
-- What `buildSetterCommand` of src/devices/device.ts sends, and for which fields.
use bluetti_mqtt_node.Common.{
  ℕ, ◌≤◌, ◌<◌, ◌≡◌, refl, ap, ◌∙◌, sym, true, false, List, Memᴰ, [], ◌∷◌, if◌then◌else◌, Option,
  none, some, String, arith, All, All-Memᴰ, Bool-cases, inl, inr, Option-cases, ◌⊎◌, ◌↔◌, and-true,
}
use text.Mathlib.Text.{◌==◌ as str_eq}
use text.Mathlib.TextEquality.{eq_iff}
use bluetti_mqtt_node.Common.JsNumber.{JsNumber, nat, neg, frac}
use bluetti_mqtt_node.Errors.{error, ok, throws, ok_injective, Result-cases}
use bluetti_mqtt_node.Commands.Frames.{write_command, new_write_inversion}
use bluetti_mqtt_node.Commands.{DeviceCommand, device_command, new_write_single_register}
use bluetti_mqtt_node.Devices.Field.{DeviceField, FieldKind, bool_field, enum_field}
use bluetti_mqtt_node.Devices.Device.{
  WritableRange, BluettiDevice, is_address_writable, is_setter, any_setter, has_field_setter,
  find_setter, SetterValue, boolean, number, string, enum_option, known_option, integer_value,
  encode_value, build_setter, build_setter_command,
}

-- The address lies in a writable range.
abbrev pub Writable : ℕ → List WritableRange → Type 0
Writable address [] = ⊥
Writable address (range ∷ ranges) =
    ((range.start ≤ address) × (address < range.end_exclusive)) ⊎ Writable address ranges

-- The register value that a value stands for in a field of a class.
abbrev pub Encodes : FieldKind → SetterValue → ℕ → Type 0
Encodes (enum_field entries) (number value) raw = value ≡ nat raw
Encodes (enum_field entries) (string name) raw = enum_option entries name ≡ some (nat raw)
Encodes bool_field (boolean value) raw = raw ≡ (if value then 1 else 0)
Encodes (enum_field entries) (boolean value) raw = ⊥
Encodes bool_field _ raw = ⊥
Encodes _ (number value) raw = value ≡ nat raw
Encodes _ _ raw = ⊥

Writable-of :
    (address : ℕ) (ranges : List WritableRange)
    → is_address_writable address ranges ≡ true
    → Writable address ranges
Writable-of address [] h = cc
Writable-of address (range ∷ ranges) h = let rest = Writable-of address ranges in ground arith

find_setter-some :
    (ranges : List WritableRange) (name : String) (fields : List DeviceField) (field : DeviceField)
    → find_setter ranges name fields ≡ some field
    → Memᴰ field fields × (is_setter ranges name field ≡ true)
find_setter-some ranges name [] field h = cc
find_setter-some ranges name (other ∷ fields) field h =
    elim (Bool-cases (is_setter ranges name other)) [
      | inl e ↦
          let found : find_setter ranges name (other ∷ fields) ≡ some other = rw e in
          let same : other ≡ field = cc in
          (Memᴰ.head (sym same), ap (is_setter ranges name) (sym same) ∙ e)
      | inr e ↦
          let next : find_setter ranges name (other ∷ fields) ≡ find_setter ranges name fields =
            rw e in
          let (in_rest, q) = find_setter-some ranges name fields field (sym next ∙ h) in
          (Memᴰ.tail in_rest, q)
    ]

known_option-ok :
    (o : Option JsNumber) (value : JsNumber) → known_option o ≡ ok value → o ≡ some value
known_option-ok none value h = cc
known_option-ok (some v) value h = ap some (ok_injective h)

integer_value-ok : (v value : JsNumber) → integer_value v ≡ ok value → v ≡ value
integer_value-ok (nat n) value h = ok_injective h
integer_value-ok (neg n) value h = ok_injective h
integer_value-ok (frac q) value h = cc

encode_value-Encodes :
    (kind : FieldKind) (value : SetterValue) (raw : ℕ)
    → encode_value kind value ≡ ok (nat raw)
    → Encodes kind value raw
unfolding encode_value
encode_value-Encodes (enum_field entries) (number value) raw h = ok_injective h
encode_value-Encodes (enum_field entries) (string name) raw h =
    known_option-ok (enum_option entries name) (nat raw) h
encode_value-Encodes (enum_field entries) (boolean value) raw h = cc
encode_value-Encodes bool_field (boolean value) raw h = cc
encode_value-Encodes bool_field (number value) raw h = cc
encode_value-Encodes bool_field (string name) raw h = cc
encode_value-Encodes kind (number value) raw h = integer_value-ok value (nat raw) h
encode_value-Encodes kind (boolean value) raw h = cc
encode_value-Encodes kind (string value) raw h = cc

-- A setter command writes one register: that of a field of the model with the name, inside a
-- writable range, with the 16-bit value that the value stands for in a field of that class.
pub build_setter_command-Writes :
    (device : BluettiDevice) (name : String) (value : SetterValue) (command : DeviceCommand)
    → build_setter_command device name value ≡ ok command
    → (field : DeviceField) × (raw : ℕ) × Memᴰ field device.struct
      × (field.name ≡ name)
      × Writable field.address device.writable_ranges
      × Encodes field.kind value raw
      × (raw < 0x10000)
      × (field.address < 0x10000)
      × (command ≡ write_command field.address raw)
unfolding build_setter_command build_setter
build_setter_command-Writes device name value command h =
    let ranges = device.writable_ranges in
    elim (Option-cases (find_setter ranges name device.struct)) [
      | inl missing ↦
          let step : build_setter_command device name value ≡ throws error = rw missing in
          absurd (cc)
      | inr (field, found) ↦ elim (Result-cases (encode_value field.kind value)) [
        | inl (encoded, p) ↦
            let step : build_setter_command device name value
                ≡ new_write_single_register (nat field.address) encoded =
              rw (found, p) in
            let (address, raw, q, r, a_lt, r_lt, same) =
              new_write_inversion (nat field.address) encoded command (sym step ∙ h) in
            let (in_struct, test) = find_setter-some ranges name device.struct field found in
            let (named, writable) =
              and-true (str_eq field.name name) (is_address_writable field.address ranges) test in
            let (equal, _) = eq_iff field.name name in
            let address_lem : address ≡ field.address = cc in
            (
              field,
              raw,
              in_struct,
              equal named,
              Writable-of field.address ranges writable,
              encode_value-Encodes field.kind value raw (p ∙ ap ok r),
              r_lt,
              omega arith,
              same ∙ ap (λ a. write_command a raw) address_lem,
            )
        | inr (e, p) ↦
            let step : build_setter_command device name value ≡ throws e = rw (found, p) in
            absurd (cc)
      ]
    ]

find_setter-any :
    (ranges : List WritableRange) (name : String) (fields : List DeviceField)
    → any_setter ranges name fields ≡ true
    → (field : DeviceField) × (find_setter ranges name fields ≡ some field)
find_setter-any ranges name [] h = cc
find_setter-any ranges name (field ∷ fields) h = elim (Bool-cases (is_setter ranges name field)) [
  | inl e ↦ (field, rw e)
  | inr e ↦ let (found, p) = find_setter-any ranges name fields (ground arith) in (found, rw (e, p))
]

any_setter-find :
    (ranges : List WritableRange) (name : String) (fields : List DeviceField) (field : DeviceField)
    → find_setter ranges name fields ≡ some field
    → any_setter ranges name fields ≡ true
any_setter-find ranges name [] field h = cc
any_setter-find ranges name (other ∷ fields) field h =
    elim (Bool-cases (is_setter ranges name other)) [
      | inl e ↦ rw e
      | inr e ↦
          let next : find_setter ranges name (other ∷ fields) ≡ find_setter ranges name fields =
            rw e in
          rw (e, any_setter-find ranges name fields field (sym next ∙ h))
    ]

-- A value that a field of a class takes, and the register value for it.
abbrev sample_value : FieldKind → SetterValue
sample_value bool_field = boolean false
sample_value _ = number (nat 0)

encode_value-sample : (kind : FieldKind) → encode_value kind (sample_value kind) ≡ ok (nat 0)
unfolding encode_value
encode_value-sample bool_field = refl
encode_value-sample _ = refl

new_write-zero :
    (address : ℕ)
    → address < 0x10000
    → new_write_single_register (nat address) (nat 0) ≡ ok (write_command address 0)
unfolding new_write_single_register
new_write-zero address h = ground arith

abbrev pub IsAddressed : List DeviceField → Type 0
IsAddressed = All (λ field. field.address < 0x10000)

-- `hasFieldSetter` is true just where some value makes a command.
pub has_field_setter_iff :
    (device : BluettiDevice) (name : String)
    → IsAddressed device.struct
    → (has_field_setter device name ≡ true) ↔ (
        (value : SetterValue) × (command : DeviceCommand) × (build_setter_command device name value
          ≡ ok command))
unfolding build_setter_command build_setter device_command
has_field_setter_iff device name addressed =
    let ranges = device.writable_ranges in
    (
      λ h.
          let (field, found) = find_setter-any ranges name device.struct h in
          let (in_struct, _) = find_setter-some ranges name device.struct field found in
          let written =
            new_write-zero field.address
              (All-Memᴰ (λ f. f.address < 0x10000) device.struct addressed in_struct) in
          (
            sample_value field.kind,
            write_command field.address 0,
            rw (found, encode_value-sample field.kind, written),
          ),
      λ (value, command, p). elim (Option-cases (find_setter ranges name device.struct)) [
        | inl missing ↦
            let step : build_setter_command device name value ≡ throws error = rw missing in
            absurd (cc)
        | inr (field, found) ↦ any_setter-find ranges name device.struct field found
      ],
    )
