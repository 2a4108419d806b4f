-- ===== src/Devices/Struct/Total.antt =====
-- When `parse` of src/devices/struct.ts succeeds.
use bluetti_mqtt_node.Common.{
  ℕ, ◌+◌, ◌-◌, ◌*◌, ◌/◌, ◌%◌, ◌≤◌, ◌≡◌, refl, false, List, [], ◌∷◌, length, drop, length-take,
  length-drop, ◌==◌, if◌then◌else◌, arith, All, Bool-cases, inl, inr, ◌↔◌,
}
use bluetti_mqtt_node.Errors.{range_error, ok, throws}
use bluetti_mqtt_node.Devices.Field.{DeviceField, is_in_range}
use bluetti_mqtt_node.Devices.Field.Laws.{HasSize, parse_field_total}
use bluetti_mqtt_node.Devices.Struct.{
  DeviceStruct, ParsedFieldMap, insert_field, is_outside, field_bytes, decode_into, parse_fields,
  parse_struct,
}

abbrev pub HasSizes : DeviceStruct → Type 0
HasSizes = All (λ field. HasSize field.kind field.size)

inside_bounds :
    (start count : ℕ) (field : DeviceField)
    → is_outside start count field ≡ false
    → (start ≤ field.address) × (field.address + field.size ≤ start + count)
unfolding is_outside
inside_bounds start count field h = ground arith

length-field_bytes :
    (start : ℕ) (bytes : List ℕ) (field : DeviceField)
    → length bytes % 2 ≡ 0
    → is_outside start (length bytes / 2) field ≡ false
    → length (field_bytes start bytes field) ≡ field.size * 2
unfolding field_bytes
length-field_bytes start bytes field even inside =
    let (low, high) = inside_bounds start (length bytes / 2) field inside in
    let offset = (field.address - start) * 2 in
    omega (arith, length-take (field.size * 2) (drop offset bytes), length-drop offset bytes)

decode_into-total :
    (start : ℕ) (bytes : List ℕ) (field : DeviceField) (parsed : ParsedFieldMap)
    → HasSize field.kind field.size
    → length bytes % 2 ≡ 0
    → (parsed' : ParsedFieldMap) × (decode_into start bytes field parsed ≡ ok parsed')
unfolding decode_into
decode_into-total start bytes field parsed size even =
    elim (Bool-cases (is_outside start (length bytes / 2) field)) [
      | inl outside ↦ (parsed, rw outside)
      | inr inside ↦
          let (value, decoded) =
            parse_field_total field (field_bytes start bytes field) size
              (length-field_bytes start bytes field even inside) in
          (
            if is_in_range field value then insert_field field.name value parsed else parsed,
            rw (inside, decoded),
          )
    ]

parse_fields-total :
    (start : ℕ) (bytes : List ℕ) (fields : List DeviceField) (parsed : ParsedFieldMap)
    → HasSizes fields
    → length bytes % 2 ≡ 0
    → (parsed' : ParsedFieldMap) × (parse_fields start bytes fields parsed ≡ ok parsed')
unfolding parse_fields
parse_fields-total start bytes [] parsed sizes even = (parsed, refl)
parse_fields-total start bytes (field ∷ fields) parsed (size, sizes) even =
    let (next, p) = decode_into-total start bytes field parsed size even in
    let (parsed', q) = parse_fields-total start bytes fields next sizes even in (parsed', rw (p, q))

pub parse_struct-total :
    (fields : DeviceStruct) (start : ℕ) (bytes : List ℕ)
    → HasSizes fields
    → length bytes % 2 ≡ 0
    → (parsed : ParsedFieldMap) × (parse_struct fields start bytes ≡ ok parsed)
unfolding parse_struct
parse_struct-total fields start bytes sizes even =
    let (parsed, p) = parse_fields-total start bytes fields [] sizes even in (parsed, rw (even, p))

-- `parse` succeeds just on data of an even length.
pub parse_struct_ok_iff :
    (fields : DeviceStruct) (start : ℕ) (bytes : List ℕ)
    → HasSizes fields
    → ((parsed : ParsedFieldMap) × (parse_struct fields start bytes ≡ ok parsed))
      ↔ (length bytes % 2 ≡ 0)
unfolding parse_struct
parse_struct_ok_iff fields start bytes sizes = (
  λ (parsed, p). elim (Bool-cases (length bytes % 2 == 0)) [
    | inl even ↦ ground arith
    | inr odd ↦
        let step : parse_struct fields start bytes ≡ throws range_error = rw odd in absurd (cc)
  ],
  parse_struct-total fields start bytes sizes,
)
