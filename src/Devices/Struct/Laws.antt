-- ===== src/Devices/Struct/Laws.antt =====
-- What `parse` of src/devices/struct.ts gives: the errors, and the value under each name.
use bluetti_mqtt_node.Common.{
  ℕ, ◌/◌, ◌%◌, ◌≡◌, refl, ◌∙◌, sym, true, false, List, [], ◌∷◌, ◌++◌, length, ◌==◌, some, String,
  All, Bool-cases, inl, inr,
}
use text.Mathlib.Text.{◌==◌ as str_eq}
use text.Mathlib.TextEquality.{eq_iff}
use bluetti_mqtt_node.Errors.{range_error, ok, throws, ◌>>=◌, Result-cases}
use bluetti_mqtt_node.Devices.Field.{DeviceField, ParsedValue, parse_field, is_in_range}
use bluetti_mqtt_node.Devices.Struct.{
  ParsedFieldMap, insert_field, lookup_field, is_outside, field_bytes, decode_into, parse_fields,
  parse_struct,
}

-- The window of `bytes` at `start` covers the field, and it decodes there to a value that its
-- range lets through.
unfoldable pub Reports : ℕ → List ℕ → DeviceField → ParsedValue → Type 0
Reports start bytes field value =
    (is_outside start (length bytes / 2) field ≡ false)
    × (parse_field field (field_bytes start bytes field) ≡ ok value)
    × (is_in_range field value ≡ true)

-- The field leaves what is known under `name` alone.
pub Keeps : ℕ → List ℕ → String → DeviceField → Type 0
Keeps start bytes name field =
    (field.name ≡ name) → (value : ParsedValue) → Reports start bytes field value → ⊥

str_eq_refl : (s : String) → str_eq s s ≡ true
str_eq_refl s = let (_, equal) = eq_iff s s in equal refl

lookup-insert_same :
    (name : String) (value : ParsedValue) (parsed : ParsedFieldMap)
    → lookup_field name (insert_field name value parsed) ≡ some value
unfolding insert_field lookup_field
lookup-insert_same name value [] = rw (str_eq_refl name)
lookup-insert_same name value ((key, old) ∷ parsed) = elim (Bool-cases (str_eq key name)) [
  | inl e ↦ rw (e, e)
  | inr e ↦ rw (e, e, lookup-insert_same name value parsed)
]

lookup-insert_other :
    (name other : String) (value : ParsedValue) (parsed : ParsedFieldMap)
    → str_eq other name ≡ false
    → lookup_field name (insert_field other value parsed) ≡ lookup_field name parsed
unfolding insert_field lookup_field
lookup-insert_other name other value [] h = rw h
lookup-insert_other name other value ((key, old) ∷ parsed) h =
    let rest = lookup-insert_other name other value parsed h in
    elim (Bool-cases (str_eq key other)) [
      | inl e ↦ elim (Bool-cases (str_eq key name)) [
        | inl k ↦ let (same, _) = eq_iff key other in let key_other = same e in cc
        | inr k ↦ rw (e, k)
      ]
      | inr e ↦ elim (Bool-cases (str_eq key name)) [ inl k ↦ rw (e, k) | inr k ↦ rw (e, k, rest) ]
    ]

parse_fields-append :
    (start : ℕ) (bytes : List ℕ) (before after : List DeviceField) (parsed : ParsedFieldMap)
    → parse_fields start bytes (before ++ after) parsed
      ≡ (parse_fields start bytes before parsed >>= parse_fields start bytes after)
unfolding parse_fields
parse_fields-append start bytes [] after parsed = refl
parse_fields-append start bytes (field ∷ before) after parsed =
    elim (decode_into start bytes field parsed)
      as (λ r.
        (r >>= (λ p. parse_fields start bytes (before ++ after) p))
        ≡ ((r >>= (λ p. parse_fields start bytes before p)) >>= parse_fields start bytes after)) [
          | ok parsed' ↦ parse_fields-append start bytes before after parsed'
          | throws e ↦ refl
        ]

decode_into-Reports :
    (start : ℕ) (bytes : List ℕ) (field : DeviceField) (value : ParsedValue)
    (parsed : ParsedFieldMap)
    → Reports start bytes field value
    → decode_into start bytes field parsed ≡ ok (insert_field field.name value parsed)
unfolding Reports decode_into
decode_into-Reports start bytes field value parsed (inside, decoded, in_range) =
    rw (inside, decoded, in_range)

decode_into-Keeps :
    (start : ℕ) (bytes : List ℕ) (name : String) (field : DeviceField)
    (parsed parsed' : ParsedFieldMap)
    → Keeps start bytes name field
    → decode_into start bytes field parsed ≡ ok parsed'
    → lookup_field name parsed' ≡ lookup_field name parsed
unfolding Keeps Reports decode_into
decode_into-Keeps start bytes name field parsed parsed' keeps h =
    elim (Bool-cases (is_outside start (length bytes / 2) field)) [
      | inl outside ↦ let e : decode_into start bytes field parsed ≡ ok parsed = rw outside in cc
      | inr inside ↦ elim (Result-cases (parse_field field (field_bytes start bytes field))) [
        | inl (value, decoded) ↦ elim (Bool-cases (is_in_range field value)) [
          | inl in_range ↦ elim (Bool-cases (str_eq field.name name)) [
            | inl same ↦
                let (equal, _) = eq_iff field.name name in
                absurd (keeps (equal same) value (inside, decoded, in_range))
            | inr differs ↦
                let e =
                  decode_into-Reports start bytes field value parsed (inside, decoded, in_range) in
                let other = lookup-insert_other name field.name value parsed differs in cc
          ]
          | inr out_of_range ↦
              let e : decode_into start bytes field parsed ≡ ok parsed =
                rw (inside, decoded, out_of_range) in
              cc
        ]
        | inr (e, failed) ↦
            let g : decode_into start bytes field parsed ≡ throws e = rw (inside, failed) in cc
      ]
    ]

parse_fields-Keeps :
    (start : ℕ) (bytes : List ℕ) (name : String) (fields : List DeviceField)
    (parsed parsed' : ParsedFieldMap)
    → All (Keeps start bytes name) fields
    → parse_fields start bytes fields parsed ≡ ok parsed'
    → lookup_field name parsed' ≡ lookup_field name parsed
unfolding parse_fields
parse_fields-Keeps start bytes name [] parsed parsed' keep h = cc
parse_fields-Keeps start bytes name (field ∷ fields) parsed parsed' (keep, keeps) h =
    elim (Result-cases (decode_into start bytes field parsed)) [
      | inl (next, p) ↦
          let step : parse_fields start bytes (field ∷ fields) parsed
              ≡ parse_fields start bytes fields next =
            rw p in
          parse_fields-Keeps start bytes name fields next parsed' keeps (sym step ∙ h)
          ∙ decode_into-Keeps start bytes name field parsed next keep p
      | inr (e, p) ↦
          let step : parse_fields start bytes (field ∷ fields) parsed ≡ throws e = rw p in cc
    ]

-- The value under a name is that of the last field of that name that the window reports.
pub parse_struct-lookup :
    (start : ℕ) (bytes : List ℕ) (before after : List DeviceField) (field : DeviceField)
    (value : ParsedValue) (parsed : ParsedFieldMap)
    → parse_struct (before ++ field ∷ after) start bytes ≡ ok parsed
    → Reports start bytes field value
    → All (Keeps start bytes field.name) after
    → lookup_field field.name parsed ≡ some value
unfolding parse_struct parse_fields
parse_struct-lookup start bytes before after field value parsed h reports keeps =
    elim (Bool-cases (length bytes % 2 == 0)) [
      | inl even ↦ elim (Result-cases (parse_fields start bytes before [])) [
        | inl (first, p) ↦
            let decoded = decode_into-Reports start bytes field value first reports in
            let step : parse_struct (before ++ field ∷ after) start bytes
                ≡ parse_fields start bytes after (insert_field field.name value first) =
              rw (even, parse_fields-append start bytes before (field ∷ after) [], p, decoded) in
            let insert_lem = lookup-insert_same field.name value first in
            let rest =
              parse_fields-Keeps start bytes field.name after (insert_field field.name value first)
                parsed keeps (sym step ∙ h) in
            rest ∙ insert_lem
        | inr (e, p) ↦
            let step : parse_struct (before ++ field ∷ after) start bytes ≡ throws e =
              rw (even, parse_fields-append start bytes before (field ∷ after) [], p) in
            cc
      ]
      | inr odd ↦
          let step : parse_struct (before ++ field ∷ after) start bytes ≡ throws range_error =
            rw odd in
          cc
    ]
