-- ===== src/Devices/Registry/Laws.antt =====
-- Which names src/devices/registry.ts takes, and the device that it makes of one.
use Prim.Native.Char.{Char, code}
use Prim.Native.String.{String, [] as empty, ◌∷◌ as ◌then◌}
use bluetti_mqtt_node.Common.{
  ◌≡◌, refl, ap, ◌∙◌, sym, true, false, Memᴰ, leb, ◌==◌, if◌then◌else◌, some, Option-cases, All,
  All-Memᴰ, leb→le, and-true, inl, inr, ◌↔◌, arith,
}
use bluetti_mqtt_node.Errors.{error, ok, throws, ok_injective}
use bluetti_mqtt_node.Devices.Device.{BluettiDevice}
use bluetti_mqtt_node.Devices.Definition.{
  DeviceDefinition, bluetti_definitions, definition_in, new_bluetti_device_model, ac200m_definition,
  ac300_definition, ac500_definition, ac60_definition, eb3a_definition, ep500p_definition,
  ep500_definition, ep600_definition,
}
use bluetti_mqtt_node.Devices.Registry.{
  model_names, is_digit, all_digits, is_serial, match_models, exec_device_name_pattern,
  is_supported_bluetti_name, create_device_from_advertisement,
}
use bluetti_mqtt_node.Devices.Registry.Match.{
  join, IsSerial, is_serial-IsSerial, IsSerial-is_serial, match_models-some, definition_in-some,
}

-- What the match says of a name that is a model of the table and then digits.
abbrev IsMatched : String → DeviceDefinition → Type 0
IsMatched serial def =
    (exec_device_name_pattern (join def.type_name serial) ≡ some (def.type_name, serial))
    × (definition_in bluetti_definitions def.type_name ≡ some def)

digit_not-P : (c : Char) → is_digit c ≡ true → (80 == code c) ≡ false
digit_not-P c h =
    let (_, high) = and-true (leb 48 (code c)) (leb (code c) 57) h in
    let bound = leb→le (code c) 57 high in ground arith

All-IsMatched :
    (serial : String) → is_serial serial ≡ true → All (IsMatched serial) bluetti_definitions
unfolding exec_device_name_pattern match_models
All-IsMatched empty h = cc
All-IsMatched (c then s) h =
    let (digit, _) = and-true (is_digit c) (all_digits s) h in
    (
      (rw h, refl),
      (
        (rw h, refl),
        (
          (rw h, refl),
          (
            (rw h, refl),
            (
              (rw h, refl),
              ((rw (digit_not-P c digit, h), refl), ((rw h, refl), ((rw h, refl), tt))),
            ),
          ),
        ),
      ),
    )

IsMatched-model :
    (address serial : String) (def : DeviceDefinition)
    → IsMatched serial def
    → create_device_from_advertisement address (join def.type_name serial)
      ≡ ok (new_bluetti_device_model address serial def)
unfolding create_device_from_advertisement
IsMatched-model address serial def (matched, found) = rw (matched, found)

-- A name makes a device just when it is the name of a model of the table and then one or more
-- digits; the device is that model's, with the digits as its serial number.
pub create_device_iff :
    (address name : String) (device : BluettiDevice)
    → (create_device_from_advertisement address name ≡ ok device) ↔ (
        (def : DeviceDefinition) × (serial : String) × Memᴰ def bluetti_definitions
        × IsSerial serial
        × (name ≡ join def.type_name serial)
        × (device ≡ new_bluetti_device_model address serial def))
unfolding create_device_from_advertisement exec_device_name_pattern
create_device_iff address name device = (
  λ h. elim (Option-cases (match_models model_names name)) [
    | inl e ↦
        let step : create_device_from_advertisement address name ≡ throws error = rw e in
        absurd (cc)
    | inr ((model, serial), e) ↦
        let (_, split, digits) = match_models-some model_names name model serial e in
        elim (Option-cases (definition_in bluetti_definitions model)) [
          | inl none_found ↦
              let step : create_device_from_advertisement address name ≡ throws error =
                rw (e, none_found) in
              absurd (cc)
          | inr (def, found) ↦
              let step : create_device_from_advertisement address name
                  ≡ ok (new_bluetti_device_model address serial def) =
                rw (e, found) in
              let (among, named) = definition_in-some bluetti_definitions model def found in
              (
                def,
                serial,
                among,
                is_serial-IsSerial serial digits,
                split ∙ ap (λ t. join t serial) (sym named),
                ok_injective (sym h ∙ step),
              )
        ]
  ],
  λ (def, serial, among, digits, split, same).
      let matched =
        All-Memᴰ (IsMatched serial) bluetti_definitions
          (All-IsMatched serial (IsSerial-is_serial serial digits)) among in
      ap (create_device_from_advertisement address) split
      ∙ IsMatched-model address serial def matched
      ∙ ap ok (sym same),
)

-- Every model of the pattern is one of the table.
models_are_defined :
    All
      (λ model. (def : DeviceDefinition) × (definition_in bluetti_definitions model ≡ some def))
      model_names
models_are_defined = (
  (ac200m_definition, refl),
  (
    (ac300_definition, refl),
    (
      (ac500_definition, refl),
      (
        (ac60_definition, refl),
        (
          (eb3a_definition, refl),
          ((ep500p_definition, refl), ((ep500_definition, refl), ((ep600_definition, refl), tt))),
        ),
      ),
    ),
  ),
)

-- The test and the constructor agree: every model of the pattern has a definition.
pub is_supported_iff :
    (address name : String)
    → (is_supported_bluetti_name name ≡ true)
      ↔ ((device : BluettiDevice) × (create_device_from_advertisement address name ≡ ok device))
unfolding is_supported_bluetti_name create_device_from_advertisement exec_device_name_pattern
is_supported_iff address name = elim (Option-cases (match_models model_names name)) [
  | inl e ↦
      let step : create_device_from_advertisement address name ≡ throws error = rw e in
      let test : is_supported_bluetti_name name ≡ false = rw e in
      (λ h. absurd (cc), λ (device, p). absurd (cc))
  | inr ((model, serial), e) ↦
      let test : is_supported_bluetti_name name ≡ true = rw e in
      let (among, split, digits) = match_models-some model_names name model serial e in
      let (def, found) =
        All-Memᴰ (λ m. (d : DeviceDefinition) × (definition_in bluetti_definitions m ≡ some d))
          model_names models_are_defined among in
      (λ h. (new_bluetti_device_model address serial def, rw (e, found)), λ p. test)
]
