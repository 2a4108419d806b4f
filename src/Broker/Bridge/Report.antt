-- ===== src/Broker/Bridge/Report.antt =====
-- What a report to the bridge of src/broker/client.ts tells the broker, message by message.
use bluetti_mqtt_node.Common.{
  ℕ, zero, suc, ◌≡◌, refl, ap, true, false, List, [], ◌∷◌, ◌++◌, length, get_elem?, some, String,
  arith,
}
use bluetti_mqtt_node.Common.Occurrences.{some_injective}
use bluetti_mqtt_node.Devices.Field.{
  ParsedValue, boolean, number, quotient, quotients, bigint, text as parsed_text, enum_value, named,
  unknown,
}
use bluetti_mqtt_node.Devices.Struct.{ParsedFieldMap}
use bluetti_mqtt_node.Devices.Device.{BluettiDevice}
use bluetti_mqtt_node.Broker.Topic.{◌join◌}
use bluetti_mqtt_node.Broker.Bridge.{Calls, state_topic, state_text, field_messages, state_messages}

module _ {W : Type 0} (calls : Calls W) where
  -- The text that stands for a value on a state topic; texts that JavaScript makes of numbers and
  -- of other values are those of the calls.
  abbrev pub told_text : ParsedValue → String
  told_text (boolean true) = "ON"
  told_text (boolean false) = "OFF"
  told_text (enum_value (named name) raw) = name
  told_text value = calls.value_text value

  abbrev pub told_topic : BluettiDevice → String → String
  told_topic device name =
      "bluetti/state/"
      join (device.type_name join ("-" join (device.serial_number join ("/" join name))))

  -- One message for each field, at the place of the field, and one more at the end.
  unfoldable pub TellsAll : BluettiDevice → ParsedFieldMap → List (String × String) → Type 0
  TellsAll device parsed messages =
      (length messages ≡ suc (length parsed))
      × ((i : ℕ) (name : String) (value : ParsedValue)
          → get_elem? parsed i ≡ some (name, value)
          → get_elem? messages i ≡ some (told_topic device name, told_text value))
      × (get_elem? messages (length parsed)
          ≡ some (told_topic device "_raw", calls.snapshot_text parsed))

  state_text-told : (value : ParsedValue) → state_text calls value ≡ told_text value
  state_text-told (boolean true) = refl
  state_text-told (boolean false) = refl
  state_text-told (number n) = refl
  state_text-told (quotient n d) = refl
  state_text-told (quotients ns d) = refl
  state_text-told (bigint n) = refl
  state_text-told (parsed_text cs) = refl
  state_text-told (enum_value (named name) raw) = refl
  state_text-told (enum_value (unknown n) raw) = refl

  -- The messages of the fields, with one more after them.
  length-fields :
      (device : BluettiDevice) (parsed : ParsedFieldMap) (last : String × String)
      → length (field_messages calls device parsed ++ last ∷ []) ≡ suc (length parsed)
  unfolding field_messages
  length-fields device [] last = omega arith
  length-fields device ((name, value) ∷ parsed) last =
      let rest = length-fields device parsed last in omega arith

  nth-fields :
      (device : BluettiDevice) (parsed : ParsedFieldMap) (last : String × String) (i : ℕ)
      (name : String) (value : ParsedValue)
      → get_elem? parsed i ≡ some (name, value)
      → get_elem? (field_messages calls device parsed ++ last ∷ []) i
        ≡ some (told_topic device name, told_text value)
  unfolding state_topic field_messages
  nth-fields device [] last i name value h = absurd (cc)
  nth-fields device ((n, v) ∷ parsed) last zero name value h =
      let same_name : n ≡ name = ap (λ x. x.0) (some_injective h) in
      let same_value : v ≡ value = ap (λ x. x.1) (some_injective h) in
      rw (same_name, same_value, state_text-told value)
  nth-fields device ((n, v) ∷ parsed) last (suc i) name value h =
      nth-fields device parsed last i name value h

  last-fields :
      (device : BluettiDevice) (parsed : ParsedFieldMap) (last : String × String)
      → get_elem? (field_messages calls device parsed ++ last ∷ []) (length parsed) ≡ some last
  unfolding field_messages
  last-fields device [] last = refl
  last-fields device ((n, v) ∷ parsed) last = last-fields device parsed last

  pub state_messages-TellsAll :
      (device : BluettiDevice) (parsed : ParsedFieldMap)
      → TellsAll device parsed (state_messages calls device parsed)
  unfolding TellsAll state_topic state_messages
  state_messages-TellsAll device parsed =
      let last : String × String = (told_topic device "_raw", calls.snapshot_text parsed) in
      (
        length-fields device parsed last,
        nth-fields device parsed last,
        last-fields device parsed last,
      )
