-- ===== src/Broker/Bridge/Messages.antt =====
-- What the bridge of src/broker/client.ts publishes for a report, and which commands it passes on.
use text.Mathlib.Text.{◌==◌ as str_eq}
use bluetti_mqtt_node.Common.{
  ℕ, ◌≡◌, refl, sym, ap, ◌∙◌, subst, true, false, List, [], ◌∷◌, ◌++◌, some, String, All,
}
use bluetti_mqtt_node.Common.StringMap.{get_entry, get-set_same, get-set_other}
use bluetti_mqtt_node.Errors.{Result, ok, throws}
use bluetti_mqtt_node.Broker.Bridge.Report.{TellsAll, state_messages-TellsAll}
use bluetti_mqtt_node.Devices.Registry.{is_digit}
use bluetti_mqtt_node.Devices.Struct.{ParsedFieldMap}
use bluetti_mqtt_node.Devices.Device.{BluettiDevice, has_field_setter, build_setter_command}
use bluetti_mqtt_node.App.Runner.{Done}
use bluetti_mqtt_node.Broker.Payload.{parse_command_value}
use bluetti_mqtt_node.Broker.Topic.{
  IsGroup, is_model_char, is_field_char, command_topic, exec-command_topic,
}
use bluetti_mqtt_node.Broker.Bridge.{
  Calls, Bridge, device_key, publish_each, state_messages, handle_parser_message, send_command,
  handle_incoming_command,
}

module _ {W : Type 0} (calls : Calls W) where
  -- The world after the publication of every message, in order.
  abbrev pub published : List (String × String) → W → W
  published [] world = world
  published ((topic, text) ∷ messages) world = published messages (calls.publish topic text world).1

  -- Every publication of them is accepted.
  abbrev pub AllAccepted : List (String × String) → W → Type 0
  AllAccepted [] world = Unit
  AllAccepted ((topic, text) ∷ messages) world =
      ((calls.publish topic text world).0 ≡ ok tt)
      × AllAccepted messages (calls.publish topic text world).1

  -- All messages were published, or those before the first that was refused.
  unfoldable pub PublishEnds : List (String × String) → W → Result Done × W → Type 0
  PublishEnds messages world (ok done, after) =
      AllAccepted messages world × (after ≡ published messages world)
  PublishEnds messages world (throws e, after) =
      (sent : List (String × String)) × (topic : String) × (text : String) × (rest : List
        (String × String))
      × (messages ≡ sent ++ (topic, text) ∷ rest)
      × AllAccepted sent world
      × (calls.publish topic text (published sent world) ≡ (throws e, after))

  published_first :
      (topic text : String) (messages : List (String × String)) (world : W) (r : Result Done × W)
      → (calls.publish topic text world).0 ≡ ok tt
      → PublishEnds messages (calls.publish topic text world).1 r
      → PublishEnds ((topic, text) ∷ messages) world r
  unfolding PublishEnds
  published_first topic text messages world (ok done, after) accepted (all, same) =
      ((accepted, all), same)
  published_first topic text messages world (throws e, after) accepted
        (sent, t, x, rest, split, all, refused) =
      ((topic, text) ∷ sent, t, x, rest, ap (◌∷◌ (topic, text)) split, (accepted, all), refused)

  publish_each-PublishEnds :
      (messages : List (String × String)) (world : W)
      → PublishEnds messages world (publish_each calls messages world)
  unfolding publish_each PublishEnds
  publish_each-PublishEnds [] world = (tt, refl)
  publish_each-PublishEnds ((topic, text) ∷ messages) world =
      go (calls.publish topic text world) refl (publish_each-PublishEnds messages)
    where
      go :
          (r : Result Done × W)
          → calls.publish topic text world ≡ r
          → ((next : W) → PublishEnds messages next (publish_each calls messages next))
          → PublishEnds
              ((topic, text) ∷ messages)
              world
              (elim r.0 [ throws e ↦ (throws e, r.1) | ok done ↦ publish_each calls messages r.1 ])
      go (throws e, after) refused rest = ([], topic, text, messages, refl, tt, refused)
      go (ok done, after) accepted rest =
          published_first topic text messages world (publish_each calls messages after)
            (ap (λ x. x.0) accepted)
            (subst (λ x. PublishEnds messages x (publish_each calls messages after))
              (sym (ap (λ x. x.1) accepted)) (rest after))

  publish_report :
      (device : BluettiDevice) (parsed : ParsedFieldMap) (bridge : Bridge W)
      → bridge.has_client ≡ true
      → let (r, after) = handle_parser_message calls device parsed bridge in
        PublishEnds (state_messages calls device parsed) bridge.world (r, after.world)
        × (get_entry (device_key device) after.devices ≡ some device)
  unfolding handle_parser_message
  publish_report device parsed bridge on = rw on (
    publish_each-PublishEnds (state_messages calls device parsed) bridge.world,
    get-set_same (device_key device) device bridge.devices,
  )

  -- A report to a connected bridge publishes one message for each field, in the order of the
  -- fields, on the topic of the field and with the text of its value, and then the snapshot on the
  -- topic `_raw`, up to the first publication that is refused; the device is known from then on
  -- in either case.
  pub report-PublishEnds :
      (device : BluettiDevice) (parsed : ParsedFieldMap) (bridge : Bridge W)
      → bridge.has_client ≡ true
      → let (r, after) = handle_parser_message calls device parsed bridge in
        ((messages : List (String × String)) × TellsAll calls device parsed messages
          × PublishEnds messages bridge.world (r, after.world))
        × (get_entry (device_key device) after.devices ≡ some device)
  report-PublishEnds device parsed bridge on =
      let (ends, known) = publish_report device parsed bridge on in
      (
        (state_messages calls device parsed, state_messages-TellsAll calls device parsed, ends),
        known,
      )

  -- The bridge after reports of several devices, the errors of their publications left out.
  abbrev pub after_reports : List (BluettiDevice × ParsedFieldMap) → Bridge W → Bridge W
  after_reports [] bridge = bridge
  after_reports ((device, parsed) ∷ reports) bridge =
      after_reports reports (handle_parser_message calls device parsed bridge).1

  report_client :
      (device : BluettiDevice) (parsed : ParsedFieldMap) (bridge : Bridge W)
      → bridge.has_client ≡ true
      → (handle_parser_message calls device parsed bridge).1.has_client ≡ true
  unfolding handle_parser_message
  report_client device parsed bridge on = rw on

  report_other :
      (device other : BluettiDevice) (parsed : ParsedFieldMap) (bridge : Bridge W)
      → bridge.has_client ≡ true
      → str_eq (device_key other) (device_key device) ≡ false
      → get_entry (device_key device) bridge.devices ≡ some device
      → get_entry (device_key device) (handle_parser_message calls other parsed bridge).1.devices
        ≡ some device
  unfolding handle_parser_message
  report_other device other parsed bridge on differs known =
      rw on
        (get-set_other (device_key device) (device_key other) other bridge.devices differs ∙ known)

  stays_known :
      (device : BluettiDevice) (reports : List (BluettiDevice × ParsedFieldMap)) (bridge : Bridge W)
      → bridge.has_client ≡ true
      → All (λ report. str_eq (device_key report.0) (device_key device) ≡ false) reports
      → get_entry (device_key device) bridge.devices ≡ some device
      → get_entry (device_key device) (after_reports reports bridge).devices ≡ some device
  stays_known device [] bridge on others known = known
  stays_known device ((other, parsed) ∷ reports) bridge on (differs, others) known =
      stays_known device reports (handle_parser_message calls other parsed bridge).1
        (report_client other parsed bridge on) others
        (report_other device other parsed bridge on differs known)

  -- Once a device has reported, and whatever other devices report afterwards, a payload on the
  -- topic of a field that it can set is sent to it as the setter's command for that payload.
  pub reported_device_is_commanded :
      (device : BluettiDevice) (parsed : ParsedFieldMap)
      (reports : List (BluettiDevice × ParsedFieldMap)) (field : String) (payload : List ℕ)
      (bridge : Bridge W)
      → bridge.has_client ≡ true
      → All (λ report. str_eq (device_key report.0) (device_key device) ≡ false) reports
      → IsGroup is_model_char device.type_name
      → IsGroup is_digit device.serial_number
      → IsGroup is_field_char field
      → has_field_setter device field ≡ true
      → let after = after_reports ((device, parsed) ∷ reports) bridge in
        handle_incoming_command calls
          (command_topic device.type_name device.serial_number field)
          payload
          after
        ≡ send_command calls device
            (build_setter_command device field (parse_command_value (calls.decode payload)))
            after
  unfolding handle_incoming_command device_key
  reported_device_is_commanded device parsed reports field payload bridge on others m s f settable =
      let (ends, known) = publish_report device parsed bridge on in
      let there =
        stays_known device reports (handle_parser_message calls device parsed bridge).1
          (report_client device parsed bridge on) others known in
      rw (exec-command_topic device.type_name device.serial_number field m s f, there, settable)
