-- ===== src/Broker/Bridge.antt =====
-- src/broker/client.ts: the bridge between the event bus and an MQTT broker. The calls of the MQTT
-- library and of the bus are a record of functions on the state of the world, and so are the texts
-- that JavaScript gives to numbers and to JSON. Log lines are left out.
pub mod Lifecycle
pub mod Report
pub mod Messages
use bluetti_mqtt_node.Common.{
  ℕ, Bool, true, false, not, List, [], ◌∷◌, ◌++◌, if◌then◌else◌, Option, none, some, String,
}
use bluetti_mqtt_node.Common.StringMap.{StringMap, get_entry, set_entry}
use bluetti_mqtt_node.Errors.{Error, error, aggregate_error, Result, ok, throws}
use bluetti_mqtt_node.Commands.{DeviceCommand}
use bluetti_mqtt_node.Devices.Field.{ParsedValue}
use bluetti_mqtt_node.Devices.Struct.{ParsedFieldMap}
use bluetti_mqtt_node.Devices.Device.{BluettiDevice, has_field_setter, build_setter_command}
use bluetti_mqtt_node.App.Runner.{Done}
use bluetti_mqtt_node.Broker.Payload.{serialize_value, parse_command_value}
use bluetti_mqtt_node.Broker.Topic.{◌join◌, exec_command_topic}

pub record Calls (W : Type 0) : Type 0 where
  -- `this.connector(…)`.
  pub connect : W → Result Done × W
  pub subscribe : String → W → Result Done × W
  pub publish : String → String → W → Result Done × W
  pub on_message : W → Result Done × W
  pub off_message : W → Result Done × W
  pub end_async : W → Result Done × W
  pub publish_command : BluettiDevice → DeviceCommand → W → Result Done × W
  -- `Buffer.from(payload).toString("utf8").trim()`.
  pub decode : List ℕ → String
  -- The text of a value that is no Boolean and no named option.
  pub value_text : ParsedValue → String
  -- `JSON.stringify(normalizeRecord(parsed))`.
  pub snapshot_text : ParsedFieldMap → String

pub record Bridge (W : Type 0) : Type 0 where
  pub devices : StringMap BluettiDevice
  -- `rawClient`, `removeParserListener` and `messageListener` are not null.
  pub has_client : Bool
  pub has_parser_listener : Bool
  pub has_message_listener : Bool
  pub world : W

abbrev pub command_subscription_topic : String
command_subscription_topic = "bluetti/command/#"

abbrev pub state_topic_prefix : String
state_topic_prefix = "bluetti/state/"

abbrev pub raw_snapshot_suffix : String
raw_snapshot_suffix = "_raw"

unfoldable pub device_key : BluettiDevice → String
device_key device = device.type_name join ("-" join device.serial_number)

unfoldable pub state_topic : BluettiDevice → String → String
state_topic device name =
    state_topic_prefix
    join (device.type_name join ("-" join (device.serial_number join ("/" join name))))

abbrev pub add_failure : Result Done → List Error → List Error
add_failure (ok done) failures = failures
add_failure (throws e) failures = failures ++ e ∷ []

abbrev pub cleanup_result : List Error → Result Done
cleanup_result [] = ok tt
cleanup_result (e ∷ failures) = throws aggregate_error

module _ {W : Type 0} (calls : Calls W) where
  abbrev pub value_or : ParsedValue → Option String → String
  value_or value (some text) = text
  value_or value none = calls.value_text value

  abbrev pub state_text : ParsedValue → String
  state_text value = value_or value (serialize_value value)

  abbrev pub release_message : Bool → W → Result Done × W
  release_message true world = calls.off_message world
  release_message false world = (ok tt, world)

  -- `cleanupClient`.
  unfoldable pub cleanup_client : Bridge W → Result Done × Bridge W
  cleanup_client bridge =
      let (off, world) = release_message bridge.has_message_listener bridge.world in
      let (ended, world') = calls.end_async world in
      (
        cleanup_result (add_failure ended (add_failure off [])),
        record bridge {
          has_client = false;
          has_parser_listener = false;
          has_message_listener = false;
          world = world';
        },
      )

  -- The error of the clean-up gives way to that of the start.
  abbrev pub settled_run : Result Done → Bridge W → Result Done × Bridge W
  unfolding cleanup_client
  settled_run (ok done) bridge = (ok done, bridge)
  settled_run (throws e) bridge = (throws e, (cleanup_client bridge).1)

  -- The listeners, after the subscription.
  abbrev pub add_listeners : Result Done → Bridge W → Result Done × Bridge W
  add_listeners (throws e) bridge = (throws e, bridge)
  add_listeners (ok done) bridge =
      let (r, world) = calls.on_message bridge.world in
      (r, record bridge { has_parser_listener = true; has_message_listener = true; world = world })

  abbrev pub connected : Result Done → Bridge W → Result Done × Bridge W
  connected (throws e) bridge = (throws e, bridge)
  connected (ok done) bridge =
      let (r, world) = calls.subscribe command_subscription_topic bridge.world in
      let (r', bridge') = add_listeners r (record bridge { has_client = true; world = world }) in
      settled_run r' bridge'

  unfoldable pub run : Bridge W → Result Done × Bridge W
  run bridge =
      let (r, world) = calls.connect bridge.world in
      if bridge.has_client
      then (throws error, bridge)
      else connected r (record bridge { world = world })

  unfoldable pub stop : Bridge W → Result Done × Bridge W
  unfolding cleanup_client
  stop bridge = if bridge.has_client then cleanup_client bridge else (ok tt, bridge)

  -- One publication after the other, up to the first that fails.
  unfoldable pub publish_each : List (String × String) → W → Result Done × W
  publish_each [] world = (ok tt, world)
  publish_each ((topic, text) ∷ messages) world =
      let (r, world') = calls.publish topic text world in
      elim r [ throws e ↦ (throws e, world') | ok done ↦ publish_each messages world' ]

  abbrev pub field_messages : BluettiDevice → ParsedFieldMap → List (String × String)
  unfolding state_topic
  field_messages device [] = []
  field_messages device ((name, value) ∷ parsed) =
      (state_topic device name, state_text value) ∷ field_messages device parsed

  abbrev pub state_messages : BluettiDevice → ParsedFieldMap → List (String × String)
  unfolding state_topic
  state_messages device parsed =
      field_messages device parsed
      ++ (state_topic device raw_snapshot_suffix, calls.snapshot_text parsed) ∷ []

  unfoldable pub handle_parser_message :
      BluettiDevice → ParsedFieldMap → Bridge W → Result Done × Bridge W
  unfolding publish_each device_key
  handle_parser_message device parsed bridge =
      let (r, world) = publish_each (state_messages device parsed) bridge.world in
      if bridge.has_client
      then (
        r,
        record bridge {
          devices = set_entry (device_key device) device bridge.devices;
          world = world;
        },
      )
      else (throws error, bridge)

  abbrev pub send_command : BluettiDevice → Result DeviceCommand → Bridge W → Result Done × Bridge W
  send_command device (throws e) bridge = (throws e, bridge)
  send_command device (ok command) bridge =
      let (r, world) = calls.publish_command device command bridge.world in
      (r, record bridge { world = world })

  abbrev pub dispatch : Option BluettiDevice → String → List ℕ → Bridge W → Result Done × Bridge W
  dispatch none field_name payload bridge = (ok tt, bridge)
  dispatch (some device) field_name payload bridge =
      if not (has_field_setter device field_name)
      then (ok tt, bridge)
      else send_command device
          (build_setter_command device field_name (parse_command_value (calls.decode payload)))
          bridge

  abbrev pub handle_match :
      Option (String × String × String) → List ℕ → Bridge W → Result Done × Bridge W
  handle_match none payload bridge = (ok tt, bridge)
  handle_match (some (model, serial, field_name)) payload bridge =
      dispatch (get_entry (model join ("-" join serial)) bridge.devices) field_name payload bridge

  unfoldable pub handle_incoming_command : String → List ℕ → Bridge W → Result Done × Bridge W
  handle_incoming_command topic payload bridge =
      handle_match (exec_command_topic topic) payload bridge
