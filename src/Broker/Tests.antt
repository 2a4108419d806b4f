-- ===== src/Broker/Tests.antt =====
-- The options of the LED on concrete texts, and the bridge with a device.
use bluetti_mqtt_node.Common.{◌≡◌, refl, true, false, List, [], ◌∷◌, ◌++◌, String, some}
use bluetti_mqtt_node.Common.StringMap.{get_entry}
use bluetti_mqtt_node.Common.JsNumber.{nat, neg}
use bluetti_mqtt_node.Errors.{error, ok, throws}
use bluetti_mqtt_node.Devices.Field.{boolean, enum_value, named, enum_value_of, enum_field}
use bluetti_mqtt_node.Devices.Builders.{led_mode}
use bluetti_mqtt_node.Devices.Device.{
  BluettiDevice, encode_value, number, boolean as setter_boolean, build_setter_command,
}
use bluetti_mqtt_node.Devices.Struct.{ParsedFieldMap}
use bluetti_mqtt_node.Devices.Definition.{eb3a_definition, new_bluetti_device_model}
use bluetti_mqtt_node.Broker.Payload.{serialize_value, parse_command_value}
use bluetti_mqtt_node.Broker.Bridge.{
  Calls, Bridge, device_key, state_topic, stop, publish_each, handle_parser_message, send_command,
  handle_incoming_command,
}
use bluetti_mqtt_node.Broker.Bridge.Lifecycle.{StopEnds, stop-StopEnds}
use bluetti_mqtt_node.Broker.Bridge.Report.{TellsAll}
use bluetti_mqtt_node.Broker.Bridge.Messages.{
  PublishEnds, report-PublishEnds, after_reports, reported_device_is_commanded,
}
use bluetti_mqtt_node.Broker.Options.{option_round_trip}

negative_payload : parse_command_value "-12" ≡ number (neg 11)
unfolding parse_command_value
negative_payload = refl

high_option : enum_value_of led_mode 2 ≡ enum_value (named "HIGH") 2
unfolding enum_value_of
high_option = refl

option_round_trip_example :
    encode_value (enum_field led_mode) (parse_command_value "HIGH") ≡ ok (nat 2)
option_round_trip_example =
    option_round_trip led_mode 2 2 "HIGH" high_option
      ((refl, (refl, (refl, tt))), ((refl, (refl, tt)), ((refl, tt), (tt, tt)))) (refl, refl, refl)

-- The option that is published as "OFF".
off_option : serialize_value (enum_value_of led_mode 4) ≡ some "OFF"
unfolding enum_value_of
off_option = refl

-- A broker that takes everything; the world lists the texts published.
abbrev taking : Calls (List String)
taking = record {
  connect = λ world. (ok tt, world);
  subscribe = λ topic world. (ok tt, world);
  publish = λ topic text world. (ok tt, world ++ topic ∷ []);
  on_message = λ world. (ok tt, world);
  off_message = λ world. (ok tt, world);
  end_async = λ world. (throws error, world);
  publish_command = λ device command world. (ok tt, world);
  decode = λ bytes. "ON";
  value_text = λ value. "";
  snapshot_text = λ parsed. "";
}

abbrev fresh_bridge : Bridge (List String)
fresh_bridge = record {
  devices = [];
  has_client = false;
  has_parser_listener = false;
  has_message_listener = false;
  world = [];
}

abbrev running_bridge : Bridge (List String)
running_bridge = record {
  devices = [];
  has_client = true;
  has_parser_listener = true;
  has_message_listener = true;
  world = [];
}

abbrev eb3a : BluettiDevice
eb3a = new_bluetti_device_model "24:4C:AB:2C:24:8E" "17" eb3a_definition

abbrev one_field : ParsedFieldMap
one_field = ("ac_output_on", boolean true) ∷ []

-- The end of the connection fails.
stop-StopEnds_example : StopEnds taking running_bridge (stop taking running_bridge)
stop-StopEnds_example = stop-StopEnds taking running_bridge refl

topics_in_order :
    (handle_parser_message taking eb3a one_field running_bridge).1.world
    ≡ "bluetti/state/EB3A-17/ac_output_on" ∷ "bluetti/state/EB3A-17/_raw" ∷ []
unfolding handle_parser_message publish_each state_topic
topics_in_order = refl

report-PublishEnds_example :
    let (r, after) = handle_parser_message taking eb3a one_field running_bridge in
    ((messages : List (String × String)) × TellsAll taking eb3a one_field messages
      × PublishEnds taking messages [] (r, after.world))
    × (get_entry (device_key eb3a) after.devices ≡ some eb3a)
report-PublishEnds_example = report-PublishEnds taking eb3a one_field running_bridge refl

reported_device_is_commanded_example :
    let after = after_reports taking ((eb3a, one_field) ∷ []) running_bridge in
    handle_incoming_command taking "bluetti/command/EB3A-17/ac_output_on" [] after
    ≡ send_command taking eb3a
        (build_setter_command eb3a "ac_output_on" (setter_boolean true))
        after
unfolding parse_command_value
reported_device_is_commanded_example =
    reported_device_is_commanded taking eb3a one_field [] "ac_output_on" [] running_bridge refl tt
      refl refl refl refl
