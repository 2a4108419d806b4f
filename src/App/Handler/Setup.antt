-- ===== src/App/Handler/Setup.antt =====
-- src/app/device-handler.ts: the maps of the handler, `connectAll`, `pollOnce` and the accessors.
-- What the manager and the bus do is a function on the world.
use bluetti_mqtt_node.Common.{
  Bool, true, List, [], ◌∷◌, if◌then◌else◌, Option, none, some, String, map,
}
use bluetti_mqtt_node.Common.StringMap.{StringMap, get_entry, set_entry, is_some}
use bluetti_mqtt_node.Errors.{error, Result, ok, throws, ◌>>=◌}
use bluetti_mqtt_node.Devices.Device.{BluettiDevice}
use bluetti_mqtt_node.Devices.Registry.{create_device_from_advertisement}
use bluetti_mqtt_node.App.Polling.{
  PollingOptions, DevicePollingState, DeviceTelemetry, CommandResult, create_device_polling_state,
  create_device_telemetry,
}
use bluetti_mqtt_node.App.Runner.{Environment, Run, Done, run_command_set}

pub record HandlerCalls (W : Type 0) : Type 0 where
  -- `manager.addresses`.
  pub addresses : List String
  -- `manager.connectAll()`.
  pub connect_all : W → Result Done × W
  -- `manager.getName(address)`.
  pub get_name : String → W → Result String
  -- `bus.addCommandListener(…)`.
  pub add_command_listener : W → W

pub record DeviceHandler (W : Type 0) : Type 0 where
  pub devices : StringMap BluettiDevice
  pub polling_state : StringMap DevicePollingState
  pub telemetry : StringMap DeviceTelemetry
  pub command_listener_attached : Bool
  pub world : W

-- A key that is missing gets the value.
abbrev pub set_missing {ℓ} : {V : Type ℓ} → String → V → StringMap V → StringMap V
set_missing key value entries =
    if is_some (get_entry key entries) then entries else set_entry key value entries

unfoldable pub get_devices : {W : Type 0} → DeviceHandler W → List BluettiDevice
get_devices handler = map (λ entry. entry.1) handler.devices

-- `getPollingState` and `getTelemetry`: the entry, created if it is missing.
abbrev pub value_or : {V : Type 0} → V → Option V → V
value_or default none = default
value_or default (some value) = value

unfoldable pub get_polling_state :
    {W : Type 0} → PollingOptions → String → DeviceHandler W → DevicePollingState × DeviceHandler W
get_polling_state options address handler = (
  value_or (create_device_polling_state options) (get_entry address handler.polling_state),
  record handler {
    polling_state = set_missing address (create_device_polling_state options) handler.polling_state;
  },
)

unfoldable pub get_telemetry :
    {W : Type 0} → String → DeviceHandler W → DeviceTelemetry × DeviceHandler W
get_telemetry address handler = (
  value_or create_device_telemetry (get_entry address handler.telemetry),
  record handler { telemetry = set_missing address create_device_telemetry handler.telemetry },
)

module _ {W : Type 0} (calls : HandlerCalls W) (options : PollingOptions) where
  -- `createDeviceFromAdvertisement(address, manager.getName(address))`.
  abbrev pub name_device : String → W → Result BluettiDevice
  name_device address world = do
    name ← calls.get_name address world
    create_device_from_advertisement address name

  abbrev pub with_states : String → DeviceHandler W → DeviceHandler W
  with_states address handler = record handler {
    polling_state = set_missing address (create_device_polling_state options) handler.polling_state;
    telemetry = set_missing address create_device_telemetry handler.telemetry;
  }

  abbrev pub with_device :
      Result BluettiDevice → String → DeviceHandler W → Result Done × DeviceHandler W
  with_device (throws e) address handler = (throws e, handler)
  with_device (ok device) address handler = (
    ok tt,
    with_states address (record handler { devices = set_entry address device handler.devices }),
  )

  -- One round of the loop of `connectAll`.
  unfoldable pub prepare : String → DeviceHandler W → Result Done × DeviceHandler W
  prepare address handler =
      if is_some (get_entry address handler.devices)
      then (ok tt, with_states address handler)
      else with_device (name_device address handler.world) address handler

  unfoldable pub prepare_all : List String → DeviceHandler W → Result Done × DeviceHandler W
  unfolding prepare
  prepare_all [] handler = (ok tt, handler)
  prepare_all (address ∷ addresses) handler =
      let (r, handler') = prepare address handler in
      elim r [ throws e ↦ (throws e, handler') | ok done ↦ prepare_all addresses handler' ]

  abbrev pub attached : DeviceHandler W → DeviceHandler W
  attached handler = if handler.command_listener_attached then handler else record handler {
    command_listener_attached = true;
    world = calls.add_command_listener handler.world;
  }

  abbrev pub connected : Result Done → DeviceHandler W → Result Done × DeviceHandler W
  unfolding prepare_all
  connected (throws e) handler = (throws e, handler)
  connected (ok done) handler = prepare_all calls.addresses (attached handler)

  unfoldable pub connect_all : DeviceHandler W → Result Done × DeviceHandler W
  connect_all handler =
      let (r, world) = calls.connect_all handler.world in
      connected r (record handler { world = world })

  -- A device that is known has its counters already, so that none are made for it here.
  abbrev pub polled :
      String → Result CommandResult × Run W → DeviceHandler W → Result Done × DeviceHandler W
  polled address (r, run) handler = (
    (do result ← r; ok tt),
    record handler {
      telemetry = set_entry address run.telemetry handler.telemetry;
      world = run.world;
    },
  )

  abbrev pub poll_device :
      Environment W
      → Option BluettiDevice
      → String
      → DeviceHandler W
      → Result Done × DeviceHandler W
  unfolding get_polling_state get_telemetry
  poll_device env none address handler = (throws error, handler)
  poll_device env (some device) address handler =
      let (state, handler') = get_polling_state options address handler in
      let (telemetry, handler'') = get_telemetry address handler' in
      polled address
        (run_command_set env device device.polling_commands state.command_delay_ms
          (record { telemetry = telemetry; world = handler''.world }))
        handler''

  unfoldable pub poll_once :
      Environment W → String → DeviceHandler W → Result Done × DeviceHandler W
  poll_once env address handler =
      poll_device env (get_entry address handler.devices) address handler
