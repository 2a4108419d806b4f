-- ===== src/App/Runner.antt =====
-- src/app/device-executor.ts: the commands of a polling cycle. What the runner is given, sessions,
-- the event bus, the clock, the stop flag and sleep, is a record of functions on the state of the
-- world. A piece of work runs when its turn in the device's queue has come.
pub mod Counts
pub mod Sent
pub mod Accounts
pub mod Packs
use bluetti_mqtt_node.Common.{
  ℕ, zero, suc, ◌+◌, ◌-◌, max, Bool, true, false, ◌&&◌, List, [], ◌∷◌, ltb, if◌then◌else◌, Option,
  none, some,
}
use bluetti_mqtt_node.Common.JsNumber.{nat}
use bluetti_mqtt_node.Errors.{
  Error, error, range_error, aggregate_error, bad_connection_error, command_timeout_error,
  parse_error, modbus_error, device_busy_error, Result, ok, throws,
}
use bluetti_mqtt_node.Commands.{DeviceCommand, parse_response}
use bluetti_mqtt_node.Commands.Frames.{read_command}
use bluetti_mqtt_node.Devices.Struct.{ParsedFieldMap}
use bluetti_mqtt_node.Devices.Device.{
  BluettiDevice, ReadWindow, parse, has_field_setter, build_setter_command, number,
}
use bluetti_mqtt_node.App.Polling.{
  DeviceTelemetry, CommandResult, success, expected_error, busy, connection_error,
}

-- The value of a promise of `void`.
abbrev pub Done : Type 0
Done = Unit

pub record Environment (W : Type 0) : Type 0 where
  pub is_stop_requested : W → Bool
  -- `Date.now()`; it is taken not to run backwards.
  pub now : W → ℕ
  pub sleep : ℕ → W → W
  -- `manager.getSession(address)`, for its error.
  pub get_session : W → Result Done
  -- `session.perform(command)`.
  pub perform : DeviceCommand → W → Result (List ℕ) × W
  -- `bus.publishParserMessage({ device, parsed })`.
  pub publish : ParsedFieldMap → W → Result Done × W

-- The device's counters and the world.
pub record Run (W : Type 0) : Type 0 where
  pub telemetry : DeviceTelemetry
  pub world : W

abbrev pub min_pack_switch_delay_ms : ℕ
min_pack_switch_delay_ms = 500

-- The classes that the handlers of an error test for, in their order.
abbrev pub classify : Error → Option CommandResult
classify (device_busy_error code) = some busy
classify bad_connection_error = some connection_error
classify command_timeout_error = some expected_error
classify (modbus_error code) = some expected_error
classify parse_error = some expected_error
classify error = none
classify range_error = none
classify aggregate_error = none

abbrev pub count_write : Result Done → DeviceTelemetry → DeviceTelemetry
count_write (throws e) telemetry = telemetry
count_write (ok _) telemetry = record telemetry {
  command_write_count = suc telemetry.command_write_count;
}

abbrev pub set_result : Bool → CommandResult
set_result true = expected_error
set_result false = success

abbrev pub switch_result : Error → Option CommandResult → Result CommandResult
switch_result e none = throws e
switch_result e (some result) = ok result

-- `device.packNumMax > 1 && device.hasFieldSetter("pack_num")`.
abbrev pub switches_packs : BluettiDevice → Bool
switches_packs device = ltb 1 device.pack_num_max && has_field_setter device "pack_num"

module _ {W : Type 0} (env : Environment W) where
  abbrev pub perform_in : Result Done → DeviceCommand → W → Result (List ℕ) × W
  perform_in (throws e) command world = (throws e, world)
  perform_in (ok _) command world = env.perform command world

  abbrev pub perform_on : DeviceCommand → W → Result (List ℕ) × W
  perform_on command world = perform_in (env.get_session world) command world

  -- The queued work of `handleCommand`.
  unfoldable pub handle_command : DeviceCommand → Run W → Result (List ℕ) × Run W
  handle_command command run =
      let (r, world') = perform_on command run.world in
      (
        r,
        record {
          telemetry = count_write (env.get_session run.world) run.telemetry;
          world = world';
        },
      )

  abbrev pub published : Result Done × W → DeviceTelemetry → Result Done × Run W
  published (r, world') telemetry = (
    r,
    record {
      telemetry = record telemetry { parser_publish_count = suc telemetry.parser_publish_count };
      world = world';
    },
  )

  abbrev pub publish_parsed : Result ParsedFieldMap → Run W → Result Done × Run W
  publish_parsed (throws e) run = (throws e, run)
  publish_parsed (ok []) run = (ok tt, run)
  publish_parsed (ok (entry ∷ parsed)) run =
      published (env.publish (entry ∷ parsed) run.world) run.telemetry

  abbrev pub after_perform :
      BluettiDevice → ReadWindow → Result (List ℕ) → Run W → Result Done × Run W
  after_perform device window (throws e) run = (throws e, run)
  after_perform device window (ok response) run =
      publish_parsed
        (parse device window.starting_address
          (parse_response (read_command window.starting_address window.quantity) response))
        run

  -- The queued work of `executeReadCommand`.
  unfoldable pub read_work : BluettiDevice → ReadWindow → Run W → Result Done × Run W
  read_work device window run =
      let (r, world') =
        perform_on (read_command window.starting_address window.quantity) run.world in
      after_perform device window r (record run { world = world' })

  abbrev pub with_telemetry : Run W → DeviceTelemetry → Run W
  with_telemetry run telemetry = record run { telemetry = telemetry }

  abbrev pub count_error : Error → Option CommandResult → Run W → Result CommandResult × Run W
  count_error e (some busy) run = (
    ok busy,
    with_telemetry run (record run.telemetry { last_busy_at = some (env.now run.world) }),
  )
  count_error e (some success) run = (ok success, run)
  count_error e (some result) run = (
    ok result,
    with_telemetry run (record run.telemetry {
      expected_error_count = suc run.telemetry.expected_error_count;
      last_error_at = some (env.now run.world);
    }),
  )
  count_error e none run = (throws e, run)

  abbrev pub count_outcome : Result Done × Run W → Result CommandResult × Run W
  count_outcome (ok _, run) = (
    ok success,
    with_telemetry run (record run.telemetry {
      successful_command_count = suc run.telemetry.successful_command_count;
    }),
  )
  count_outcome (throws e, run) = count_error e (classify e) run

  -- The `finally` block.
  abbrev pub count_duration : ℕ → Result CommandResult × Run W → Result CommandResult × Run W
  count_duration started_at (r, run) =
      let duration = env.now run.world - started_at in
      (
        r,
        with_telemetry run (record run.telemetry {
          total_command_duration_ms = run.telemetry.total_command_duration_ms + duration;
          max_command_duration_ms = max run.telemetry.max_command_duration_ms duration;
        }),
      )

  unfoldable pub execute_read_command :
      BluettiDevice → ReadWindow → Run W → Result CommandResult × Run W
  unfolding read_work
  execute_read_command device window run =
      count_duration (env.now run.world) (count_outcome (read_work device window run))

  abbrev pub pause : List ReadWindow → ℕ → Run W → Run W
  pause [] delay run = run
  pause (window ∷ windows) delay run =
      if ltb 0 delay then record run { world = env.sleep delay run.world } else run

  -- The loop of `runCommandSet`, with `sawExpectedError`.
  unfoldable pub run_commands :
      BluettiDevice → ℕ → List ReadWindow → Bool → Run W → Result CommandResult × Run W
  unfolding execute_read_command
  run_commands device delay [] saw run = (ok (set_result saw), run)
  run_commands device delay (window ∷ windows) saw run =
      if env.is_stop_requested run.world
      then (ok (set_result saw), run)
      else let (r, run') = execute_read_command device window run in
        elim r [
          | throws e ↦ (throws e, run')
          | ok result ↦ elim result [
            | busy ↦ (ok busy, run')
            | connection_error ↦ (ok connection_error, run')
            | expected_error ↦ run_commands device delay windows true (pause windows delay run')
            | success ↦ run_commands device delay windows saw (pause windows delay run')
          ]
        ]

  unfoldable pub run_command_set :
      BluettiDevice → List ReadWindow → ℕ → Run W → Result CommandResult × Run W
  unfolding run_commands
  run_command_set device windows delay run = run_commands device delay windows false run

  abbrev pub sleep_after_switch : ℕ → Result (List ℕ) × W → Result (List ℕ) × W
  sleep_after_switch delay (throws e, world) = (throws e, world)
  sleep_after_switch delay (ok response, world) =
      (ok response, env.sleep (max min_pack_switch_delay_ms delay) world)

  abbrev pub switched : Result (List ℕ) × W → DeviceTelemetry → Result CommandResult × Run W
  switched (ok response, world') telemetry =
      (ok success, record { telemetry = telemetry; world = world' })
  switched (throws e, world') telemetry =
      (switch_result e (classify e), record { telemetry = telemetry; world = world' })

  abbrev pub perform_setter : Result DeviceCommand → W → Result (List ℕ) × W
  perform_setter (throws e) world = (throws e, world)
  perform_setter (ok setter) world = perform_on setter world

  unfoldable pub try_select_pack : BluettiDevice → ℕ → ℕ → Run W → Result CommandResult × Run W
  try_select_pack device pack delay run =
      switched
        (sleep_after_switch delay
          (perform_setter (build_setter_command device "pack_num" (number (nat pack))) run.world))
        run.telemetry

  -- The loop of `runPackCommands` with `left` rounds to go, from `pack` on.
  unfoldable pub run_packs : BluettiDevice → ℕ → ℕ → ℕ → Run W → Result CommandResult × Run W
  unfolding try_select_pack run_command_set
  run_packs device delay zero pack run = (ok success, run)
  run_packs device delay (suc left) pack run =
      if env.is_stop_requested run.world
      then (ok success, run)
      else let (r, run') =
          if switches_packs device
          then try_select_pack device pack delay run
          else (ok success, run) in
        elim r [
          | throws e ↦ (throws e, run')
          | ok result ↦ elim result [
            | busy ↦ (ok busy, run')
            | connection_error ↦ (ok connection_error, run')
            | expected_error ↦ run_packs device delay left (suc pack) run'
            | success ↦
                let (r', run'') = run_command_set device device.pack_polling_commands delay run' in
                elim r' [
                  | throws e ↦ (throws e, run'')
                  | ok result' ↦ elim result' [
                    | busy ↦ (ok busy, run'')
                    | connection_error ↦ run_packs device delay left (suc pack) run''
                    | expected_error ↦ run_packs device delay left (suc pack) run''
                    | success ↦ run_packs device delay left (suc pack) run''
                  ]
                ]
          ]
        ]

  unfoldable pub run_from_first_pack :
      List ReadWindow → BluettiDevice → ℕ → Run W → Result CommandResult × Run W
  unfolding run_packs
  run_from_first_pack [] device delay run = (ok success, run)
  run_from_first_pack (window ∷ windows) device delay run =
      run_packs device delay device.pack_num_max 1 run

  unfoldable pub run_pack_commands : BluettiDevice → ℕ → Run W → Result CommandResult × Run W
  unfolding run_from_first_pack
  run_pack_commands device delay run =
      run_from_first_pack device.pack_polling_commands device delay run
