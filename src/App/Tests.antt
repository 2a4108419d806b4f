-- ===== src/App/Tests.antt =====
-- The schedule and the runner on concrete input.
use bluetti_mqtt_node.Common.{
  ◌+◌, ◌<◌, true, none, some, zero, suc, arith, ℕ, ◌≡◌, refl, false, List, [], ◌∷◌,
}
use bluetti_mqtt_node.Errors.{
  error, Result, ok, throws, bad_connection_error, command_timeout_error,
}
use bluetti_mqtt_node.Commands.{parse_response, device_command}
use bluetti_mqtt_node.Devices.Struct.{parse_struct, parse_fields, decode_into, insert_field}
use bluetti_mqtt_node.Devices.Field.{parse_field, read_uint16_big_endian, is_in_range}
use bluetti_mqtt_node.Devices.Device.{BluettiDevice, ReadWindow}
use bluetti_mqtt_node.Devices.Definition.{
  eb3a_definition, ep500_definition, new_bluetti_device_model,
}
use bluetti_mqtt_node.App.Polling.{
  DevicePollingState, default_polling_options, normalize_polling_options, interval,
  create_device_polling_state, create_device_telemetry, apply_busy_backoff, expected_error,
  connection_error,
}
use bluetti_mqtt_node.App.Polling.Bounds.{
  Adjustment, back_off, recover, adjusted, IsWithin, adjusted-IsWithin,
}
use bluetti_mqtt_node.App.Runner.{
  Done, Environment, Run, run_command_set, run_commands, execute_read_command, read_work,
}
use bluetti_mqtt_node.App.Connection.{connect_all_with_recovery, recover_device_connection}
use bluetti_mqtt_node.App.Connection.Laws.{retried, Fails, recover_reaches}
use bluetti_mqtt_node.App.Handler.{Loop, poll_round}
use bluetti_mqtt_node.App.Handler.Laws.{RoundWithin, poll_round-RoundWithin}
use bluetti_mqtt_node.App.Queue.{
  Queue, finished, new_queue, enqueue, begin, release, Reach, initial, step, enqueues, begins,
  releases, at_once, chained, stop, sleep,
}
use bluetti_mqtt_node.App.Queue.Phases.{AllBefore}
use bluetti_mqtt_node.App.Queue.Laws.{work_in_order}
use bluetti_mqtt_node.App.Handler.Setup.{HandlerCalls, DeviceHandler, connect_all}
use bluetti_mqtt_node.App.Handler.Known.{Prepared, connect_all-Prepared}
use bluetti_mqtt_node.Manager.{Sessions}
use bluetti_mqtt_node.Broker.Bridge.{Calls}
use bluetti_mqtt_node.Broker.Bridge.Lifecycle.{IsIdle}
use bluetti_mqtt_node.App.Server.{Server, run}
use bluetti_mqtt_node.App.Server.Laws.{Finished, run-Finished}
use bluetti_mqtt_node.App.Runner.Accounts.{run_command_set-Accounted}
use bluetti_mqtt_node.App.Runner.Sent.{Accounted}

-- An interval of ten seconds is above the clamp of eight: a busy answer makes polling faster.
back_off_shortens :
    (apply_busy_backoff
      (create_device_polling_state (normalize_polling_options (interval 10000)))
      (normalize_polling_options (interval 10000))).fast_interval_ms
    ≡ 8000
unfolding apply_busy_backoff
back_off_shortens = refl

abbrev three_adjustments : List Adjustment
three_adjustments = recover ∷ back_off ∷ back_off ∷ []

adjusted-IsWithin_example :
    IsWithin default_polling_options (adjusted default_polling_options three_adjustments)
adjusted-IsWithin_example = adjusted-IsWithin default_polling_options three_adjustments

abbrev slowed : DevicePollingState
slowed = record {
  next_fast_poll_at = 0;
  next_full_poll_at = 0;
  fast_interval_ms = 2570;
  full_interval_ms = 15190;
  command_delay_ms = 200;
}

-- A session that gives the answers of a list, and then is lost.
abbrev Script : Type 0
Script = List (Result (List ℕ))

abbrev next_answer : Script → Result (List ℕ) × Script
next_answer [] = (throws bad_connection_error, [])
next_answer (answer ∷ script) = (answer, script)

abbrev scripted : Environment Script
scripted = record {
  is_stop_requested = λ script. false;
  now = λ script. 0;
  sleep = λ ms script. script;
  get_session = λ script. ok tt;
  perform = λ command script. next_answer script;
  publish = λ parsed script. (ok tt, script);
}

abbrev eb3a : BluettiDevice
eb3a = new_bluetti_device_model "24:4C:AB:2C:24:8E" "17" eb3a_definition

abbrev two_windows : List ReadWindow
two_windows =
    record { starting_address = 3034; quantity = 1 }
    ∷ record { starting_address = 3060; quantity = 7 }
    ∷ []

-- The first command is answered, the second times out.
abbrev at_start : Run Script
at_start = record {
  telemetry = create_device_telemetry;
  world = ok (1 ∷ 3 ∷ 2 ∷ 0 ∷ 2 ∷ 56 ∷ 69 ∷ []) ∷ throws command_timeout_error ∷ [];
}

abbrev at_end : Run Script
at_end = (run_command_set scripted eb3a two_windows 150 at_start).1

two_commands : run_command_set scripted eb3a two_windows 150 at_start ≡ (ok expected_error, at_end)
unfolding run_command_set run_commands execute_read_command read_work parse_struct parse_response
    device_command parse_fields decode_into parse_field read_uint16_big_endian is_in_range
    insert_field
two_commands = refl

run_command_set-Accounted_example :
    Accounted scripted eb3a 150 two_windows false expected_error at_start at_end
run_command_set-Accounted_example =
    run_command_set-Accounted scripted (λ script. refl) eb3a two_windows 150 at_start at_end
      expected_error two_commands

abbrev ep500 : BluettiDevice
ep500 = new_bluetti_device_model "24:4C:AB:2C:24:8E" "17" ep500_definition

abbrev lost : Run Script
lost = record { telemetry = create_device_telemetry; world = [] }

abbrev after_loss : Run Script
after_loss = (run_command_set scripted ep500 ep500.pack_polling_commands 150 lost).1

pack_windows_lost :
    run_command_set scripted ep500 ep500.pack_polling_commands 150 lost
    ≡ (ok connection_error, after_loss)
unfolding run_command_set run_commands execute_read_command read_work
pack_windows_lost = refl

-- The connection comes back after as many failures as the script is long.
abbrev reconnects : Script → Result Done × Script
reconnects [] = (ok tt, [])
reconnects (answer ∷ script) = (throws bad_connection_error, script)

abbrev two_failures : Script
two_failures = throws bad_connection_error ∷ throws bad_connection_error ∷ []

two_fail : (i : ℕ) → i < 2 → Fails scripted reconnects (retried scripted reconnects i two_failures)
unfolding retried
two_fail zero lt = (refl, bad_connection_error, refl)
two_fail (suc zero) lt = (refl, bad_connection_error, refl)
two_fail (suc (suc i)) lt = absurd (omega arith)

third_goes : scripted.is_stop_requested (retried scripted reconnects 2 two_failures) ≡ false
third_goes = refl

third_succeeds : (reconnects (retried scripted reconnects 2 two_failures)).0 ≡ ok tt
unfolding retried
third_succeeds = refl

recover_reaches_example :
    recover_device_connection scripted reconnects 4 two_failures
    ≡ some (true, (reconnects (retried scripted reconnects 2 two_failures)).1)
recover_reaches_example =
    recover_reaches scripted reconnects 2 4 two_failures tt (omega arith) two_fail third_goes
      third_succeeds

two_retries : recover_device_connection scripted reconnects 4 two_failures ≡ some (true, [])
unfolding recover_device_connection
two_retries = refl

abbrev first_loop : Loop Script
first_loop = record {
  polling = create_device_polling_state default_polling_options;
  run = at_start;
}

poll_round-RoundWithin_example :
    RoundWithin default_polling_options
      (poll_round scripted default_polling_options reconnects 3 false eb3a first_loop)
poll_round-RoundWithin_example =
    poll_round-RoundWithin scripted default_polling_options reconnects 3 false eb3a first_loop
      (omega arith, omega arith, omega arith, omega arith, omega arith, omega arith)

-- A world that is a clock.
abbrev clock : Environment ℕ
clock = record {
  is_stop_requested = λ time. false;
  now = λ time. time;
  sleep = λ ms time. time + ms;
  get_session = λ time. ok tt;
  perform = λ command time. (throws command_timeout_error, time);
  publish = λ parsed time. (ok tt, time);
}

abbrev no_reconnect : ℕ → Result Done × ℕ
no_reconnect time = (throws bad_connection_error, time)

abbrev idle_loop : Loop ℕ
idle_loop = record {
  polling = record {
    next_fast_poll_at = 4000;
    next_full_poll_at = 9000;
    fast_interval_ms = 2500;
    full_interval_ms = 15000;
    command_delay_ms = 150;
  };
  run = record { telemetry = create_device_telemetry; world = 1500 };
}

-- Two calls have come, and the first has done its work.
abbrev first_done : Queue
first_done = release 0 (begin 0 (enqueue (enqueue new_queue)))

first_done_reached : Reach first_done
first_done_reached =
    step (step (step (step initial enqueues) enqueues) (begins 0 (omega arith) refl at_once))
      (releases 0 (omega arith) refl)

only_the_first : AllBefore first_done.phase 1
only_the_first zero lt = refl
only_the_first (suc k) lt = absurd (omega arith)

work_in_order_example : (begin 1 first_done).phase 0 ≡ finished
work_in_order_example =
    work_in_order 0 1
      (step first_done_reached (begins 1 (omega arith) refl (chained 0 refl at_once))) (omega arith)
      (omega arith) (λ w. cc)

-- A sleep, then a stop.
abbrev stopped_queue : Queue
stopped_queue = stop (sleep 0 500 new_queue)

two_starts : connect_all_with_recovery scripted reconnects false 4 two_failures ≡ some (ok true, [])
unfolding connect_all_with_recovery
two_starts = refl

-- The manager connects everything and knows the names of both devices; nothing is published.
abbrev named_devices : HandlerCalls Done
named_devices = record {
  addresses = "A" ∷ "B" ∷ [];
  connect_all = λ world. (ok tt, world);
  get_name = λ address world. ok "AC3002237000003358";
  add_command_listener = λ world. world;
}

abbrev new_handler : DeviceHandler Done
new_handler = record {
  devices = [];
  polling_state = [];
  telemetry = [];
  command_listener_attached = false;
  world = tt;
}

connect_all-Prepared_example :
    Prepared
      ("A" ∷ "B" ∷ [])
      new_handler
      (connect_all named_devices default_polling_options new_handler)
connect_all-Prepared_example =
    connect_all-Prepared named_devices default_polling_options new_handler

-- One session and a broker that ends; the handler's run throws.
abbrev closing : Sessions ℕ Done
closing = record {
  create = λ address world. (0, world);
  connect_and_initialize = λ session world. (ok tt, world);
  disconnect = λ session world. (throws error, world);
  is_ready = λ world session. true;
  name = λ world session. none;
}

abbrev quiet_broker : Calls Done
quiet_broker = record {
  connect = λ world. (ok tt, world);
  subscribe = λ topic world. (ok tt, world);
  publish = λ topic text world. (ok tt, world);
  on_message = λ world. (ok tt, world);
  off_message = λ world. (ok tt, world);
  end_async = λ world. (throws error, world);
  publish_command = λ device command world. (ok tt, world);
  decode = λ bytes. "";
  value_text = λ value. "";
  snapshot_text = λ parsed. "";
}

abbrev stopped_server : Server ℕ Done
stopped_server = record {
  sessions = ("A", 0) ∷ [];
  bridge = record {
    devices = [];
    has_client = false;
    has_parser_listener = false;
    has_message_listener = false;
    world = tt;
  };
}

abbrev failing_handler : Server ℕ Done → Result Done × Server ℕ Done
failing_handler server = (throws error, server)

run-Finished_example :
    Finished closing quiet_broker failing_handler stopped_server
      (run closing quiet_broker failing_handler stopped_server)
unfolding IsIdle
run-Finished_example =
    run-Finished closing quiet_broker failing_handler stopped_server (refl, refl, refl) (λ s. refl)
