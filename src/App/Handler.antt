-- ===== src/App/Handler.antt =====
-- src/app/device-handler.ts: the polling loop of one device, as a function of one round. The
-- reconnection of src/app/device-connection.ts is given the rounds that it may make.
pub mod Laws
pub mod Setup
pub mod Known
use bluetti_mqtt_node.Common.{
  ℕ, suc, ◌+◌, ◌-◌, min, max, Bool, true, false, ◌||◌, List, ◌++◌, leb, ltb, if◌then◌else◌, Option,
  none, some,
}
use bluetti_mqtt_node.Errors.{Error, Result, ok, throws}
use bluetti_mqtt_node.Devices.Device.{
  BluettiDevice, ReadWindow, fast_polling_commands, slow_polling_commands,
}
use bluetti_mqtt_node.App.Polling.{
  PollingOptions, DevicePollingState, DeviceTelemetry, CommandResult, success, expected_error, busy,
  connection_error, schedule_next_poll, apply_busy_backoff, recover_polling_state,
}
use bluetti_mqtt_node.App.Runner.{Environment, Run, Done, run_command_set, run_pack_commands}
use bluetti_mqtt_node.App.Connection.{recover_device_connection}

abbrev pub busy_warning_interval_ms : ℕ
busy_warning_interval_ms = 60000

abbrev pub telemetry_summary_interval_ms : ℕ
telemetry_summary_interval_ms = 60000

-- The counters that `maybeLogBusyWarning` keeps; a difference below zero is below the bound too.
abbrev pub maybe_log_busy_warning : ℕ → DeviceTelemetry → DeviceTelemetry
maybe_log_busy_warning now telemetry =
    if ltb (now - telemetry.last_busy_warning_at_ms) busy_warning_interval_ms
    then record telemetry {
      suppressed_busy_warning_count = suc telemetry.suppressed_busy_warning_count;
    }
    else record telemetry { last_busy_warning_at_ms = now; suppressed_busy_warning_count = 0 }

abbrev pub maybe_log_telemetry_summary : ℕ → DeviceTelemetry → DeviceTelemetry
maybe_log_telemetry_summary now telemetry =
    if ltb (now - telemetry.last_summary_at_ms) telemetry_summary_interval_ms
    then telemetry
    else record telemetry { last_summary_at_ms = now }

-- What the loop of one device works on.
pub record Loop (W : Type 0) : Type 0 where
  pub polling : DevicePollingState
  pub run : Run W

-- How a round ends: another follows, the loop is left, an error leaves it, or the reconnection
-- did not end in the rounds that it was given.
pub data Round (W : Type 0) : Type 0 where
  again : Loop W → Round W
  left : Loop W → Round W
  failed : Error → Loop W → Round W
  unfinished : Round W

abbrev pub should_run_full : ℕ → DevicePollingState → Bool
should_run_full now state = leb state.next_full_poll_at now

abbrev pub should_run_fast : ℕ → DevicePollingState → Bool
should_run_fast now state = should_run_full now state || leb state.next_fast_poll_at now

abbrev pub cycle_commands : Bool → BluettiDevice → List ReadWindow
cycle_commands true device = fast_polling_commands device ++ slow_polling_commands device
cycle_commands false device = fast_polling_commands device

-- The counters at the start of a cycle.
abbrev pub start_cycle : Bool → ℕ → DeviceTelemetry → DeviceTelemetry
start_cycle true now telemetry = record telemetry {
  cycle_count = suc telemetry.cycle_count;
  last_cycle_started_at = some now;
  full_cycle_count = suc telemetry.full_cycle_count;
}
start_cycle false now telemetry = record telemetry {
  cycle_count = suc telemetry.cycle_count;
  last_cycle_started_at = some now;
  fast_cycle_count = suc telemetry.fast_cycle_count;
}

abbrev pub end_cycle : ℕ → ℕ → DeviceTelemetry → DeviceTelemetry
end_cycle started_at completed_at telemetry =
    let duration = completed_at - started_at in
    maybe_log_telemetry_summary completed_at (record telemetry {
      total_cycle_duration_ms = telemetry.total_cycle_duration_ms + duration;
      max_cycle_duration_ms = max telemetry.max_cycle_duration_ms duration;
      last_cycle_completed_at = some completed_at;
    })

-- The end of a cycle: when the next polls are due.
abbrev pub schedule : Bool → ℕ → DevicePollingState → DevicePollingState
schedule true now state = schedule_next_poll now state
schedule false now state = record state { next_fast_poll_at = now + state.fast_interval_ms }

module _ {W : Type 0} (env : Environment W) (options : PollingOptions) where
  unfoldable pub busy_cycle : Loop W → Loop W
  unfolding apply_busy_backoff
  busy_cycle loop =
      let now = env.now loop.run.world in
      record {
        polling = apply_busy_backoff loop.polling options;
        run = record {
          telemetry = maybe_log_busy_warning now (record loop.run.telemetry {
            busy_error_count = suc loop.run.telemetry.busy_error_count;
            last_busy_at = some now;
          });
          world = loop.run.world;
        };
      }

  unfoldable pub good_cycle : Loop W → Loop W
  unfolding recover_polling_state
  good_cycle loop = record loop { polling = recover_polling_state loop.polling options }

  abbrev pub completed : Bool → ℕ → Loop W → Loop W
  completed full started_at loop =
      let now = env.now loop.run.world in
      record {
        polling = schedule full now loop.polling;
        run = record {
          telemetry = end_cycle started_at now loop.run.telemetry;
          world = loop.run.world;
        };
      }

  -- From the end of the commands on.
  abbrev pub complete_cycle : Bool → Bool → ℕ → Loop W → Round W
  complete_cycle run_once full started_at loop =
      if run_once || env.is_stop_requested loop.run.world
      then left (completed full started_at loop)
      else again (completed full started_at loop)

  abbrev pub in_world : Loop W → W → Loop W
  in_world loop world = record loop {
    run = record { telemetry = loop.run.telemetry; world = world };
  }

  abbrev pub after_recovery : Option (Bool × W) → Loop W → Round W
  after_recovery none loop = unfinished
  after_recovery (some (true, world)) loop = again (record {
    polling = schedule_next_poll (env.now world) loop.polling;
    run = record { telemetry = loop.run.telemetry; world = world };
  })
  after_recovery (some (false, world)) loop = left (in_world loop world)

  module _ (reconnect : W → Result Done × W) (rounds : ℕ) (run_once : Bool) where
    unfoldable pub lose_connection : Loop W → Round W
    unfolding recover_device_connection
    lose_connection loop =
        if run_once
        then left loop
        else after_recovery (recover_device_connection env reconnect rounds loop.run.world) loop

    unfoldable pub after_packs : ℕ → DevicePollingState → Result CommandResult × Run W → Round W
    unfolding lose_connection busy_cycle good_cycle
    after_packs started_at polling (throws e, run) =
        failed e (record { polling = polling; run = run })
    after_packs started_at polling (ok connection_error, run) =
        lose_connection (record { polling = polling; run = run })
    after_packs started_at polling (ok busy, run) =
        complete_cycle run_once true started_at
          (busy_cycle (record { polling = polling; run = run }))
    after_packs started_at polling (ok _, run) =
        complete_cycle run_once true started_at
          (good_cycle (record { polling = polling; run = run }))

    unfoldable pub after_success : Bool → ℕ → BluettiDevice → DevicePollingState → Run W → Round W
    unfolding after_packs good_cycle run_pack_commands
    after_success true started_at device polling run =
        after_packs started_at polling (run_pack_commands env device polling.command_delay_ms run)
    after_success false started_at device polling run =
        complete_cycle run_once false started_at
          (good_cycle (record { polling = polling; run = run }))

    unfoldable pub after_commands :
        Bool → ℕ → BluettiDevice → DevicePollingState → Result CommandResult × Run W → Round W
    unfolding after_success lose_connection busy_cycle
    after_commands full started_at device polling (throws e, run) =
        failed e (record { polling = polling; run = run })
    after_commands full started_at device polling (ok connection_error, run) =
        lose_connection (record { polling = polling; run = run })
    after_commands full started_at device polling (ok busy, run) =
        complete_cycle run_once full started_at
          (busy_cycle (record { polling = polling; run = run }))
    after_commands full started_at device polling (ok _, run) =
        after_success full started_at device polling run

    unfoldable pub run_cycle : Bool → BluettiDevice → Loop W → Round W
    unfolding after_commands run_command_set
    run_cycle full device loop =
        let now = env.now loop.run.world in
        after_commands full now device loop.polling (
          run_command_set env device (cycle_commands full device) loop.polling.command_delay_ms
            (record {
              telemetry = start_cycle full now loop.run.telemetry;
              world = loop.run.world;
            }))

    -- `sleep` until the earlier of the two polls.
    abbrev pub wait_for_poll : Loop W → Loop W
    wait_for_poll loop =
        let state = loop.polling in
        in_world loop (
          env.sleep (min state.next_fast_poll_at state.next_full_poll_at - env.now loop.run.world)
            loop.run.world)

    -- One round of the loop.
    unfoldable pub poll_round : BluettiDevice → Loop W → Round W
    unfolding run_cycle
    poll_round device loop =
        let now = env.now loop.run.world in
        if env.is_stop_requested loop.run.world
        then left loop
        else if should_run_fast now loop.polling
        then run_cycle (should_run_full now loop.polling) device loop
        else again (wait_for_poll loop)
