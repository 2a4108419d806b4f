-- ===== src/App/Polling.antt =====
-- src/app/polling-state.ts: options, schedule and counters of the polling of one device. Times
-- and intervals are whole milliseconds; `Date.now()` is an argument, and an ISO time stamp is kept
-- as the milliseconds that it stands for.
pub mod Bounds
pub mod Restore
use bluetti_mqtt_node.Common.{
  ℕ, ◌+◌, ◌-◌, ◌*◌, ◌/◌, min, max, List, [], ◌∷◌, ◌==◌, if◌then◌else◌, Option, none, some,
}

-- `Required<PollingOptions>`.
pub record PollingOptions : Type 0 where
  pub fast_interval_ms : ℕ
  pub full_interval_ms : ℕ
  pub command_delay_ms : ℕ
  pub busy_penalty_ms : ℕ
  pub recovery_step_ms : ℕ
  pub max_fast_interval_ms : ℕ
  pub max_full_interval_ms : ℕ
  pub max_command_delay_ms : ℕ

-- `PollingOptions`: the fields that are given.
pub record GivenOptions : Type 0 where
  pub fast_interval : Option ℕ
  pub full_interval : Option ℕ
  pub command_delay : Option ℕ
  pub busy_penalty : Option ℕ
  pub recovery_step : Option ℕ
  pub max_fast_interval : Option ℕ
  pub max_full_interval : Option ℕ
  pub max_command_delay : Option ℕ

pub record DevicePollingState : Type 0 where
  pub next_fast_poll_at : ℕ
  pub next_full_poll_at : ℕ
  pub fast_interval_ms : ℕ
  pub full_interval_ms : ℕ
  pub command_delay_ms : ℕ

pub record DeviceTelemetry : Type 0 where
  pub cycle_count : ℕ
  pub fast_cycle_count : ℕ
  pub full_cycle_count : ℕ
  pub successful_command_count : ℕ
  pub expected_error_count : ℕ
  pub busy_error_count : ℕ
  pub command_write_count : ℕ
  pub parser_publish_count : ℕ
  pub total_cycle_duration_ms : ℕ
  pub total_command_duration_ms : ℕ
  pub max_cycle_duration_ms : ℕ
  pub max_command_duration_ms : ℕ
  pub last_cycle_started_at : Option ℕ
  pub last_cycle_completed_at : Option ℕ
  pub last_busy_at : Option ℕ
  pub last_error_at : Option ℕ
  pub last_busy_warning_at_ms : ℕ
  pub suppressed_busy_warning_count : ℕ
  pub last_summary_at_ms : ℕ

pub data CommandResult : Type 0 where
  success expected_error busy connection_error : CommandResult

abbrev pub default_polling_options : PollingOptions
default_polling_options = record {
  fast_interval_ms = 2500;
  full_interval_ms = 15000;
  command_delay_ms = 150;
  busy_penalty_ms = 750;
  recovery_step_ms = 50;
  max_fast_interval_ms = 8000;
  max_full_interval_ms = 45000;
  max_command_delay_ms = 750;
}

-- The argument of `normalizePollingOptions`: a number of milliseconds, a number below zero, or options.
pub data IntervalOrOptions : Type 0 where
  interval : ℕ → IntervalOrOptions
  negative : IntervalOrOptions
  given : GivenOptions → IntervalOrOptions

abbrev pub or_default : Option ℕ → ℕ → ℕ
or_default none default = default
or_default (some value) default = value

abbrev pub options_of_interval : ℕ → PollingOptions
options_of_interval n =
    let d = default_polling_options in
    if n == 0 then d else record {
      fast_interval_ms = n;
      full_interval_ms = max (n * 4) d.full_interval_ms;
      command_delay_ms = d.command_delay_ms;
      busy_penalty_ms = d.busy_penalty_ms;
      recovery_step_ms = d.recovery_step_ms;
      max_fast_interval_ms = d.max_fast_interval_ms;
      max_full_interval_ms = d.max_full_interval_ms;
      max_command_delay_ms = d.max_command_delay_ms;
    }

abbrev pub normalize_polling_options : IntervalOrOptions → PollingOptions
normalize_polling_options (interval n) = options_of_interval n
normalize_polling_options negative = default_polling_options
normalize_polling_options (given o) =
    let d = default_polling_options in
    record {
      fast_interval_ms = or_default o.fast_interval d.fast_interval_ms;
      full_interval_ms = or_default o.full_interval d.full_interval_ms;
      command_delay_ms = or_default o.command_delay d.command_delay_ms;
      busy_penalty_ms = or_default o.busy_penalty d.busy_penalty_ms;
      recovery_step_ms = or_default o.recovery_step d.recovery_step_ms;
      max_fast_interval_ms = or_default o.max_fast_interval d.max_fast_interval_ms;
      max_full_interval_ms = or_default o.max_full_interval d.max_full_interval_ms;
      max_command_delay_ms = or_default o.max_command_delay d.max_command_delay_ms;
    }

abbrev pub create_device_polling_state : PollingOptions → DevicePollingState
create_device_polling_state options = record {
  next_fast_poll_at = 0;
  next_full_poll_at = 0;
  fast_interval_ms = options.fast_interval_ms;
  full_interval_ms = max options.full_interval_ms options.fast_interval_ms;
  command_delay_ms = options.command_delay_ms;
}

abbrev pub schedule_next_poll : ℕ → DevicePollingState → DevicePollingState
schedule_next_poll now state = record state {
  next_fast_poll_at = now + state.fast_interval_ms;
  next_full_poll_at = now + state.full_interval_ms;
}

abbrev pub create_device_telemetry : DeviceTelemetry
create_device_telemetry = record {
  cycle_count = 0;
  fast_cycle_count = 0;
  full_cycle_count = 0;
  successful_command_count = 0;
  expected_error_count = 0;
  busy_error_count = 0;
  command_write_count = 0;
  parser_publish_count = 0;
  total_cycle_duration_ms = 0;
  total_command_duration_ms = 0;
  max_cycle_duration_ms = 0;
  max_command_duration_ms = 0;
  last_cycle_started_at = none;
  last_cycle_completed_at = none;
  last_busy_at = none;
  last_error_at = none;
  last_busy_warning_at_ms = 0;
  suppressed_busy_warning_count = 0;
  last_summary_at_ms = 0;
}

unfoldable pub apply_busy_backoff : DevicePollingState → PollingOptions → DevicePollingState
apply_busy_backoff state options = record state {
  fast_interval_ms =
      min (state.fast_interval_ms + options.busy_penalty_ms) options.max_fast_interval_ms;
  full_interval_ms =
      min (state.full_interval_ms + options.busy_penalty_ms * 2) options.max_full_interval_ms;
  command_delay_ms =
      min (state.command_delay_ms + options.recovery_step_ms) options.max_command_delay_ms;
}

-- A difference below zero is below the floor that `Math.max` compares it to.
unfoldable pub recover_polling_state : DevicePollingState → PollingOptions → DevicePollingState
recover_polling_state state options = record state {
  fast_interval_ms =
      max options.fast_interval_ms (state.fast_interval_ms - options.recovery_step_ms);
  full_interval_ms =
      max options.full_interval_ms (state.full_interval_ms - options.recovery_step_ms * 2);
  command_delay_ms =
      max options.command_delay_ms (state.command_delay_ms - options.recovery_step_ms);
}
