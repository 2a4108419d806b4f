-- ===== src/App/Connection.antt =====
-- src/app/device-connection.ts: the two retry loops. Each recurs on the rounds that it may make;
-- `none` says that they did not suffice. What the manager does is a function on the world.
pub mod Laws
pub mod Startup
use bluetti_mqtt_node.Common.{
  ℕ, zero, suc, Bool, true, false, ◌||◌, not, if◌then◌else◌, Option, none, some,
}
use bluetti_mqtt_node.Errors.{
  Error, error, range_error, aggregate_error, bad_connection_error, command_timeout_error,
  parse_error, modbus_error, device_busy_error, Result, ok, throws,
}
use bluetti_mqtt_node.App.Runner.{Environment, Done}

abbrev pub startup_retry_delay_ms : ℕ
startup_retry_delay_ms = 5000

-- `error instanceof BadConnectionError`.
abbrev pub is_bad_connection : Error → Bool
is_bad_connection bad_connection_error = true
is_bad_connection error = false
is_bad_connection range_error = false
is_bad_connection aggregate_error = false
is_bad_connection command_timeout_error = false
is_bad_connection parse_error = false
is_bad_connection (modbus_error code) = false
is_bad_connection (device_busy_error code) = false

module _ {W : Type 0} (env : Environment W) where
  unfoldable pub connect_all_with_recovery :
      (W → Result Done × W) → Bool → ℕ → W → Option (Result Bool × W)
  connect_all_with_recovery connect_all run_once zero world = none
  connect_all_with_recovery connect_all run_once (suc rounds) world =
      let (r, world') = connect_all world in
      let retry =
        connect_all_with_recovery connect_all run_once rounds
          (env.sleep startup_retry_delay_ms world') in
      if env.is_stop_requested world then some (ok false, world) else elim r [
        | ok _ ↦ some (ok true, world')
        | throws e ↦
            if run_once || not (is_bad_connection e) then some (throws e, world') else retry
      ]

  -- Every error of `manager.reconnect` is met by another try.
  unfoldable pub recover_device_connection : (W → Result Done × W) → ℕ → W → Option (Bool × W)
  recover_device_connection reconnect zero world = none
  recover_device_connection reconnect (suc rounds) world =
      let (r, world') = reconnect world in
      let retry =
        recover_device_connection reconnect rounds (env.sleep startup_retry_delay_ms world') in
      if env.is_stop_requested world
      then some (false, world)
      else elim r [ ok _ ↦ some (true, world') | throws e ↦ retry ]
