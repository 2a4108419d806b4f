-- ===== src/App/Polling/Restore.antt =====
-- How the schedule of src/app/polling-state.ts slows down and returns to the configured cadence.
use bluetti_mqtt_node.Common.{ℕ, zero, suc, ◌+◌, ◌*◌, ◌≤◌, ◌≡◌, arith}
use bluetti_mqtt_node.App.Polling.{PollingOptions, DevicePollingState, recover_polling_state}

pub recovered : ℕ → PollingOptions → DevicePollingState → DevicePollingState
recovered zero options state = state
recovered (suc n) options state = recovered n options (recover_polling_state state options)

-- No interval is more than n recovery steps above its floor, and none is below it.
abbrev pub IsNear : ℕ → PollingOptions → DevicePollingState → Type 0
IsNear n options state =
    (options.fast_interval_ms ≤ state.fast_interval_ms)
    × (state.fast_interval_ms ≤ options.fast_interval_ms + n * options.recovery_step_ms)
    × (options.full_interval_ms ≤ state.full_interval_ms)
    × (state.full_interval_ms ≤ options.full_interval_ms + n * (options.recovery_step_ms * 2))
    × (options.command_delay_ms ≤ state.command_delay_ms)
    × (state.command_delay_ms ≤ options.command_delay_ms + n * options.recovery_step_ms)

recover-IsNear :
    (n : ℕ) (options : PollingOptions) (state : DevicePollingState)
    → IsNear (suc n) options state
    → IsNear n options (recover_polling_state state options)
unfolding recover_polling_state
recover-IsNear n options state (a, b, c, d, e, f) =
    (omega arith, omega arith, omega arith, omega arith, omega arith, omega arith)

-- From at most n recovery steps above the configured intervals, n successful cycles in a row
-- restore all three of them.
pub recovered_restores :
    (n : ℕ) (options : PollingOptions) (state : DevicePollingState)
    → IsNear n options state
    → ((recovered n options state).fast_interval_ms ≡ options.fast_interval_ms)
      × ((recovered n options state).full_interval_ms ≡ options.full_interval_ms)
      × ((recovered n options state).command_delay_ms ≡ options.command_delay_ms)
unfolding recovered
recovered_restores zero options state (a, b, c, d, e, f) = (omega arith, omega arith, omega arith)
recovered_restores (suc n) options state near =
    recovered_restores n options (recover_polling_state state options)
      (recover-IsNear n options state near)
