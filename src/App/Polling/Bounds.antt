-- ===== src/App/Polling/Bounds.antt =====
-- The range that the adaptive schedule of src/app/polling-state.ts keeps to.
use bluetti_mqtt_node.Common.{◌≤◌, min, max, List, [], ◌∷◌, arith}
use bluetti_mqtt_node.App.Polling.{
  PollingOptions, DevicePollingState, create_device_polling_state, apply_busy_backoff,
  recover_polling_state,
}

pub data Adjustment : Type 0 where
  back_off recover : Adjustment

-- The schedule after a history of adjustments, the latest first.
pub adjusted : PollingOptions → List Adjustment → DevicePollingState
adjusted options [] = create_device_polling_state options
adjusted options (back_off ∷ history) = apply_busy_backoff (adjusted options history) options
adjusted options (recover ∷ history) = recover_polling_state (adjusted options history) options

-- Each interval lies between the lesser and the greater of what it starts at, its floor and its
-- clamp.
abbrev pub IsWithin : PollingOptions → DevicePollingState → Type 0
IsWithin options state =
    (min options.fast_interval_ms options.max_fast_interval_ms ≤ state.fast_interval_ms)
    × (state.fast_interval_ms ≤ max options.fast_interval_ms options.max_fast_interval_ms)
    × (min options.full_interval_ms options.max_full_interval_ms ≤ state.full_interval_ms)
    × (state.full_interval_ms
        ≤ max (max options.full_interval_ms options.fast_interval_ms) options.max_full_interval_ms)
    × (min options.command_delay_ms options.max_command_delay_ms ≤ state.command_delay_ms)
    × (state.command_delay_ms ≤ max options.command_delay_ms options.max_command_delay_ms)

pub back_off-IsWithin :
    (options : PollingOptions) (state : DevicePollingState)
    → IsWithin options state
    → IsWithin options (apply_busy_backoff state options)
unfolding apply_busy_backoff
back_off-IsWithin options state (a, b, c, d, e, f) =
    (omega arith, omega arith, omega arith, omega arith, omega arith, omega arith)

pub recover-IsWithin :
    (options : PollingOptions) (state : DevicePollingState)
    → IsWithin options state
    → IsWithin options (recover_polling_state state options)
unfolding recover_polling_state
recover-IsWithin options state (a, b, c, d, e, f) =
    (omega arith, omega arith, omega arith, omega arith, omega arith, omega arith)

-- Whatever busy answers and successes come, in whatever order, no interval leaves its range.
pub adjusted-IsWithin :
    (options : PollingOptions) (history : List Adjustment)
    → IsWithin options (adjusted options history)
unfolding adjusted
adjusted-IsWithin options [] =
    (omega arith, omega arith, omega arith, omega arith, omega arith, omega arith)
adjusted-IsWithin options (back_off ∷ history) =
    back_off-IsWithin options (adjusted options history) (adjusted-IsWithin options history)
adjusted-IsWithin options (recover ∷ history) =
    recover-IsWithin options (adjusted options history) (adjusted-IsWithin options history)

-- A busy answer never shortens an interval, if no clamp is below the configured value that it
-- bounds.
pub back_off_slows :
    (options : PollingOptions) (history : List Adjustment)
    → options.fast_interval_ms ≤ options.max_fast_interval_ms
    → max options.full_interval_ms options.fast_interval_ms ≤ options.max_full_interval_ms
    → options.command_delay_ms ≤ options.max_command_delay_ms
    → ((adjusted options history).fast_interval_ms
        ≤ (adjusted options (back_off ∷ history)).fast_interval_ms)
      × ((adjusted options history).full_interval_ms
          ≤ (adjusted options (back_off ∷ history)).full_interval_ms)
      × ((adjusted options history).command_delay_ms
          ≤ (adjusted options (back_off ∷ history)).command_delay_ms)
unfolding adjusted apply_busy_backoff
back_off_slows options history p q r =
    let (a, b, c, d, e, f) = adjusted-IsWithin options history in
    (omega arith, omega arith, omega arith)
