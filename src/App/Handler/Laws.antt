-- ===== src/App/Handler/Laws.antt =====
-- What every round of the polling loop of src/app/device-handler.ts keeps, and how it waits.
use bluetti_mqtt_node.Common.{
  ℕ, ◌+◌, ◌-◌, ◌≤◌, min, ◌≡◌, refl, Bool, true, false, ◌||◌, Option, none, some, arith, Bool-cases,
  inl, inr,
}
use bluetti_mqtt_node.Errors.{Result, ok, throws}
use bluetti_mqtt_node.Devices.Device.{BluettiDevice}
use bluetti_mqtt_node.App.Polling.{
  PollingOptions, DevicePollingState, CommandResult, success, expected_error, busy,
  connection_error,
}
use bluetti_mqtt_node.App.Polling.Bounds.{IsWithin, back_off-IsWithin, recover-IsWithin}
use bluetti_mqtt_node.App.Runner.{Environment, Run, Done, run_command_set, run_pack_commands}
use bluetti_mqtt_node.App.Connection.{recover_device_connection}
use bluetti_mqtt_node.App.Handler.{
  Loop, Round, again, left, failed, unfinished, should_run_fast, should_run_full, cycle_commands,
  start_cycle, schedule, busy_cycle, good_cycle, complete_cycle, after_recovery, lose_connection,
  after_packs, after_success, after_commands, run_cycle, wait_for_poll, poll_round,
}

-- The schedule that a round leaves keeps to the range of the options.
abbrev pub RoundWithin : {W : Type 0} → PollingOptions → Round W → Type 0
RoundWithin options (again loop) = IsWithin options loop.polling
RoundWithin options (left loop) = IsWithin options loop.polling
RoundWithin options (failed e loop) = IsWithin options loop.polling
RoundWithin options unfinished = Unit

due_after_wait :
    (now later : ℕ) (state : DevicePollingState)
    → now + (min state.next_fast_poll_at state.next_full_poll_at - now) ≤ later
    → should_run_fast later state ≡ true
due_after_wait now later state h = ground arith

module _ {W : Type 0} (env : Environment W) (options : PollingOptions) where
  schedule-IsWithin :
      (full : Bool) (now : ℕ) (state : DevicePollingState)
      → IsWithin options state
      → IsWithin options (schedule full now state)
  schedule-IsWithin true now state within = within
  schedule-IsWithin false now state within = within

  complete-RoundWithin :
      (run_once full : Bool) (started_at : ℕ) (loop : Loop W)
      → IsWithin options loop.polling
      → RoundWithin options (complete_cycle env options run_once full started_at loop)
  complete-RoundWithin run_once full started_at loop within =
      let scheduled = schedule-IsWithin full (env.now loop.run.world) loop.polling within in
      elim (Bool-cases (run_once || env.is_stop_requested loop.run.world)) [
        | inl e ↦ rw e scheduled
        | inr e ↦ rw e scheduled
      ]

  after_recovery-RoundWithin :
      (answer : Option (Bool × W)) (loop : Loop W)
      → IsWithin options loop.polling
      → RoundWithin options (after_recovery env options answer loop)
  after_recovery-RoundWithin none loop within = tt
  after_recovery-RoundWithin (some (true, world)) loop within = within
  after_recovery-RoundWithin (some (false, world)) loop within = within

  module _ (reconnect : W → Result Done × W) (rounds : ℕ) (run_once : Bool) where
    lose_connection-RoundWithin :
        (loop : Loop W)
        → IsWithin options loop.polling
        → RoundWithin options (lose_connection env options reconnect rounds run_once loop)
    unfolding lose_connection
    lose_connection-RoundWithin loop within = elim (Bool-cases run_once) [
      | inl e ↦ rw e within
      | inr e ↦ rw e (
          after_recovery-RoundWithin (recover_device_connection env reconnect rounds loop.run.world)
            loop within)
    ]

    after_packs-RoundWithin :
        (started_at : ℕ) (polling : DevicePollingState) (r : Result CommandResult) (run : Run W)
        → IsWithin options polling
        → RoundWithin options
            (after_packs env options reconnect rounds run_once started_at polling (r, run))
    unfolding after_packs busy_cycle good_cycle
    after_packs-RoundWithin started_at polling (throws e) run within = within
    after_packs-RoundWithin started_at polling (ok connection_error) run within =
        lose_connection-RoundWithin (record { polling = polling; run = run }) within
    after_packs-RoundWithin started_at polling (ok busy) run within =
        complete-RoundWithin run_once true started_at
          (busy_cycle env options (record { polling = polling; run = run }))
          (back_off-IsWithin options polling within)
    after_packs-RoundWithin started_at polling (ok success) run within =
        complete-RoundWithin run_once true started_at
          (good_cycle env options (record { polling = polling; run = run }))
          (recover-IsWithin options polling within)
    after_packs-RoundWithin started_at polling (ok expected_error) run within =
        complete-RoundWithin run_once true started_at
          (good_cycle env options (record { polling = polling; run = run }))
          (recover-IsWithin options polling within)

    after_success-RoundWithin :
        (full : Bool) (started_at : ℕ) (device : BluettiDevice) (polling : DevicePollingState)
        (run : Run W)
        → IsWithin options polling
        → RoundWithin options
            (after_success env options reconnect rounds run_once full started_at device polling run)
    unfolding after_success good_cycle
    after_success-RoundWithin true started_at device polling run within =
        let packs = run_pack_commands env device polling.command_delay_ms run in
        after_packs-RoundWithin started_at polling packs.0 packs.1 within
    after_success-RoundWithin false started_at device polling run within =
        complete-RoundWithin run_once false started_at
          (good_cycle env options (record { polling = polling; run = run }))
          (recover-IsWithin options polling within)

    after_commands-RoundWithin :
        (full : Bool) (started_at : ℕ) (device : BluettiDevice) (polling : DevicePollingState)
        (r : Result CommandResult) (run : Run W)
        → IsWithin options polling
        → RoundWithin options (
            after_commands env options reconnect rounds run_once full started_at device polling
              (r, run))
    unfolding after_commands busy_cycle
    after_commands-RoundWithin full started_at device polling (throws e) run within = within
    after_commands-RoundWithin full started_at device polling (ok connection_error) run within =
        lose_connection-RoundWithin (record { polling = polling; run = run }) within
    after_commands-RoundWithin full started_at device polling (ok busy) run within =
        complete-RoundWithin run_once full started_at
          (busy_cycle env options (record { polling = polling; run = run }))
          (back_off-IsWithin options polling within)
    after_commands-RoundWithin full started_at device polling (ok success) run within =
        after_success-RoundWithin full started_at device polling run within
    after_commands-RoundWithin full started_at device polling (ok expected_error) run within =
        after_success-RoundWithin full started_at device polling run within

    -- Every round of the loop, whatever the device and the connection do in it, leaves the
    -- schedule in the range of the options, if it was in it before.
    pub poll_round-RoundWithin :
        (device : BluettiDevice) (loop : Loop W)
        → IsWithin options loop.polling
        → RoundWithin options (poll_round env options reconnect rounds run_once device loop)
    unfolding poll_round run_cycle
    poll_round-RoundWithin device loop within =
        let now = env.now loop.run.world in
        let full = should_run_full now loop.polling in
        let commands =
          run_command_set env device (cycle_commands full device) loop.polling.command_delay_ms
            (record {
              telemetry = start_cycle full now loop.run.telemetry;
              world = loop.run.world;
            }) in
        let cycle =
          after_commands-RoundWithin full now device loop.polling commands.0 commands.1 within in
        elim (Bool-cases (env.is_stop_requested loop.run.world)) [
          | inl stopped ↦ rw stopped within
          | inr going ↦ elim (Bool-cases (should_run_fast now loop.polling)) [
            | inl due ↦ rw (going, due) cycle
            | inr idle ↦ rw (going, idle) within
          ]
        ]

    -- A round that is not stopped and in which no poll is due sends nothing and sleeps; if a sleep
    -- lasts as long as it is asked to, a poll is due in the next round.
    pub wait_reaches_poll :
        (device : BluettiDevice) (loop : Loop W)
        → ((ms : ℕ) (world : W) → env.now world + ms ≤ env.now (env.sleep ms world))
        → env.is_stop_requested loop.run.world ≡ false
        → should_run_fast (env.now loop.run.world) loop.polling ≡ false
        → (next : Loop W) × (poll_round env options reconnect rounds run_once device loop
            ≡ again next)
          × (next.polling ≡ loop.polling)
          × (next.run.telemetry ≡ loop.run.telemetry)
          × (should_run_fast (env.now next.run.world) next.polling ≡ true)
    unfolding poll_round
    wait_reaches_poll device loop sleeps going idle =
        let state = loop.polling in
        let wait = min state.next_fast_poll_at state.next_full_poll_at - env.now loop.run.world in
        let slept = sleeps wait loop.run.world in
        (
          wait_for_poll env options reconnect rounds run_once loop,
          rw (going, idle),
          refl,
          refl,
          due_after_wait (env.now loop.run.world) (env.now (env.sleep wait loop.run.world)) state
              slept,
        )
