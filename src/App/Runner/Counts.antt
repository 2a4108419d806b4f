-- ===== src/App/Runner/Counts.antt =====
-- What one read command of src/app/device-executor.ts adds to the counters.
use bluetti_mqtt_node.Common.{
  ℕ, suc, ◌≡◌, refl, ap, subst, List, [], ◌∷◌, ltb, Bool-cases, inl, inr,
}
use bluetti_mqtt_node.Errors.{
  error, range_error, aggregate_error, bad_connection_error, command_timeout_error, parse_error,
  modbus_error, device_busy_error, Result, ok, throws,
}
use bluetti_mqtt_node.Commands.{parse_response}
use bluetti_mqtt_node.Commands.Frames.{read_command}
use bluetti_mqtt_node.Devices.Struct.{ParsedFieldMap}
use bluetti_mqtt_node.Devices.Device.{BluettiDevice, ReadWindow, parse}
use bluetti_mqtt_node.App.Polling.{DeviceTelemetry, CommandResult, success, busy}
use bluetti_mqtt_node.App.Runner.{
  Environment, Run, Done, perform_on, publish_parsed, after_perform, read_work, count_outcome,
  count_duration, execute_read_command, pause,
}

-- The two counters of a device are left alone.
abbrev pub SameCounts : DeviceTelemetry → DeviceTelemetry → Type 0
SameCounts before after =
    (after.successful_command_count ≡ before.successful_command_count)
    × (after.expected_error_count ≡ before.expected_error_count)

-- What one command that ends with a result adds to the counters.
abbrev pub Counted : Result CommandResult → DeviceTelemetry → DeviceTelemetry → Type 0
Counted (ok success) before after =
    (after.successful_command_count ≡ suc before.successful_command_count)
    × (after.expected_error_count ≡ before.expected_error_count)
Counted (ok busy) before after = SameCounts before after
Counted (throws e) before after = SameCounts before after
Counted (ok _) before after =
    (after.successful_command_count ≡ before.successful_command_count)
    × (after.expected_error_count ≡ suc before.expected_error_count)

module _ {W : Type 0} (env : Environment W) where
  publish_parsed-counts :
      (r : Result ParsedFieldMap) (run : Run W)
      → SameCounts run.telemetry (publish_parsed env r run).1.telemetry
  publish_parsed-counts (throws e) run = (refl, refl)
  publish_parsed-counts (ok []) run = (refl, refl)
  publish_parsed-counts (ok (entry ∷ parsed)) run = (refl, refl)

  after_perform-counts :
      (device : BluettiDevice) (window : ReadWindow) (r : Result (List ℕ)) (run : Run W)
      → SameCounts run.telemetry (after_perform env device window r run).1.telemetry
  after_perform-counts device window (throws e) run = (refl, refl)
  after_perform-counts device window (ok response) run =
      publish_parsed-counts
        (parse device window.starting_address
          (parse_response (read_command window.starting_address window.quantity) response))
        run

  outcome-Counted :
      (started_at : ℕ) (before : DeviceTelemetry) (r : Result Done) (run : Run W)
      → SameCounts before run.telemetry
      → Counted
          (count_duration env started_at (count_outcome env (r, run))).0
          before
          (count_duration env started_at (count_outcome env (r, run))).1.telemetry
  outcome-Counted started_at before (ok _) run (p, q) = (ap suc p, q)
  outcome-Counted started_at before (throws (device_busy_error code)) run (p, q) = (p, q)
  outcome-Counted started_at before (throws bad_connection_error) run (p, q) = (p, ap suc q)
  outcome-Counted started_at before (throws command_timeout_error) run (p, q) = (p, ap suc q)
  outcome-Counted started_at before (throws (modbus_error code)) run (p, q) = (p, ap suc q)
  outcome-Counted started_at before (throws parse_error) run (p, q) = (p, ap suc q)
  outcome-Counted started_at before (throws error) run (p, q) = (p, q)
  outcome-Counted started_at before (throws range_error) run (p, q) = (p, q)
  outcome-Counted started_at before (throws aggregate_error) run (p, q) = (p, q)

  pub execute-Counted :
      (device : BluettiDevice) (window : ReadWindow) (run run' : Run W) (r : Result CommandResult)
      → execute_read_command env device window run ≡ (r, run')
      → Counted r run.telemetry run'.telemetry
  unfolding execute_read_command read_work
  execute-Counted device window run run' r h =
      let (answer, world') =
        perform_on env (read_command window.starting_address window.quantity) run.world in
      let work = after_perform env device window answer (record run { world = world' }) in
      subst (λ x. Counted x.0 run.telemetry x.1.telemetry) h
        (outcome-Counted (env.now run.world) run.telemetry work.0 work.1
          (after_perform-counts device window answer (record run { world = world' })))

  pub pause-telemetry :
      (windows : List ReadWindow) (delay : ℕ) (run : Run W)
      → (pause env windows delay run).telemetry ≡ run.telemetry
  pause-telemetry [] delay run = refl
  pause-telemetry (window ∷ windows) delay run = elim (Bool-cases (ltb 0 delay)) [
    | inl e ↦ rw e
    | inr e ↦ rw e
  ]
