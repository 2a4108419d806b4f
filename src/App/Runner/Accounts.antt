-- ===== src/App/Runner/Accounts.antt =====
-- What a set of read commands of src/app/device-executor.ts adds to the counters.
use bluetti_mqtt_node.Common.{
  ℕ, inl, inr, ◌≡◌, refl, ap, ◌∙◌, sym, subst, Bool, true, false, List, [], ◌∷◌,
}
use bluetti_mqtt_node.Errors.{Error, Result, ok, throws, ok_injective}
use bluetti_mqtt_node.Devices.Device.{BluettiDevice, ReadWindow}
use bluetti_mqtt_node.App.Polling.{CommandResult, success, expected_error, busy, connection_error}
use bluetti_mqtt_node.App.Runner.{
  Environment, Run, execute_read_command, pause, set_result, run_commands, run_command_set,
}
use bluetti_mqtt_node.App.Runner.Sent.{
  Accounted, Accounted-next, Accounted-last, Sent-empty, Ended-empty, Tally-empty,
}

throws-ok {ℓ} : {A : Type ℓ} {e : Error} {a : A} → throws e ≡ ok a → ⊥
throws-ok h = cc

module _ {W : Type 0} (env : Environment W) where
  -- How the loop goes on after a command.
  abbrev continued :
      BluettiDevice
      → ℕ
      → List ReadWindow
      → Bool
      → Result CommandResult
      → Run W
      → Result CommandResult × Run W
  continued device delay windows saw (throws e) run = (throws e, run)
  continued device delay windows saw (ok busy) run = (ok busy, run)
  continued device delay windows saw (ok connection_error) run = (ok connection_error, run)
  continued device delay windows saw (ok expected_error) run =
      run_commands env device delay windows true (pause env windows delay run)
  continued device delay windows saw (ok success) run =
      run_commands env device delay windows saw (pause env windows delay run)

  module _ (never_stops : (world : W) → env.is_stop_requested world ≡ false) where
    run_commands-next :
        (device : BluettiDevice) (delay : ℕ) (window : ReadWindow) (windows : List ReadWindow)
        (saw : Bool) (run : Run W) (r : Result CommandResult)
        → (execute_read_command env device window run).0 ≡ r
        → run_commands env device delay (window ∷ windows) saw run
          ≡ continued device delay windows saw r (execute_read_command env device window run).1
    unfolding run_commands
    run_commands-next device delay window windows saw run (throws f) e =
        rw (never_stops run.world, e)
    run_commands-next device delay window windows saw run (ok success) e =
        rw (never_stops run.world, e)
    run_commands-next device delay window windows saw run (ok expected_error) e =
        rw (never_stops run.world, e)
    run_commands-next device delay window windows saw run (ok busy) e =
        rw (never_stops run.world, e)
    run_commands-next device delay window windows saw run (ok connection_error) e =
        rw (never_stops run.world, e)

    continued-Accounted :
        (device : BluettiDevice) (delay : ℕ) (window : ReadWindow) (windows : List ReadWindow)
        (saw : Bool) (run run' : Run W) (r : Result CommandResult) (result : CommandResult)
        → ((flag : Bool) (run : Run W)
            → run_commands env device delay windows flag run ≡ (ok result, run')
            → Accounted env device delay windows flag result run run')
        → (execute_read_command env device window run).0 ≡ r
        → continued device delay windows saw r (execute_read_command env device window run).1
          ≡ (ok result, run')
        → Accounted env device delay (window ∷ windows) saw result run run'
    continued-Accounted device delay window windows saw run run' (throws e) result ih k h =
        absurd (throws-ok (ap (λ x. x.0) h))
    continued-Accounted device delay window windows saw run run' (ok success) result ih k h =
        let middle = (execute_read_command env device window run).1 in
        Accounted-next env device delay window windows saw saw result run run' (inl (k, refl))
          (ih saw (pause env windows delay middle) h)
    continued-Accounted device delay window windows saw run run' (ok expected_error) result ih k h =
        let middle = (execute_read_command env device window run).1 in
        Accounted-next env device delay window windows saw true result run run' (inr (k, refl))
          (ih true (pause env windows delay middle) h)
    continued-Accounted device delay window windows saw run run' (ok busy) result ih k h =
        let same_result : busy ≡ result = ok_injective (ap (λ x. x.0) h) in
        let same_run = ap (λ x. x.1) h in
        subst (λ x. Accounted env device delay (window ∷ windows) saw x run run') same_result
          (subst (Accounted env device delay (window ∷ windows) saw busy run) same_run
            (Accounted-last env device delay window windows saw busy run k refl))
    continued-Accounted device delay window windows saw run run' (ok connection_error) result ih k
          h =
        let same_result : connection_error ≡ result = ok_injective (ap (λ x. x.0) h) in
        let same_run = ap (λ x. x.1) h in
        subst (λ x. Accounted env device delay (window ∷ windows) saw x run run') same_result
          (subst (Accounted env device delay (window ∷ windows) saw connection_error run) same_run
            (Accounted-last env device delay window windows saw connection_error run k refl))

    run_commands-Accounted :
        (device : BluettiDevice) (delay : ℕ) (windows : List ReadWindow) (saw : Bool)
        (run run' : Run W) (result : CommandResult)
        → run_commands env device delay windows saw run ≡ (ok result, run')
        → Accounted env device delay windows saw result run run'
    unfolding run_commands
    run_commands-Accounted device delay [] saw run run' result h =
        let same_result : set_result saw ≡ result = ok_injective (ap (λ x. x.0) h) in
        let same_run : run ≡ run' = ap (λ x. x.1) h in
        subst (λ x. Accounted env device delay [] saw x run run') same_result
          (subst (Accounted env device delay [] saw (set_result saw) run) same_run
            (0, Sent-empty saw, refl, Ended-empty saw, Tally-empty saw run.telemetry))
    run_commands-Accounted device delay (window ∷ windows) saw run run' result h =
        let executed = execute_read_command env device window run in
        let step = run_commands-next device delay window windows saw run executed.0 refl in
        continued-Accounted device delay window windows saw run run' executed.0 result
          (λ flag next. run_commands-Accounted device delay windows flag next run' result) refl
          (sym step ∙ h)

    -- When the run of a set of commands, never stopped, returns a result, it has run the first k
    -- commands of the set, one after the other with the pauses between them, and no other. On
    -- success or with an expected error these are all, and none of them met a busy answer or a lost
    -- connection; a busy answer or a lost connection is that of the k-th command, the first that
    -- met one. Each of the k is counted once: as a success on success; as a success or an error,
    -- one at least as an error, with an expected error; a lost connection as an error; a busy
    -- answer in neither counter.
    pub run_command_set-Accounted :
        (device : BluettiDevice) (windows : List ReadWindow) (delay : ℕ) (run run' : Run W)
        (result : CommandResult)
        → run_command_set env device windows delay run ≡ (ok result, run')
        → Accounted env device delay windows false result run run'
    unfolding run_command_set
    run_command_set-Accounted device windows delay run run' result h =
        run_commands-Accounted device delay windows false run run' result h
