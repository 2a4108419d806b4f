-- ===== src/App/Runner/Sent.antt =====
-- What a set of read commands of src/app/device-executor.ts sends and adds to the counters, command
-- by command.
use bluetti_mqtt_node.Common.{
  ℕ, zero, suc, ◌+◌, ◌<◌, ◌≤◌, ◌⊎◌, inl, inr, ◌++◌, All, take, ◌≡◌, refl, ap, ◌∙◌, sym, subst, Bool,
  true, false, List, [], ◌∷◌, length, if◌then◌else◌, arith,
}
use bluetti_mqtt_node.Errors.{Result, ok, throws}
use bluetti_mqtt_node.Devices.Device.{BluettiDevice, ReadWindow}
use bluetti_mqtt_node.App.Polling.{
  DeviceTelemetry, CommandResult, success, expected_error, busy, connection_error,
}
use bluetti_mqtt_node.App.Runner.{Environment, Run, execute_read_command, pause, set_result}
use bluetti_mqtt_node.App.Runner.Counts.{Counted, execute-Counted, pause-telemetry}

-- How many commands of a set are sent: all of them, or those up to the one that ends the set.
abbrev pub Sent : CommandResult → ℕ → ℕ → Type 0
Sent success n k = k ≡ n
Sent expected_error n k = k ≡ n
Sent busy n k = k ≤ n
Sent connection_error n k = k ≤ n

abbrev pub lets_go_on : Result CommandResult → Bool
lets_go_on (throws e) = false
lets_go_on (ok busy) = false
lets_go_on (ok connection_error) = false
lets_go_on (ok expected_error) = true
lets_go_on (ok success) = true

-- How the commands that were sent ended: the last one alone may end the set, with its result.
abbrev pub Ended : CommandResult → List (Result CommandResult) → Type 0
Ended success results = All (λ r. lets_go_on r ≡ true) results
Ended expected_error results = All (λ r. lets_go_on r ≡ true) results
Ended result results =
    (before : List (Result CommandResult)) × (results ≡ before ++ ok result ∷ [])
    × All (λ r. lets_go_on r ≡ true) before

-- What n commands in a row add that end with a result, from a flag that says whether an expected
-- error came before them.
abbrev pub Tally : Bool → CommandResult → ℕ → DeviceTelemetry → DeviceTelemetry → Type 0
Tally saw success n before after =
    (saw ≡ false)
    × (after.successful_command_count ≡ before.successful_command_count + n)
    × (after.expected_error_count ≡ before.expected_error_count)
Tally saw expected_error n before after =
    (after.successful_command_count + after.expected_error_count
      ≡ before.successful_command_count + before.expected_error_count + n)
    × (before.expected_error_count < after.expected_error_count + (if saw then 1 else 0))
Tally saw busy n before after =
    suc (after.successful_command_count + after.expected_error_count)
    ≡ before.successful_command_count + before.expected_error_count + n
Tally saw connection_error n before after =
    (after.successful_command_count + after.expected_error_count
      ≡ before.successful_command_count + before.expected_error_count + n)
    × (before.expected_error_count < after.expected_error_count)

Tally-next :
    (saw : Bool) (result : CommandResult) (n : ℕ) (before middle after : DeviceTelemetry)
    → Counted (ok success) before middle
    → Tally saw result n middle after
    → Tally saw result (suc n) before after
Tally-next saw success n before middle after (p, q) (a, b, c) = (a, omega arith, omega arith)
Tally-next saw expected_error n before middle after (p, q) (a, b) = (omega arith, omega arith)
Tally-next saw busy n before middle after (p, q) a = omega arith
Tally-next saw connection_error n before middle after (p, q) (a, b) = (omega arith, omega arith)

Tally-error :
    (saw : Bool) (result : CommandResult) (n : ℕ) (before middle after : DeviceTelemetry)
    → Counted (ok expected_error) before middle
    → Tally true result n middle after
    → Tally saw result (suc n) before after
Tally-error saw success n before middle after (p, q) (a, b, c) = cc
Tally-error true expected_error n before middle after (p, q) (a, b) = (omega arith, omega arith)
Tally-error false expected_error n before middle after (p, q) (a, b) = (omega arith, omega arith)
Tally-error saw busy n before middle after (p, q) a = omega arith
Tally-error saw connection_error n before middle after (p, q) (a, b) = (omega arith, omega arith)

Sent-next : (result : CommandResult) (n k : ℕ) → Sent result n k → Sent result (suc n) (suc k)
Sent-next success n k h = ap suc h
Sent-next expected_error n k h = ap suc h
Sent-next busy n k h = omega arith
Sent-next connection_error n k h = omega arith

Ended-next :
    (result : CommandResult) (r : Result CommandResult) (results : List (Result CommandResult))
    → lets_go_on r ≡ true
    → Ended result results
    → Ended result (r ∷ results)
Ended-next success r results h ended = (h, ended)
Ended-next expected_error r results h ended = (h, ended)
Ended-next busy r results h (before, split, all) = (r ∷ before, ap (◌∷◌ r) split, (h, all))
Ended-next connection_error r results h (before, split, all) =
    (r ∷ before, ap (◌∷◌ r) split, (h, all))

Tally-step :
    (saw : Bool) (r : Result CommandResult) (flag : Bool) (result : CommandResult) (n : ℕ)
    (before middle after : DeviceTelemetry)
    → ((r ≡ ok success) × (flag ≡ saw)) ⊎ ((r ≡ ok expected_error) × (flag ≡ true))
    → Counted r before middle
    → Tally flag result n middle after
    → Tally saw result (suc n) before after
Tally-step saw r flag result n before middle after (inl (e, same)) c t =
    Tally-next saw result n before middle after (subst (λ x. Counted x before middle) e c)
      (subst (λ x. Tally x result n middle after) same t)
Tally-step saw r flag result n before middle after (inr (e, same)) c t =
    Tally-error saw result n before middle after (subst (λ x. Counted x before middle) e c)
      (subst (λ x. Tally x result n middle after) same t)

go_on :
    (saw : Bool) (r : Result CommandResult) (flag : Bool)
    → ((r ≡ ok success) × (flag ≡ saw)) ⊎ ((r ≡ ok expected_error) × (flag ≡ true))
    → lets_go_on r ≡ true
go_on saw r flag (inl (e, same)) = rw e
go_on saw r flag (inr (e, same)) = rw e

not_empty :
    (before : List (Result CommandResult)) (r : Result CommandResult)
    → ◌≡◌ {A = List (Result CommandResult)} [] (before ++ r ∷ [])
    → ⊥
not_empty [] r h = cc
not_empty (x ∷ before) r h = cc

pub Tally-empty :
    (saw : Bool) (telemetry : DeviceTelemetry) → Tally saw (set_result saw) 0 telemetry telemetry
Tally-empty true telemetry = (omega arith, omega arith)
Tally-empty false telemetry = (refl, omega arith, refl)

pub Sent-empty : (saw : Bool) → Sent (set_result saw) 0 0
Sent-empty true = refl
Sent-empty false = refl

pub Ended-empty : (saw : Bool) → Ended (set_result saw) []
Ended-empty true = tt
Ended-empty false = tt

module _ {W : Type 0} (env : Environment W) where
  -- The commands of a list, all of them, one after the other and with the pauses between them: the
  -- device's counters and the world after them, and their results.
  abbrev pub all_sent : BluettiDevice → ℕ → List ReadWindow → Run W → Run W
  all_sent device delay [] run = run
  all_sent device delay (window ∷ windows) run =
      all_sent device delay windows
        (pause env windows delay (execute_read_command env device window run).1)

  abbrev pub all_results : BluettiDevice → ℕ → List ReadWindow → Run W → List (Result CommandResult)
  all_results device delay [] run = []
  all_results device delay (window ∷ windows) run =
      (execute_read_command env device window run).0
      ∷ all_results device delay windows
          (pause env windows delay (execute_read_command env device window run).1)

  -- The first k commands of a set were sent, and no other; what they ended with, and what they
  -- added to the counters.
  abbrev pub Accounted :
      BluettiDevice → ℕ → List ReadWindow → Bool → CommandResult → Run W → Run W → Type 0
  Accounted device delay windows saw result run run' =
      (k : ℕ) × Sent result (length windows) k
      × (run' ≡ all_sent device delay (take k windows) run)
      × Ended result (all_results device delay (take k windows) run)
      × Tally saw result k run.telemetry run'.telemetry

  -- The pause before the rest of a set is the one before those of it that are sent.
  pause-take :
      (result : CommandResult) (device : BluettiDevice) (delay k : ℕ) (windows : List ReadWindow)
      (run middle : Run W)
      → Sent result (length windows) k
      → Ended result (all_results device delay (take k windows) run)
      → pause env (take k windows) delay middle ≡ pause env windows delay middle
  pause-take result device delay zero [] run middle sent ended = refl
  pause-take result device delay (suc k) [] run middle sent ended = refl
  pause-take result device delay (suc k) (window ∷ windows) run middle sent ended = refl
  pause-take success device delay zero (window ∷ windows) run middle sent ended = absurd (cc)
  pause-take expected_error device delay zero (window ∷ windows) run middle sent ended = absurd (cc)
  pause-take busy device delay zero (window ∷ windows) run middle sent (before, split, all) =
      absurd (not_empty before (ok busy) split)
  pause-take connection_error device delay zero (window ∷ windows) run middle sent
        (before, split, all) =
      absurd (not_empty before (ok connection_error) split)

  pub Accounted-next :
      (device : BluettiDevice) (delay : ℕ) (window : ReadWindow) (windows : List ReadWindow)
      (saw flag : Bool) (result : CommandResult) (run run' : Run W)
      → let (r, middle) = execute_read_command env device window run in
        (((r ≡ ok success) × (flag ≡ saw)) ⊎ ((r ≡ ok expected_error) × (flag ≡ true)))
        → Accounted device delay windows flag result (pause env windows delay middle) run'
        → Accounted device delay (window ∷ windows) saw result run run'
  Accounted-next device delay window windows saw flag result run run' how
        (k, sent, same, ended, tally) =
      let r = (execute_read_command env device window run).0 in
      let middle = (execute_read_command env device window run).1 in
      let next = pause env windows delay middle in
      let paused = pause-take result device delay k windows next middle sent ended in
      let counted = execute-Counted env device window run middle r refl in
      let tally' =
        subst (λ t. Tally flag result k t run'.telemetry) (pause-telemetry env windows delay middle)
          tally in
      (
        suc k,
        Sent-next result (length windows) k sent,
        same ∙ ap (all_sent device delay (take k windows)) (sym paused),
        Ended-next result r
            (all_results device delay (take k windows) (pause env (take k windows) delay middle))
            (go_on saw r flag how)
            (subst (λ x. Ended result (all_results device delay (take k windows) x)) (sym paused)
              ended),
        Tally-step saw r flag result k run.telemetry middle.telemetry run'.telemetry how counted
            tally',
      )

  -- A command that ends the set.
  pub Accounted-last :
      (device : BluettiDevice) (delay : ℕ) (window : ReadWindow) (windows : List ReadWindow)
      (saw : Bool) (result : CommandResult) (run : Run W)
      → let (r, middle) = execute_read_command env device window run in
        (r ≡ ok result)
        → lets_go_on (ok result) ≡ false
        → Accounted device delay (window ∷ windows) saw result run middle
  Accounted-last device delay window windows saw busy run e stops =
      let middle = (execute_read_command env device window run).1 in
      let (p, q) =
        execute-Counted env device window run middle (ok busy) (ap (λ r. (r, middle)) e) in
      (1, omega arith, refl, ([], ap (λ r. r ∷ []) e, tt), omega arith)
  Accounted-last device delay window windows saw connection_error run e stops =
      let middle = (execute_read_command env device window run).1 in
      let (p, q) =
        execute-Counted env device window run middle (ok connection_error)
          (ap (λ r. (r, middle)) e) in
      (1, omega arith, refl, ([], ap (λ r. r ∷ []) e, tt), (omega arith, omega arith))
  Accounted-last device delay window windows saw success run e stops = absurd (cc)
  Accounted-last device delay window windows saw expected_error run e stops = absurd (cc)
