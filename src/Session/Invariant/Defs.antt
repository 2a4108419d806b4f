-- ===== src/Session/Invariant/Defs.antt =====
-- The invariant of src/bluetooth/device-session.ts and the events that it is kept by.
use bluetti_mqtt_node.Common.{ℕ, ◌<◌, ◌≡◌, ◌≢◌, ◌⊎◌, List, [], ◌∷◌, length, Option, none, some}
use bluetti_mqtt_node.Errors.{Error, ok}
use bluetti_mqtt_node.Commands.{DeviceCommand, response_size}
use bluetti_mqtt_node.Session.{
  Session, not_connected, performing_command, Outcome, outcome_of, new_session, handle_notification,
  start_perform, write_failed, finish_perform, timer_fires, start_disconnect, finish_disconnect,
  transport_connected, name_read, subscribed, attempt_failed,
}

-- No promise is settled twice.
abbrev pub Once : List (ℕ × Outcome) → Type 0
Once [] = Unit
Once ((p, o) ∷ xs) = (outcome_of p xs ≡ none) × Once xs

abbrev pub Below : ℕ → List (ℕ × Outcome) → Type 0
Below n [] = Unit
Below n ((p, o) ∷ xs) = (p < n) × Below n xs

-- Either no promise is pending, or the promise of the call in progress is.
pub data Shape (call : Option ℕ) (s : Session) : Type 0 where
  idle :
      s.pending_response ≡ none
      → s.current_command ≡ none
      → s.pending_timeout ≡ none
      → s.timers ≡ []
      → s.response_buffer ≡ []
      → s.state ≢ performing_command
      → Shape call s
  busy :
      (p : ℕ) (c : DeviceCommand)
      → s.pending_response ≡ some p
      → s.current_command ≡ some c
      → s.pending_timeout ≡ some p
      → s.timers ≡ p ∷ []
      → length s.response_buffer < response_size c
      → (s.state ≡ performing_command) ⊎ (s.state ≡ not_connected)
      → call ≡ some p
      → p < s.calls
      → outcome_of p s.settled ≡ none
      → Shape call s

pub record Inv (call : Option ℕ) (s : Session) : Type 0 where
  pub shape : Shape call s
  pub once : Once s.settled
  pub below : Below s.calls s.settled

pub data Step : Option ℕ → Session → Option ℕ → Session → Type 0 where
  starts :
      (c : DeviceCommand) {s s' : Session} {call : Option ℕ}
      → start_perform c s ≡ ok s'
      → call ≡ some s.calls
      → Step none s call s'
  notifies :
      (chunk : List ℕ) {call : Option ℕ} {s : Session}
      → Step call s call (handle_notification chunk s)
  fires : (t : ℕ) {call : Option ℕ} {s : Session} → Step call s call (timer_fires t s)
  refuses : (e : Error) {p : ℕ} {s : Session} → Step (some p) s none (write_failed e s)
  finishes :
      {p : ℕ} (o : Outcome) {s : Session}
      → outcome_of p s.settled ≡ some o
      → Step (some p) s none (finish_perform o s)
  starts_disconnect : {call : Option ℕ} {s : Session} → Step call s call (start_disconnect s)
  finishes_disconnect : {call : Option ℕ} {s : Session} → Step call s call (finish_disconnect s)
  connects : {s : Session} → Step none s none (transport_connected s)
  reads_name : (raw : List ℕ) {s : Session} → Step none s none (name_read raw s)
  subscribes : {s : Session} → Step none s none (subscribed s)
  fails_attempt : {s : Session} → Step none s none (attempt_failed s)

-- The sessions that events lead to from a new one.
pub data Reach : Option ℕ → Session → Type 0 where
  here : Reach none new_session
  next :
      {call call' : Option ℕ} {s s' : Session}
      → Reach call s
      → Step call s call' s'
      → Reach call' s'
