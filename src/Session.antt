-- ===== src/Session.antt =====
-- src/bluetooth/device-session.ts, with `concatBytes` and `isAsciiControlMessage` of
-- src/bluetooth/session-utils.ts. The session's fields are a record, and so is what the JavaScript
-- runtime keeps for it: the armed timers and the settled promises. A promise is the number of the
-- `perform` call that made it, and so is that call's timer. `perform` is cut at its `await`s into
-- the steps `start_perform`, `write_failed` and `finish_perform`.
pub mod Branches
pub mod Exchange
pub mod Invariant
pub mod Recovery
pub mod Connect
mod Tests
use bluetti_mqtt_node.Common.{
  ℕ, zero, suc, ◌+◌, ◌%◌, Bool, true, false, ◌&&◌, ◌||◌, not, List, [], ◌∷◌, ◌++◌, length, map, ltb,
  ◌==◌, if◌then◌else◌, Option, none, some, get_elem?,
}
use bluetti_mqtt_node.Errors.{
  Error, bad_connection_error, command_timeout_error, parse_error, modbus_error, device_busy_error,
  Result, ok, throws,
}
use bluetti_mqtt_node.Commands.{
  DeviceCommand, response_size, is_exception_response, is_valid_response,
}

pub data DeviceSessionState : Type 0 where
  not_connected connected ready performing_command command_error_wait : DeviceSessionState
  disconnecting : DeviceSessionState

-- How a promise is settled.
pub data Outcome : Type 0 where
  resolved : List ℕ → Outcome
  rejected : Error → Outcome

pub record Session : Type 0 where
  pub state : DeviceSessionState
  -- The name as character codes; `null` is `none`.
  pub name : Option (List ℕ)
  pub current_command : Option DeviceCommand
  pub response_buffer : List ℕ
  -- The promise whose `resolve` and `reject` the field holds.
  pub pending_response : Option ℕ
  -- The timer whose handle the field holds.
  pub pending_timeout : Option ℕ
  -- The runtime: armed timers, settled promises in the order of settling, calls made.
  pub timers : List ℕ
  pub settled : List (ℕ × Outcome)
  pub calls : ℕ

unfoldable pub new_session : Session
new_session = record {
  state = not_connected;
  name = none;
  current_command = none;
  response_buffer = [];
  pending_response = none;
  pending_timeout = none;
  timers = [];
  settled = [];
  calls = 0;
}

abbrev pub is_ready_state : DeviceSessionState → Bool
is_ready_state ready = true
is_ready_state performing_command = true
is_ready_state _ = false

unfoldable pub is_ready : Session → Bool
is_ready s = is_ready_state s.state

-- `clearTimeout`.
abbrev pub disarm : ℕ → List ℕ → List ℕ
disarm t [] = []
disarm t (u ∷ timers) = if u == t then disarm t timers else u ∷ disarm t timers

abbrev pub disarm_pending : Option ℕ → List ℕ → List ℕ
disarm_pending none timers = timers
disarm_pending (some t) timers = disarm t timers

-- A promise keeps its first settlement.
abbrev pub settle : Option ℕ → Outcome → List (ℕ × Outcome) → List (ℕ × Outcome)
settle none outcome settled = settled
settle (some p) outcome settled = settled ++ (p, outcome) ∷ []

abbrev pub outcome_of : ℕ → List (ℕ × Outcome) → Option Outcome
outcome_of p [] = none
outcome_of p ((q, outcome) ∷ settled) = if q == p then some outcome else outcome_of p settled

unfoldable pub clear_pending_state : Session → Session
clear_pending_state s = record s {
  timers = disarm_pending s.pending_timeout s.timers;
  pending_timeout = none;
  pending_response = none;
  current_command = none;
  response_buffer = [];
}

unfoldable pub resolve_pending : List ℕ → Session → Session
unfolding clear_pending_state
resolve_pending response s =
    clear_pending_state
      (record s { settled = settle s.pending_response (resolved response) s.settled })

unfoldable pub reject_pending : Error → Session → Session
unfolding clear_pending_state
reject_pending e s =
    clear_pending_state (record s { settled = settle s.pending_response (rejected e) s.settled })

-- `Buffer.toString("ascii")` drops the highest bit of every byte.
abbrev pub to_ascii : List ℕ → List ℕ
to_ascii = map (λ b. b % 128)

abbrev pub bytes_eq : List ℕ → List ℕ → Bool
bytes_eq [] [] = true
bytes_eq [] (b ∷ bs) = false
bytes_eq (a ∷ as') [] = false
bytes_eq (a ∷ as') (b ∷ bs) = (a == b) && bytes_eq as' bs

-- "AT+NAME?\r" and "AT+ADV?\r".
abbrev pub at_control_name_message : List ℕ
at_control_name_message = b'A' ∷ b'T' ∷ b'+' ∷ b'N' ∷ b'A' ∷ b'M' ∷ b'E' ∷ b'?' ∷ 13 ∷ []

abbrev pub at_control_adv_message : List ℕ
at_control_adv_message = b'A' ∷ b'T' ∷ b'+' ∷ b'A' ∷ b'D' ∷ b'V' ∷ b'?' ∷ 13 ∷ []

unfoldable pub is_ascii_control_message : List ℕ → Bool
is_ascii_control_message bytes =
    bytes_eq (to_ascii bytes) at_control_name_message
    || bytes_eq (to_ascii bytes) at_control_adv_message

-- `response[2] ?? UNKNOWN_ERROR_CODE`.
abbrev pub modbus_exception_of : Option ℕ → Error
modbus_exception_of none = modbus_error none
modbus_exception_of (some code) =
    if code == 5 then device_busy_error code else modbus_error (some code)

unfoldable pub build_modbus_exception : List ℕ → Error
build_modbus_exception response = modbus_exception_of (get_elem? response 2)

-- The part of `handleNotification` after the guards: `buffer` has the chunk appended.
unfoldable pub handle_buffer : DeviceCommand → List ℕ → Session → Session
unfolding reject_pending resolve_pending build_modbus_exception response_size
handle_buffer c buffer s =
    if is_exception_response c buffer
    then record (reject_pending (build_modbus_exception buffer) s) { state = ready }
    else if length buffer == response_size c
    then if is_valid_response c buffer
      then record (resolve_pending buffer s) { state = ready }
      else record (reject_pending parse_error s) { state = command_error_wait }
    else if ltb (response_size c) (length buffer)
    then record (reject_pending parse_error s) { state = command_error_wait }
    else record s { response_buffer = buffer }

abbrev pub handle_pending : Option ℕ → Option DeviceCommand → List ℕ → Session → Session
handle_pending none command chunk s = s
handle_pending (some p) none chunk s = s
handle_pending (some p) (some c) chunk s =
    if is_ascii_control_message chunk
    then record (reject_pending bad_connection_error s) { state = disconnecting }
    else handle_buffer c (s.response_buffer ++ chunk) s

unfoldable pub handle_notification : List ℕ → Session → Session
unfolding handle_buffer
handle_notification chunk s = handle_pending s.pending_response s.current_command chunk s

-- `perform` up to the call of `writeCharacteristic`. The new promise is the number `s.calls`.
abbrev pub in_flight : DeviceCommand → Session → Session
in_flight c s = record s {
  state = performing_command;
  current_command = some c;
  response_buffer = [];
  pending_response = some s.calls;
  pending_timeout = some s.calls;
  timers = s.calls ∷ s.timers;
  calls = suc s.calls;
}

unfoldable pub start_perform : DeviceCommand → Session → Result Session
unfolding is_ready
start_perform c s = if not (is_ready s) then throws bad_connection_error else ok (in_flight c s)

-- The write is refused: `perform` throws the transport's error.
unfoldable pub write_failed : Error → Session → Session
unfolding clear_pending_state
write_failed e s =
    clear_pending_state (record s {
      state = disconnecting;
      settled = settle s.pending_response (rejected e) s.settled;
    })

-- `perform` after `await responsePromise`: the state at a resolved promise, then `finally`.
abbrev pub state_at_finish : Outcome → DeviceSessionState → DeviceSessionState
state_at_finish (resolved response) state = ready
state_at_finish (rejected e) state = state

unfoldable pub finish_perform : Outcome → Session → Session
unfolding clear_pending_state
finish_perform outcome s =
    clear_pending_state (record s { state = state_at_finish outcome s.state })

-- A timer fires once, if it is armed.
abbrev pub is_armed : ℕ → List ℕ → Bool
is_armed t [] = false
is_armed t (u ∷ timers) = u == t || is_armed t timers

unfoldable pub timer_fires : ℕ → Session → Session
unfolding reject_pending
timer_fires t s =
    if is_armed t s.timers
    then reject_pending command_timeout_error
        (record s { timers = disarm t s.timers; state = command_error_wait })
    else s

-- `disconnect` up to the call of the transport, and its `finally` block.
unfoldable pub start_disconnect : Session → Session
unfolding clear_pending_state
start_disconnect s = record (clear_pending_state s) { state = disconnecting }

unfoldable pub finish_disconnect : Session → Session
finish_disconnect s = record s { name = none; state = not_connected }

-- The steps of one attempt of `connectAndInitialize`, and its `catch` block.
unfoldable pub transport_connected : Session → Session
transport_connected s = record s { state = connected }

unfoldable pub name_read : List ℕ → Session → Session
name_read raw s = record s { name = some (to_ascii raw) }

unfoldable pub subscribed : Session → Session
subscribed s = record s { state = ready }

unfoldable pub attempt_failed : Session → Session
unfolding clear_pending_state
attempt_failed s = record (clear_pending_state s) { state = not_connected; name = none }
