-- ===== src/Session/Tests.antt =====
-- Tests of src/bluetooth/device-session.ts, and its theorems at concrete exchanges.
use bluetti_mqtt_node.Common.{
  ℕ, zero, ◌≡◌, refl, List, [], ◌∷◌, none, some, arith, if◌then◌else◌, ◌==◌,
}
use bluetti_mqtt_node.Errors.{
  error, bad_connection_error, command_timeout_error, modbus_error, device_busy_error, throws,
}
use bluetti_mqtt_node.Crc.{has_valid_modbus_crc, modbus_crc, append_modbus_crc}
use bluetti_mqtt_node.Commands.{DeviceCommand, device_command, is_valid_response, response_size}
use bluetti_mqtt_node.Commands.Frames.{read_command}
use bluetti_mqtt_node.Session.{
  Session, ready, command_error_wait, resolved, rejected, outcome_of, new_session,
  is_ascii_control_message, start_perform, in_flight, start_disconnect, finish_disconnect,
  subscribed,
}
use bluetti_mqtt_node.Session.Exchange.Steps.{feed, joined, Done}
use bluetti_mqtt_node.Session.Exchange.{response_is_reassembled, exception_is_reported}
use bluetti_mqtt_node.Session.Invariant.{Reach-Inv}
use bluetti_mqtt_node.Session.Invariant.Defs.{Inv, idle, Reach, here, next, starts, subscribes}
use bluetti_mqtt_node.Session.Recovery.{
  notify, fire, handle_event, handle_events, Answered, event-Answered, error_wait-refuses,
  disconnect_abandons,
}
use bluetti_mqtt_node.Session.Connect.{Thrown, gives, fails, Attempt, connect_and_initialize, codes}
use bluetti_mqtt_node.Session.Connect.Laws.{Ends, connect-Ends, Left, connect-Left}

abbrev command : DeviceCommand
command = read_command 10 1

abbrev ready_session : Session
ready_session = record {
  state = ready;
  name = none;
  current_command = none;
  response_buffer = [];
  pending_response = none;
  pending_timeout = none;
  timers = [];
  settled = [];
  calls = 0;
}

-- The register holds 7.
abbrev response_chunks : List (List ℕ)
response_chunks = (1 ∷ 3 ∷ 2 ∷ []) ∷ (0 ∷ 7 ∷ 0xf9 ∷ []) ∷ (0x86 ∷ []) ∷ []

response_is_reassembled_example :
    Done 0
      (resolved (joined response_chunks))
      (feed response_chunks (in_flight command ready_session))
unfolding start_perform is_ascii_control_message is_valid_response has_valid_modbus_crc modbus_crc
    device_command
response_is_reassembled_example =
    response_is_reassembled command ready_session (in_flight command ready_session) response_chunks
      refl refl (refl, (refl, (refl, tt))) refl

-- An exception frame with the code for "busy".
abbrev busy_chunks : List (List ℕ)
busy_chunks = (1 ∷ 0x83 ∷ []) ∷ (5 ∷ 0x81 ∷ 0x33 ∷ []) ∷ []

exception_is_reported_example :
    Done 0
      (rejected (if 5 == 5 then device_busy_error 5 else modbus_error (some 5)))
      (feed busy_chunks (in_flight command ready_session))
unfolding start_perform is_ascii_control_message append_modbus_crc modbus_crc device_command
    response_size
exception_is_reported_example =
    exception_is_reported command ready_session (in_flight command ready_session) 5 busy_chunks refl
      refl (omega arith) (refl, (refl, tt)) refl

-- A session that is subscribed, performs a command, and has its first chunk.
performing : Reach (some 0) (in_flight command (subscribed new_session))
unfolding subscribed new_session start_perform
performing = next (next here subscribes) (starts command refl refl)

Reach-Inv_example : Inv (some 0) (in_flight command (subscribed new_session))
Reach-Inv_example = Reach-Inv performing

event-Answered_example :
    Answered command 0
      (handle_event (notify (1 ∷ 3 ∷ [])) (in_flight command (subscribed new_session)))
unfolding new_session subscribed
event-Answered_example =
    event-Answered (notify (1 ∷ 3 ∷ [])) command 0 (some 0)
      (in_flight command (subscribed new_session)) (Reach-Inv performing) refl refl

-- The session after a timeout.
abbrev waiting_session : Session
waiting_session = record {
  state = command_error_wait;
  name = none;
  current_command = none;
  response_buffer = [];
  pending_response = none;
  pending_timeout = none;
  timers = [];
  settled = (0, rejected command_timeout_error) ∷ [];
  calls = 1;
}

waiting-Inv : Inv none waiting_session
waiting-Inv = record {
  shape = idle refl refl refl refl refl (λ e. cc);
  once = (refl, tt);
  below = (omega arith, tt);
}

error_wait-refuses_example :
    start_perform command (handle_events (notify (1 ∷ 3 ∷ []) ∷ fire 0 ∷ []) waiting_session)
    ≡ throws bad_connection_error
error_wait-refuses_example =
    error_wait-refuses waiting_session (notify (1 ∷ 3 ∷ []) ∷ fire 0 ∷ []) command waiting-Inv refl

abbrev left_session : Session
left_session = finish_disconnect (start_disconnect (in_flight command (subscribed new_session)))

disconnect_abandons_example : outcome_of 0 (handle_events (fire 0 ∷ []) left_session).settled ≡ none
unfolding new_session subscribed
disconnect_abandons_example =
    disconnect_abandons (in_flight command (subscribed new_session)) (fire 0 ∷ []) 0 (some 0)
      (Reach-Inv performing) refl

abbrev unreachable : Thrown
unreachable = record { error = error; message = codes "GATT UNREACHABLE" }

-- The first attempt fails in a way that is retried, the second succeeds.
abbrev second_time : ℕ → Attempt
second_time zero = record {
  connect = fails unreachable;
  read_name = gives [];
  subscribe = gives tt;
}
second_time _ = record { connect = gives tt; read_name = gives (b'A' ∷ []); subscribe = gives tt }

connect-Ends_example :
    (k : ℕ) × Ends 0 k second_time (connect_and_initialize unreachable second_time new_session)
connect-Ends_example = connect-Ends unreachable second_time new_session

connect-Left_example : Left second_time (connect_and_initialize unreachable second_time new_session)
connect-Left_example = connect-Left unreachable second_time new_session
