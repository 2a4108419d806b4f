-- ===== src/Session/Branches.antt =====
-- The branches of `handleNotification` and `perform` of src/bluetooth/device-session.ts, as rules.
use bluetti_mqtt_node.Common.{
  ℕ, ◌<◌, ◌≡◌, refl, true, List, ◌++◌, length, ltb, ◌==◌, Option, none, some, arith, Bool-cases,
  inl, inr,
}
use bluetti_mqtt_node.Errors.{bad_connection_error, parse_error, ok, ok_injective}
use bluetti_mqtt_node.Commands.{
  DeviceCommand, response_size, is_exception_response, is_valid_response,
}
use bluetti_mqtt_node.Session.{
  Session, ready, command_error_wait, disconnecting, is_ready, is_ready_state, resolve_pending,
  reject_pending, build_modbus_exception, is_ascii_control_message, handle_buffer, handle_pending,
  handle_notification, start_perform, in_flight,
}

handle_buffer_cases {ℓ} :
    (P : Session → Type ℓ) (c : DeviceCommand) (buffer : List ℕ) (s : Session)
    → (is_exception_response c buffer ≡ true
        → P (record (reject_pending (build_modbus_exception buffer) s) { state = ready }))
    → (is_valid_response c buffer ≡ true → P (record (resolve_pending buffer s) { state = ready }))
    → P (record (reject_pending parse_error s) { state = command_error_wait })
    → (length buffer < response_size c → P (record s { response_buffer = buffer }))
    → P (handle_buffer c buffer s)
unfolding handle_buffer
handle_buffer_cases P c buffer s exception valid wrong short =
    elim (Bool-cases (is_exception_response c buffer)) [
      | inl x ↦ rw x (exception x)
      | inr x ↦ elim (Bool-cases (length buffer == response_size c)) [
        | inl full ↦ elim (Bool-cases (is_valid_response c buffer)) [
          | inl y ↦ rw (x, full, y) (valid y)
          | inr n ↦ rw (x, full, n) wrong
        ]
        | inr part ↦ elim (Bool-cases (ltb (response_size c) (length buffer))) [
          | inl over ↦ rw (x, part, over) wrong
          | inr under ↦ rw (x, part, under) (short (ground arith))
        ]
      ]
    ]

-- A notification is ignored, ends the connection, or goes on to the buffer.
handle_pending_cases {ℓ} :
    (P : Session → Type ℓ) (o : Option ℕ) (k : Option DeviceCommand) (chunk : List ℕ) (s : Session)
    → P s
    → P (record (reject_pending bad_connection_error s) { state = disconnecting })
    → ((p : ℕ) (c : DeviceCommand)
        → o ≡ some p
        → k ≡ some c
        → P (handle_buffer c (s.response_buffer ++ chunk) s))
    → P (handle_pending o k chunk s)
handle_pending_cases P none k chunk s ignored control buffered = ignored
handle_pending_cases P (some p) none chunk s ignored control buffered = ignored
handle_pending_cases P (some p) (some c) chunk s ignored control buffered =
    elim (Bool-cases (is_ascii_control_message chunk)) [
      | inl at ↦ rw at control
      | inr plain ↦ rw plain (buffered p c refl refl)
    ]

-- The two together.
pub handle_notification_cases {ℓ} :
    (P : Session → Type ℓ) (chunk : List ℕ) (s : Session)
    → P s
    → P (record (reject_pending bad_connection_error s) { state = disconnecting })
    → ((c : DeviceCommand)
        → s.current_command ≡ some c
        → is_exception_response c (s.response_buffer ++ chunk) ≡ true
        → P (record (reject_pending (build_modbus_exception (s.response_buffer ++ chunk)) s) {
          state = ready;
        }))
    → ((c : DeviceCommand)
        → s.current_command ≡ some c
        → is_valid_response c (s.response_buffer ++ chunk) ≡ true
        → P (record (resolve_pending (s.response_buffer ++ chunk) s) { state = ready }))
    → P (record (reject_pending parse_error s) { state = command_error_wait })
    → ((c : DeviceCommand)
        → s.current_command ≡ some c
        → length (s.response_buffer ++ chunk) < response_size c
        → P (record s { response_buffer = s.response_buffer ++ chunk }))
    → P (handle_notification chunk s)
unfolding handle_notification
handle_notification_cases P chunk s ignored control exception valid wrong short =
    handle_pending_cases P s.pending_response s.current_command chunk s ignored control λ p c _ k.
      handle_buffer_cases P c (s.response_buffer ++ chunk) s (exception c k) (valid c k) wrong
        (short c k)

-- `perform` goes on exactly if the session is ready.
pub start_perform_inversion :
    (c : DeviceCommand) (s s' : Session)
    → start_perform c s ≡ ok s'
    → (is_ready s ≡ true) × (in_flight c s ≡ s')
unfolding start_perform
start_perform_inversion c s s' e = elim (Bool-cases (is_ready_state s.state)) [
  | inl r ↦ (r, ok_injective (rw r at e))
  | inr n ↦ absurd (ground arith)
]
