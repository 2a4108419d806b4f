-- ===== src/Session/Exchange.antt =====
-- One request and its response in src/bluetooth/device-session.ts, however the response is cut
-- into notifications.
pub mod Steps
use bluetti_mqtt_node.Session.Exchange.Steps.{
  feed, joined, NoControl, Waiting, Done, outcome_of-settle, is_armed-disarm, at_is-append,
  at_is_unique, no_exception_in_valid, idle_eq, plain_eq, valid_size, buffer_short, buffer_complete,
  buffer_exception,
}
use bluetti_mqtt_node.Common.{
  ℕ, zero, suc, ◌+◌, ◌≤◌, ◌<◌, ◌≡◌, refl, sym, ap, ◌∙◌, true, false, List, [], ◌∷◌, ◌++◌,
  append-nil, append_assoc, length, length-append, ltb, ◌==◌, if◌then◌else◌, Option, none, some,
  arith, All, subst, dec_lt, empty_of_length, ==_iff,
}
use bluetti_mqtt_node.Errors.{Error, modbus_error, device_busy_error, ok}
use bluetti_mqtt_node.Crc.{append_modbus_crc, at_is}
use bluetti_mqtt_node.Commands.{
  DeviceCommand, response_size, is_exception_response, is_valid_response,
}
use bluetti_mqtt_node.Commands.Responses.{is_exception_response_iff}
use bluetti_mqtt_node.Session.{
  Session, ready, Outcome, resolved, rejected, outcome_of, disarm, handle_notification,
  start_perform, handle_pending, handle_buffer, resolve_pending, reject_pending,
  is_ascii_control_message, build_modbus_exception, is_armed,
}

idle_feed : (chunks : List (List ℕ)) (s : Session) → s.pending_response ≡ none → feed chunks s ≡ s
unfolding feed handle_notification
idle_feed [] s h = refl
idle_feed (chunk ∷ chunks) s h =
    ap (feed chunks) (idle_eq s.pending_response s.current_command chunk s h) ∙ idle_feed chunks s h

Done-feed :
    (p : ℕ) (o : Outcome) (chunks : List (List ℕ)) (s : Session)
    → Done p o s
    → Done p o (feed chunks s)
Done-feed p o chunks s d = subst (Done p o) (sym (idle_feed chunks s d.idle)) d

notified :
    (c : DeviceCommand) (p : ℕ) (buffer chunk : List ℕ) (s : Session)
    → Waiting c p buffer s
    → is_ascii_control_message chunk ≡ false
    → handle_notification chunk s ≡ handle_buffer c (buffer ++ chunk) s
unfolding handle_notification
notified c p buffer chunk s w plain =
    plain_eq s.pending_response s.current_command p c chunk s w.pending w.command plain
    ∙ ap (λ b. handle_buffer c (b ++ chunk) s) w.buffered

resolve-Done :
    (c : DeviceCommand) (p : ℕ) (buffer response : List ℕ) (s : Session)
    → Waiting c p buffer s
    → Done p (resolved response) (record (resolve_pending response s) { state = ready })
unfolding resolve_pending
resolve-Done c p buffer response s w = record {
  outcome = rw w.pending (outcome_of-settle p (resolved response) s.settled w.unsettled);
  idle = refl;
  disarmed = rw w.timer (is_armed-disarm p s.timers);
  again = refl;
}

reject-Done :
    (c : DeviceCommand) (p : ℕ) (buffer : List ℕ) (e : Error) (s : Session)
    → Waiting c p buffer s
    → Done p (rejected e) (record (reject_pending e s) { state = ready })
unfolding reject_pending
reject-Done c p buffer e s w = record {
  outcome = rw w.pending (outcome_of-settle p (rejected e) s.settled w.unsettled);
  idle = refl;
  disarmed = rw w.timer (is_armed-disarm p s.timers);
  again = refl;
}

accumulate :
    (c : DeviceCommand) (p : ℕ) (buffer chunk : List ℕ) (s : Session)
    → Waiting c p buffer s
    → is_ascii_control_message chunk ≡ false
    → is_exception_response c (buffer ++ chunk) ≡ false
    → length (buffer ++ chunk) < response_size c
    → Waiting c p (buffer ++ chunk) (handle_notification chunk s)
accumulate c p buffer chunk s w plain fine short =
    subst (Waiting c p (buffer ++ chunk))
      (sym (notified c p buffer chunk s w plain ∙ buffer_short c (buffer ++ chunk) s fine short))
      (record {
        pending = w.pending;
        command = w.command;
        timer = w.timer;
        buffered = refl;
        unsettled = w.unsettled;
      })

-- A full response `r`: `frame` says what it is, `o` what the call gets.
module _ (c : DeviceCommand) (p : ℕ) (r : List ℕ) (o : Outcome) (size : length r ≤ response_size c)
    (early : (xs ys : List ℕ)
      → xs ++ ys ≡ r
      → length xs < length r
      → is_exception_response c xs ≡ false)
    (final : (buffer : List ℕ) (s : Session)
      → Waiting c p buffer s
      → Done p o (handle_buffer c r s)) where
  fed :
      (chunks : List (List ℕ)) (buffer : List ℕ) (s : Session)
      → Waiting c p buffer s
      → NoControl chunks
      → buffer ++ joined chunks ≡ r
      → length buffer < length r
      → Done p o (feed chunks s)
  unfolding feed
  fed [] buffer s w plain e short = absurd (omega (arith, ap length e, length-append buffer []))
  fed (chunk ∷ chunks) buffer s w (plain, more) e short =
      let e' : (buffer ++ chunk) ++ joined chunks ≡ r =
        append_assoc buffer chunk (joined chunks) ∙ e in
      let total = length-append (buffer ++ chunk) (joined chunks) in
      elim (dec_lt (length (buffer ++ chunk)) (length r)) [
        | yes part ↦
            fed chunks (buffer ++ chunk) (handle_notification chunk s)
              (accumulate c p buffer chunk s w plain
                (early (buffer ++ chunk) (joined chunks) e' part) (omega arith))
              more e' part
        | no full ↦
            let nothing : joined chunks ≡ [] =
              empty_of_length (joined chunks) (omega (arith, total, ap length e')) in
            let whole : buffer ++ chunk ≡ r =
              sym (append-nil (buffer ++ chunk)) ∙ ap (◌++◌ (buffer ++ chunk)) (sym nothing) ∙ e' in
            Done-feed p o chunks (handle_notification chunk s) (
              subst (Done p o)
                (sym (notified c p buffer chunk s w plain ∙ ap (λ b. handle_buffer c b s) whole))
                (final buffer s w))
      ]

nonempty : (c : DeviceCommand) (r : List ℕ) → is_valid_response c r ≡ true → 0 < length r
unfolding is_valid_response
nonempty c [] h = absurd (ground arith)
nonempty c (x ∷ r) h = omega arith

not_five : (c : DeviceCommand) (xs : List ℕ) → length xs < 5 → is_exception_response c xs ≡ false
unfolding is_exception_response
not_five c xs h = ground arith

-- A command accepted by a session whose promises are numbered by its calls.
start-Waiting :
    (c : DeviceCommand) (s s' : Session)
    → outcome_of s.calls s.settled ≡ none
    → start_perform c s ≡ ok s'
    → Waiting c s.calls [] s'
unfolding start_perform
start-Waiting c s s' fresh h = ground arith

-- However a valid response is cut into notifications, the call that waits for it gets it whole,
-- its timer is off, and the session is ready for the next command.
pub response_is_reassembled :
    (c : DeviceCommand) (s s' : Session) (chunks : List (List ℕ))
    → outcome_of s.calls s.settled ≡ none
    → start_perform c s ≡ ok s'
    → NoControl chunks
    → is_valid_response c (joined chunks) ≡ true
    → Done s.calls (resolved (joined chunks)) (feed chunks s')
response_is_reassembled c s s' chunks fresh h plain valid =
    fed c s.calls (joined chunks) (resolved (joined chunks))
      (omega (
        arith,
        (==_iff (length (joined chunks)) (response_size c)).0 (valid_size c (joined chunks) valid),
      ))
      (λ xs ys e short. no_exception_in_valid c xs ys (rw e valid))
      (λ buffer t w.
        subst (Done s.calls (resolved (joined chunks)))
          (sym (buffer_complete c (joined chunks) t whole_fine valid))
          (resolve-Done c s.calls buffer (joined chunks) t w))
      chunks [] s' (start-Waiting c s s' fresh h) plain refl (nonempty c (joined chunks) valid)
  where
    whole_fine : is_exception_response c (joined chunks) ≡ false
    whole_fine = no_exception_in_valid c (joined chunks) [] (rw append-nil valid)

-- However an exception frame is cut into notifications, the call is rejected with the error of its
-- code, "busy" for code 5, and the session is ready for the next command.
pub exception_is_reported :
    (c : DeviceCommand) (s s' : Session) (code : ℕ) (chunks : List (List ℕ))
    → outcome_of s.calls s.settled ≡ none
    → start_perform c s ≡ ok s'
    → 5 ≤ response_size c
    → NoControl chunks
    → joined chunks ≡ append_modbus_crc (1 ∷ (c.function_code + 0x80) ∷ code ∷ [])
    → Done s.calls
        (rejected (if code == 5 then device_busy_error code else modbus_error (some code)))
        (feed chunks s')
unfolding build_modbus_exception append_modbus_crc
exception_is_reported c s s' code chunks fresh h size plain e =
    fed c s.calls frame (rejected exception) size (λ xs ys _ short. not_five c xs short)
      (λ buffer t w.
        subst (Done s.calls (rejected exception))
          (sym (buffer_exception c frame t ((is_exception_response_iff c frame).1 (code, refl))))
          (reject-Done c s.calls buffer exception t w))
      chunks [] s' (start-Waiting c s s' fresh h) plain e (omega arith)
  where
    frame : List ℕ
    frame = append_modbus_crc (1 ∷ (c.function_code + 0x80) ∷ code ∷ [])

    exception : Error
    exception = if code == 5 then device_busy_error code else modbus_error (some code)
