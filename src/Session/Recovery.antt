-- ===== src/Session/Recovery.antt =====
-- When src/bluetooth/device-session.ts takes the next command, and what `disconnect` leaves behind.
use bluetti_mqtt_node.Common.{
  ℕ, ◌≡◌, ◌⊎◌, refl, sym, ap, ◌∙◌, subst, Bool, true, false, List, [], ◌∷◌, ◌++◌, get_elem?,
  if◌then◌else◌, Option, none, some, arith, Bool-cases, inl, inr,
}
use bluetti_mqtt_node.Errors.{
  bad_connection_error, command_timeout_error, parse_error, modbus_error, device_busy_error, throws,
}
use bluetti_mqtt_node.Commands.{DeviceCommand, is_valid_response}
use bluetti_mqtt_node.Session.{
  Session, command_error_wait, Outcome, resolved, rejected, settle, outcome_of, disarm, is_armed,
  is_ready_state, resolve_pending, reject_pending, build_modbus_exception, modbus_exception_of,
  handle_notification, start_perform, timer_fires, start_disconnect, finish_disconnect,
}
use bluetti_mqtt_node.Session.Branches.{handle_notification_cases}
use bluetti_mqtt_node.Session.Exchange.Steps.{outcome_of-settle, idle_eq}
use bluetti_mqtt_node.Session.Invariant.Defs.{Shape, idle, busy, Inv}
use bluetti_mqtt_node.Session.Invariant.Closing.{Shape-timers}

-- What the device and the clock can do to a session.
pub data Event : Type 0 where
  notify : List ℕ → Event
  fire : ℕ → Event

pub handle_event : Event → Session → Session
handle_event (notify chunk) s = handle_notification chunk s
handle_event (fire t) s = timer_fires t s

pub handle_events : List Event → Session → Session
handle_events [] s = s
handle_events (e ∷ es) s = handle_events es (handle_event e s)

-- Which outcomes leave the session ready for another command: a response and the exceptions that
-- the device reports.
abbrev pub keeps_session : Outcome → Bool
keeps_session (resolved response) = true
keeps_session (rejected (modbus_error code)) = true
keeps_session (rejected (device_busy_error code)) = true
keeps_session (rejected _) = false

-- The call is still waiting, or it has an outcome that says whether the session is ready.
abbrev pub Answered : DeviceCommand → ℕ → Session → Type 0
Answered c p s =
    (s.pending_response ≡ some p)
    ⊎ ((o : Outcome) × (outcome_of p s.settled ≡ some o)
        × (is_ready_state s.state ≡ keeps_session o)
        × ((r : List ℕ) → o ≡ resolved r → is_valid_response c r ≡ true))

keeps_exception : (code : Option ℕ) → keeps_session (rejected (modbus_exception_of code)) ≡ true
keeps_exception none = refl
keeps_exception (some code) = ground arith

not_exception_response :
    (code : Option ℕ) (r : List ℕ) → rejected (modbus_exception_of code) ≡ resolved r → ⊥
not_exception_response code r e = cc

settled-pending :
    (q : Option ℕ) (p : ℕ) (o : Outcome) (xs : List (ℕ × Outcome))
    → q ≡ some p
    → outcome_of p xs ≡ none
    → outcome_of p (settle q o xs) ≡ some o
settled-pending none p o xs e new = cc
settled-pending (some q) p o xs e new =
    let same : q ≡ p = cc in rw same (outcome_of-settle p o xs new)

notify-Answered :
    (c : DeviceCommand) (p : ℕ) (chunk : List ℕ) (s : Session)
    → s.pending_response ≡ some p
    → s.current_command ≡ some c
    → outcome_of p s.settled ≡ none
    → Answered c p (handle_notification chunk s)
unfolding resolve_pending reject_pending build_modbus_exception
notify-Answered c p chunk s a b new =
    handle_notification_cases (Answered c p) chunk s (inl a)
      (inr (rejected bad_connection_error, done (rejected bad_connection_error), refl, λ r e. cc))
      (λ d k x. inr (
        rejected (build_modbus_exception (s.response_buffer ++ chunk)),
        done (rejected (build_modbus_exception (s.response_buffer ++ chunk))),
        sym (keeps_exception (get_elem? (s.response_buffer ++ chunk) 2)),
        λ r e. absurd (not_exception_response (get_elem? (s.response_buffer ++ chunk) 2) r e),
      ))
      (λ d k valid. inr (
        resolved (s.response_buffer ++ chunk),
        done (resolved (s.response_buffer ++ chunk)),
        refl,
        λ r e.
            let same : d ≡ c = cc in
            let whole : s.response_buffer ++ chunk ≡ r = cc in rw (← same, ← whole) valid,
      ))
      (inr (rejected parse_error, done (rejected parse_error), refl, λ r e. cc))
      (λ d k short. inl a)
  where
    done : (o : Outcome) → outcome_of p (settle s.pending_response o s.settled) ≡ some o
    done o = settled-pending s.pending_response p o s.settled a new

fire-Answered :
    (c : DeviceCommand) (p t : ℕ) (s : Session)
    → s.pending_response ≡ some p
    → outcome_of p s.settled ≡ none
    → Answered c p (timer_fires t s)
unfolding timer_fires reject_pending
fire-Answered c p t s a new = elim (Bool-cases (is_armed t s.timers)) [
  | inl on ↦ rw on (
      inr (
        rejected command_timeout_error,
        settled-pending s.pending_response p (rejected command_timeout_error) s.settled a new,
        refl,
        λ r e. cc,
      ))
  | inr off ↦ rw off (inl a)
]

-- Whatever the device sends and whenever a timer fires, a waiting call goes on waiting or gets its
-- outcome; a response that it gets is a valid one to its command, and the session is left ready
-- exactly if the outcome is a response or an exception that the device reports.
pub event-Answered :
    (e : Event) (c : DeviceCommand) (p : ℕ) (call : Option ℕ) (s : Session)
    → Inv call s
    → s.pending_response ≡ some p
    → s.current_command ≡ some c
    → Answered c p (handle_event e s)
unfolding handle_event
event-Answered e c p call s v a b = go e (new v.shape)
  where
    new : Shape call s → outcome_of p s.settled ≡ none
    new (idle a' b' t d f g) = cc
    new (busy q k a' b' t d f g h lt fresh) =
        let same : q ≡ p = cc in subst (λ x. outcome_of x s.settled ≡ none) same fresh

    go : (e' : Event) → outcome_of p s.settled ≡ none → Answered c p (handle_event e' s)
    go (notify chunk) fresh = notify-Answered c p chunk s a b fresh
    go (fire t) fresh = fire-Answered c p t s a fresh

-- Nothing happens to a session in which nothing is pending and no timer is armed.
quiet_events :
    (es : List Event) (s : Session)
    → s.pending_response ≡ none
    → s.timers ≡ []
    → handle_events es s ≡ s
unfolding handle_events handle_event handle_notification timer_fires
quiet_events [] s a d = refl
quiet_events (notify chunk ∷ es) s a d =
    ap (handle_events es) (idle_eq s.pending_response s.current_command chunk s a)
    ∙ quiet_events es s a d
quiet_events (fire t ∷ es) s a d =
    let off : is_armed t s.timers ≡ false = ap (is_armed t) d in
    ap
      (λ b. handle_events es (
        if b
        then reject_pending command_timeout_error
            (record s { timers = disarm t s.timers; state = command_error_wait })
        else s))
      off
    ∙ quiet_events es s a d

-- After a command that timed out or whose response was garbled, the session refuses every further
-- command, whatever the device sends and whenever a timer fires. (Only a new initialization ends
-- this.)
pub error_wait-refuses :
    (s : Session) (es : List Event) (c : DeviceCommand)
    → Inv none s
    → s.state ≡ command_error_wait
    → start_perform c (handle_events es s) ≡ throws bad_connection_error
unfolding start_perform
error_wait-refuses s es c v waits = go v.shape
  where
    refused : start_perform c s ≡ throws bad_connection_error
    refused = ground arith

    go : Shape none s → start_perform c (handle_events es s) ≡ throws bad_connection_error
    go (idle a b t d f g) = ap (start_perform c) (quiet_events es s a d) ∙ refused
    go (busy p k a b t d f g h lt fresh) = cc

-- `disconnect` does not settle the promise of the call in progress, and neither does anything that
-- comes after: the call never returns.
pub disconnect_abandons :
    (s : Session) (es : List Event) (p : ℕ) (call : Option ℕ)
    → Inv call s
    → s.pending_response ≡ some p
    → outcome_of p (handle_events es (finish_disconnect (start_disconnect s))).settled ≡ none
unfolding start_disconnect finish_disconnect
disconnect_abandons s es p call v a = go v.shape
  where
    gone : Session
    gone = finish_disconnect (start_disconnect s)

    go : Shape call s → outcome_of p (handle_events es gone).settled ≡ none
    go (idle a' b t d f g) = cc
    go (busy q k a' b t d f g h lt fresh) =
        let same : q ≡ p = cc in
        let off = Shape-timers call s v.shape in
        ap (λ x. outcome_of p x.settled) (quiet_events es gone refl off)
        ∙ subst (λ x. outcome_of x s.settled ≡ none) same fresh
