-- ===== src/Session/Invariant.antt =====
-- What src/bluetooth/device-session.ts keeps true between events, where the work queue of
-- src/app/device-queue.ts lets one `perform` run at a time: a state machine over the session and
-- the number of the call in progress.
pub mod Defs
pub mod Closing
use bluetti_mqtt_node.Common.{
  ℕ, zero, suc, ◌+◌, ◌≤◌, ◌<◌, ◌≡◌, ◌≢◌, ◌⊎◌, refl, sym, ap, ◌∙◌, subst, Bool, true, false, not,
  ◌&&◌, ◌||◌, List, [], ◌∷◌, ◌++◌, length, ltb, ◌==◌, ==_iff, if◌then◌else◌, Option, none, some,
  arith, Bool-cases, inl, inr,
}
use bluetti_mqtt_node.Errors.{
  Error, bad_connection_error, command_timeout_error, parse_error, Result, ok, throws,
}
use bluetti_mqtt_node.Commands.{
  DeviceCommand, response_size_of, Kind, read_holding_registers, write_single_register,
  write_multiple_registers, response_size, is_exception_response, is_valid_response,
}
use bluetti_mqtt_node.Session.{
  Session, DeviceSessionState, not_connected, connected, ready, performing_command,
  command_error_wait, disconnecting, Outcome, resolved, rejected, settle, outcome_of, disarm,
  disarm_pending, is_armed, new_session, is_ready, is_ready_state, clear_pending_state,
  resolve_pending, reject_pending, build_modbus_exception, is_ascii_control_message, handle_buffer,
  handle_pending, handle_notification, start_perform, in_flight, write_failed, finish_perform,
  state_at_finish, timer_fires, start_disconnect, finish_disconnect, transport_connected, name_read,
  subscribed, attempt_failed,
}
use bluetti_mqtt_node.Session.Branches.{handle_notification_cases, start_perform_inversion}
use bluetti_mqtt_node.Session.Invariant.Defs.{
  Once, Below, Shape, idle, busy, Inv, Step, starts, notifies, fires, refuses, finishes,
  starts_disconnect, finishes_disconnect, connects, reads_name, subscribes, fails_attempt, Reach,
  here, next,
}
use bluetti_mqtt_node.Session.Invariant.Closing.{
  Below-suc, Below-fresh, closed, timers_off, closed-Inv, settled_lem, ended-Inv,
}

response_size_pos : (c : DeviceCommand) → 0 < response_size c
unfolding response_size
response_size_pos c = go c.kind
  where
    go : (k : Kind) → 0 < response_size_of k
    go (read_holding_registers a q) = omega arith
    go (write_single_register a v) = omega arith
    go (write_multiple_registers a xs) = omega arith

starts-Inv :
    (c : DeviceCommand) (s : Session) (call : Option ℕ)
    → call ≡ some s.calls
    → Inv none s
    → Inv call (in_flight c s)
starts-Inv c s call now v = go v.shape
  where
    started : s.timers ≡ [] → Inv call (in_flight c s)
    started quiet = record {
      shape =
          busy s.calls c refl refl refl (ap (◌∷◌ s.calls) quiet) (response_size_pos c) (inl refl)
            now (omega arith) (Below-fresh s.calls s.settled v.below);
      once = v.once;
      below = Below-suc s.calls s.settled v.below;
    }

    go : Shape none s → Inv call (in_flight c s)
    go (idle a b k d f g) = started d
    go (busy p k a b t d f g h lt new) = cc

-- A chunk that completes nothing leaves the command where it was.
buffered-Inv :
    (c : DeviceCommand) (buffer : List ℕ) (call : Option ℕ) (s : Session)
    → s.current_command ≡ some c
    → length buffer < response_size c
    → Inv call s
    → Inv call (record s { response_buffer = buffer })
buffered-Inv c buffer call s b short v = record {
  shape = go v.shape;
  once = v.once;
  below = v.below;
}
  where
    go : Shape call s → Shape call (record s { response_buffer = buffer })
    go (idle a b' t d f g) = cc
    go (busy p k a b' t d f g h lt new) = let same : k ≡ c = cc in busy p c a b t d short g h lt new

notifies-Inv :
    (chunk : List ℕ) (call : Option ℕ) (s : Session)
    → Inv call s
    → Inv call (handle_notification chunk s)
unfolding resolve_pending reject_pending
notifies-Inv chunk call s v =
    handle_notification_cases (Inv call) chunk s v
      (ended-Inv (rejected bad_connection_error) disconnecting call call s (λ q. cc) v)
      (λ c _ _.
        ended-Inv (rejected (build_modbus_exception (s.response_buffer ++ chunk))) ready call call s
          (λ q. cc) v)
      (λ c _ _. ended-Inv (resolved (s.response_buffer ++ chunk)) ready call call s (λ q. cc) v)
      (ended-Inv (rejected parse_error) command_error_wait call call s (λ q. cc) v)
      (λ c k short. buffered-Inv c (s.response_buffer ++ chunk) call s k short v)

disarmed_twice :
    (o : Option ℕ) (p t : ℕ) (timers : List ℕ)
    → disarm_pending o timers ≡ []
    → timers ≡ p ∷ []
    → disarm_pending o (disarm t timers) ≡ []
disarmed_twice none p t timers e h = cc
disarmed_twice (some q) p t timers e h = rw h (ground arith)

fires-Inv : (t : ℕ) (call : Option ℕ) (s : Session) → Inv call s → Inv call (timer_fires t s)
unfolding timer_fires
fires-Inv t call s v = elim (Bool-cases (is_armed t s.timers)) [
  | inl on ↦ rw on (fired v.shape on)
  | inr off ↦ rw off v
]
  where
    fired :
        Shape call s
        → is_armed t s.timers ≡ true
        → Inv call (
            reject_pending command_timeout_error
              (record s { timers = disarm t s.timers; state = command_error_wait }))
    fired (idle a b c d e f) on = absurd (ground arith)
    fired (busy p k a b c d e f g lt new) on =
        let (once, below) = settled_lem (rejected command_timeout_error) call s v in
        record {
          shape =
              idle refl refl refl
                (disarmed_twice s.pending_timeout p t s.timers
                  (timers_off s.pending_timeout p s.timers c d) d)
                refl (λ q. cc);
          once = once;
          below = below;
        }

-- A resumed call finds nothing pending, so it only sets the state.
finishes-Inv :
    (p : ℕ) (o : Outcome) (s : Session)
    → outcome_of p s.settled ≡ some o
    → Inv (some p) s
    → Inv none (finish_perform o s)
unfolding finish_perform
finishes-Inv p o s e v =
    closed-Inv s.settled (state_at_finish o s.state) (some p) none s (calm v.shape o) v
      (v.once, v.below)
  where
    calm : Shape (some p) s → (o' : Outcome) → state_at_finish o' s.state ≢ performing_command
    calm (idle a b c d f g) (resolved r) = λ q. cc
    calm (idle a b c d f g) (rejected x) = g
    calm (busy p' k a b c d f g h lt new) (resolved r) = λ q. cc
    calm (busy p' k a b c d f g h lt new) (rejected x) =
        let same : p ≡ p' = cc in absurd (ground (arith, rw same at e))

-- A session that is not performing, in another state.
moved-Inv :
    (state : DeviceSessionState) (name : Option (List ℕ)) (s : Session)
    → state ≢ performing_command
    → Inv none s
    → Inv none (record s { state = state; name = name })
moved-Inv state name s calm v = record { shape = go v.shape; once = v.once; below = v.below }
  where
    go : Shape none s → Shape none (record s { state = state; name = name })
    go (idle a b c d f g) = idle a b c d f calm
    go (busy p k a b c d f g h lt new) = cc

left-Inv : (call : Option ℕ) (s : Session) → Inv call s → Inv call (finish_disconnect s)
unfolding finish_disconnect
left-Inv call s v = record { shape = go v.shape; once = v.once; below = v.below }
  where
    go : Shape call s → Shape call (finish_disconnect s)
    go (idle a b c d f g) = idle a b c d f (λ q. cc)
    go (busy p k a b c d f g h lt new) = busy p k a b c d f (inr refl) h lt new

-- Every event keeps the invariant.
pub Step-Inv :
    {call call' : Option ℕ} {s s' : Session} → Step call s call' s' → Inv call s → Inv call' s'
unfolding write_failed start_disconnect transport_connected name_read subscribed attempt_failed
Step-Inv (starts c {s} {s'} {call} e now) v =
    let (_, same) = start_perform_inversion c s s' e in
    subst (Inv call) same (starts-Inv c s call now v)
Step-Inv (notifies chunk {call} {s}) v = notifies-Inv chunk call s v
Step-Inv (fires t {call} {s}) v = fires-Inv t call s v
Step-Inv (refuses e {p} {s}) v = ended-Inv (rejected e) disconnecting (some p) none s (λ q. cc) v
Step-Inv (finishes {p} o {s} e) v = finishes-Inv p o s e v
Step-Inv (starts_disconnect {call} {s}) v =
    closed-Inv s.settled disconnecting call call s (λ q. cc) v (v.once, v.below)
Step-Inv (finishes_disconnect {call} {s}) v = left-Inv call s v
Step-Inv (connects {s}) v = moved-Inv connected s.name s (λ q. cc) v
Step-Inv (reads_name raw {s}) v = record { shape = go v.shape; once = v.once; below = v.below }
  where
    go : Shape none s → Shape none (name_read raw s)
    go (idle a b c d f g) = idle a b c d f g
    go (busy p k a b c d f g h lt new) = cc
Step-Inv (subscribes {s}) v = moved-Inv ready s.name s (λ q. cc) v
Step-Inv (fails_attempt {s}) v =
    moved-Inv not_connected none (closed s.settled not_connected s) (λ q. cc)
      (closed-Inv s.settled not_connected none none s (λ q. cc) v (v.once, v.below))

-- In every session that events lead to, at most one promise is pending, that of the call in
-- progress; its timer alone is armed, its buffer is shorter than the response that it waits for,
-- and no promise has been settled twice.
pub Reach-Inv : {call : Option ℕ} {s : Session} → Reach call s → Inv call s
unfolding new_session
Reach-Inv here = record { shape = idle refl refl refl refl refl (λ q. cc); once = tt; below = tt }
Reach-Inv (next r step) = Step-Inv step (Reach-Inv r)
