-- ===== src/Session/Exchange/Steps.antt =====
-- The single steps of an exchange in src/bluetooth/device-session.ts: a waiting call, what a chunk
-- does to it, and how it is settled.
use bluetti_mqtt_node.Common.{
  ℕ, zero, suc, ◌+◌, ◌<◌, ◌≡◌, refl, ap, true, false, List, [], ◌∷◌, ◌++◌, length, ltb, ◌==◌,
  Option, none, some, arith, All,
}
use bluetti_mqtt_node.Crc.{at_is}
use bluetti_mqtt_node.Commands.{
  DeviceCommand, response_size, is_exception_response, is_valid_response,
}
use bluetti_mqtt_node.Session.{
  Session, ready, Outcome, outcome_of, disarm, handle_notification, handle_pending, handle_buffer,
  resolve_pending, reject_pending, is_ascii_control_message, build_modbus_exception, is_armed,
}

-- Notifications one after another.
unfoldable pub feed : List (List ℕ) → Session → Session
feed [] s = s
feed (chunk ∷ chunks) s = feed chunks (handle_notification chunk s)

abbrev pub joined : List (List ℕ) → List ℕ
joined [] = []
joined (chunk ∷ chunks) = chunk ++ joined chunks

abbrev pub NoControl : List (List ℕ) → Type 0
NoControl = All (λ chunk. is_ascii_control_message chunk ≡ false)

-- Call `p` waits for the response to `c`, and `buffer` has come so far.
pub record Waiting (c : DeviceCommand) (p : ℕ) (buffer : List ℕ) (s : Session) : Type 0 where
  pub pending : s.pending_response ≡ some p
  pub command : s.current_command ≡ some c
  pub timer : s.pending_timeout ≡ some p
  pub buffered : s.response_buffer ≡ buffer
  pub unsettled : outcome_of p s.settled ≡ none

-- Call `p` has its outcome, its timer is off, and the session takes the next command.
pub record Done (p : ℕ) (o : Outcome) (s : Session) : Type 0 where
  pub outcome : outcome_of p s.settled ≡ some o
  pub idle : s.pending_response ≡ none
  pub disarmed : is_armed p s.timers ≡ false
  pub again : s.state ≡ ready

pub outcome_of-settle :
    (p : ℕ) (o : Outcome) (xs : List (ℕ × Outcome))
    → outcome_of p xs ≡ none
    → outcome_of p (xs ++ (p, o) ∷ []) ≡ some o
outcome_of-settle p o [] h = ground arith
outcome_of-settle p o ((q, o') ∷ xs) h = ground (arith, outcome_of-settle p o xs)

pub is_armed-disarm : (t : ℕ) (timers : List ℕ) → is_armed t (disarm t timers) ≡ false
is_armed-disarm t [] = refl
is_armed-disarm t (u ∷ timers) = ground (arith, is_armed-disarm t timers)

pub at_is-append : (xs ys : List ℕ) (i v : ℕ) → at_is xs i v ≡ true → at_is (xs ++ ys) i v ≡ true
at_is-append [] ys i v h = cc
at_is-append (x ∷ xs) ys zero v h = h
at_is-append (x ∷ xs) ys (suc i) v h = at_is-append xs ys i v h

pub at_is_unique : (xs : List ℕ) (i v w : ℕ) → at_is xs i v ≡ true → at_is xs i w ≡ true → v ≡ w
at_is_unique [] i v w g h = cc
at_is_unique (x ∷ xs) zero v w g h = ground arith
at_is_unique (x ∷ xs) (suc i) v w g h = at_is_unique xs i v w g h

-- No beginning of a valid response is an exception frame.
pub no_exception_in_valid :
    (c : DeviceCommand) (xs ys : List ℕ)
    → is_valid_response c (xs ++ ys) ≡ true
    → is_exception_response c xs ≡ false
unfolding is_exception_response is_valid_response
no_exception_in_valid c xs ys h = ground (
  arith,
  at_is-append xs ys 1 (c.function_code + 0x80),
  at_is_unique (xs ++ ys) 1 c.function_code (c.function_code + 0x80),
)

-- The two guards of `handleNotification`.
pub idle_eq :
    (o : Option ℕ) (k : Option DeviceCommand) (chunk : List ℕ) (s : Session)
    → o ≡ none
    → handle_pending o k chunk s ≡ s
idle_eq none k chunk s h = refl
idle_eq (some p) k chunk s h = cc

pub plain_eq :
    (o : Option ℕ) (k : Option DeviceCommand) (p : ℕ) (c : DeviceCommand) (chunk : List ℕ)
    (s : Session)
    → o ≡ some p
    → k ≡ some c
    → is_ascii_control_message chunk ≡ false
    → handle_pending o k chunk s ≡ handle_buffer c (s.response_buffer ++ chunk) s
plain_eq none k p c chunk s h g plain = cc
plain_eq (some q) none p c chunk s h g plain = cc
plain_eq (some q) (some d) p c chunk s h g plain =
    let same : d ≡ c = cc in
    rw plain (ap (λ e. handle_buffer e (s.response_buffer ++ chunk) s) same)

pub valid_size :
    (c : DeviceCommand) (r : List ℕ)
    → is_valid_response c r ≡ true
    → (length r == response_size c) ≡ true
unfolding is_valid_response
valid_size c r h = ground arith

-- The three ways of `handleBuffer` that an orderly device leads to.
pub buffer_short :
    (c : DeviceCommand) (buffer : List ℕ) (s : Session)
    → is_exception_response c buffer ≡ false
    → length buffer < response_size c
    → handle_buffer c buffer s ≡ record s { response_buffer = buffer }
unfolding handle_buffer
buffer_short c buffer s fine short =
    let other : (length buffer == response_size c) ≡ false = ground arith in
    let below : ltb (response_size c) (length buffer) ≡ false = ground arith in
    rw (fine, other, below)

pub buffer_complete :
    (c : DeviceCommand) (buffer : List ℕ) (s : Session)
    → is_exception_response c buffer ≡ false
    → is_valid_response c buffer ≡ true
    → handle_buffer c buffer s ≡ record (resolve_pending buffer s) { state = ready }
unfolding handle_buffer
buffer_complete c buffer s fine valid = rw (fine, valid_size c buffer valid, valid)

pub buffer_exception :
    (c : DeviceCommand) (buffer : List ℕ) (s : Session)
    → is_exception_response c buffer ≡ true
    → handle_buffer c buffer s
      ≡ record (reject_pending (build_modbus_exception buffer) s) { state = ready }
unfolding handle_buffer
buffer_exception c buffer s e = rw e
