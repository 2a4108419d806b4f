-- ===== src/Session/Connect.antt =====
-- `connectAndInitialize` of src/bluetooth/device-session.ts and `isRetryableInitializationError` of
-- src/bluetooth/session-utils.ts. The transport is not under src/ as far as its answers go: what
-- each of its calls answers at each attempt is an argument. Messages are texts of ASCII codes.
pub mod Laws
pub mod Retryable
use bluetti_mqtt_node.Common.{
  ℕ, zero, suc, ◌+◌, ◌-◌, ◌≤◌, ◌<◌, ◌≡◌, refl, Bool, true, false, ◌&&◌, ◌||◌, List, [], ◌∷◌, map,
  ltb, leb, ◌==◌, if◌then◌else◌, String,
}
use Prim.Native.Char.{code}
use Prim.Native.String
use bluetti_mqtt_node.Errors.{Error}
use bluetti_mqtt_node.Session.{Session, transport_connected, name_read, subscribed, attempt_failed}

abbrev pub codes : String → List ℕ
codes String.[] = []
codes (String.◌∷◌ c s) = code c ∷ codes s

-- A thrown value with its message.
pub record Thrown : Type 0 where
  pub error : Error
  pub message : List ℕ

pub data Answer (A : Type 0) : Type 0 where
  gives : A → Answer A
  fails : Thrown → Answer A

-- What the transport answers at one attempt. (What `disconnect` answers is not looked at.)
pub record Attempt : Type 0 where
  pub connect : Answer (Unit {0})
  pub read_name : Answer (List ℕ)
  pub subscribe : Answer (Unit {0})

-- `toLowerCase`, on ASCII.
abbrev pub lower_code : ℕ → ℕ
lower_code c = if leb b'A' c && leb c b'Z' then c + 32 else c

abbrev pub to_lower_case : List ℕ → List ℕ
to_lower_case = map lower_code

abbrev pub starts_with : List ℕ → List ℕ → Bool
starts_with text [] = true
starts_with [] (c ∷ part) = false
starts_with (d ∷ text) (c ∷ part) = (d == c) && starts_with text part

abbrev pub includes : List ℕ → List ℕ → Bool
includes [] part = starts_with [] part
includes (d ∷ text) part = starts_with (d ∷ text) part || includes text part

abbrev pub unreachable_error_text : List ℕ
unreachable_error_text = codes "unreachable"

abbrev pub gatt_unreachable_text : List ℕ
gatt_unreachable_text = codes "enumerate GATT services: unreachable"

abbrev pub gatt_failed_unreachable_text : List ℕ
gatt_failed_unreachable_text = codes "failed to enumerate GATT services: unreachable"

unfoldable pub is_retryable_initialization_error : List ℕ → Bool
is_retryable_initialization_error message =
    let normalized = to_lower_case message in
    includes normalized gatt_unreachable_text
    || (includes normalized gatt_failed_unreachable_text
        || includes normalized unreachable_error_text)

-- The `try` block: the session at its end or at the throw, and what was thrown.
pub record Tried : Type 0 where
  pub session : Session
  pub answer : Answer (Unit {0})

abbrev after_subscribe : Session → Answer (Unit {0}) → Tried
after_subscribe s (gives u) = record { session = subscribed s; answer = gives tt }
after_subscribe s (fails e) = record { session = s; answer = fails e }

abbrev after_name : Session → Answer (List ℕ) → Answer (Unit {0}) → Tried
after_name s (gives raw) subscribe = after_subscribe (name_read raw s) subscribe
after_name s (fails e) subscribe = record { session = s; answer = fails e }

abbrev after_connect : Session → Attempt → Answer (Unit {0}) → Tried
after_connect s a (gives u) = after_name (transport_connected s) a.read_name a.subscribe
after_connect s a (fails e) = record { session = s; answer = fails e }

unfoldable pub try_once : Attempt → Session → Tried
try_once a s = after_connect s a a.connect

-- CONNECT_RETRY_COUNT.
abbrev pub connect_retry_count : ℕ
connect_retry_count = 3

-- What `connectAndInitialize` leaves: the session, its answer, and how many attempts were made.
pub record Connected : Type 0 where
  pub session : Session
  pub answer : Answer (Unit {0})
  pub attempts : ℕ

-- The end of one round of the loop; `again` is the next round.
abbrev pub after_try : ℕ → Session → (Thrown → Connected) → Answer (Unit {0}) → Connected
after_try attempt s again (gives u) = record {
  session = s;
  answer = gives tt;
  attempts = suc attempt;
}
after_try attempt s again (fails e) =
    let retried = again e in
    if ltb attempt (connect_retry_count - 1) && is_retryable_initialization_error e.message
    then retried
    else record { session = attempt_failed s; answer = fails e; attempts = suc attempt }

-- The loop; `left` is CONNECT_RETRY_COUNT less the attempts made. At `left` zero the loop has ended
-- by its test, and `lastError` is thrown.
connect_loop : ℕ → ℕ → Thrown → (ℕ → Attempt) → Session → Connected
connect_loop zero attempt last_error transport s = record {
  session = s;
  answer = fails last_error;
  attempts = attempt;
}
connect_loop (suc left) attempt last_error transport s =
    let tried = try_once (transport attempt) s in
    after_try attempt tried.session
      (λ e. connect_loop left (suc attempt) e transport (attempt_failed tried.session)) tried.answer

pub connect_and_initialize : Thrown → (ℕ → Attempt) → Session → Connected
connect_and_initialize null_error = connect_loop connect_retry_count 0 null_error
