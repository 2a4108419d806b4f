-- ===== src/Transport/Calls.antt =====
-- The methods of src/bluetooth/helper-client.ts that name a request and read its payload, as what
-- the helper transport calls. `request`, and the texts of bytes in base 64, are arguments.
use bluetti_mqtt_node.Common.{ℕ, ◌+◌, max, Bool, false, List, if◌then◌else◌, Option, some, String}
use bluetti_mqtt_node.Common.JsNumber.{nat}
use bluetti_mqtt_node.Errors.{error, Result, ok, throws}
use bluetti_mqtt_node.App.Runner.{Done}
use bluetti_mqtt_node.Helper.Json.{
  Json, Items, Fields, string, boolean, number, field, empty, optional_property,
  is_helper_connect_payload, scanned,
}
use bluetti_mqtt_node.Transport.Helper.{HelperCalls}

abbrev pub default_scan_timeout_ms : ℕ
default_scan_timeout_ms = 5000

abbrev pub scan_timeout_buffer_ms : ℕ
scan_timeout_buffer_ms = 5000

abbrev pub default_without_response : Bool
default_without_response = false

abbrev pub one_argument : String → String → Fields
one_argument name value = field name (string value) empty

abbrev pub two_arguments : String → String → Fields
two_arguments session_id uuid =
    field "sessionId" (string session_id) (field "uuid" (string uuid) empty)

-- A text, or the error of an invalid payload.
abbrev pub require_text : Option Json → Result String
require_text (some (string s)) = ok s
require_text _ = throws error

abbrev pub session_of : Option Json → Result String
session_of payload =
    if is_helper_connect_payload payload
    then require_text (optional_property "sessionId" payload)
    else throws error

abbrev pub map_ok {ℓ κ} : {A : Type ℓ} {B : Type κ} → (A → Result B) → Result A → Result B
map_ok f (ok a) = f a
map_ok f (throws e) = throws e

module _ {W : Type 0} (request : String → Fields → ℕ → W → Result (Option Json) × W)
    (request_timeout_ms : ℕ) (from_base64 : String → List ℕ) (to_base64 : List ℕ → String) where
  unfoldable pub scan : ℕ → W → Result Items × W
  unfolding scanned
  scan timeout_ms world =
      let (r, world') =
        request "scan" (field "timeoutMs" (number (nat timeout_ms)) empty)
          (max request_timeout_ms (timeout_ms + scan_timeout_buffer_ms)) world in
      (map_ok (λ payload. ok (scanned payload)) r, world')

  abbrev pub discover : W → Result Items × W
  unfolding scan
  discover world = scan default_scan_timeout_ms world

  -- The request whose payload is not read.
  abbrev pub ask : String → Fields → W → Result Done × W
  ask command arguments world =
      let (r, world') = request command arguments request_timeout_ms world in
      (map_ok (λ payload. ok tt) r, world')

  unfoldable pub connect_session : String → W → Result String × W
  connect_session address world =
      let (r, world') =
        request "connect" (one_argument "address" address) request_timeout_ms world in
      (map_ok session_of r, world')

  abbrev pub disconnect_session : String → W → Result Done × W
  disconnect_session session_id = ask "disconnect" (one_argument "sessionId" session_id)

  unfoldable pub read_value : String → String → W → Result (List ℕ) × W
  read_value session_id uuid world =
      let (r, world') =
        request "readCharacteristic" (two_arguments session_id uuid) request_timeout_ms world in
      (
        map_ok
            (λ payload.
              map_ok (λ text. ok (from_base64 text))
                (require_text (optional_property "dataBase64" payload)))
            r,
        world',
      )

  abbrev pub write_value : Bool → String → String → List ℕ → W → Result Done × W
  write_value without_response session_id uuid bytes = ask "writeCharacteristic" (
      field "sessionId" (string session_id) (
        field "uuid" (string uuid) (
          field "dataBase64" (string (to_base64 bytes))
            (field "withoutResponse" (boolean without_response) empty))))

  abbrev pub subscribe_session : String → String → W → Result Done × W
  subscribe_session session_id uuid = ask "subscribe" (two_arguments session_id uuid)

  -- The client of a transport, with the adding and removing of its listener.
  unfoldable pub helper_calls : (W → W) → (W → W) → HelperCalls W
  unfolding connect_session read_value
  helper_calls on off = record {
    connect = connect_session;
    disconnect = disconnect_session;
    read_characteristic = read_value;
    write_characteristic = write_value default_without_response;
    subscribe = subscribe_session;
    on_notification = λ world. (ok tt, on world);
    off_notification = off;
  }
