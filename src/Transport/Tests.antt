-- ===== src/Transport/Tests.antt =====
-- Tests of the two transports, and the contract of the helper's on a scripted client.
use bluetti_mqtt_node.Common.{ℕ, List, String, ◌+◌, ◌≡◌, refl, [], ◌∷◌, ◌++◌, true, none, some}
use bluetti_mqtt_node.Common.Texts.{to_lower_case}
use bluetti_mqtt_node.Errors.{error, ok, throws}
use bluetti_mqtt_node.Helper.Json.{string, object, field, empty}
use bluetti_mqtt_node.Helper.Client.{Notification}
use bluetti_mqtt_node.Transport.{Contract}
use bluetti_mqtt_node.Transport.Helper.{
  HelperCalls, HelperTransport, receives, subscribe, disconnect, helper_transport,
}
use bluetti_mqtt_node.Transport.Calls.{helper_calls, connect_session, read_value}
use bluetti_mqtt_node.Transport.Laws.{
  has_session, kept_callback, helper_transport-Contract, receives_own,
}
use bluetti_mqtt_node.Transport.Mock.{
  new_mock_transport, read_characteristic, connect, without_dashes,
}

-- Every call succeeds; the world counts them.
abbrev willing : HelperCalls ℕ
willing = record {
  connect = λ address n. (ok "s1", n + 1);
  disconnect = λ session_id n. (ok tt, n + 1);
  read_characteristic = λ session_id uuid n. (ok (1 ∷ []), n + 1);
  write_characteristic = λ session_id uuid bytes n. (ok tt, n + 1);
  subscribe = λ session_id uuid n. (ok tt, n + 1);
  on_notification = λ n. (ok tt, n);
  off_notification = λ n. n;
}

helper_transport-Contract_example :
    Contract (has_session willing) (kept_callback willing) (helper_transport willing)
helper_transport-Contract_example = helper_transport-Contract willing

abbrev open_transport : HelperTransport ℕ
open_transport = record { session_id = some "s1"; is_listening = true; subscribers = []; world = 0 }

abbrev upper_case_event : Notification
upper_case_event = record {
  session_id = some (string "s1");
  uuid = some (string "FF01");
  data_bytes = 1 ∷ [];
}

receives_own_example :
    (receives upper_case_event (subscribe willing "ff01" 4 open_transport).1 ≡ ok (some 4))
    × (receives upper_case_event
          (disconnect willing (subscribe willing "ff01" 4 open_transport).1).1
        ≡ ok none)
unfolding subscribe to_lower_case
receives_own_example =
    receives_own willing "ff01" 4 open_transport "s1" tt upper_case_event "FF01" refl refl refl refl
      refl

-- The mock reads a value under either way of writing its UUID.
mock_reads :
    (read_characteristic "FF01" (connect "A" (new_mock_transport (("ff-01", 7 ∷ []) ∷ []) [])).1).0
    ≡ ok (7 ∷ [])
unfolding read_characteristic connect new_mock_transport to_lower_case without_dashes
mock_reads = refl

-- The helper answers every request with the payload of a connection.
abbrev answering : HelperCalls (List String)
answering =
    helper_calls
      (λ command arguments timeout world. (
        ok (
            some (
              object (
                field "sessionId" (string "s1")
                  (field "address" (string "A") (field "name" (string "AC3001") empty))))),
        world ++ command ∷ [],
      ))
      30000 (λ text. []) (λ bytes. "") (λ world. world) (λ world. world)

connects_by_request : answering.connect "A" [] ≡ (ok "s1", "connect" ∷ [])
unfolding helper_calls connect_session
connects_by_request = refl

-- The payload of a connection is none of a characteristic.
refuses_other_payload :
    answering.read_characteristic "s1" "ff01" [] ≡ (throws error, "readCharacteristic" ∷ [])
unfolding helper_calls read_value
refuses_other_payload = refl
