-- ===== src/Transport/Mock.antt =====
-- src/bluetooth/mock-transport.ts: the transport of the tests, which keeps its bytes itself.
use Prim.Native.Char.{code}
use Prim.Native.String.{[] as no_chars, ◌∷◌ as ◌then◌}
use bluetti_mqtt_node.Common.{
  ℕ, List, [], ◌∷◌, ◌++◌, ◌==◌, if◌then◌else◌, Option, none, some, String,
}
use bluetti_mqtt_node.Common.StringMap.{StringMap, get_entry, set_entry, is_some}
use bluetti_mqtt_node.Common.Texts.{to_lower_case}
use bluetti_mqtt_node.Errors.{error, Result, ok, throws}
use bluetti_mqtt_node.App.Runner.{Done}
use bluetti_mqtt_node.Transport.{BluetoothTransport}

pub record MockTransport : Type 0 where
  pub characteristics : StringMap (List ℕ)
  pub subscribers : StringMap ℕ
  pub writes : List (List ℕ)
  pub connected_address : Option String
  -- The calls of subscribers that `emit` made.
  pub emitted : List (ℕ × List ℕ)

-- `uuid.replace(/-/g, "")`.
unfoldable pub without_dashes : String → String
without_dashes no_chars = no_chars
without_dashes (c then s) = if code c == 45 then without_dashes s else c then without_dashes s

abbrev pub compact_uuid : String → String
unfolding without_dashes
compact_uuid uuid = to_lower_case (without_dashes uuid)

abbrev pub seed : StringMap (List ℕ) → StringMap (List ℕ) → StringMap (List ℕ)
seed [] characteristics = characteristics
seed ((uuid, bytes) ∷ entries) characteristics =
    seed entries (set_entry (compact_uuid uuid) bytes characteristics)

unfoldable pub new_mock_transport : StringMap (List ℕ) → List (List ℕ) → MockTransport
new_mock_transport characteristics writes = record {
  characteristics = seed characteristics [];
  subscribers = [];
  writes = writes;
  connected_address = none;
  emitted = [];
}

-- `requireConnected()`, before the rest of a method.
abbrev pub require_connected :
    {A : Type 0} → MockTransport → Result A × MockTransport → Result A × MockTransport
require_connected t rest = if is_some t.connected_address then rest else (throws error, t)

unfoldable pub connect : String → MockTransport → Result Done × MockTransport
connect address t = (ok tt, record t { connected_address = some address })

unfoldable pub disconnect : MockTransport → Result Done × MockTransport
disconnect t = (ok tt, record t { connected_address = none; subscribers = [] })

abbrev pub value_of : Option (List ℕ) → Result (List ℕ)
value_of none = throws error
value_of (some bytes) = ok bytes

unfoldable pub read_characteristic : String → MockTransport → Result (List ℕ) × MockTransport
read_characteristic uuid t =
    require_connected t (value_of (get_entry (compact_uuid uuid) t.characteristics), t)

unfoldable pub write_characteristic : String → List ℕ → MockTransport → Result Done × MockTransport
write_characteristic uuid bytes t =
    require_connected t (ok tt, record t { writes = t.writes ++ bytes ∷ [] })

unfoldable pub subscribe : String → ℕ → MockTransport → Result Done × MockTransport
subscribe uuid callback t =
    require_connected t
      (ok tt, record t { subscribers = set_entry (compact_uuid uuid) callback t.subscribers })

abbrev pub call_subscriber : Option ℕ → List ℕ → MockTransport → Result Done × MockTransport
call_subscriber none bytes t = (throws error, t)
call_subscriber (some callback) bytes t =
    (ok tt, record t { emitted = t.emitted ++ (callback, bytes) ∷ [] })

unfoldable pub emit : String → List ℕ → MockTransport → Result Done × MockTransport
emit uuid bytes t =
    require_connected t (call_subscriber (get_entry (compact_uuid uuid) t.subscribers) bytes t)

abbrev pub mock_transport : BluetoothTransport MockTransport
unfolding connect disconnect read_characteristic write_characteristic subscribe
mock_transport = record {
  connect = connect;
  disconnect = disconnect;
  read_characteristic = read_characteristic;
  write_characteristic = write_characteristic;
  subscribe = subscribe;
}
