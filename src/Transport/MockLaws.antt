-- ===== src/Transport/MockLaws.antt =====
-- The transport of src/bluetooth/mock-transport.ts keeps the contract of src/bluetooth/transport.ts.
use bluetti_mqtt_node.Common.{
  ℕ, Bool, Option, String, ◌≡◌, refl, true, [], ◌∷◌, ◌++◌, Bool-cases, inl, inr,
}
use bluetti_mqtt_node.Common.StringMap.{get_entry, set_entry, is_some, get-set_same}
use bluetti_mqtt_node.Errors.{error, Result, ok, throws}
use bluetti_mqtt_node.Transport.{Contract}
use bluetti_mqtt_node.Transport.Mock.{
  MockTransport, compact_uuid, value_of, require_connected, connect, disconnect,
  read_characteristic, write_characteristic, subscribe, mock_transport,
}

-- What passed the test was connected.
require_connected_lem :
    {A : Type 0} (t : MockTransport) (rest : Result A × MockTransport) (a : A)
    → (require_connected t rest).0 ≡ ok a
    → is_some t.connected_address ≡ true
require_connected_lem t rest a h = elim (Bool-cases (is_some t.connected_address)) [
  | inl e ↦ e
  | inr e ↦ let f : (require_connected t rest).0 ≡ throws error = rw e in absurd (cc)
]

abbrev has_address : MockTransport → Bool
has_address t = is_some t.connected_address

abbrev kept_callback : String → MockTransport → Option ℕ
kept_callback uuid t = get_entry (compact_uuid uuid) t.subscribers

-- The mock transport keeps the contract of a transport.
pub mock_transport-Contract : Contract has_address kept_callback mock_transport
unfolding connect disconnect read_characteristic write_characteristic subscribe
mock_transport-Contract = record {
  connects = λ address t done h. refl;
  disconnects = λ t. refl;
  forgets = λ t uuid. refl;
  reads_connected = λ uuid t bytes h.
      require_connected_lem t (value_of (get_entry (compact_uuid uuid) t.characteristics), t) bytes
        h;
  writes_connected = λ uuid bytes t done h.
      require_connected_lem t (ok tt, record t { writes = t.writes ++ bytes ∷ [] }) done h;
  subscribes = λ uuid callback t done h.
      let e =
        require_connected_lem t
          (ok tt, record t { subscribers = set_entry (compact_uuid uuid) callback t.subscribers })
          done h in
      (e, rw (subscribe, e) (get-set_same (compact_uuid uuid) callback t.subscribers));
  refuses = λ uuid callback t x other h. elim (Bool-cases (is_some t.connected_address)) [
    | inl e ↦ let f : (subscribe uuid callback t).0 ≡ ok tt = rw (subscribe, e) in absurd (cc)
    | inr e ↦ rw (subscribe, e)
  ];
  stays_connected = λ uuid callback t. elim (Bool-cases (is_some t.connected_address)) [
    | inl e ↦ rw (subscribe, e) e
    | inr e ↦ rw (subscribe, e) e
  ];
}
