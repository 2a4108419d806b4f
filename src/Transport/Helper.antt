-- ===== src/Transport/Helper.antt =====
-- src/bluetooth/helper-transport.ts. What the transport calls of the helper client is a record of
-- functions on the state of the world. A method runs from its call to its end; a notification is
-- met between two calls.
use text.Mathlib.Text.{◌==◌ as str_eq}
use bluetti_mqtt_node.Common.{
  ℕ, Bool, true, false, List, [], if◌then◌else◌, Option, none, some, String,
}
use bluetti_mqtt_node.Common.StringMap.{StringMap, get_entry, set_entry, is_some}
use bluetti_mqtt_node.Common.Restore.{restore}
use bluetti_mqtt_node.Common.Texts.{to_lower_case}
use bluetti_mqtt_node.Errors.{error, Result, ok, throws}
use bluetti_mqtt_node.App.Runner.{Done}
use bluetti_mqtt_node.Helper.Json.{Json, string, null}
use bluetti_mqtt_node.Helper.Client.{Notification}
use bluetti_mqtt_node.Transport.{BluetoothTransport}

pub record HelperCalls (W : Type 0) : Type 0 where
  -- The identifier of the session in the payload.
  pub connect : String → W → Result String × W
  pub disconnect : String → W → Result Done × W
  pub read_characteristic : String → String → W → Result (List ℕ) × W
  pub write_characteristic : String → String → List ℕ → W → Result Done × W
  pub subscribe : String → String → W → Result Done × W
  pub on_notification : W → Result Done × W
  pub off_notification : W → W

pub record HelperTransport (W : Type 0) : Type 0 where
  pub session_id : Option String
  -- `unsubscribeNotification` holds a function.
  pub is_listening : Bool
  pub subscribers : StringMap ℕ
  pub world : W

abbrev pub normalize_uuid : String → String
normalize_uuid = to_lower_case

unfoldable pub new_helper_transport : {W : Type 0} → W → HelperTransport W
new_helper_transport world = record {
  session_id = none;
  is_listening = false;
  subscribers = [];
  world = world;
}

abbrev pub require_session_id : Option String → Result String
require_session_id none = throws error
require_session_id (some session_id) = ok session_id

-- `event.sessionId !== this.sessionId` is false.
abbrev pub is_own : Option Json → Option String → Bool
is_own (some (string s)) (some session_id) = str_eq s session_id
is_own (some null) none = true
is_own _ _ = false

abbrev pub callback_of : Option Json → StringMap ℕ → Result (Option ℕ)
callback_of (some (string uuid)) subscribers = ok (get_entry (normalize_uuid uuid) subscribers)
callback_of _ subscribers = throws error

-- The listener that `connect` adds: the callback that it calls with the bytes, if any.
unfoldable pub receives : {W : Type 0} → Notification → HelperTransport W → Result (Option ℕ)
receives event t =
    if is_own event.session_id t.session_id then callback_of event.uuid t.subscribers else ok none

module _ {W : Type 0} (calls : HelperCalls W) where
  abbrev pub listen : String → Result Done × W → HelperTransport W → Result Done × HelperTransport W
  listen session_id (ok done, world) t =
      (ok done, record t { session_id = some session_id; is_listening = true; world = world })
  listen session_id (throws e, world) t =
      (throws e, record t { session_id = none; world = (calls.disconnect session_id world).1 })

  abbrev pub opened : Result String × W → HelperTransport W → Result Done × HelperTransport W
  opened (throws e, world) t = (throws e, record t { world = world })
  opened (ok session_id, world) t = listen session_id (calls.on_notification world) t

  unfoldable pub connect : String → HelperTransport W → Result Done × HelperTransport W
  connect address t =
      if is_some t.session_id then (throws error, t) else opened (calls.connect address t.world) t

  abbrev pub unsubscribed : Bool → W → W
  unsubscribed true world = calls.off_notification world
  unsubscribed false world = world

  abbrev pub closed : Option String → W → Result Done × W
  closed none world = (ok tt, world)
  closed (some session_id) world = calls.disconnect session_id world

  unfoldable pub disconnect : HelperTransport W → Result Done × HelperTransport W
  disconnect t =
      let (r, world) = closed t.session_id (unsubscribed t.is_listening t.world) in
      (r, record { session_id = none; is_listening = false; subscribers = []; world = world })

  abbrev pub read_in :
      Result String → String → HelperTransport W → Result (List ℕ) × HelperTransport W
  read_in (throws e) uuid t = (throws e, t)
  read_in (ok session_id) uuid t =
      let (r, world) = calls.read_characteristic session_id uuid t.world in
      (r, record t { world = world })

  unfoldable pub read_characteristic :
      String → HelperTransport W → Result (List ℕ) × HelperTransport W
  read_characteristic uuid t = read_in (require_session_id t.session_id) uuid t

  abbrev pub write_in :
      Result String → String → List ℕ → HelperTransport W → Result Done × HelperTransport W
  write_in (throws e) uuid bytes t = (throws e, t)
  write_in (ok session_id) uuid bytes t =
      let (r, world) = calls.write_characteristic session_id uuid bytes t.world in
      (r, record t { world = world })

  unfoldable pub write_characteristic :
      String → List ℕ → HelperTransport W → Result Done × HelperTransport W
  write_characteristic uuid bytes t = write_in (require_session_id t.session_id) uuid bytes t

  abbrev pub subscribe_in : Result String → String → W → Result Done × W
  subscribe_in (throws e) uuid world = (throws e, world)
  subscribe_in (ok session_id) uuid world = calls.subscribe session_id uuid world

  -- The end of `subscribe`: the previous callback comes back where it failed.
  abbrev pub subscribed :
      String → Option ℕ → Result Done × W → HelperTransport W → Result Done × HelperTransport W
  subscribed key previous (ok done, world) t = (ok done, record t { world = world })
  subscribed key previous (throws e, world) t =
      (throws e, record t { subscribers = restore key previous t.subscribers; world = world })

  unfoldable pub subscribe : String → ℕ → HelperTransport W → Result Done × HelperTransport W
  subscribe uuid callback t =
      let key = normalize_uuid uuid in
      subscribed key (get_entry key t.subscribers)
        (subscribe_in (require_session_id t.session_id) uuid t.world)
        (record t { subscribers = set_entry key callback t.subscribers })

  abbrev pub helper_transport : BluetoothTransport (HelperTransport W)
  unfolding connect disconnect read_characteristic write_characteristic subscribe
  helper_transport = record {
    connect = connect;
    disconnect = disconnect;
    read_characteristic = read_characteristic;
    write_characteristic = write_characteristic;
    subscribe = subscribe;
  }
