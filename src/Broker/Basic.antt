-- ===== src/Broker/Basic.antt =====
-- src/broker/basic-client.ts: callbacks by topic on a client of the MQTT library, whose calls are
-- functions on the state of the world. A callback is a number, and what it does is one of the calls.
use bluetti_mqtt_node.Common.{ℕ, ◌≡◌, Bool, false, List, Option, none, some, String}
use bluetti_mqtt_node.Common.StringMap.{StringMap, get_entry, set_entry, get-set_same}
use bluetti_mqtt_node.Common.Restore.{restore, restored}
use bluetti_mqtt_node.Errors.{Error, Result, ok, throws}
use bluetti_mqtt_node.App.Runner.{Done}

pub record PublishedMqttMessage : Type 0 where
  pub topic : String
  pub payload : String
  pub retain : Option Bool

pub record RawCalls (W : Type 0) : Type 0 where
  pub publish_async : String → String → Bool → W → Result Done × W
  pub subscribe_async : String → W → Result Done × W
  -- A callback, and the promise that it returns.
  pub call : ℕ → String → List ℕ → W → Result Done × W
  pub on_message_error : Error → String → List ℕ → W → W

pub record BasicMqttClient (W : Type 0) : Type 0 where
  pub callbacks : StringMap ℕ
  pub world : W

-- `message.retain ?? false`.
abbrev pub retain_or : Option Bool → Bool
retain_or none = false
retain_or (some retain) = retain

module _ {W : Type 0} (calls : RawCalls W) where
  abbrev pub reported : Result Done × W → String → List ℕ → W
  reported (ok done, world) topic payload = world
  reported (throws e, world) topic payload = calls.on_message_error e topic payload world

  abbrev pub call_back : Option ℕ → String → List ℕ → BasicMqttClient W → BasicMqttClient W
  call_back none topic payload client = client
  call_back (some callback) topic payload client = record client {
    world = reported (calls.call callback topic payload client.world) topic payload;
  }

  -- The listener that the constructor adds.
  unfoldable pub on_message : String → List ℕ → BasicMqttClient W → BasicMqttClient W
  on_message topic payload client =
      call_back (get_entry topic client.callbacks) topic payload client

  unfoldable pub publish :
      PublishedMqttMessage → BasicMqttClient W → Result Done × BasicMqttClient W
  publish message client =
      let (r, world) =
        calls.publish_async message.topic message.payload (retain_or message.retain) client.world in
      (r, record client { world = world })

  abbrev pub subscribe_ends :
      String → Option ℕ → Result Done × W → BasicMqttClient W → Result Done × BasicMqttClient W
  subscribe_ends topic previous (ok done, world) client = (ok done, record client { world = world })
  subscribe_ends topic previous (throws e, world) client = (
    throws e,
    record client { callbacks = restore topic previous client.callbacks; world = world },
  )

  unfoldable pub subscribe : String → ℕ → BasicMqttClient W → Result Done × BasicMqttClient W
  subscribe topic callback client =
      subscribe_ends topic (get_entry topic client.callbacks)
        (calls.subscribe_async topic client.world)
        (record client { callbacks = set_entry topic callback client.callbacks })

  -- How a subscription ends: its topic has the callback, or every topic has the one that it had.
  unfoldable pub Subscribed :
      String → ℕ → BasicMqttClient W → Result Done × BasicMqttClient W → Type 0
  Subscribed topic callback before (ok done, after) =
      get_entry topic after.callbacks ≡ some callback
  Subscribed topic callback before (throws e, after) =
      (other : String) → get_entry other after.callbacks ≡ get_entry other before.callbacks

  pub subscribe-Subscribed :
      (topic : String) (callback : ℕ) (client : BasicMqttClient W)
      → Subscribed topic callback client (subscribe topic callback client)
  unfolding subscribe Subscribed
  subscribe-Subscribed topic callback client = go (calls.subscribe_async topic client.world)
    where
      go :
          (x : Result Done × W)
          → Subscribed topic callback client (
              subscribe_ends topic
                (get_entry topic client.callbacks)
                x
                (record client { callbacks = set_entry topic callback client.callbacks }))
      go (ok done, world) = get-set_same topic callback client.callbacks
      go (throws e, world) = λ other. restored topic other callback client.callbacks
