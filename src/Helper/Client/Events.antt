-- ===== src/Helper/Client/Events.antt =====
-- The events of src/bluetooth/helper-line-router.ts leave the requests alone.
use bluetti_mqtt_node.Common.{ℕ, ◌≡◌, refl, Bool, List, Option, none, some, Bool-cases, inl, inr}
use bluetti_mqtt_node.Common.StringMap.{StringMap}
use bluetti_mqtt_node.Errors.{Result, ok, throws}
use bluetti_mqtt_node.App.Runner.{Done}
use bluetti_mqtt_node.Helper.Json.{Json, is_text}
use bluetti_mqtt_node.Helper.Client.{Client, Reply, Notification, settle_ready_with}
use bluetti_mqtt_node.Helper.Client.Router.{
  route_helper_event, notify, notification_of, route_notification,
}

-- What the client keeps for its requests.
abbrev pub requests : Client → StringMap Done × StringMap Done × StringMap Reply × Bool
requests client = (client.pending, client.timers, client.settled, client.dispose_requested)

module _ (from_base64 : Option Json → Result (List ℕ)) where
  pub event_requests :
      (name payload : Option Json) (client : Client)
      → requests (route_helper_event from_base64 name payload client).1 ≡ requests client
  unfolding route_helper_event settle_ready_with
  event_requests name payload client = elim (Bool-cases (is_text "ready" name)) [
    | inl e ↦ rw e
    | inr e ↦ elim (Bool-cases (is_text "notification" name)) [
      | inl k ↦ rw (e, k) (notified payload)
      | inr k ↦ rw (e, k)
    ]
  ]
    where
      told : (r : Result Notification) → requests (notify r client).1 ≡ requests client
      told (ok event) = refl
      told (throws e) = refl

      notified :
          (given : Option Json)
          → requests (route_notification from_base64 given client).1 ≡ requests client
      notified none = refl
      notified (some value) = told (notification_of from_base64 value)
