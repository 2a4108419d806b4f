-- ===== src/Helper/Client/Router.antt =====
-- src/bluetooth/helper-line-router.ts: a line of the helper process, routed to a request or to the
-- listeners.
use bluetti_mqtt_node.Common.{
  ℕ, Bool, true, false, not, ◌||◌, ◌&&◌, List, [], ◌∷◌, ◌++◌, if◌then◌else◌, Option, none, some,
  String,
}
use bluetti_mqtt_node.Common.StringMap.{get_entry, delete_entry, is_some}
use bluetti_mqtt_node.Common.Texts.{to_lower_case, includes}
use bluetti_mqtt_node.Errors.{Error, error, bad_connection_error, Result, ok, throws, ◌>>=◌}
use bluetti_mqtt_node.App.Runner.{Done}
use bluetti_mqtt_node.Helper.Json.{
  Json, string, property, property_of, is_text, optional_property, may_have_text,
}
use bluetti_mqtt_node.Helper.Client.{
  Reply, resolved, rejected, Notification, Client, settle_ready_with,
}

abbrev pub disposed_object_error_text : String
disposed_object_error_text = "cannot access a disposed object"

abbrev pub unreachable_error_text : String
unreachable_error_text = "unreachable"

-- `message.toLowerCase()` throws where the message is no string.
unfoldable pub is_recoverable_bluetooth_connection_error : Option Json → Option Json → Result Bool
is_recoverable_bluetooth_connection_error code (some (string message)) = ok (
    is_text "command_failed" code
    && (includes disposed_object_error_text (to_lower_case message)
        || includes unreachable_error_text (to_lower_case message)))
is_recoverable_bluetooth_connection_error code _ =
    if is_text "command_failed" code then throws error else ok false

-- The text of the error throws where the code or the message has none.
unfoldable pub create_helper_error : Option Json → Option Json → Result Error
unfolding is_recoverable_bluetooth_connection_error may_have_text
create_helper_error code message =
    if not (may_have_text code && may_have_text message) then throws error else do
      recoverable ← is_recoverable_bluetooth_connection_error code message
      ok (if recoverable then bad_connection_error else error)

-- How a message that is no event settles its request.
unfoldable pub reply_of : Json → Result Reply
unfolding create_helper_error
reply_of message = do
  type ← property "type" message
  payload ← property "payload" message
  if is_text "response" type then ok (resolved payload) else do
    details ← property "error" message
    code ← property_of "code" details
    text ← property_of "message" details
    e ← create_helper_error code text
    ok (rejected e)

-- The listeners in the order in which they were added.
abbrev pub notify_all : Notification → List ℕ → List (ℕ × Notification)
notify_all event [] = []
notify_all event (listener ∷ listeners) = (listener, event) ∷ notify_all event listeners

abbrev pub notify : Result Notification → Client → Result Done × Client
notify (throws e) client = (throws e, client)
notify (ok event) client = (
  ok tt,
  record client { notified = client.notified ++ notify_all event client.notification_listeners },
)

-- An answer: the entry and its timer go before the reply is read.
abbrev pub settle_request : String → Result Reply → Client → Result Done × Client
settle_request id (throws e) client = (throws e, client)
settle_request id (ok reply) client =
    (ok tt, record client { settled = client.settled ++ (id, reply) ∷ [] })

abbrev pub forget_request : String → Client → Client
forget_request id client = record client {
  pending = delete_entry id client.pending;
  timers = delete_entry id client.timers;
}

-- A key of the map is a string: an `id` of another kind finds no entry.
unfoldable pub route_reply : Json → Option Json → Client → Result Done × Client
unfolding reply_of
route_reply message (some (string id)) client =
    if is_some (get_entry id client.pending)
    then settle_request id (reply_of message) (forget_request id client)
    else (ok tt, client)
route_reply message _ client = (ok tt, client)

module _ (from_base64 : Option Json → Result (List ℕ)) where
  -- `Buffer.from(value, "base64")` is the argument `from_base64`.
  unfoldable pub notification_of : Json → Result Notification
  notification_of payload = do
    session_id ← property "sessionId" payload
    uuid ← property "uuid" payload
    encoded ← property "dataBase64" payload
    bytes ← from_base64 encoded
    ok (record { session_id = session_id; uuid = uuid; data_bytes = bytes })

  abbrev pub route_notification : Option Json → Client → Result Done × Client
  route_notification none client = (ok tt, client)
  route_notification (some payload) client = notify (notification_of payload) client

  unfoldable pub route_helper_event : Option Json → Option Json → Client → Result Done × Client
  unfolding notification_of settle_ready_with
  route_helper_event name payload client =
      if is_text "ready" name
      then (ok tt, settle_ready_with (ok tt) (record client { ready_resolved = true }))
      else if is_text "notification" name
      then route_notification payload client
      else (ok tt, client)

  unfoldable pub route_typed : Result (Option Json) → Json → Client → Result Done × Client
  unfolding route_helper_event route_reply
  route_typed (throws e) message client = (throws e, client)
  route_typed (ok type) message client =
      if is_text "event" type
      then route_helper_event (optional_property "name" (some message))
          (optional_property "payload" (some message)) client
      else route_reply message (optional_property "id" (some message)) client

  -- `routeHelperLine`; the line is `none` where `JSON.parse` throws.
  unfoldable pub route_helper_line : Option Json → Client → Result Done × Client
  unfolding route_typed settle_ready_with
  route_helper_line none client =
      (ok tt, if client.ready_resolved then client else settle_ready_with (throws error) client)
  route_helper_line (some message) client = route_typed (property "type" message) message client
