-- ===== src/Helper/Client.antt =====
-- src/bluetooth/helper-client.ts and src/bluetooth/helper-request.ts: the requests to the helper
-- process. A request is named by its UUID; so are its promise, its entry and its timer. What the
-- runtime keeps for the client, the armed timers, the promises settled and the notifications handed
-- to listeners, is part of the record. A request runs in three steps: the test before `await ready`,
-- the rest up to `return response`, and the answer.
pub mod Router
pub mod Phases
pub mod Events
pub mod Steps
pub mod Timers
pub mod Refinement
pub mod Replay
pub mod Once
pub mod Answers
use text.Mathlib.Text.{◌==◌ as str_eq}
use bluetti_mqtt_node.Common.{
  ℕ, zero, suc, ◌+◌, ◌-◌, max, Bool, true, false, not, ◌||◌, ◌&&◌, List, [], ◌∷◌, ◌++◌, map, ◌==◌,
  if◌then◌else◌, Option, none, some, String,
}
use bluetti_mqtt_node.Common.StringMap.{StringMap, get_entry, set_entry, delete_entry, is_some}
use bluetti_mqtt_node.Common.Texts.{to_lower_case, includes}
use bluetti_mqtt_node.Errors.{Error, error, bad_connection_error, Result, ok, throws, ◌>>=◌}
use bluetti_mqtt_node.App.Runner.{Done}
use bluetti_mqtt_node.Helper.Json.{
  Json, string, property, property_of, is_text, is_string, is_helper_connect_payload,
  optional_property,
}

-- How the promise of a request is settled.
pub data Reply : Type 0 where
  resolved : Option Json → Reply
  rejected : Error → Reply

-- `sessionId` and `uuid` are as they stand in the line.
pub record Notification : Type 0 where
  pub session_id : Option Json
  pub uuid : Option Json
  pub data_bytes : List ℕ

pub record Client : Type 0 where
  -- The entry of a request holds its promise and its timer.
  pub pending : StringMap Done
  pub notification_listeners : List ℕ
  -- How the promise `ready` was settled first.
  pub ready : Option (Result Done)
  pub ready_resolved : Bool
  pub dispose_requested : Bool
  pub killed : Bool
  -- The runtime: armed timers, settled promises, notifications with the listener they went to.
  pub timers : StringMap Done
  pub settled : StringMap Reply
  pub notified : List (ℕ × Notification)

unfoldable pub new_client : Client
new_client = record {
  pending = [];
  notification_listeners = [];
  ready = none;
  ready_resolved = false;
  dispose_requested = false;
  killed = false;
  timers = [];
  settled = [];
  notified = [];
}

abbrev pub settle_ready : Result Done → Option (Result Done) → Option (Result Done)
settle_ready outcome none = some outcome
settle_ready outcome (some first) = some first

-- The entries' promises, in the order of the map.
abbrev pub all_rejected : Error → StringMap Done → StringMap Reply
all_rejected e [] = []
all_rejected e ((id, entry) ∷ pending) = (id, rejected e) ∷ all_rejected e pending

-- `clearTimeout` for every entry.
abbrev pub disarm_all : StringMap Done → StringMap Done → StringMap Done
disarm_all [] timers = timers
disarm_all ((id, entry) ∷ pending) timers = disarm_all pending (delete_entry id timers)

unfoldable pub reject_pending_requests : Error → Client → Client
reject_pending_requests e client = record client {
  pending = [];
  timers = disarm_all client.pending client.timers;
  settled = client.settled ++ all_rejected e client.pending;
}

-- `sendHelperRequest` up to `await ready`, with the flag that `request` reads.
unfoldable pub begin_request : Client → Result Done
begin_request client = if client.dispose_requested then throws error else ok tt

-- From the promise up to the call of `stdin.write`.
unfoldable pub register_request : String → Client → Client
register_request id client = record client {
  pending = set_entry id tt client.pending;
  timers = set_entry id tt client.timers;
}

-- `stdin.write` throws: so does the request, and its entry goes.
unfoldable pub write_throws : String → Error → Client → Client
write_throws id e client = record client {
  pending = delete_entry id client.pending;
  timers =
      if is_some (get_entry id client.pending)
      then delete_entry id client.timers
      else client.timers;
  settled = client.settled ++ (id, rejected e) ∷ [];
}

-- The deadline: a timer fires once, if it is armed.
unfoldable pub deadline_passes : String → Client → Client
deadline_passes id client =
    if is_some (get_entry id client.timers)
    then record client {
      timers = delete_entry id client.timers;
      pending = delete_entry id client.pending;
      settled =
          if is_some (get_entry id client.pending)
          then client.settled ++ (id, rejected bad_connection_error) ∷ []
          else client.settled;
    }
    else client

unfoldable pub settle_ready_with : Result Done → Client → Client
settle_ready_with outcome client = record client { ready = settle_ready outcome client.ready }

-- The handlers of the process's events `error` and `exit`, and of the error of its `stdin`.
unfoldable pub process_error : Error → Client → Client
unfolding reject_pending_requests settle_ready_with
process_error e client =
    reject_pending_requests e
      (if client.ready_resolved then client else settle_ready_with (throws e) client)

unfoldable pub process_exits : Client → Client
unfolding reject_pending_requests settle_ready_with
process_exits client =
    let told = if client.ready_resolved then client else settle_ready_with (throws error) client in
    if client.dispose_requested
    then record told { pending = [] }
    else reject_pending_requests error told

unfoldable pub dispose : Client → Client
unfolding reject_pending_requests
dispose client =
    record (reject_pending_requests error (record client { dispose_requested = true })) {
      notification_listeners = [];
      killed = true;
    }

abbrev pub add_listener : ℕ → List ℕ → List ℕ
add_listener listener [] = listener ∷ []
add_listener listener (l ∷ listeners) =
    if l == listener then l ∷ listeners else l ∷ add_listener listener listeners

abbrev pub remove_listener : ℕ → List ℕ → List ℕ
remove_listener listener [] = []
remove_listener listener (l ∷ listeners) =
    if l == listener then listeners else l ∷ remove_listener listener listeners

-- `onNotification`, and the function that it returns.
unfoldable pub on_notification : ℕ → Client → Client
on_notification listener client = record client {
  notification_listeners = add_listener listener client.notification_listeners;
}

unfoldable pub off_notification : ℕ → Client → Client
off_notification listener client = record client {
  notification_listeners = remove_listener listener client.notification_listeners;
}
