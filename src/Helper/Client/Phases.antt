-- ===== src/Helper/Client/Phases.antt =====
-- What the client of src/bluetooth/helper-client.ts promises of a request: the events of a client,
-- and the phases through which they take each request, without maps, timers and logs.
use text.Mathlib.Text.{◌==◌ as str_eq}
use bluetti_mqtt_node.Common.{
  ℕ, ◌≡◌, Bool, true, List, [], ◌∷◌, if◌then◌else◌, Option, none, some, String,
}
use bluetti_mqtt_node.Common.StringMap.{get_entry, is_some}
use bluetti_mqtt_node.Errors.{Error, error, bad_connection_error, Result, ok, throws}
use bluetti_mqtt_node.App.Runner.{Done}
use bluetti_mqtt_node.Helper.Json.{Json, string, property, is_text, optional_property}
use bluetti_mqtt_node.Helper.Client.{
  Client, Reply, rejected, register_request, write_throws, deadline_passes, process_error,
  process_exits, dispose, reject_pending_requests,
}
use bluetti_mqtt_node.Helper.Client.Router.{reply_of, route_helper_line}

pub data Event : Type 0 where
  registers : String → Event
  fails_to_write : String → Error → Event
  expires : String → Event
  hears : Option Json → Event
  breaks : Error → Event
  loses_stdin : Error → Event
  exits : Event
  disposes : Event

pub data Phase : Type 0 where
  idle : Phase
  waiting : Phase
  answered : Reply → Phase

abbrev pub phase_of : Option Reply → Option Done → Phase
phase_of (some reply) entry = answered reply
phase_of none (some entry) = waiting
phase_of none none = idle

abbrev pub phase : Client → String → Phase
phase client id = phase_of (get_entry id client.settled) (get_entry id client.pending)

module _ (from_base64 : Option Json → Result (List ℕ)) where
  unfoldable pub apply : Event → Client → Client
  unfolding register_request write_throws deadline_passes route_helper_line process_error
      process_exits dispose reject_pending_requests
  apply (registers id) client = register_request id client
  apply (fails_to_write id e) client = write_throws id e client
  apply (expires id) client = deadline_passes id client
  apply (hears line) client = (route_helper_line from_base64 line client).1
  apply (breaks e) client = process_error e client
  apply (loses_stdin e) client = reject_pending_requests e client
  apply exits client = process_exits client
  apply disposes client = dispose client

  unfoldable pub run : List Event → Client → Client
  unfolding apply
  run [] client = client
  run (event ∷ events) client = run events (apply event client)

-- The abstract client.
pub record Phases : Type 0 where
  pub is_disposed : Bool
  pub at : String → Phase

abbrev pub ask : Phase → Phase
ask idle = waiting
ask waiting = waiting
ask (answered reply) = answered reply

abbrev pub answer : Reply → Phase → Phase
answer reply idle = idle
answer reply waiting = answered reply
answer reply (answered first) = answered first

-- The answer to a request that may not have been waiting.
abbrev pub conclude : Reply → Phase → Phase
conclude reply idle = answered reply
conclude reply waiting = answered reply
conclude reply (answered first) = answered first

abbrev pub lose : Phase → Phase
lose idle = idle
lose waiting = idle
lose (answered reply) = answered reply

abbrev pub change : String → (Phase → Phase) → Phases → Phases
change id f phases = record phases {
  at = λ q. if str_eq id q then f (phases.at q) else phases.at q;
}

abbrev pub change_all : (Phase → Phase) → Phases → Phases
change_all f phases = record phases { at = λ q. f (phases.at q) }

-- A reply that cannot be read loses the request.
abbrev pub reply_change : Result Reply → Phase → Phase
reply_change (ok reply) = answer reply
reply_change (throws e) = lose

abbrev pub hear_reply : Json → Option Json → Phases → Phases
hear_reply message (some (string id)) phases = change id (reply_change (reply_of message)) phases
hear_reply message _ phases = phases

abbrev pub hear_typed : Result (Option Json) → Json → Phases → Phases
hear_typed (throws e) message phases = phases
hear_typed (ok type) message phases =
    if is_text "event" type
    then phases
    else hear_reply message (optional_property "id" (some message)) phases

abbrev pub hear : Option Json → Phases → Phases
hear none phases = phases
hear (some message) phases = hear_typed (property "type" message) message phases

abbrev pub next : Event → Phases → Phases
next (registers id) phases = change id ask phases
next (fails_to_write id e) phases = change id (conclude (rejected e)) phases
next (expires id) phases = change id (answer (rejected bad_connection_error)) phases
next (hears line) phases = hear line phases
next (breaks e) phases = change_all (answer (rejected e)) phases
next (loses_stdin e) phases = change_all (answer (rejected e)) phases
next exits phases = change_all (if phases.is_disposed then lose else answer (rejected error)) phases
next disposes phases = record (change_all (answer (rejected error)) phases) { is_disposed = true }

abbrev pub replay : List Event → Phases → Phases
replay [] phases = phases
replay (event ∷ events) phases = replay events (next event phases)

abbrev pub view : Client → Phases
view client = record { is_disposed = client.dispose_requested; at = phase client }

-- Every entry's timer is armed.
unfoldable pub IsTimed : Client → Type 0
IsTimed client =
    (id : String)
    → is_some (get_entry id client.pending) ≡ true
    → is_some (get_entry id client.timers) ≡ true
