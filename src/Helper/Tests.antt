-- ===== src/Helper/Tests.antt =====
-- Tests of the helper client and of its transport, and their theorems on concrete requests.
use bluetti_mqtt_node.Common.{
  ℕ, ◌≡◌, refl, true, false, List, [], ◌∷◌, ◌++◌, Option, none, some, String, inl,
}
use bluetti_mqtt_node.Common.Texts.{to_lower_case, includes}
use bluetti_mqtt_node.Errors.{error, bad_connection_error, Result, ok, throws}
use bluetti_mqtt_node.Helper.Json.{
  Json, may_have_text, has_text, string, object, field, empty, null, array, item, end, scanned,
}
use bluetti_mqtt_node.Helper.Client.{Client, Reply, resolved, register_request, deadline_passes}
use bluetti_mqtt_node.Helper.Client.Once.{begun}
use bluetti_mqtt_node.Common.Occurrences.{values_of}
use bluetti_mqtt_node.Common.StringMap.{get_entry}
use bluetti_mqtt_node.Helper.Client.Router.{
  create_helper_error, is_recoverable_bluetooth_connection_error, reply_of, route_helper_line,
  route_typed, route_reply,
}
use bluetti_mqtt_node.Helper.Client.Phases.{
  Event, registers, expires, hears, exits, idle, answered, phase, run, apply, view, replay, IsTimed,
}
use bluetti_mqtt_node.Helper.Client.Refinement.{run_refines}
use bluetti_mqtt_node.Helper.Client.Replay.{IsReadable, Leaves}
use bluetti_mqtt_node.Helper.Client.Answers.{
  answer_is_final, deadline_answers, late_request_is_lost,
}

-- No line of these tests carries bytes.
abbrev no_bytes : Option Json → Result (List ℕ)
no_bytes value = ok []

abbrev reply_line : String → Json
reply_line id = object (field "type" (string "response") (field "id" (string id) empty))

abbrev error_line : String → String → Json
error_line id text = object (
    field "type" (string "error") (
      field "id" (string id) (
        field "error"
          (object (field "code" (string "command_failed") (field "message" (string text) empty)))
          empty)))

-- An error line without its `error` object.
abbrev bare_error_line : String → Json
bare_error_line id = object (field "type" (string "error") (field "id" (string id) empty))

abbrev asking : Client
asking = record {
  pending = ("a", tt) ∷ ("b", tt) ∷ [];
  notification_listeners = [];
  ready = some (ok tt);
  ready_resolved = true;
  dispose_requested = false;
  killed = false;
  timers = ("a", tt) ∷ ("b", tt) ∷ [];
  settled = [];
  notified = [];
}

abbrev disposed : Client
disposed = record {
  pending = [];
  notification_listeners = [];
  ready = some (ok tt);
  ready_resolved = true;
  dispose_requested = true;
  killed = true;
  timers = [];
  settled = [];
  notified = [];
}

asking-IsTimed : IsTimed asking
unfolding IsTimed
asking-IsTimed id there = there

disposed-IsTimed : IsTimed disposed
unfolding IsTimed
disposed-IsTimed id there = absurd (cc)

unreachable_is_recoverable :
    create_helper_error (some (string "command_failed")) (some (string "Device UNREACHABLE now"))
    ≡ ok bad_connection_error
unfolding create_helper_error is_recoverable_bluetooth_connection_error includes to_lower_case
    may_have_text has_text
unreachable_is_recoverable = refl

-- A code that is an object with its own `toString` makes no text.
no_text_is_thrown :
    create_helper_error (some (object (field "toString" null empty))) (some (string "x"))
    ≡ throws error
unfolding create_helper_error may_have_text has_text
no_text_is_thrown = refl

-- An error line that cannot be read takes the request's entry and leaves it without an answer.
bare_error_loses : phase (run no_bytes (hears (some (bare_error_line "a")) ∷ []) asking) "a" ≡ idle
unfolding run apply route_helper_line route_typed route_reply reply_of
bare_error_loses = refl

devices_are_filtered :
    scanned (
      some (
        object (
          field "devices"
            (array (
              item
                (object (field "address" (string "A") (field "name" (string "N") empty)))
                (item null end)))
            empty)))
    ≡ item (object (field "address" (string "A") (field "name" (string "N") empty))) end
unfolding scanned
devices_are_filtered = refl

abbrev two_events : List Event
two_events = hears (some (reply_line "a")) ∷ expires "b" ∷ []

run_refines_example : view (run no_bytes two_events asking) ≡ replay two_events (view asking)
run_refines_example = run_refines no_bytes two_events asking asking-IsTimed

abbrev two_answers : List Event
two_answers = hears (some (reply_line "c")) ∷ expires "c" ∷ []

asks_and_hears :
    phase (run no_bytes (begun "c" none ++ two_answers) asking) "c" ≡ answered (resolved none)
unfolding run apply register_request route_helper_line route_typed route_reply reply_of
    deadline_passes
asks_and_hears = refl

answer_is_final_example :
    let after = run no_bytes ((begun "c" none ++ two_answers) ++ exits ∷ []) asking in
    (values_of "c" after.settled ≡ resolved none ∷ []) × (get_entry "c" after.pending ≡ none)
unfolding Leaves
answer_is_final_example =
    answer_is_final no_bytes two_answers (exits ∷ []) asking "c" none (resolved none) asking-IsTimed
      (refl, refl) (tt, (tt, tt)) (tt, tt) asks_and_hears

deadline_answers_example :
    (reply : Reply) × (phase
        (run no_bytes ((hears (some (reply_line "a")) ∷ []) ++ expires "b" ∷ []) asking)
        "b"
      ≡ answered reply)
unfolding IsReadable reply_of
deadline_answers_example =
    deadline_answers no_bytes (hears (some (reply_line "a")) ∷ []) asking "b" asking-IsTimed refl
      refl (inl (resolved none, refl), tt)

late_request_is_lost_example :
    phase (run no_bytes (registers "c" ∷ exits ∷ expires "c" ∷ []) disposed) "c" ≡ idle
unfolding Leaves
late_request_is_lost_example =
    late_request_is_lost no_bytes (expires "c" ∷ []) disposed "c" disposed-IsTimed refl refl
      (tt, tt)
