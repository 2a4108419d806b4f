-- ===== src/Helper/Client/Timers.antt =====
-- The timers of src/bluetooth/helper-request.ts: every request that waits has one.
use text.Mathlib.Text.{◌==◌ as str_eq}
use bluetti_mqtt_node.Common.{
  ℕ, ◌≡◌, refl, sym, ap, subst, true, List, [], Option, none, some, String, Bool-cases, inl, inr,
}
use bluetti_mqtt_node.Common.StringMap.{
  StringMap, get_entry, set_entry, delete_entry, is_some, str_eq_path, get-set_same, get-set_other,
  get-delete_same, get-delete_other,
}
use bluetti_mqtt_node.Errors.{Result, ok, throws, Result-cases}
use bluetti_mqtt_node.App.Runner.{Done}
use bluetti_mqtt_node.Helper.Json.{
  Json, null, boolean, number, string, array, object, property, is_text, optional_property,
}
use bluetti_mqtt_node.Helper.Client.{
  Client, register_request, write_throws, deadline_passes, process_error, process_exits, dispose,
  reject_pending_requests, settle_ready_with, disarm_all,
}
use bluetti_mqtt_node.Helper.Client.Router.{reply_of, route_reply, route_typed, route_helper_line}
use bluetti_mqtt_node.Helper.Client.Events.{event_requests}
use bluetti_mqtt_node.Helper.Client.Phases.{
  Event, registers, fails_to_write, expires, hears, breaks, loses_stdin, exits, disposes, apply,
  view, IsTimed, next, hear, hear_typed, hear_reply,
}

-- Every key of the one map is in the other.
Covers : StringMap Done → StringMap Done → Type 0
Covers pending timers =
    (id : String) → is_some (get_entry id pending) ≡ true → is_some (get_entry id timers) ≡ true

Covers-delete :
    (key : String) (pending timers : StringMap Done)
    → Covers pending timers
    → Covers (delete_entry key pending) (delete_entry key timers)
unfolding Covers
Covers-delete key pending timers h id there = elim (Bool-cases (str_eq key id)) [
  | inl e ↦
      let gone =
        subst (λ x. get_entry id (delete_entry x pending) ≡ none) (sym (str_eq_path key id e))
          (get-delete_same id pending) in
      absurd (cc)
  | inr e ↦
      rw (get-delete_other id key timers e)
        (h id (subst (λ o. is_some o ≡ true) (get-delete_other id key pending e) there))
]

Covers-set :
    (key : String) (pending timers : StringMap Done)
    → Covers pending timers
    → Covers (set_entry key tt pending) (set_entry key tt timers)
unfolding Covers
Covers-set key pending timers h id there = elim (Bool-cases (str_eq key id)) [
  | inl e ↦
      subst (λ x. is_some (get_entry id (set_entry x tt timers)) ≡ true)
        (sym (str_eq_path key id e)) (rw (get-set_same id tt timers))
  | inr e ↦
      rw (get-set_other id key tt timers e)
        (h id (subst (λ o. is_some o ≡ true) (get-set_other id key tt pending e) there))
]

-- Deleting an entry needs no timer.
Covers-delete_entry :
    (key : String) (pending timers : StringMap Done)
    → Covers pending timers
    → Covers (delete_entry key pending) timers
unfolding Covers
Covers-delete_entry key pending timers h id there = elim (Bool-cases (str_eq key id)) [
  | inl e ↦
      let gone =
        subst (λ x. get_entry id (delete_entry x pending) ≡ none) (sym (str_eq_path key id e))
          (get-delete_same id pending) in
      absurd (cc)
  | inr e ↦ h id (subst (λ o. is_some o ≡ true) (get-delete_other id key pending e) there)
]

nil-Covers : (timers : StringMap Done) → Covers [] timers
unfolding Covers
nil-Covers timers id there = absurd (cc)

reply-IsTimed :
    (message : Json) (id : Option Json) (client : Client)
    → IsTimed client
    → IsTimed (route_reply message id client).1
unfolding IsTimed Covers route_reply
reply-IsTimed message (some (string id)) client timed =
    elim (Bool-cases (is_some (get_entry id client.pending))) [
      | inl h ↦ elim (Result-cases (reply_of message)) [
        | inl (reply, e) ↦ rw (h, e) (Covers-delete id client.pending client.timers timed)
        | inr (x, e) ↦ rw (h, e) (Covers-delete id client.pending client.timers timed)
      ]
      | inr h ↦ rw h timed
    ]
reply-IsTimed message none client timed = timed
reply-IsTimed message (some null) client timed = timed
reply-IsTimed message (some (boolean b)) client timed = timed
reply-IsTimed message (some (number n)) client timed = timed
reply-IsTimed message (some (array items)) client timed = timed
reply-IsTimed message (some (object fields)) client timed = timed

reply-disposed :
    (message : Json) (id : Option Json) (client : Client)
    → ((route_reply message id client).1.dispose_requested
        ≡ (hear_reply message id (view client)).is_disposed)
unfolding route_reply
reply-disposed message (some (string id)) client =
    elim (Bool-cases (is_some (get_entry id client.pending))) [
      | inl h ↦ elim (Result-cases (reply_of message)) [
        | inl (reply, e) ↦ rw (h, e)
        | inr (x, e) ↦ rw (h, e)
      ]
      | inr h ↦ rw h
    ]
reply-disposed message none client = refl
reply-disposed message (some null) client = refl
reply-disposed message (some (boolean b)) client = refl
reply-disposed message (some (number n)) client = refl
reply-disposed message (some (array items)) client = refl
reply-disposed message (some (object fields)) client = refl

module _ (from_base64 : Option Json → Result (List ℕ)) where
  line-IsTimed :
      (line : Option Json) (client : Client)
      → IsTimed client
      → IsTimed (route_helper_line from_base64 line client).1
  unfolding IsTimed Covers route_helper_line route_typed settle_ready_with
  line-IsTimed none client timed = elim (Bool-cases client.ready_resolved) [
    | inl e ↦ rw e timed
    | inr e ↦ rw e timed
  ]
  line-IsTimed (some message) client timed = typed (property "type" message)
    where
      typed :
          (type : Result (Option Json)) → IsTimed (route_typed from_base64 type message client).1
      typed (throws e) = timed
      typed (ok type) = elim (Bool-cases (is_text "event" type)) [
        | inl e ↦ rw e (
            subst (λ r. Covers r.0 r.1)
              (sym (
                event_requests from_base64 (optional_property "name" (some message))
                  (optional_property "payload" (some message)) client))
              timed)
        | inr e ↦ rw e (reply-IsTimed message (optional_property "id" (some message)) client timed)
      ]

  line-disposed :
      (line : Option Json) (client : Client)
      → ((route_helper_line from_base64 line client).1.dispose_requested
          ≡ (hear line (view client)).is_disposed)
  unfolding route_helper_line route_typed settle_ready_with
  line-disposed none client = elim (Bool-cases client.ready_resolved) [
    | inl e ↦ rw e
    | inr e ↦ rw e
  ]
  line-disposed (some message) client = typed (property "type" message)
    where
      typed :
          (type : Result (Option Json))
          → ((route_typed from_base64 type message client).1.dispose_requested
              ≡ (hear_typed type message (view client)).is_disposed)
      typed (throws e) = refl
      typed (ok type) = elim (Bool-cases (is_text "event" type)) [
        | inl e ↦ rw e (
            ap (λ r. r.3)
              (event_requests from_base64 (optional_property "name" (some message))
                (optional_property "payload" (some message)) client))
        | inr e ↦ rw e (reply-disposed message (optional_property "id" (some message)) client)
      ]

  -- The client keeps a timer for every request that waits, whatever happens.
  pub apply-IsTimed :
      (event : Event) (client : Client) → IsTimed client → IsTimed (apply from_base64 event client)
  unfolding IsTimed Covers apply register_request write_throws deadline_passes process_error
      process_exits dispose reject_pending_requests settle_ready_with
  apply-IsTimed (registers id) client timed = Covers-set id client.pending client.timers timed
  apply-IsTimed (fails_to_write id e) client timed =
      elim (Bool-cases (is_some (get_entry id client.pending))) [
        | inl h ↦ rw h (Covers-delete id client.pending client.timers timed)
        | inr h ↦ rw h (Covers-delete_entry id client.pending client.timers timed)
      ]
  apply-IsTimed (expires id) client timed =
      elim (Bool-cases (is_some (get_entry id client.timers))) [
        | inl h ↦ rw h (Covers-delete id client.pending client.timers timed)
        | inr h ↦ rw h timed
      ]
  apply-IsTimed (hears line) client timed = line-IsTimed line client timed
  apply-IsTimed (breaks e) client timed = nil-Covers (apply from_base64 (breaks e) client).timers
  apply-IsTimed (loses_stdin e) client timed = nil-Covers (disarm_all client.pending client.timers)
  apply-IsTimed exits client timed = elim (Bool-cases client.dispose_requested) [
    | inl d ↦ rw d (λ id there. absurd (cc))
    | inr d ↦ rw d (λ id there. absurd (cc))
  ]
  apply-IsTimed disposes client timed = nil-Covers (disarm_all client.pending client.timers)

  pub apply-disposed :
      (event : Event) (client : Client)
      → (apply from_base64 event client).dispose_requested ≡ (next event (view client)).is_disposed
  unfolding apply register_request write_throws deadline_passes process_error process_exits dispose
      reject_pending_requests settle_ready_with
  apply-disposed (registers id) client = refl
  apply-disposed (fails_to_write id e) client = refl
  apply-disposed (expires id) client = elim (Bool-cases (is_some (get_entry id client.timers))) [
    | inl h ↦ rw h
    | inr h ↦ rw h
  ]
  apply-disposed (hears line) client = line-disposed line client
  apply-disposed (breaks e) client = elim (Bool-cases client.ready_resolved) [
    | inl k ↦ rw k
    | inr k ↦ rw k
  ]
  apply-disposed (loses_stdin e) client = refl
  apply-disposed exits client = elim (Bool-cases client.dispose_requested) [
    | inl d ↦ elim (Bool-cases client.ready_resolved) [ inl k ↦ rw (d, k) | inr k ↦ rw (d, k) ]
    | inr d ↦ elim (Bool-cases client.ready_resolved) [ inl k ↦ rw (d, k) | inr k ↦ rw (d, k) ]
  ]
  apply-disposed disposes client = refl
