-- ===== src/Helper/Client/Refinement.antt =====
-- The client of src/bluetooth/helper-client.ts as an implementation of the phases of its requests.
use text.Mathlib.Text.{◌==◌ as str_eq}
use mathlib.Core.Path.{fun_ext}
use bluetti_mqtt_node.Common.{
  ℕ, ◌≡◌, refl, sym, ap, subst, ◌∙◌, Bool, true, false, List, [], ◌∷◌, ◌++◌, if◌then◌else◌, Option,
  none, some, String, Bool-cases, inl, inr,
}
use bluetti_mqtt_node.Common.StringMap.{StringMap, get_entry, delete_entry, is_some, str_eq_path}
use bluetti_mqtt_node.Errors.{error, bad_connection_error, Result, ok, throws, Result-cases}
use bluetti_mqtt_node.App.Runner.{Done}
use bluetti_mqtt_node.Helper.Json.{
  Json, null, boolean, number, string, array, object, property, is_text, optional_property,
}
use bluetti_mqtt_node.Helper.Client.{
  Client, Reply, rejected, register_request, write_throws, deadline_passes, process_error,
  process_exits, dispose, reject_pending_requests, settle_ready_with,
}
use bluetti_mqtt_node.Helper.Client.Router.{reply_of, route_reply, route_typed, route_helper_line}
use bluetti_mqtt_node.Helper.Client.Events.{event_requests}
use bluetti_mqtt_node.Helper.Client.Timers.{apply-IsTimed, apply-disposed}
use bluetti_mqtt_node.Helper.Client.Phases.{
  Event, registers, fails_to_write, expires, hears, breaks, loses_stdin, exits, disposes, Phase,
  phase_of, phase, apply, run, Phases, answer, lose, conclude, hear_reply, hear_typed, hear, next,
  replay, view, IsTimed,
}
use bluetti_mqtt_node.Helper.Client.Steps.{
  answer-present, answer-absent, lose-none, phase-delete, phase-set, phase-settle, phase-reject_all,
}

same_at :
    (id q : String) (x y z : Phase)
    → (str_eq id q ≡ true → x ≡ y)
    → (if str_eq id q then x else z) ≡ (if str_eq id q then y else z)
same_at id q x y z f = elim (Bool-cases (str_eq id q)) [ inl e ↦ rw e (f e) | inr e ↦ rw e ]

kept_at :
    (id q : String) (y z : Phase)
    → (str_eq id q ≡ true → z ≡ y)
    → z ≡ (if str_eq id q then y else z)
kept_at id q y z f = elim (Bool-cases (str_eq id q)) [ inl e ↦ rw e (f e) | inr e ↦ rw e ]

entry_at :
    (id q : String) (b : Bool) (pending : StringMap Done)
    → is_some (get_entry id pending) ≡ b
    → str_eq id q ≡ true
    → is_some (get_entry q pending) ≡ b
entry_at id q b pending h e = subst (λ x. is_some (get_entry x pending) ≡ b) (str_eq_path id q e) h

not_armed :
    (client : Client) (id : String)
    → IsTimed client
    → is_some (get_entry id client.timers) ≡ false
    → is_some (get_entry id client.pending) ≡ false
unfolding IsTimed
not_armed client id timed off = elim (Bool-cases (is_some (get_entry id client.pending))) [
  | inl e ↦ let on = timed id e in cc
  | inr e ↦ e
]

-- A reply to a request that has an entry, at every request.
settled_at :
    (id q : String) (reply : Reply) (client : Client)
    → is_some (get_entry id client.pending) ≡ true
    → phase_of
        (get_entry q (client.settled ++ (id, reply) ∷ []))
        (get_entry q (delete_entry id client.pending))
      ≡ (if str_eq id q then answer reply (phase client q) else phase client q)
settled_at id q reply client h =
    phase-settle id q reply client.settled client.pending
    ∙ same_at id q (conclude reply (phase client q)) (answer reply (phase client q))
        (phase client q)
        (λ e.
          answer-present reply (get_entry q client.settled) (get_entry q client.pending)
            (entry_at id q true client.pending h e))

absent_at :
    (id q : String) (reply : Reply) (client : Client)
    → is_some (get_entry id client.pending) ≡ false
    → phase client q ≡ (if str_eq id q then answer reply (phase client q) else phase client q)
absent_at id q reply client h = kept_at id q (answer reply (phase client q)) (phase client q) (λ e.
    answer-absent reply (get_entry q client.settled) (get_entry q client.pending)
      (entry_at id q false client.pending h e))

lose-absent :
    (log : Option Reply) (entry : Option Done)
    → is_some entry ≡ false
    → phase_of log entry ≡ lose (phase_of log entry)
lose-absent (some first) entry h = refl
lose-absent none (some done) h = cc
lose-absent none none h = refl

expires_at :
    (id q : String) (client : Client)
    → IsTimed client
    → phase (deadline_passes id client) q ≡ (
        if str_eq id q
        then answer (rejected bad_connection_error) (phase client q)
        else phase client q)
unfolding deadline_passes
expires_at id q client timed = elim (Bool-cases (is_some (get_entry id client.timers))) [
  | inl on ↦ elim (Bool-cases (is_some (get_entry id client.pending))) [
    | inl h ↦ rw (on, h) (settled_at id q (rejected bad_connection_error) client h)
    | inr h ↦
        rw (on, h)
          (phase-delete id q (get_entry q client.settled) client.pending
            ∙ sym (
                kept_at id q (lose (phase client q)) (phase client q) (λ e.
                  lose-absent (get_entry q client.settled) (get_entry q client.pending)
                    (entry_at id q false client.pending h e)))
            ∙ absent_at id q (rejected bad_connection_error) client h)
  ]
  | inr off ↦
      rw off (absent_at id q (rejected bad_connection_error) client (not_armed client id timed off))
]

reply_at :
    (message : Json) (id : Option Json) (q : String) (client : Client)
    → phase (route_reply message id client).1 q ≡ (hear_reply message id (view client)).at q
unfolding route_reply
reply_at message (some (string id)) q client =
    elim (Bool-cases (is_some (get_entry id client.pending))) [
      | inl h ↦ elim (Result-cases (reply_of message)) [
        | inl (reply, e) ↦ rw (h, e) (settled_at id q reply client h)
        | inr (x, e) ↦ rw (h, e) (phase-delete id q (get_entry q client.settled) client.pending)
      ]
      | inr h ↦ elim (Result-cases (reply_of message)) [
        | inl (reply, e) ↦ rw (h, e) (absent_at id q reply client h)
        | inr (x, e) ↦
            rw (h, e)
              (kept_at id q (lose (phase client q)) (phase client q) (λ k.
                lose-absent (get_entry q client.settled) (get_entry q client.pending)
                  (entry_at id q false client.pending h k)))
      ]
    ]
reply_at message none q client = refl
reply_at message (some null) q client = refl
reply_at message (some (boolean b)) q client = refl
reply_at message (some (number n)) q client = refl
reply_at message (some (array items)) q client = refl
reply_at message (some (object fields)) q client = refl

module _ (from_base64 : Option Json → Result (List ℕ)) where
  line_at :
      (line : Option Json) (client : Client) (q : String)
      → phase (route_helper_line from_base64 line client).1 q ≡ (hear line (view client)).at q
  unfolding route_helper_line route_typed settle_ready_with
  line_at none client q = elim (Bool-cases client.ready_resolved) [ inl e ↦ rw e | inr e ↦ rw e ]
  line_at (some message) client q = typed_at (property "type" message)
    where
      typed_at :
          (type : Result (Option Json))
          → phase (route_typed from_base64 type message client).1 q
            ≡ (hear_typed type message (view client)).at q
      typed_at (throws e) = refl
      typed_at (ok type) = elim (Bool-cases (is_text "event" type)) [
        | inl e ↦ rw e (
            ap (λ r. phase_of (get_entry q r.2) (get_entry q r.0))
              (event_requests from_base64 (optional_property "name" (some message))
                (optional_property "payload" (some message)) client))
        | inr e ↦ rw e (reply_at message (optional_property "id" (some message)) q client)
      ]

  phase-apply :
      (event : Event) (client : Client) (q : String)
      → IsTimed client
      → phase (apply from_base64 event client) q ≡ (next event (view client)).at q
  unfolding apply register_request write_throws process_error process_exits dispose
      reject_pending_requests settle_ready_with
  phase-apply (registers id) client q timed =
      phase-set id q (get_entry q client.settled) client.pending
  phase-apply (fails_to_write id e) client q timed =
      phase-settle id q (rejected e) client.settled client.pending
  phase-apply (expires id) client q timed = expires_at id q client timed
  phase-apply (hears line) client q timed = line_at line client q
  phase-apply (breaks e) client q timed = elim (Bool-cases client.ready_resolved) [
    | inl k ↦ rw k (phase-reject_all q e client.settled client.pending)
    | inr k ↦ rw k (phase-reject_all q e client.settled client.pending)
  ]
  phase-apply (loses_stdin e) client q timed = phase-reject_all q e client.settled client.pending
  phase-apply exits client q timed = elim (Bool-cases client.dispose_requested) [
    | inl d ↦ elim (Bool-cases client.ready_resolved) [
      | inl k ↦ rw (d, k) (lose-none (get_entry q client.settled) (get_entry q client.pending))
      | inr k ↦ rw (d, k) (lose-none (get_entry q client.settled) (get_entry q client.pending))
    ]
    | inr d ↦ elim (Bool-cases client.ready_resolved) [
      | inl k ↦ rw (d, k) (phase-reject_all q error client.settled client.pending)
      | inr k ↦ rw (d, k) (phase-reject_all q error client.settled client.pending)
    ]
  ]
  phase-apply disposes client q timed = phase-reject_all q error client.settled client.pending

  Phases-ext :
      (a b : Phases) → a.is_disposed ≡ b.is_disposed → ((q : String) → a.at q ≡ b.at q) → a ≡ b
  Phases-ext a b h f =
      ap (λ d. record { is_disposed = d; at = a.at }) h
      ∙ ap (λ g. record { is_disposed = b.is_disposed; at = g }) (fun_ext f)

  -- One event of the client is one step of the phases of its requests.
  apply_refines :
      (event : Event) (client : Client)
      → IsTimed client
      → view (apply from_base64 event client) ≡ next event (view client)
  apply_refines event client timed =
      Phases-ext (view (apply from_base64 event client)) (next event (view client))
        (apply-disposed from_base64 event client) (λ q. phase-apply event client q timed)

  -- Where every request that waits has an armed timer, the phases that can be read off the client
  -- after any sequence of events are those that the specification, without maps, timers and logs,
  -- goes through from the phases before it.
  pub run_refines :
      (events : List Event) (client : Client)
      → IsTimed client
      → view (run from_base64 events client) ≡ replay events (view client)
  unfolding run
  run_refines [] client timed = refl
  run_refines (event ∷ events) client timed =
      run_refines events (apply from_base64 event client)
        (apply-IsTimed from_base64 event client timed)
      ∙ ap (replay events) (apply_refines event client timed)
