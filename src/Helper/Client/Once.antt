-- ===== src/Helper/Client/Once.antt =====
-- How often a promise of the client of src/bluetooth/helper-client.ts is settled.
use text.Mathlib.Text.{◌==◌ as str_eq}
use bluetti_mqtt_node.Common.{
  ℕ, suc, ◌+◌, ◌≤◌, ◌≡◌, refl, sym, ap, subst, true, List, [], ◌∷◌, ◌++◌, Option, none, some,
  String, Bool-cases, inl, inr, arith, All,
}
use bluetti_mqtt_node.Common.StringMap.{
  StringMap, get_entry, set_entry, delete_entry, is_some, str_eq_refl, str_eq_path,
}
use bluetti_mqtt_node.Errors.{Error, error, bad_connection_error, Result, ok, throws, Result-cases}
use bluetti_mqtt_node.App.Runner.{Done}
use bluetti_mqtt_node.Helper.Json.{
  Json, null, boolean, number, string, array, object, property, is_text, optional_property,
}
use bluetti_mqtt_node.Helper.Client.{
  Client, Reply, rejected, all_rejected, register_request, write_throws, deadline_passes,
  process_error, process_exits, dispose, reject_pending_requests, settle_ready_with,
}
use bluetti_mqtt_node.Helper.Client.Router.{reply_of, route_reply, route_typed, route_helper_line}
use bluetti_mqtt_node.Helper.Client.Events.{event_requests}
use bluetti_mqtt_node.Helper.Client.Phases.{
  Event, registers, fails_to_write, expires, hears, breaks, loses_stdin, exits, disposes, apply,
  run,
}
use bluetti_mqtt_node.Helper.Client.Replay.{Leaves}
use bluetti_mqtt_node.Common.Occurrences.{
  occurrences, values_of, is_some-cases, occurrences-append, occurrences-delete_le,
  occurrences-delete_same, absent-occurrences, occurrences-found, occurrences-set,
  occurrences-absent, occurrences-set_other,
}

occurrences-all_rejected :
    (key : String) (e : Error) (pending : StringMap Done)
    → occurrences key (all_rejected e pending) ≡ occurrences key pending
occurrences-all_rejected key e [] = refl
occurrences-all_rejected key e ((k, entry) ∷ pending) =
    let rest = occurrences-all_rejected key e pending in
    elim (Bool-cases (str_eq k key)) [ inl h ↦ rw h (ap suc rest) | inr h ↦ rw h rest ]

-- How often a request's promise has been settled, and how often it may still be.
abbrev pub settlements : String → Client → ℕ
settlements id client = occurrences id client.settled + occurrences id client.pending

-- An entry goes, and its promise is settled.
settle_le :
    (id q : String) (reply : Reply) (settled : StringMap Reply) (pending : StringMap Done)
    → is_some (get_entry q pending) ≡ true
    → occurrences id (settled ++ (q, reply) ∷ []) + occurrences id (delete_entry q pending)
      ≤ occurrences id settled + occurrences id pending
settle_le id q reply settled pending there = elim (Bool-cases (str_eq q id)) [
  | inl e ↦
      let same = str_eq_path q id e in
      let (done, found) = is_some-cases (get_entry q pending) there in
      let (n, more, _) =
        occurrences-found id pending done
          (subst (λ x. get_entry x pending ≡ some done) same found) in
      let gone =
        subst (λ x. occurrences id (delete_entry x pending) ≡ 0) (sym same)
          (occurrences-delete_same id pending) in
      rw (occurrences-append id settled ((q, reply) ∷ []), gone, more, e) (omega arith)
  | inr e ↦
      let fewer = occurrences-delete_le id q pending in
      rw (occurrences-append id settled ((q, reply) ∷ []), e) (omega arith)
]

reject_all_le :
    (id : String) (e : Error) (client : Client)
    → settlements id (reject_pending_requests e client) ≤ settlements id client
unfolding reject_pending_requests
reject_all_le id e client =
    rw
      (
        occurrences-append id client.settled (all_rejected e client.pending),
        occurrences-all_rejected id e client.pending,
      )
      (omega arith)

forget_le :
    (id q : String) (client : Client)
    → occurrences id client.settled + occurrences id (delete_entry q client.pending)
      ≤ settlements id client
forget_le id q client = let fewer = occurrences-delete_le id q client.pending in omega arith

deadline_le :
    (id q : String) (client : Client)
    → settlements id (deadline_passes q client) ≤ settlements id client
unfolding deadline_passes
deadline_le id q client = elim (Bool-cases (is_some (get_entry q client.timers))) [
  | inl on ↦ elim (Bool-cases (is_some (get_entry q client.pending))) [
    | inl h ↦
        rw (on, h) (settle_le id q (rejected bad_connection_error) client.settled client.pending h)
    | inr h ↦ rw (on, h) (forget_le id q client)
  ]
  | inr off ↦ rw off (omega arith)
]

reply_le :
    (message : Json) (q : Option Json) (id : String) (client : Client)
    → settlements id (route_reply message q client).1 ≤ settlements id client
unfolding route_reply
reply_le message (some (string q)) id client =
    elim (Bool-cases (is_some (get_entry q client.pending))) [
      | inl h ↦ elim (Result-cases (reply_of message)) [
        | inl (reply, e) ↦ rw (h, e) (settle_le id q reply client.settled client.pending h)
        | inr (x, e) ↦ rw (h, e) (forget_le id q client)
      ]
      | inr h ↦ rw h (omega arith)
    ]
reply_le message none id client = omega arith
reply_le message (some null) id client = omega arith
reply_le message (some (boolean b)) id client = omega arith
reply_le message (some (number n)) id client = omega arith
reply_le message (some (array items)) id client = omega arith
reply_le message (some (object fields)) id client = omega arith

module _ (from_base64 : Option Json → Result (List ℕ)) where
  line_le :
      (line : Option Json) (id : String) (client : Client)
      → settlements id (route_helper_line from_base64 line client).1 ≤ settlements id client
  unfolding route_helper_line route_typed settle_ready_with
  line_le none id client = elim (Bool-cases client.ready_resolved) [
    | inl e ↦ rw e (omega arith)
    | inr e ↦ rw e (omega arith)
  ]
  line_le (some message) id client = typed_le (property "type" message)
    where
      typed_le :
          (type : Result (Option Json))
          → settlements id (route_typed from_base64 type message client).1 ≤ settlements id client
      typed_le (throws e) = omega arith
      typed_le (ok type) = elim (Bool-cases (is_text "event" type)) [
        | inl e ↦
            let kept =
              ap (λ r. occurrences id r.2 + occurrences id r.0)
                (event_requests from_base64 (optional_property "name" (some message))
                  (optional_property "payload" (some message)) client) in
            rw (e, kept) (omega arith)
        | inr e ↦ rw e (reply_le message (optional_property "id" (some message)) id client)
      ]

  -- No event but the start of the request itself adds a settlement of its promise.
  apply_le :
      (event : Event) (id : String) (client : Client)
      → Leaves id event
      → settlements id (apply from_base64 event client) ≤ settlements id client
  unfolding apply register_request write_throws process_error process_exits dispose
      reject_pending_requests settle_ready_with Leaves
  apply_le (registers q) id client other =
      rw (occurrences-set_other id q tt client.pending other) (omega arith)
  apply_le (fails_to_write q e) id client other =
      let fewer = forget_le id q client in
      rw (occurrences-append id client.settled ((q, rejected e) ∷ []), other) (omega arith)
  apply_le (expires q) id client other = deadline_le id q client
  apply_le (hears line) id client other = line_le line id client
  apply_le (breaks e) id client other = elim (Bool-cases client.ready_resolved) [
    | inl k ↦ rw k (reject_all_le id e client)
    | inr k ↦ rw k (reject_all_le id e client)
  ]
  apply_le (loses_stdin e) id client other = reject_all_le id e client
  apply_le exits id client other = elim (Bool-cases client.dispose_requested) [
    | inl d ↦ elim (Bool-cases client.ready_resolved) [
      | inl k ↦ rw (d, k) (omega arith)
      | inr k ↦ rw (d, k) (omega arith)
    ]
    | inr d ↦ elim (Bool-cases client.ready_resolved) [
      | inl k ↦ rw (d, k) (reject_all_le id error client)
      | inr k ↦ rw (d, k) (reject_all_le id error client)
    ]
  ]
  apply_le disposes id client other = reject_all_le id error client

  pub run_le :
      (events : List Event) (id : String) (client : Client)
      → All (Leaves id) events
      → settlements id (run from_base64 events client) ≤ settlements id client
  unfolding run
  run_le [] id client leave = omega arith
  run_le (event ∷ events) id client (leaves, leave) =
      let one = apply_le event id client leaves in
      let rest = run_le events id (apply from_base64 event client) leave in omega arith

  pub run-append :
      (before after : List Event) (client : Client)
      → run from_base64 (before ++ after) client
        ≡ run from_base64 after (run from_base64 before client)
  unfolding run
  run-append [] after client = refl
  run-append (event ∷ before) after client =
      run-append before after (apply from_base64 event client)

-- Neither settled nor waiting.
abbrev pub IsFresh : String → Client → Type 0
IsFresh id client = (get_entry id client.settled ≡ none) × (get_entry id client.pending ≡ none)

-- A request starts; it may be that its line cannot be written.
abbrev pub begun : String → Option Error → List Event
begun id none = registers id ∷ []
begun id (some e) = registers id ∷ fails_to_write id e ∷ []

module _ (from_base64 : Option Json → Result (List ℕ)) where
  pub begun_le :
      (id : String) (failure : Option Error) (client : Client)
      → IsFresh id client
      → settlements id (run from_base64 (begun id failure) client) ≤ 1
  unfolding run apply register_request write_throws
  begun_le id none client (unsettled, absent) =
      let none_yet = absent-occurrences id client.settled unsettled in
      let one = occurrences-set id tt client.pending absent in omega arith
  begun_le id (some e) client (unsettled, absent) =
      let none_yet = absent-occurrences id client.settled unsettled in
      let gone = occurrences-delete_same id (set_entry id tt client.pending) in
      rw
        (
          occurrences-append id client.settled ((id, rejected e) ∷ []),
          str_eq_refl id,
          none_yet,
          gone,
        )
        (omega arith)

-- A promise that has been settled, and may be settled once at most, has one settlement and no entry.
pub settled_once :
    (id : String) (reply : Reply) (client : Client)
    → settlements id client ≤ 1
    → get_entry id client.settled ≡ some reply
    → (values_of id client.settled ≡ reply ∷ []) × (get_entry id client.pending ≡ none)
settled_once id reply client few found =
    let (n, one, only) = occurrences-found id client.settled reply found in
    (only (omega arith), occurrences-absent id client.pending (omega arith))
