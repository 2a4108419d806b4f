-- ===== src/Helper/Client/Answers.antt =====
-- What becomes of a request to the client of src/bluetooth/helper-client.ts.
use bluetti_mqtt_node.Common.{
  ℕ, ◌≡◌, sym, ◌≤◌, none, some, arith, ap, ◌∙◌, true, false, List, [], ◌∷◌, ◌++◌, Option, String,
  All,
}
use bluetti_mqtt_node.Common.StringMap.{get_entry, str_eq_refl}
use bluetti_mqtt_node.Common.Occurrences.{values_of}
use bluetti_mqtt_node.Errors.{Error, bad_connection_error, Result}
use bluetti_mqtt_node.App.Runner.{Done}
use bluetti_mqtt_node.Helper.Json.{Json}
use bluetti_mqtt_node.Helper.Client.{Client, Reply, rejected}
use bluetti_mqtt_node.Helper.Client.Phases.{
  Event, registers, expires, exits, idle, waiting, answered, phase_of, phase, run, next, replay,
  view, IsTimed,
}
use bluetti_mqtt_node.Helper.Client.Once.{
  begun, IsFresh, run_le, run-append, begun_le, settled_once, settlements,
}
use bluetti_mqtt_node.Helper.Client.Refinement.{run_refines}
use bluetti_mqtt_node.Helper.Client.Replay.{
  Leaves, IsReadable, Tended, replay-answered, replay-idle, replay-Tended, Tended-answer,
  replay-append,
}

answered-settled :
    (log : Option Reply) (entry : Option Done) (reply : Reply)
    → phase_of log entry ≡ answered reply
    → log ≡ some reply
answered-settled none none reply h = cc
answered-settled none (some done) reply h = cc
answered-settled (some first) entry reply h = cc

module _ (from_base64 : Option Json → Result (List ℕ)) where
  at_run :
      (events : List Event) (client : Client) (q : String)
      → IsTimed client
      → phase (run from_base64 events client) q ≡ (replay events (view client)).at q
  at_run events client q timed = ap (λ v. v.at q) (run_refines from_base64 events client timed)

  few :
      (events later : List Event) (client : Client) (id : String) (failure : Option Error)
      → IsFresh id client
      → All (Leaves id) events
      → All (Leaves id) later
      → settlements id (run from_base64 ((begun id failure ++ events) ++ later) client) ≤ 1
  few events later client id failure fresh leave later_leave =
      let started = run from_base64 (begun id failure) client in
      let middle = run from_base64 events started in
      let one = begun_le from_base64 id failure client fresh in
      let no_more = run_le from_base64 events id started leave in
      let none_later = run_le from_base64 later id middle later_leave in
      let bound : settlements id (run from_base64 later middle) ≤ 1 = omega arith in
      rw
        (
          run-append from_base64 (begun id failure ++ events) later client,
          run-append from_base64 (begun id failure) events client,
        )
        bound

  -- A request that was not there before starts, its line is written or not, and it is answered
  -- after some events. Whatever events come later, none of them a start of that request: its
  -- promise is settled once in all, with that answer, and it has no entry.
  pub answer_is_final :
      (events later : List Event) (client : Client) (id : String) (failure : Option Error)
      (reply : Reply)
      → IsTimed client
      → IsFresh id client
      → All (Leaves id) events
      → All (Leaves id) later
      → phase (run from_base64 (begun id failure ++ events) client) id ≡ answered reply
      → let after = run from_base64 ((begun id failure ++ events) ++ later) client in
        (values_of id after.settled ≡ reply ∷ []) × (get_entry id after.pending ≡ none)
  answer_is_final events later client id failure reply timed fresh leave later_leave h =
      let first = begun id failure ++ events in
      let before = replay first (view client) in
      let answered_before = sym (at_run first client id timed) ∙ h in
      let still =
        at_run (first ++ later) client id timed
        ∙ ap (λ v. v.at id) (replay-append first later (view client))
        ∙ replay-answered later before id reply answered_before in
      let after = run from_base64 (first ++ later) client in
      settled_once id reply after (few events later client id failure fresh leave later_leave)
        (answered-settled (get_entry id after.settled) (get_entry id after.pending) reply still)

  -- A request that waits, in a client that is not disposed of, has an answer once its deadline has
  -- passed, whatever happened before, if every answer to it in between can be read.
  pub deadline_answers :
      (events : List Event) (client : Client) (id : String)
      → IsTimed client
      → client.dispose_requested ≡ false
      → phase client id ≡ waiting
      → All (IsReadable id) events
      → (reply : Reply) × (phase (run from_base64 (events ++ expires id ∷ []) client) id
          ≡ answered reply)
  unfolding Tended
  deadline_answers events client id timed live waits readable =
      let t = replay-Tended events (view client) id readable (rw waits live) in
      let before = replay events (view client) in
      let (reply, e) =
        Tended-answer before.is_disposed (rejected bad_connection_error) (before.at id) t in
      let here : (next (expires id) before).at id ≡ answered reply = rw (str_eq_refl id) e in
      (
        reply,
        at_run (events ++ expires id ∷ []) client id timed
            ∙ ap (λ v. v.at id) (replay-append events (expires id ∷ []) (view client))
            ∙ here,
      )

  -- A request registered after `dispose` gets no answer once the process has exited, whatever
  -- happens afterwards.
  pub late_request_is_lost :
      (events : List Event) (client : Client) (id : String)
      → IsTimed client
      → client.dispose_requested ≡ true
      → phase client id ≡ idle
      → All (Leaves id) events
      → phase (run from_base64 (registers id ∷ exits ∷ events) client) id ≡ idle
  late_request_is_lost events client id timed disposed fresh leave =
      at_run (registers id ∷ exits ∷ events) client id timed
      ∙ replay-idle events (next exits (next (registers id) (view client))) id leave
          (rw (disposed, str_eq_refl id, fresh))
