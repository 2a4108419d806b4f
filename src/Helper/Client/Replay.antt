-- ===== src/Helper/Client/Replay.antt =====
-- What the phases of a request to the client of src/bluetooth/helper-client.ts keep.
use text.Mathlib.Text.{◌==◌ as str_eq}
use bluetti_mqtt_node.Common.{
  ◌≡◌, ◌⊎◌, refl, subst, Bool, true, false, List, [], ◌∷◌, ◌++◌, if◌then◌else◌, Option, none, some,
  String, Bool-cases, inl, inr, All,
}
use bluetti_mqtt_node.Errors.{error, bad_connection_error, Result, ok, throws}
use bluetti_mqtt_node.Helper.Json.{
  Json, null, boolean, number, string, array, object, property, is_text, optional_property,
}
use bluetti_mqtt_node.Helper.Client.{Reply, rejected}
use bluetti_mqtt_node.Helper.Client.Router.{reply_of}
use bluetti_mqtt_node.Helper.Client.Phases.{
  Event, registers, fails_to_write, expires, hears, breaks, loses_stdin, exits, disposes, Phase,
  idle, waiting, answered, Phases, ask, answer, lose, conclude, reply_change, hear, hear_typed,
  hear_reply, next, replay,
}

-- What holds of a request's phase and of the flag, and is kept by a change at a request.
at_lem :
    (P : Phase → Type 0) (id q : String) (x z : Phase)
    → (str_eq id q ≡ true → P x)
    → P z
    → P (if str_eq id q then x else z)
at_lem P id q x z f p = elim (Bool-cases (str_eq id q)) [ inl e ↦ rw e (f e) | inr e ↦ rw e p ]

-- A line keeps what its change at its request keeps.
module _ (P : Phase → Type 0) (q : String) where
  hear_keeps :
      (line : Option Json)
      → ((message : Json) (x : Phase)
          → line ≡ some message
          → is_text q (optional_property "id" line) ≡ true
          → P x
          → P (reply_change (reply_of message) x))
      → (phases : Phases) → P (phases.at q)
      → P ((hear line phases).at q)
  hear_keeps none loses phases p = p
  hear_keeps (some message) loses phases p = typed (property "type" message)
    where
      replied :
          (given : Option Json)
          → given ≡ optional_property "id" (some message)
          → P ((hear_reply message given phases).at q)
      replied none e = p
      replied (some null) e = p
      replied (some (boolean b)) e = p
      replied (some (number n)) e = p
      replied (some (array items)) e = p
      replied (some (object fields)) e = p
      replied (some (string id)) e =
          at_lem P id q (reply_change (reply_of message) (phases.at q)) (phases.at q)
            (λ same. loses message (phases.at q) refl (subst (λ o. is_text q o ≡ true) e same) p) p

      typed : (type : Result (Option Json)) → P ((hear_typed type message phases).at q)
      typed (throws e) = p
      typed (ok type) = elim (Bool-cases (is_text "event" type)) [
        | inl e ↦ rw e p
        | inr e ↦ rw e (replied (optional_property "id" (some message)) refl)
      ]

-- The event starts no request of this name.
unfoldable pub Leaves : String → Event → Type 0
Leaves q (registers id) = str_eq id q ≡ false
Leaves q (fails_to_write id e) = str_eq id q ≡ false
Leaves q _ = Unit

module _ (P : Phase → Type 0) (q : String)
    (answers : (reply : Reply) (x : Phase) → P x → P (answer reply x))
    (loses : (x : Phase) → P x → P (lose x)) where
  changes : (r : Result Reply) (x : Phase) → P x → P (reply_change r x)
  changes (ok reply) x p = answers reply x p
  changes (throws e) x p = loses x p

  next_keeps :
      (event : Event) (phases : Phases)
      → Leaves q event
      → P (phases.at q)
      → P ((next event phases).at q)
  unfolding Leaves
  next_keeps (registers id) phases other p = rw other p
  next_keeps (fails_to_write id e) phases other p = rw other p
  next_keeps (expires id) phases other p =
      at_lem P id q (answer (rejected bad_connection_error) (phases.at q)) (phases.at q)
        (λ same. answers (rejected bad_connection_error) (phases.at q) p) p
  next_keeps (hears line) phases other p =
      hear_keeps P q line (λ message x there same k. changes (reply_of message) x k) phases p
  next_keeps (breaks e) phases other p = answers (rejected e) (phases.at q) p
  next_keeps (loses_stdin e) phases other p = answers (rejected e) (phases.at q) p
  next_keeps exits phases other p = elim (Bool-cases phases.is_disposed) [
    | inl d ↦ rw d (loses (phases.at q) p)
    | inr d ↦ rw d (answers (rejected error) (phases.at q) p)
  ]
  next_keeps disposes phases other p = answers (rejected error) (phases.at q) p

answer_kept :
    (reply : Reply) (r : Reply) (x : Phase) → x ≡ answered reply → answer r x ≡ answered reply
answer_kept reply r x h = rw h

lose_kept : (reply : Reply) (x : Phase) → x ≡ answered reply → lose x ≡ answered reply
lose_kept reply x h = rw h

pub replay-answered :
    (events : List Event) (phases : Phases) (q : String) (reply : Reply)
    → phases.at q ≡ answered reply
    → (replay events phases).at q ≡ answered reply
unfolding Leaves
replay-answered [] phases q reply h = h
replay-answered (event ∷ events) phases q reply h =
    replay-answered events (next event phases) q reply (go event)
  where
    other : (e : Event) → Leaves q e → (next e phases).at q ≡ answered reply
    other e leaves =
        next_keeps (λ x. x ≡ answered reply) q (answer_kept reply) (lose_kept reply) e phases leaves
          h

    go : (e : Event) → (next e phases).at q ≡ answered reply
    go (registers id) =
        at_lem (λ x. x ≡ answered reply) id q (ask (phases.at q)) (phases.at q) (λ same. rw h) h
    go (fails_to_write id e) =
        at_lem (λ x. x ≡ answered reply) id q (conclude (rejected e) (phases.at q)) (phases.at q)
          (λ same. rw h) h
    go (expires id) = other (expires id) tt
    go (hears line) = other (hears line) tt
    go (breaks e) = other (breaks e) tt
    go (loses_stdin e) = other (loses_stdin e) tt
    go exits = other exits tt
    go disposes = other disposes tt

pub replay-idle :
    (events : List Event) (phases : Phases) (q : String)
    → All (Leaves q) events
    → phases.at q ≡ idle
    → (replay events phases).at q ≡ idle
replay-idle [] phases q leave h = h
replay-idle (event ∷ events) phases q (leaves, leave) h =
    replay-idle events (next event phases) q leave
      (next_keeps (λ x. x ≡ idle) q (λ r x e. rw e) (λ x e. rw e) event phases leaves h)

-- While the client is not disposed, a request that waits may go on waiting.
unfoldable pub Tended : Bool → Phase → Type 0
Tended d idle = ⊥
Tended d waiting = d ≡ false
Tended d (answered reply) = Unit

-- An answer to this request that the event brings can be read.
unfoldable pub IsReadable : String → Event → Type 0
IsReadable q (hears (some message)) =
    ((reply : Reply) × (reply_of message ≡ ok reply))
    ⊎ (is_text q (optional_property "id" (some message)) ≡ false)
IsReadable q _ = Unit

answer-Tended : (d : Bool) (r : Reply) (x : Phase) → Tended d x → Tended d (answer r x)
unfolding Tended
answer-Tended d r idle t = t
answer-Tended d r waiting t = tt
answer-Tended d r (answered reply) t = tt

-- Once the client is disposed of, no request waits.
close-Tended : (d : Bool) (r : Reply) (x : Phase) → Tended d x → Tended true (answer r x)
unfolding Tended
close-Tended d r idle t = t
close-Tended d r waiting t = tt
close-Tended d r (answered reply) t = tt

lose-Tended : (x : Phase) → Tended true x → Tended true (lose x)
unfolding Tended
lose-Tended idle t = t
lose-Tended waiting t = absurd (cc)
lose-Tended (answered reply) t = tt

ask-Tended : (d : Bool) (x : Phase) → Tended d x → Tended d (ask x)
unfolding Tended
ask-Tended d idle t = absurd t
ask-Tended d waiting t = t
ask-Tended d (answered reply) t = tt

conclude-Tended : (d : Bool) (r : Reply) (x : Phase) → Tended d x → Tended d (conclude r x)
unfolding Tended
conclude-Tended d r idle t = tt
conclude-Tended d r waiting t = tt
conclude-Tended d r (answered reply) t = tt

readable-Tended :
    (d : Bool) (message : Json) (q : String) (x : Phase)
    → IsReadable q (hears (some message))
    → is_text q (optional_property "id" (some message)) ≡ true
    → Tended d x
    → Tended d (reply_change (reply_of message) x)
unfolding IsReadable
readable-Tended d message q x (inl (reply, e)) same t = rw e (answer-Tended d reply x t)
readable-Tended d message q x (inr differs) same t = absurd (cc)

hear_flag :
    (line : Option Json) (phases : Phases) → (hear line phases).is_disposed ≡ phases.is_disposed
hear_flag none phases = refl
hear_flag (some message) phases = typed (property "type" message)
  where
    replied : (id : Option Json) → (hear_reply message id phases).is_disposed ≡ phases.is_disposed
    replied none = refl
    replied (some null) = refl
    replied (some (boolean b)) = refl
    replied (some (number n)) = refl
    replied (some (string id)) = refl
    replied (some (array items)) = refl
    replied (some (object fields)) = refl

    typed :
        (type : Result (Option Json))
        → (hear_typed type message phases).is_disposed ≡ phases.is_disposed
    typed (throws e) = refl
    typed (ok type) = elim (Bool-cases (is_text "event" type)) [
      | inl e ↦ rw e
      | inr e ↦ rw e (replied (optional_property "id" (some message)))
    ]

next-Tended :
    (event : Event) (phases : Phases) (q : String)
    → IsReadable q event
    → Tended phases.is_disposed (phases.at q)
    → Tended (next event phases).is_disposed ((next event phases).at q)
unfolding IsReadable
next-Tended (registers id) phases q readable t =
    at_lem (Tended phases.is_disposed) id q (ask (phases.at q)) (phases.at q)
      (λ same. ask-Tended phases.is_disposed (phases.at q) t) t
next-Tended (fails_to_write id e) phases q readable t =
    at_lem (Tended phases.is_disposed) id q (conclude (rejected e) (phases.at q)) (phases.at q)
      (λ same. conclude-Tended phases.is_disposed (rejected e) (phases.at q) t) t
next-Tended (expires id) phases q readable t =
    at_lem (Tended phases.is_disposed) id q (answer (rejected bad_connection_error) (phases.at q))
      (phases.at q)
      (λ same. answer-Tended phases.is_disposed (rejected bad_connection_error) (phases.at q) t) t
next-Tended (hears line) phases q readable t = rw (hear_flag line phases) (
    hear_keeps (Tended phases.is_disposed) q line
      (λ message x there same k.
        readable-Tended phases.is_disposed message q x
          (subst (λ l. IsReadable q (hears l)) there readable)
          (subst (λ l. is_text q (optional_property "id" l) ≡ true) there same) k)
      phases t)
next-Tended (breaks e) phases q readable t =
    answer-Tended phases.is_disposed (rejected e) (phases.at q) t
next-Tended (loses_stdin e) phases q readable t =
    answer-Tended phases.is_disposed (rejected e) (phases.at q) t
next-Tended exits phases q readable t = exited phases.is_disposed t
  where
    exited :
        (d : Bool)
        → Tended d (phases.at q)
        → Tended d ((if d then lose else answer (rejected error)) (phases.at q))
    exited true k = lose-Tended (phases.at q) k
    exited false k = answer-Tended false (rejected error) (phases.at q) k
next-Tended disposes phases q readable t =
    close-Tended phases.is_disposed (rejected error) (phases.at q) t

pub replay-Tended :
    (events : List Event) (phases : Phases) (q : String)
    → All (IsReadable q) events
    → Tended phases.is_disposed (phases.at q)
    → Tended (replay events phases).is_disposed ((replay events phases).at q)
replay-Tended [] phases q readable t = t
replay-Tended (event ∷ events) phases q (r, readable) t =
    replay-Tended events (next event phases) q readable (next-Tended event phases q r t)

pub Tended-answer :
    (d : Bool) (r : Reply) (x : Phase)
    → Tended d x
    → (reply : Reply) × (answer r x ≡ answered reply)
unfolding Tended
Tended-answer d r idle t = absurd t
Tended-answer d r waiting t = (r, refl)
Tended-answer d r (answered reply) t = (reply, refl)

pub replay-append :
    (before after : List Event) (phases : Phases)
    → replay (before ++ after) phases ≡ replay after (replay before phases)
replay-append [] after phases = refl
replay-append (event ∷ before) after phases = replay-append before after (next event phases)
