-- ===== src/Session/Connect/Laws.antt =====
-- How often `connectAndInitialize` of src/bluetooth/device-session.ts tries, and what it leaves.
use bluetti_mqtt_node.Common.{
  ℕ, zero, suc, ◌+◌, ◌-◌, ◌≤◌, ◌<◌, ◌≡◌, ◌⊎◌, inl, inr, refl, sym, ap, ◌∙◌, subst, true, false,
  ◌&&◌, List, ltb, none, some, arith, Bool-cases, and-true, ℕ_discrete,
}
use bluetti_mqtt_node.Session.{
  Session, ready, not_connected, transport_connected, name_read, subscribed, attempt_failed,
  to_ascii,
}
use bluetti_mqtt_node.Session.Connect.{
  Thrown, after_try, Answer, gives, fails, Attempt, is_retryable_initialization_error, try_once,
  after_connect, connect_retry_count, Connected, connect_loop, connect_and_initialize,
}

-- What one attempt answers: the first failure of its three calls, if any.
abbrev pub attempt_answer_of :
    Answer (Unit {0}) → Answer (List ℕ) → Answer (Unit {0}) → Answer (Unit {0})
attempt_answer_of (fails e) name subscribe = fails e
attempt_answer_of (gives u) (fails e) subscribe = fails e
attempt_answer_of (gives u) (gives raw) (fails e) = fails e
attempt_answer_of (gives u) (gives raw) (gives u') = gives tt

abbrev pub attempt_answer : Attempt → Answer (Unit {0})
attempt_answer a = attempt_answer_of a.connect a.read_name a.subscribe

try_once-answer : (a : Attempt) (s : Session) → (try_once a s).answer ≡ attempt_answer a
unfolding try_once
try_once-answer a s = go a.connect a.read_name a.subscribe
  where
    go :
        (x : Answer (Unit {0})) (y : Answer (List ℕ)) (z : Answer (Unit {0}))
        → (after_connect s (record { connect = x; read_name = y; subscribe = z }) x).answer
          ≡ attempt_answer_of x y z
    go (fails e) y z = refl
    go (gives u) (fails e) z = refl
    go (gives u) (gives raw) (fails e) = refl
    go (gives u) (gives raw) (gives u') = refl

-- The result of the loop from attempt `n` on, when attempt `k` is the last that is made.
pub record Ends (n k : ℕ) (transport : ℕ → Attempt) (r : Connected) : Type 0 where
  pub from : n ≤ k
  pub few : k < connect_retry_count
  pub retried :
      (j : ℕ)
      → n ≤ j
      → j < k
      → (e : Thrown) × (attempt_answer (transport j) ≡ fails e)
        × (is_retryable_initialization_error e.message ≡ true)
  pub answered : r.answer ≡ attempt_answer (transport k)
  pub attempts : r.attempts ≡ suc k
  pub final :
      (e : Thrown)
      → r.answer ≡ fails e
      → (suc k ≡ connect_retry_count) ⊎ (is_retryable_initialization_error e.message ≡ false)

-- A round that is the last.
stops :
    (n : ℕ) (transport : ℕ → Attempt) (r : Connected)
    → n < connect_retry_count
    → r.answer ≡ attempt_answer (transport n)
    → r.attempts ≡ suc n
    → ((e : Thrown)
        → r.answer ≡ fails e
        → (suc n ≡ connect_retry_count) ⊎ (is_retryable_initialization_error e.message ≡ false))
    → (k : ℕ) × Ends n k transport r
stops n transport r few a b f = (
  n,
  record {
    from = omega arith;
    few = few;
    retried = λ j from below. absurd (omega arith);
    answered = a;
    attempts = b;
    final = f;
  },
)

-- A round before others.
goes_on :
    (n k : ℕ) (transport : ℕ → Attempt) (r : Connected) (x : Thrown)
    → attempt_answer (transport n) ≡ fails x
    → is_retryable_initialization_error x.message ≡ true
    → Ends (suc n) k transport r
    → Ends n k transport r
goes_on n k transport r x a b rest = record {
  from = omega (arith, rest.from);
  few = rest.few;
  retried = retried;
  answered = rest.answered;
  attempts = rest.attempts;
  final = rest.final;
}
  where
    retried :
        (j : ℕ)
        → n ≤ j
        → j < k
        → (e : Thrown) × (attempt_answer (transport j) ≡ fails e)
          × (is_retryable_initialization_error e.message ≡ true)
    retried j from below = elim (ℕ_discrete n j) [
      | yes same ↦ (x, ap (λ i. attempt_answer (transport i)) (sym same) ∙ a, b)
      | no other ↦ rest.retried j (omega arith) below
    ]

round-Ends :
    (n : ℕ) (transport : ℕ → Attempt) (s : Session) (again : Thrown → Connected)
    (answer : Answer (Unit {0}))
    → answer ≡ attempt_answer (transport n)
    → n < connect_retry_count
    → ((x : Thrown) → suc n < connect_retry_count → (k : ℕ) × Ends (suc n) k transport (again x))
    → (k : ℕ) × Ends n k transport (after_try n s again answer)
round-Ends n transport s again (gives u) e few more =
    stops n transport _ few e refl (λ x h. absurd (given x h))
  where
    given : (x : Thrown) → ◌≡◌ {A = Answer (Unit {0})} (gives tt) (fails x) → ⊥
    given x h = cc
round-Ends n transport s again (fails x) e few more =
    elim (Bool-cases
      (ltb n (connect_retry_count - 1) && is_retryable_initialization_error x.message)) [
        | inl yes_again ↦
            let (early, retryable) = and-true (ltb n (connect_retry_count - 1)) _ yes_again in
            let (k, rest) = more x (ground arith) in
            rw yes_again (k, goes_on n k transport (again x) x (sym e) retryable rest)
        | inr no_more ↦ rw no_more (stops n transport _ few e refl (λ y h. why (same y h) no_more))
      ]
  where
    same : (y : Thrown) → ◌≡◌ {A = Answer (Unit {0})} (fails x) (fails y) → x ≡ y
    same y h = cc

    why :
        {y : Thrown}
        → x ≡ y
        → (ltb n (connect_retry_count - 1) && is_retryable_initialization_error x.message) ≡ false
        → (suc n ≡ connect_retry_count) ⊎ (is_retryable_initialization_error y.message ≡ false)
    why {y} eq no_more =
        subst
          (λ z.
            (suc n ≡ connect_retry_count) ⊎ (is_retryable_initialization_error z.message ≡ false))
          eq (ground arith)

loop-Ends :
    (left n : ℕ) (last : Thrown) (transport : ℕ → Attempt) (s : Session)
    → suc left + n ≡ connect_retry_count
    → (k : ℕ) × Ends n k transport (connect_loop (suc left) n last transport s)
unfolding connect_loop
loop-Ends zero n last transport s total =
    round-Ends n transport _ _ (try_once (transport n) s).answer (try_once-answer (transport n) s)
      (omega arith) (λ x more. absurd (omega arith))
loop-Ends (suc left) n last transport s total =
    round-Ends n transport _ _ (try_once (transport n) s).answer (try_once-answer (transport n) s)
      (omega arith) (λ x more. loop-Ends left (suc n) x transport _ (omega arith))

-- `connectAndInitialize` makes attempts up to the first that succeeds, that fails with an error
-- which is not to be retried, or that is the third; it returns or throws what that attempt answers.
pub connect-Ends :
    (null_error : Thrown) (transport : ℕ → Attempt) (s : Session)
    → (k : ℕ) × Ends 0 k transport (connect_and_initialize null_error transport s)
unfolding connect_and_initialize
connect-Ends null_error transport s = loop-Ends 2 0 null_error transport s refl

-- What the session is like after success and after failure.
abbrev pub Left : (ℕ → Attempt) → Connected → Type 0
Left transport r =
    ((r.answer ≡ gives tt)
      × (r.session.state ≡ ready)
      × ((k : ℕ) × (raw : List ℕ) × (r.attempts ≡ suc k)
          × ((transport k).read_name ≡ gives raw)
          × (r.session.name ≡ some (to_ascii raw))))
    ⊎ ((e : Thrown) × (r.answer ≡ fails e)
        × (r.session.state ≡ not_connected)
        × (r.session.name ≡ none)
        × (r.session.pending_response ≡ none))

try_once-ready :
    (a : Attempt) (s : Session)
    → (try_once a s).answer ≡ gives tt
    → ((try_once a s).session.state ≡ ready)
      × ((raw : List ℕ) × (a.read_name ≡ gives raw)
          × ((try_once a s).session.name ≡ some (to_ascii raw)))
unfolding try_once transport_connected name_read subscribed
try_once-ready a s = go a.connect a.read_name a.subscribe
  where
    go :
        (x : Answer (Unit {0})) (y : Answer (List ℕ)) (z : Answer (Unit {0}))
        → (after_connect s (record { connect = x; read_name = y; subscribe = z }) x).answer
          ≡ gives tt
        → let t = after_connect s (record { connect = x; read_name = y; subscribe = z }) x in
          (t.session.state ≡ ready)
          × ((raw : List ℕ) × (y ≡ gives raw) × (t.session.name ≡ some (to_ascii raw)))
    go (fails e) y z h = absurd (ground arith)
    go (gives u) (fails e) z h = absurd (ground arith)
    go (gives u) (gives raw) (fails e) h = absurd (ground arith)
    go (gives u) (gives raw) (gives u') h = (refl, (raw, refl, refl))

round-Left :
    (n : ℕ) (transport : ℕ → Attempt) (s : Session) (again : Thrown → Connected)
    (answer : Answer (Unit {0}))
    → (answer ≡ gives tt
        → (s.state ≡ ready)
          × ((raw : List ℕ) × ((transport n).read_name ≡ gives raw)
              × (s.name ≡ some (to_ascii raw))))
    → ((x : Thrown) → Left transport (again x))
    → Left transport (after_try n s again answer)
unfolding attempt_failed
round-Left n transport s again (gives tt') ok more =
    let (state, (raw, read, named)) = ok refl in inl (refl, state, (n, raw, refl, read, named))
round-Left n transport s again (fails x) ok more =
    elim (Bool-cases
      (ltb n (connect_retry_count - 1) && is_retryable_initialization_error x.message)) [
        | inl y ↦ rw y (more x)
        | inr y ↦ rw y (inr (x, refl, refl, refl, refl))
      ]

loop-Left :
    (left n : ℕ) (last : Thrown) (transport : ℕ → Attempt) (s : Session)
    → Left transport (connect_loop (suc left) n last transport s)
unfolding connect_loop attempt_failed
loop-Left zero n last transport s =
    round-Left n transport _ _ (try_once (transport n) s).answer (try_once-ready (transport n) s)
      (λ x. inr (x, refl, refl, refl, refl))
loop-Left (suc left) n last transport s =
    round-Left n transport _ _ (try_once (transport n) s).answer (try_once-ready (transport n) s)
      (λ x. loop-Left left (suc n) x transport _)

-- A session that `connectAndInitialize` returns with is ready and has the text of the bytes that
-- its last attempt read for its name; one that it throws with is not connected, has no name, and
-- waits for nothing.
pub connect-Left :
    (null_error : Thrown) (transport : ℕ → Attempt) (s : Session)
    → Left transport (connect_and_initialize null_error transport s)
unfolding connect_and_initialize
connect-Left null_error transport s = loop-Left 2 0 null_error transport s
