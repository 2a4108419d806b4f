-- ===== src/App/Queue.antt =====
-- src/app/device-queue.ts, for one address: the chain of promises that serializes its work, and
-- the stop flag with the sleepers. A call of `enqueue` is a number; its promise `queued` resolves
-- when the promise before it has resolved and the call has released its own. Addresses share no
-- entry of the map.
pub mod Phases
pub mod Chain
pub mod Laws
use bluetti_mqtt_node.Common.{
  ℕ, zero, suc, ◌<◌, ◌≡◌, Bool, true, false, ◌||◌, List, [], ◌∷◌, ◌==◌, if◌then◌else◌, Option, none,
  some,
}

-- Before `await previous` returns, during the work, and after the `finally` block.
pub data Phase : Type 0 where
  waiting running finished : Phase

pub record Queue : Type 0 where
  -- `this.deviceQueues.get(address)`, by the call whose promise it is.
  pub queued : Option ℕ
  -- The calls so far, and of each its `previous` and its phase.
  pub calls : ℕ
  pub previous : ℕ → Option ℕ
  pub phase : ℕ → Phase
  pub stop_requested : Bool
  pub sleep_waiters : List ℕ

abbrev pub new_queue : Queue
new_queue = record {
  queued = none;
  calls = 0;
  previous = λ call. none;
  phase = λ call. finished;
  stop_requested = false;
  sleep_waiters = [];
}

abbrev pub update {ℓ} : {A : Type ℓ} → ℕ → A → (ℕ → A) → ℕ → A
update n value f m = if m == n then value else f m

-- `enqueue` up to `await previous`.
abbrev pub enqueue : Queue → Queue
enqueue q = record q {
  queued = some q.calls;
  calls = suc q.calls;
  previous = update q.calls q.queued q.previous;
  phase = update q.calls waiting q.phase;
}

-- The work begins.
abbrev pub begin : ℕ → Queue → Queue
begin call q = record q { phase = update call running q.phase }

abbrev pub is_latest : ℕ → Option ℕ → Bool
is_latest call none = false
is_latest call (some other) = other == call

-- The `finally` block, whether the work returned or threw.
abbrev pub release : ℕ → Queue → Queue
release call q = record q {
  phase = update call finished q.phase;
  queued = if is_latest call q.queued then none else q.queued;
}

abbrev pub reset : Queue → Queue
reset q = record q { stop_requested = false }

abbrev pub stop : Queue → Queue
stop q = record q { stop_requested = true; sleep_waiters = [] }

-- A sleep that does not return at once waits under a name of its own.
abbrev pub sleep : ℕ → ℕ → Queue → Queue
sleep waiter ms q =
    if q.stop_requested || ms == 0 then q else record q { sleep_waiters = waiter ∷ q.sleep_waiters }

abbrev pub delete : ℕ → List ℕ → List ℕ
delete waiter [] = []
delete waiter (other ∷ waiters) =
    if other == waiter then delete waiter waiters else other ∷ delete waiter waiters

-- The timer of a sleep runs out.
abbrev pub wake : ℕ → Queue → Queue
wake waiter q = record q { sleep_waiters = delete waiter q.sleep_waiters }

-- A promise of the chain has resolved; `none` is `Promise.resolve()`.
pub data Resolved (q : Queue) : Option ℕ → Type 0 where
  at_once : Resolved q none
  chained :
      (call : ℕ) → q.phase call ≡ finished → Resolved q (q.previous call) → Resolved q (some call)

-- What may happen next.
pub data Step (q : Queue) : Queue → Type 0 where
  enqueues : Step q (enqueue q)
  begins :
      (call : ℕ)
      → call < q.calls
      → q.phase call ≡ waiting
      → Resolved q (q.previous call)
      → Step q (begin call q)
  releases : (call : ℕ) → call < q.calls → q.phase call ≡ running → Step q (release call q)
  resets : Step q (reset q)
  stops : Step q (stop q)
  sleeps : (waiter ms : ℕ) → Step q (sleep waiter ms q)
  wakes : (waiter : ℕ) → Step q (wake waiter q)

pub data Reach : Queue → Type 0 where
  initial : Reach new_queue
  step : {q q' : Queue} → Reach q → Step q q' → Reach q'
