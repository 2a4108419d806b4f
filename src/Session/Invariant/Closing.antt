-- ===== src/Session/Invariant/Closing.antt =====
-- How src/bluetooth/device-session.ts leaves a command: the promise settled or dropped, its timer
-- off, its buffer empty.
use bluetti_mqtt_node.Common.{
  ℕ, suc, ◌<◌, ◌≡◌, ◌≢◌, refl, List, [], ◌∷◌, ◌++◌, Option, none, some, arith,
}
use bluetti_mqtt_node.Session.{
  Session, DeviceSessionState, performing_command, Outcome, settle, outcome_of, disarm_pending,
}
use bluetti_mqtt_node.Session.Invariant.Defs.{Once, Below, Shape, idle, busy, Inv}

outcome_of-append :
    (p q : ℕ) (o : Outcome) (xs : List (ℕ × Outcome))
    → outcome_of q xs ≡ none
    → p ≢ q
    → outcome_of q (xs ++ (p, o) ∷ []) ≡ none
outcome_of-append p q o [] h ne = ground arith
outcome_of-append p q o ((r, o') ∷ xs) h ne = ground (arith, outcome_of-append p q o xs)

Once-append :
    (p : ℕ) (o : Outcome) (xs : List (ℕ × Outcome))
    → outcome_of p xs ≡ none
    → Once xs
    → Once (xs ++ (p, o) ∷ [])
Once-append p o [] h k = (refl, tt)
Once-append p o ((q, o') ∷ xs) h (new, k) =
    (outcome_of-append p q o xs new (ground arith), Once-append p o xs (ground arith) k)

Below-append :
    (n p : ℕ) (o : Outcome) (xs : List (ℕ × Outcome))
    → Below n xs
    → p < n
    → Below n (xs ++ (p, o) ∷ [])
Below-append n p o [] k h = (h, tt)
Below-append n p o (x ∷ xs) (kx, k) h = (kx, Below-append n p o xs k h)

pub Below-suc : (n : ℕ) (xs : List (ℕ × Outcome)) → Below n xs → Below (suc n) xs
Below-suc n [] k = tt
Below-suc n (x ∷ xs) (h, k) = (omega arith, Below-suc n xs k)

pub Below-fresh : (n : ℕ) (xs : List (ℕ × Outcome)) → Below n xs → outcome_of n xs ≡ none
Below-fresh n [] k = refl
Below-fresh n ((q, o) ∷ xs) (h, k) = ground (arith, Below-fresh n xs k)

-- The session without its command, in a given state and with given outcomes.
abbrev pub closed : List (ℕ × Outcome) → DeviceSessionState → Session → Session
closed settled state s = record s {
  settled = settled;
  timers = disarm_pending s.pending_timeout s.timers;
  pending_timeout = none;
  pending_response = none;
  current_command = none;
  response_buffer = [];
  state = state;
}

pub timers_off :
    (o : Option ℕ) (p : ℕ) (timers : List ℕ)
    → o ≡ some p
    → timers ≡ p ∷ []
    → disarm_pending o timers ≡ []
timers_off none p timers e h = cc
timers_off (some q) p timers e h = let same : q ≡ p = cc in rw (h, same) (ground arith)

timers_none :
    (o : Option ℕ) (timers : List ℕ) → o ≡ none → timers ≡ [] → disarm_pending o timers ≡ []
timers_none none timers e h = h
timers_none (some p) timers e h = cc

pub Shape-timers :
    (call : Option ℕ) (s : Session) → Shape call s → disarm_pending s.pending_timeout s.timers ≡ []
Shape-timers call s (idle a b c d e f) = timers_none s.pending_timeout s.timers c d
Shape-timers call s (busy p k a b c d e f g lt new) = timers_off s.pending_timeout p s.timers c d

pub closed-Inv :
    (xs : List (ℕ × Outcome)) (state : DeviceSessionState) (call call' : Option ℕ) (s : Session)
    → state ≢ performing_command
    → Inv call s
    → Once xs × Below s.calls xs
    → Inv call' (closed xs state s)
closed-Inv xs state call call' s calm v (once, below) = record {
  shape = idle refl refl refl (Shape-timers call s v.shape) refl calm;
  once = once;
  below = below;
}

settle-some :
    (q : Option ℕ) (p : ℕ) (o : Outcome) (n : ℕ) (xs : List (ℕ × Outcome))
    → q ≡ some p
    → outcome_of p xs ≡ none
    → p < n
    → Once xs × Below n xs
    → Once (settle q o xs) × Below n (settle q o xs)
settle-some none p o n xs e new lt k = cc
settle-some (some q) p o n xs e new lt (k, b) =
    let same : q ≡ p = cc in rw same (Once-append p o xs new k, Below-append n p o xs b lt)

settle-none :
    (q : Option ℕ) (o : Outcome) (n : ℕ) (xs : List (ℕ × Outcome))
    → q ≡ none
    → Once xs × Below n xs
    → Once (settle q o xs) × Below n (settle q o xs)
settle-none none o n xs e k = k
settle-none (some q) o n xs e k = cc

pub settled_lem :
    (o : Outcome) (call : Option ℕ) (s : Session)
    → Inv call s
    → Once (settle s.pending_response o s.settled)
      × Below s.calls (settle s.pending_response o s.settled)
settled_lem o call s v = go v.shape
  where
    go :
        Shape call s
        → Once (settle s.pending_response o s.settled)
          × Below s.calls (settle s.pending_response o s.settled)
    go (idle a b c d e f) = settle-none s.pending_response o s.calls s.settled a (v.once, v.below)
    go (busy p k a b c d e f g lt new) =
        settle-some s.pending_response p o s.calls s.settled a new lt (v.once, v.below)

-- Settling the pending promise, if there is one, and closing.
pub ended-Inv :
    (o : Outcome) (state : DeviceSessionState) (call call' : Option ℕ) (s : Session)
    → state ≢ performing_command
    → Inv call s
    → Inv call' (closed (settle s.pending_response o s.settled) state s)
ended-Inv o state call call' s calm v =
    closed-Inv (settle s.pending_response o s.settled) state call call' s calm v
      (settled_lem o call s v)
