-- ===== src/App/Connection/Laws.antt =====
-- How the retry loops of src/app/device-connection.ts end.
use bluetti_mqtt_node.Common.{
  ℕ, zero, suc, ◌<◌, ◌≡◌, ap, ◌∙◌, subst, Bool, true, false, Option, none, some, arith, Bool-cases,
  inl, inr,
}
use bluetti_mqtt_node.Errors.{Error, Result, ok, throws, Result-cases}
use bluetti_mqtt_node.App.Runner.{Environment, Done}
use bluetti_mqtt_node.App.Connection.{startup_retry_delay_ms, recover_device_connection}

module _ {W : Type 0} (env : Environment W) (try : W → Result Done × W) where
  -- The world at the start of the n-th try, all before it having failed.
  unfoldable pub retried : ℕ → W → W
  retried zero world = world
  retried (suc n) world = retried n (env.sleep startup_retry_delay_ms (try world).1)

  -- The try in a world that is not stopped fails, and so the next is made.
  abbrev pub Fails : W → Type 0
  Fails world = (env.is_stop_requested world ≡ false) × (e : Error) × ((try world).0 ≡ throws e)

  -- Why a reconnection ended with an answer.
  abbrev pub Recovered : Bool → W → Type 0
  Recovered true after = (world : W) × (done : Done) × (try world ≡ (ok done, after))
  Recovered false after = env.is_stop_requested after ≡ true

  recover-Fails :
      (rounds : ℕ) (world : W)
      → Fails world
      → recover_device_connection env try (suc rounds) world
        ≡ recover_device_connection env try rounds (env.sleep startup_retry_delay_ms (try world).1)
  unfolding recover_device_connection
  recover-Fails rounds world (going, e, h) = rw (going, h)

  recover-succeeds :
      (rounds : ℕ) (world : W) (done : Done)
      → env.is_stop_requested world ≡ false
      → (try world).0 ≡ ok done
      → recover_device_connection env try (suc rounds) world ≡ some (true, (try world).1)
  unfolding recover_device_connection
  recover-succeeds rounds world done going h = rw (going, h)

  -- If n tries fail and the next succeeds, with no stop before it, more than n rounds reach it
  -- and report the success.
  pub recover_reaches :
      (n rounds : ℕ) (world : W) (done : Done)
      → n < rounds
      → ((i : ℕ) → i < n → Fails (retried i world))
      → env.is_stop_requested (retried n world) ≡ false
      → (try (retried n world)).0 ≡ ok done
      → recover_device_connection env try rounds world ≡ some (true, (try (retried n world)).1)
  unfolding retried
  recover_reaches n zero world done enough fails going h = absurd (omega arith)
  recover_reaches zero (suc rounds) world done enough fails going h =
      recover-succeeds rounds world done going h
  recover_reaches (suc n) (suc rounds) world done enough fails going h =
      recover-Fails rounds world (fails 0 (omega arith))
      ∙ recover_reaches n rounds (env.sleep startup_retry_delay_ms (try world).1) done (omega arith)
          (λ i lt. fails (suc i) (omega arith)) going h

  abbrev Ends : Option (Bool × W) → Type 0
  Ends none = Unit
  Ends (some (answer, after)) = Recovered answer after

  recover-Ends : (rounds : ℕ) (world : W) → Ends (recover_device_connection env try rounds world)
  unfolding recover_device_connection
  recover-Ends zero world = tt
  recover-Ends (suc rounds) world =
      let next = env.sleep startup_retry_delay_ms (try world).1 in
      elim (Bool-cases (env.is_stop_requested world)) [
        | inl stopped ↦ rw stopped stopped
        | inr going ↦ elim (Result-cases (try world).0) [
          | inl (done, p) ↦ rw (going, p) (world, done, ap (λ r. (r, (try world).1)) p)
          | inr (e, p) ↦ rw (going, p) (recover-Ends rounds next)
        ]
      ]

  -- A reconnection is reported as recovered only after a try that succeeded, and as given up only
  -- where a stop is requested.
  pub recover-Recovered :
      (rounds : ℕ) (world after : W) (answer : Bool)
      → recover_device_connection env try rounds world ≡ some (answer, after)
      → Recovered answer after
  recover-Recovered rounds world after answer h = subst Ends h (recover-Ends rounds world)
