-- ===== src/App/Connection/Startup.antt =====
-- How the retry loop at the start, in src/app/device-connection.ts, ends.
use bluetti_mqtt_node.Common.{
  ℕ, zero, suc, ◌≡◌, ap, subst, Bool, true, false, ◌||◌, not, Option, none, some, Bool-cases, inl,
  inr,
}
use bluetti_mqtt_node.Errors.{Result, ok, throws, Result-cases}
use bluetti_mqtt_node.App.Runner.{Environment, Done}
use bluetti_mqtt_node.App.Connection.{
  startup_retry_delay_ms, is_bad_connection, connect_all_with_recovery,
}

module _ {W : Type 0} (env : Environment W) (connect_all : W → Result Done × W)
    (run_once : Bool) where
  -- Why the start ended with a result.
  abbrev pub Started : Result Bool → W → Type 0
  Started (ok true) after = (world : W) × (done : Done) × (connect_all world ≡ (ok done, after))
  Started (ok false) after = env.is_stop_requested after ≡ true
  Started (throws e) after =
      (world : W) × (connect_all world ≡ (throws e, after))
      × ((run_once || not (is_bad_connection e)) ≡ true)

  abbrev Ends : Option (Result Bool × W) → Type 0
  Ends none = Unit
  Ends (some (r, after)) = Started r after

  connect_all-Ends :
      (rounds : ℕ) (world : W)
      → Ends (connect_all_with_recovery env connect_all run_once rounds world)
  unfolding connect_all_with_recovery
  connect_all-Ends zero world = tt
  connect_all-Ends (suc rounds) world =
      let next = env.sleep startup_retry_delay_ms (connect_all world).1 in
      elim (Bool-cases (env.is_stop_requested world)) [
        | inl stopped ↦ rw stopped stopped
        | inr going ↦ elim (Result-cases (connect_all world).0) [
          | inl (done, p) ↦ rw (going, p) (world, done, ap (λ r. (r, (connect_all world).1)) p)
          | inr (e, p) ↦ elim (Bool-cases (run_once || not (is_bad_connection e))) [
            | inl gives_up ↦
                rw (going, p, gives_up) (world, ap (λ r. (r, (connect_all world).1)) p, gives_up)
            | inr retries ↦ rw (going, p, retries) (connect_all-Ends rounds next)
          ]
        ]
      ]

  -- The start is reported as connected only after a connection of all devices that succeeded, as
  -- given up only where a stop is requested, and it throws only the error of a connection, and
  -- that only in a single run or if it is no BadConnectionError.
  pub connect_all-Started :
      (rounds : ℕ) (world after : W) (r : Result Bool)
      → connect_all_with_recovery env connect_all run_once rounds world ≡ some (r, after)
      → Started r after
  connect_all-Started rounds world after r h = subst Ends h (connect_all-Ends rounds world)
