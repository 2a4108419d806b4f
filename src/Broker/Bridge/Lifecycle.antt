-- ===== src/Broker/Bridge/Lifecycle.antt =====
-- The start and the end of the bridge of src/broker/client.ts.
use bluetti_mqtt_node.Common.{◌≡◌, refl, sym, subst, Bool, true, false, ◌&&◌, [], if◌then◌else◌}
use bluetti_mqtt_node.Errors.{is_ok, error, aggregate_error, Result, ok, throws}
use bluetti_mqtt_node.App.Runner.{Done}
use bluetti_mqtt_node.Broker.Bridge.{
  Calls, Bridge, command_subscription_topic, release_message, cleanup_client, settled_run,
  add_listeners, connected, run, stop, add_failure, cleanup_result,
}

-- The bridge holds no client and no listener.
unfoldable pub IsIdle : {W : Type 0} → Bridge W → Type 0
IsIdle bridge =
    (bridge.has_client ≡ false)
    × (bridge.has_parser_listener ≡ false)
    × (bridge.has_message_listener ≡ false)

unfoldable pub IsRunning : {W : Type 0} → Bridge W → Type 0
IsRunning bridge =
    (bridge.has_client ≡ true)
    × (bridge.has_parser_listener ≡ true)
    × (bridge.has_message_listener ≡ true)

-- How `run` ends on a bridge that was idle.
unfoldable pub RunEnds : {W : Type 0} → Result Done × Bridge W → Type 0
RunEnds (ok done, bridge) = IsRunning bridge
RunEnds (throws e, bridge) = IsIdle bridge

module _ {W : Type 0} (calls : Calls W) where
  settled_run-RunEnds :
      (r : Result Done) (bridge : Bridge W)
      → (r ≡ ok tt → IsRunning bridge)
      → RunEnds (settled_run calls r bridge)
  unfolding RunEnds IsIdle cleanup_client
  settled_run-RunEnds (ok done) bridge running = running refl
  settled_run-RunEnds (throws e) bridge running = (refl, refl, refl)

  connected-RunEnds :
      (r : Result Done) (bridge : Bridge W) → IsIdle bridge → RunEnds (connected calls r bridge)
  unfolding RunEnds IsIdle IsRunning
  connected-RunEnds (throws e) bridge idle = idle
  connected-RunEnds (ok done) bridge idle =
      listening (calls.subscribe command_subscription_topic bridge.world)
    where
      listening :
          (x : Result Done × W)
          → RunEnds (
              settled_run calls
                (add_listeners calls x.0 (record bridge { has_client = true; world = x.1 })).0
                (add_listeners calls x.0 (record bridge { has_client = true; world = x.1 })).1)
      listening (throws e, world) =
          settled_run-RunEnds (throws e) (record bridge { has_client = true; world = world })
            (λ h. absurd (cc))
      listening (ok d, world) =
          let (r, world') = calls.on_message world in
          settled_run-RunEnds r
            (record bridge {
              has_client = true;
              has_parser_listener = true;
              has_message_listener = true;
              world = world';
            })
            (λ h. (refl, refl, refl))

  -- A start of an idle bridge leaves it with a client and both listeners, or throws and leaves it
  -- with none of them; a bridge that runs refuses another start and stays as it is.
  pub run-RunEnds :
      (bridge : Bridge W)
      → (IsIdle bridge → RunEnds (run calls bridge))
        × (bridge.has_client ≡ true → run calls bridge ≡ (throws error, bridge))
  unfolding run IsIdle
  run-RunEnds bridge = (
    λ idle.
        let (r, world) = calls.connect bridge.world in
        let (off, on_bus, on_client) = idle in
        subst
          (λ b. RunEnds (
            if b
            then (throws error, bridge)
            else connected calls r (record bridge { world = world })))
          (sym off) (connected-RunEnds r (record bridge { world = world }) idle),
    λ on. rw on,
  )

  -- The clean-up's two calls both succeed.
  abbrev pub cleans : Bridge W → Bool
  cleans bridge =
      let (off, world) = release_message calls bridge.has_message_listener bridge.world in
      is_ok off && is_ok (calls.end_async world).0

  cleanup_outcome :
      (off ended : Result Done)
      → cleanup_result (add_failure ended (add_failure off []))
        ≡ (if is_ok off && is_ok ended then ok tt else throws aggregate_error)
  cleanup_outcome (ok done) (ok done') = refl
  cleanup_outcome (ok done) (throws e) = refl
  cleanup_outcome (throws e) (ok done) = refl
  cleanup_outcome (throws e) (throws e') = refl

  unfoldable pub StopEnds : Bridge W → Result Done × Bridge W → Type 0
  StopEnds before (r, after) =
      (r ≡ (if cleans before then ok tt else throws aggregate_error))
      × IsIdle after
      × (after.devices ≡ before.devices)
      × (after.world
          ≡ (calls.end_async (release_message calls before.has_message_listener before.world).1).1)

  -- Stopping a bridge that runs always ends the client and leaves the bridge idle, with the devices
  -- that it knows; an AggregateError says that one of the two calls failed.
  pub stop-StopEnds :
      (bridge : Bridge W) → bridge.has_client ≡ true → StopEnds bridge (stop calls bridge)
  unfolding stop cleanup_client StopEnds IsIdle
  stop-StopEnds bridge on =
      let (off, world) = release_message calls bridge.has_message_listener bridge.world in
      rw on (cleanup_outcome off (calls.end_async world).0, (refl, refl, refl), refl, refl)
