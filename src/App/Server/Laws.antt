-- ===== src/App/Server/Laws.antt =====
-- What the run of src/app/server.ts leaves behind.
use bluetti_mqtt_node.Common.{◌≡◌, ◌⊎◌, refl, sym, ap, ◌∙◌, true, [], inl, inr}
use bluetti_mqtt_node.Errors.{Error, Result, ok, throws}
use bluetti_mqtt_node.App.Runner.{Done}
use bluetti_mqtt_node.Manager.{Sessions, disconnect_all}
use bluetti_mqtt_node.Manager.Cleanup.{disconnect_all_lem}
use bluetti_mqtt_node.Broker.Bridge.{Calls, Bridge, run as run_bridge, stop as stop_bridge}
use bluetti_mqtt_node.Broker.Bridge.Lifecycle.{
  IsIdle, IsRunning, RunEnds, run-RunEnds, StopEnds, stop-StopEnds,
}
use bluetti_mqtt_node.App.Server.{Server, manager_of, clean_up, run_started, run}

module _ {S W : Type 0} (sessions : Sessions S W) (calls : Calls W)
    (run_handler : Server S W → Result Done × Server S W) where
  StopEnds-IsIdle :
      (before : Bridge W) (x : Result Done × Bridge W) → StopEnds calls before x → IsIdle x.1
  unfolding StopEnds
  StopEnds-IsIdle before (r, after) (outcome, idle, known, world) = idle

  clean_up_lem :
      (server : Server S W)
      → server.bridge.has_client ≡ true
      → ((clean_up sessions calls run_handler server).sessions ≡ [])
        × IsIdle (clean_up sessions calls run_handler server).bridge
  unfolding clean_up
  clean_up_lem server on =
      let m = disconnect_all sessions (manager_of sessions calls run_handler server) in
      let bridge = record server.bridge { world = m.1.world } in
      (
        ap (λ x. x.1.sessions)
            (disconnect_all_lem sessions (manager_of sessions calls run_handler server)),
        StopEnds-IsIdle bridge (stop_bridge calls bridge) (stop-StopEnds calls bridge on),
      )

  -- The bridge did not start, and the server is as it was; or the handler ran, its outcome is the
  -- server's, and no session is left.
  pub Finished : Server S W → Result Done × Server S W → Type 0
  Finished server (r, after) =
      IsIdle after.bridge
      × (((e : Error) × ((run_bridge calls server.bridge).0 ≡ throws e)
            × (r ≡ throws e)
            × (after.sessions ≡ server.sessions))
          ⊎ ((done : Done) × ((run_bridge calls server.bridge).0 ≡ ok done)
              × (r
                  ≡ (run_handler (record server { bridge = (run_bridge calls server.bridge).1 })).0)
              × (after.sessions ≡ [])))

  -- A server whose bridge is idle, and whose handler leaves the bridge's client alone, ends with an
  -- idle bridge; unless the bridge did not start, the sessions are gone as well, also where the
  -- handler or a clean-up throws, and the outcome is the handler's.
  pub run-Finished :
      (server : Server S W)
      → IsIdle server.bridge
      → ((s : Server S W) → (run_handler s).1.bridge.has_client ≡ s.bridge.has_client)
      → Finished server (run sessions calls run_handler server)
  unfolding run Finished RunEnds IsRunning run_started clean_up
  run-Finished server idle keeps =
      let (starts, refuses) = run-RunEnds calls server.bridge in
      go (run_bridge calls server.bridge) refl (starts idle)
    where
      go :
          (x : Result Done × Bridge W)
          → run_bridge calls server.bridge ≡ x
          → RunEnds x
          → Finished server
              (run_started sessions calls run_handler x.0 (record server { bridge = x.1 }))
      go (throws e, bridge) same ends = (ends, inl (e, ap (λ x. x.0) same, refl, refl))
      go (ok done, bridge) same (on, on_bus, on_client) =
          let started = record server { bridge = bridge } in
          let after = (run_handler started).1 in
          let (gone, cleaned) = clean_up_lem after (keeps started ∙ on) in
          (
            cleaned,
            inr (
              done,
              ap (λ x. x.0) same,
              ap (λ x. (run_handler (record server { bridge = x.1 })).0) (sym same),
              gone,
            ),
          )
