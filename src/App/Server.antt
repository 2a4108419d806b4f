-- ===== src/App/Server.antt =====
-- src/app/server.ts: the lifecycle of the server on the manager and the bridge. The run of the
-- device handler is a function on the server, whose reports may add to the bridge's devices. Log
-- lines are left out.
pub mod Laws
use bluetti_mqtt_node.Common.{◌≡◌, refl, Bool, true, false, [], if◌then◌else◌, Bool-cases, inl, inr}
use bluetti_mqtt_node.Common.StringMap.{StringMap}
use bluetti_mqtt_node.Errors.{Error, Result, ok, throws}
use bluetti_mqtt_node.App.Runner.{Done}
use bluetti_mqtt_node.Manager.{Sessions, Manager, disconnect_all}
use bluetti_mqtt_node.Manager.Cleanup.{disconnect_all_lem}
use bluetti_mqtt_node.Broker.Bridge.{Calls, Bridge, run as run_bridge, stop as stop_bridge}
use bluetti_mqtt_node.Broker.Bridge.Lifecycle.{
  IsIdle, IsRunning, RunEnds, run-RunEnds, StopEnds, stop-StopEnds,
}

-- The sessions of the manager, and the bridge, which has the world of both.
pub record Server (S W : Type 0) : Type 0 where
  pub sessions : StringMap S
  pub bridge : Bridge W

module _ {S W : Type 0} (sessions : Sessions S W) (calls : Calls W)
    (run_handler : Server S W → Result Done × Server S W) where
  abbrev pub manager_of : Server S W → Manager S W
  manager_of server = record { sessions = server.sessions; world = server.bridge.world }

  abbrev pub with_manager : Server S W → Manager S W → Server S W
  with_manager server m = record {
    sessions = m.sessions;
    bridge = record server.bridge { world = m.world };
  }

  -- The `finally` block: the errors of both clean-ups are only logged.
  unfoldable pub clean_up : Server S W → Server S W
  unfolding disconnect_all stop_bridge
  clean_up server =
      let released = with_manager server (disconnect_all sessions (manager_of server)).1 in
      record released { bridge = (stop_bridge calls released.bridge).1 }

  abbrev pub run_started : Result Done → Server S W → Result Done × Server S W
  unfolding clean_up
  run_started (throws e) server = (throws e, server)
  run_started (ok done) server = let (r, server') = run_handler server in (r, clean_up server')

  unfoldable pub run : Server S W → Result Done × Server S W
  unfolding run_bridge
  run server =
      let (r, bridge) = run_bridge calls server.bridge in
      run_started r (record server { bridge = bridge })
