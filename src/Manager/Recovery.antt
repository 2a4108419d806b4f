-- ===== src/Manager/Recovery.antt =====
-- The retry loops of src/app/device-connection.ts on the manager of src/bluetooth/manager.ts.
use bluetti_mqtt_node.Common.{ℕ, ◌≡◌, subst, Bool, true, List, some, String, All}
use bluetti_mqtt_node.Errors.{ok}
use bluetti_mqtt_node.App.Runner.{Environment}
use bluetti_mqtt_node.App.Connection.{connect_all_with_recovery, recover_device_connection}
use bluetti_mqtt_node.App.Connection.Startup.{connect_all-Started}
use bluetti_mqtt_node.App.Connection.Laws.{recover-Recovered}
use bluetti_mqtt_node.Manager.{Sessions, Manager, connect_all, reconnect}
use bluetti_mqtt_node.Manager.Laws.{Installed, Has, Connected, connect_all-Connected}
use bluetti_mqtt_node.Manager.Reconnect.{Reconnected, reconnect-Reconnected}

module _ {S W : Type 0} (env : Environment (Manager S W)) (sessions : Sessions S W) where
  -- A recovery that reports success leaves the address with a session that was connected last.
  pub recovery_installs :
      (address : String) (rounds : ℕ) (world after : Manager S W)
      → recover_device_connection env (reconnect sessions address) rounds world ≡ some (true, after)
      → Installed sessions address after
  unfolding Reconnected
  recovery_installs address rounds world after h =
      let (before, done, e) =
        recover-Recovered env (reconnect sessions address) rounds world after true h in
      subst (Reconnected sessions address) e (reconnect-Reconnected sessions address before).0

  -- A start that reports success leaves every address with a session.
  pub start_connects_every :
      (addresses : List String) (run_once : Bool) (rounds : ℕ) (world after : Manager S W)
      → connect_all_with_recovery env (connect_all sessions addresses) run_once rounds world
        ≡ some (ok true, after)
      → All (Has sessions after) addresses
  unfolding Connected
  start_connects_every addresses run_once rounds world after h =
      let (before, done, e) =
        connect_all-Started env (connect_all sessions addresses) run_once rounds world after
          (ok true) h in
      let (kept, all) =
        subst (Connected sessions addresses before) e
          (connect_all-Connected sessions addresses before) in
      all
