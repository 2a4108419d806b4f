-- ===== src/Manager.antt =====
-- src/bluetooth/manager.ts. The map of sessions and the world that the sessions' methods act on are
-- the state of an operation, which runs from its call to its end.
pub mod Laws
pub mod Reconnect
pub mod Cleanup
pub mod Recovery
mod Tests
use bluetti_mqtt_node.Common.{
  Bool, true, false, List, [], ◌∷◌, ◌++◌, if◌then◌else◌, Option, none, some, String,
}
use bluetti_mqtt_node.Common.StringMap.{StringMap, get_entry, set_entry, delete_entry, is_some}
use bluetti_mqtt_node.Errors.{Error, error, aggregate_error, Result, ok, throws}
use bluetti_mqtt_node.App.Runner.{Done}

-- The sessions' methods that the manager calls.
pub record Sessions (S W : Type 0) : Type 0 where
  -- `new DeviceSession(address, transportFactory.create())`.
  pub create : String → W → S × W
  pub connect_and_initialize : S → W → Result Done × W
  pub disconnect : S → W → Result Done × W
  pub is_ready : W → S → Bool
  pub name : W → S → Option String

pub record Manager (S W : Type 0) : Type 0 where
  pub sessions : StringMap S
  pub world : W

module _ {S W : Type 0} (env : Sessions S W) where
  abbrev pub install : String → S → Result Done → Manager S W → Result Done × Manager S W
  install address session (throws e) m = (throws e, m)
  install address session (ok done) m =
      (ok done, record m { sessions = set_entry address session m.sessions })

  -- A new session, that is installed once it is connected.
  unfoldable pub connect_new : String → Manager S W → Result Done × Manager S W
  connect_new address m =
      let (session, world) = env.create address m.world in
      let (r, world') = env.connect_and_initialize session world in
      install address session r (record m { world = world' })

  -- The loop of `connectAll`.
  unfoldable pub connect_all : List String → Manager S W → Result Done × Manager S W
  unfolding connect_new
  connect_all [] m = (ok tt, m)
  connect_all (address ∷ addresses) m =
      let (r, m') = connect_new address m in
      if is_some (get_entry address m.sessions)
      then connect_all addresses m
      else elim r [ ok done ↦ connect_all addresses m' | throws e ↦ (throws e, m') ]

  abbrev pub is_ready_in : W → Option S → Bool
  is_ready_in world none = false
  is_ready_in world (some session) = env.is_ready world session

  unfoldable pub is_ready : String → Manager S W → Bool
  is_ready address m = is_ready_in m.world (get_entry address m.sessions)

  abbrev pub require_some : {A : Type 0} → Option A → Result A
  require_some none = throws error
  require_some (some a) = ok a

  abbrev pub name_in : W → Option S → Option String
  name_in world none = none
  name_in world (some session) = env.name world session

  unfoldable pub get_name : String → Manager S W → Result String
  get_name address m = require_some (name_in m.world (get_entry address m.sessions))

  unfoldable pub get_session : String → Manager S W → Result S
  get_session address m = require_some (get_entry address m.sessions)

  -- The error of the old session is left out.
  abbrev pub drop_session : Option S → String → Manager S W → Manager S W
  drop_session none address m = m
  drop_session (some session) address m = record {
    sessions = delete_entry address m.sessions;
    world = (env.disconnect session m.world).1;
  }

  unfoldable pub reconnect : String → Manager S W → Result Done × Manager S W
  unfolding connect_new
  reconnect address m = connect_new address (drop_session (get_entry address m.sessions) address m)

  abbrev pub collect : Result Done → List Error → List Error
  collect (ok done) failures = failures
  collect (throws e) failures = failures ++ e ∷ []

  -- The loop of `disconnectAll` over the entries, with the failures so far.
  unfoldable pub disconnect_each : StringMap S → List Error → Manager S W → List Error × Manager S W
  disconnect_each [] failures m = (failures, m)
  disconnect_each ((address, session) ∷ entries) failures m =
      let (r, world) = env.disconnect session m.world in
      disconnect_each entries (collect r failures)
        (record { sessions = delete_entry address m.sessions; world = world })

  abbrev pub aggregate : List Error → Result Done
  aggregate [] = ok tt
  aggregate (e ∷ failures) = throws aggregate_error

  unfoldable pub disconnect_all : Manager S W → Result Done × Manager S W
  unfolding disconnect_each
  disconnect_all m =
      let (failures, m') = disconnect_each m.sessions [] m in (aggregate failures, m')
