-- ===== src/Manager/Tests.antt =====
-- Theorems on the manager at two devices, of which one cannot be reached at first.
use bluetti_mqtt_node.Common.{
  ℕ, ◌+◌, ◌≡◌, refl, true, false, [], ◌∷◌, ◌==◌, if◌then◌else◌, none, String,
}
use text.Mathlib.Text.{◌==◌ as str_eq}
use bluetti_mqtt_node.Common.StringMap.{get_entry}
use bluetti_mqtt_node.Errors.{aggregate_error, bad_connection_error, error, ok, throws}
use bluetti_mqtt_node.App.Runner.{Environment}
use bluetti_mqtt_node.App.Connection.{recover_device_connection}
use bluetti_mqtt_node.Manager.{
  Sessions, Manager, connect_new, connect_all, reconnect, disconnect_all,
}
use bluetti_mqtt_node.Manager.Laws.{Installed, Connected, connect_all-Connected}
use bluetti_mqtt_node.Manager.Reconnect.{Reconnected, reconnect-Reconnected}
use bluetti_mqtt_node.Manager.Cleanup.{disconnect_all_lem}
use bluetti_mqtt_node.Manager.Recovery.{recovery_installs}

-- The world counts the connections tried; the second fails. A session is the number of its
-- creation, and session 7 cannot be disconnected.
abbrev flaky : Sessions ℕ ℕ
flaky = record {
  create = λ address n. (n, n);
  connect_and_initialize =
      λ session n. if n == 1 then (throws bad_connection_error, n + 1) else (ok tt, n + 1);
  disconnect = λ session n. if session == 7 then (throws error, n) else (ok tt, n);
  is_ready = λ n session. true;
  name = λ n session. none;
}

abbrev none_yet : Manager ℕ ℕ
none_yet = record { sessions = []; world = 0 }

abbrev two_sessions : Manager ℕ ℕ
two_sessions = record { sessions = ("A", 7) ∷ ("B", 8) ∷ []; world = 3 }

-- The clock of the retry loops stands still.
abbrev patient : Environment (Manager ℕ ℕ)
patient = record {
  is_stop_requested = λ m. false;
  now = λ m. 0;
  sleep = λ ms m. m;
  get_session = λ m. ok tt;
  perform = λ command m. (ok [], m);
  publish = λ parsed m. (ok tt, m);
}

second_fails :
    connect_all flaky ("A" ∷ "B" ∷ []) none_yet
    ≡ (throws bad_connection_error, record { sessions = ("A", 0) ∷ []; world = 2 })
unfolding connect_all connect_new
second_fails = refl

connect_all-Connected_example :
    Connected flaky ("A" ∷ "B" ∷ []) none_yet (connect_all flaky ("A" ∷ "B" ∷ []) none_yet)
connect_all-Connected_example = connect_all-Connected flaky ("A" ∷ "B" ∷ []) none_yet

reconnect-Reconnected_example :
    Reconnected flaky "A" (reconnect flaky "A" two_sessions)
    × ((other : String)
        → str_eq "A" other ≡ false
        → get_entry other (reconnect flaky "A" two_sessions).1.sessions
          ≡ get_entry other two_sessions.sessions)
reconnect-Reconnected_example = reconnect-Reconnected flaky "A" two_sessions

-- The first session cannot be disconnected; both go.
disconnect_all_lem_example :
    disconnect_all flaky two_sessions
    ≡ (throws aggregate_error, record { sessions = []; world = 3 })
disconnect_all_lem_example = disconnect_all_lem flaky two_sessions

abbrev reconnected : Manager ℕ ℕ
reconnected = record { sessions = ("B", 8) ∷ ("A", 3) ∷ []; world = 4 }

recovery_installs_example : Installed flaky "A" reconnected
unfolding recover_device_connection reconnect connect_new
recovery_installs_example = recovery_installs patient flaky "A" 1 two_sessions reconnected refl
