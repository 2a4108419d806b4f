-- ===== src/Manager/Reconnect.antt =====
-- What `reconnect` of src/bluetooth/manager.ts does for its address and for the others.
use text.Mathlib.Text.{◌==◌ as str_eq}
use bluetti_mqtt_node.Common.{◌≡◌, refl, sym, ap, ◌∙◌, false, Option, none, some, String}
use bluetti_mqtt_node.Common.StringMap.{get_entry, get-delete_same, get-delete_other}
use bluetti_mqtt_node.Errors.{Result, ok, throws}
use bluetti_mqtt_node.App.Runner.{Done}
use bluetti_mqtt_node.Manager.{Sessions, Manager, drop_session, reconnect}
use bluetti_mqtt_node.Manager.Laws.{Installed, Threw, Tried, connect_new-Tried, connect_new_other}

module _ {S W : Type 0} (env : Sessions S W) where
  pub reconnect-Tried :
      (address : String) (m : Manager S W)
      → Tried env address
          (drop_session env (get_entry address m.sessions) address m)
          (reconnect env address m)
  unfolding reconnect
  reconnect-Tried address m =
      connect_new-Tried env address (drop_session env (get_entry address m.sessions) address m)

  drop_session_other :
      (existing : Option S) (address other : String) (m : Manager S W)
      → str_eq address other ≡ false
      → get_entry other (drop_session env existing address m).sessions ≡ get_entry other m.sessions
  drop_session_other none address other m differs = refl
  drop_session_other (some session) address other m differs =
      get-delete_other other address m.sessions differs

  dropped :
      (existing : Option S) (address : String) (m : Manager S W)
      → existing ≡ get_entry address m.sessions
      → get_entry address (drop_session env existing address m).sessions ≡ none
  dropped none address m same = sym same
  dropped (some session) address m same = get-delete_same address m.sessions

  -- How `reconnect` ends for its address.
  unfoldable pub Reconnected : String → Result Done × Manager S W → Type 0
  Reconnected address (ok done, after) = Installed env address after
  Reconnected address (throws e, after) =
      (get_entry address after.sessions ≡ none) × Threw env e after.world

  tried-Reconnected :
      (address : String) (m : Manager S W) (r : Result Done × Manager S W)
      → get_entry address m.sessions ≡ none
      → Tried env address m r
      → Reconnected address r
  unfolding Reconnected
  tried-Reconnected address m (ok done, after) gone tried = tried
  tried-Reconnected address m (throws e, after) gone (same, threw) =
      (ap (get_entry address) same ∙ gone, threw)

  -- A reconnection leaves the address with the session that it connected last, or with none and
  -- the error of that connection; the sessions of other addresses stay.
  pub reconnect-Reconnected :
      (address : String) (m : Manager S W)
      → Reconnected address (reconnect env address m)
        × ((other : String)
            → str_eq address other ≡ false
            → get_entry other (reconnect env address m).1.sessions ≡ get_entry other m.sessions)
  unfolding reconnect
  reconnect-Reconnected address m =
      let existing = get_entry address m.sessions in
      let before = drop_session env existing address m in
      (
        tried-Reconnected address before (reconnect env address m) (dropped existing address m refl)
            (reconnect-Tried address m),
        λ other differs.
            connect_new_other env address other before differs
            ∙ drop_session_other existing address other m differs,
      )
