-- ===== src/Transport/Laws.antt =====
-- The transports of src/bluetooth/helper-transport.ts keep the contract of src/bluetooth/transport.ts.
use bluetti_mqtt_node.Common.{
  ℕ, Bool, ◌≡◌, refl, sym, ap, ◌∙◌, true, Option, none, some, String, Bool-cases, inl, inr,
}
use bluetti_mqtt_node.Common.StringMap.{get_entry, set_entry, is_some, str_eq_refl, get-set_same}
use bluetti_mqtt_node.Common.Restore.{restored}
use bluetti_mqtt_node.Errors.{Error, error, Result, ok, throws}
use bluetti_mqtt_node.App.Runner.{Done}
use bluetti_mqtt_node.Helper.Json.{string}
use bluetti_mqtt_node.Helper.Client.{Notification}
use bluetti_mqtt_node.Transport.{Contract}
use bluetti_mqtt_node.Transport.Helper.{
  HelperCalls, HelperTransport, normalize_uuid, receives, require_session_id, listen, opened,
  connect, disconnect, read_characteristic, read_in, write_in, write_characteristic, subscribe,
  subscribe_in, subscribed, helper_transport,
}

module _ {W : Type 0} (calls : HelperCalls W) where
  listen-connected :
      (session_id : String) (r : Result Done × W) (t : HelperTransport W) (done : Done)
      → (listen calls session_id r t).0 ≡ ok done
      → is_some (listen calls session_id r t).1.session_id ≡ true
  listen-connected session_id (ok d, world) t done h = refl
  listen-connected session_id (throws e, world) t done h = cc

  opened-connected :
      (r : Result String × W) (t : HelperTransport W) (done : Done)
      → (opened calls r t).0 ≡ ok done
      → is_some (opened calls r t).1.session_id ≡ true
  opened-connected (throws e, world) t done h = cc
  opened-connected (ok session_id, world) t done h =
      listen-connected session_id (calls.on_notification world) t done h

  connect-connected :
      (address : String) (t : HelperTransport W) (done : Done)
      → (connect calls address t).0 ≡ ok done
      → is_some (connect calls address t).1.session_id ≡ true
  unfolding connect
  connect-connected address t done h = elim (Bool-cases (is_some t.session_id)) [
    | inl k ↦ let e : (connect calls address t).0 ≡ throws error = rw k in absurd (cc)
    | inr k ↦
        let e : connect calls address t ≡ opened calls (calls.connect address t.world) t = rw k in
        rw e (opened-connected (calls.connect address t.world) t done (ap (λ x. x.0) (sym e) ∙ h))
  ]

  required :
      {A : Type 0} (session_id : Option String) (f : Result String → Result A × HelperTransport W)
      (a : A)
      → ((e : Error) → (f (throws e)).0 ≡ throws e)
      → (f (require_session_id session_id)).0 ≡ ok a
      → is_some session_id ≡ true
  required none f a refuses h = let e = refuses error in cc
  required (some s) f a refuses h = refl

  subscribed_lem :
      (key other : String) (callback : ℕ) (r : Result Done × W) (t : HelperTransport W) (e : Error)
      → (subscribed calls key
          (get_entry key t.subscribers)
          r
          (record t { subscribers = set_entry key callback t.subscribers })).0
        ≡ throws e
      → get_entry other
          (subscribed calls key
            (get_entry key t.subscribers)
            r
            (record t { subscribers = set_entry key callback t.subscribers })).1.subscribers
        ≡ get_entry other t.subscribers
  subscribed_lem key other callback (ok d, world) t e h = cc
  subscribed_lem key other callback (throws x, world) t e h =
      restored key other callback t.subscribers

  subscribe_in_lem :
      (key : String) (callback : ℕ) (previous : Option ℕ) (r : Result Done × W)
      (t : HelperTransport W) (done : Done)
      → get_entry key t.subscribers ≡ some callback
      → (subscribed calls key previous r t).0 ≡ ok done
      → get_entry key (subscribed calls key previous r t).1.subscribers ≡ some callback
  subscribe_in_lem key callback previous (ok d, world) t done there h = there
  subscribe_in_lem key callback previous (throws e, world) t done there h = cc

  subscribed-connected :
      (key : String) (previous : Option ℕ) (r : Result Done × W) (t : HelperTransport W)
      → (subscribed calls key previous r t).1.session_id ≡ t.session_id
  subscribed-connected key previous (ok d, world) t = refl
  subscribed-connected key previous (throws e, world) t = refl

  -- The callback that the map of subscribers has for a characteristic, connected or not.
  abbrev pub kept_callback : String → HelperTransport W → Option ℕ
  kept_callback uuid t = get_entry (normalize_uuid uuid) t.subscribers

  abbrev pub has_session : HelperTransport W → Bool
  has_session t = is_some t.session_id

  -- The helper transport keeps the contract of a transport, whatever the helper client answers.
  pub helper_transport-Contract : Contract has_session kept_callback (helper_transport calls)
  unfolding connect disconnect read_characteristic write_characteristic subscribe
  helper_transport-Contract = record {
    connects = connect-connected;
    disconnects = λ t. refl;
    forgets = λ t uuid. refl;
    reads_connected =
        λ uuid t bytes h. required t.session_id (λ s. read_in calls s uuid t) bytes (λ e. refl) h;
    writes_connected = λ uuid bytes t done h.
        required t.session_id (λ s. write_in calls s uuid bytes t) done (λ e. refl) h;
    subscribes = λ uuid callback t done h. (
      required t.session_id
          (λ s.
            subscribed calls (normalize_uuid uuid) (get_entry (normalize_uuid uuid) t.subscribers)
              (subscribe_in calls s uuid t.world)
              (record t { subscribers = set_entry (normalize_uuid uuid) callback t.subscribers }))
          done (λ e. refl) h,
      subscribe_in_lem (normalize_uuid uuid) callback
          (get_entry (normalize_uuid uuid) t.subscribers)
          (subscribe_in calls (require_session_id t.session_id) uuid t.world)
          (record t { subscribers = set_entry (normalize_uuid uuid) callback t.subscribers }) done
          (get-set_same (normalize_uuid uuid) callback t.subscribers) h,
    );
    refuses = λ uuid callback t e other h.
        subscribed_lem (normalize_uuid uuid) (normalize_uuid other) callback
          (subscribe_in calls (require_session_id t.session_id) uuid t.world) t e h;
    stays_connected = λ uuid callback t. ap is_some (
        subscribed-connected (normalize_uuid uuid) (get_entry (normalize_uuid uuid) t.subscribers)
          (subscribe_in calls (require_session_id t.session_id) uuid t.world)
          (record t { subscribers = set_entry (normalize_uuid uuid) callback t.subscribers }));
  }

  -- A notification of the transport's session reaches the callback that subscribed last to the
  -- characteristic, however its UUID is written, and after `disconnect` it reaches none.
  pub receives_own :
      (uuid : String) (callback : ℕ) (t : HelperTransport W) (session_id : String) (done : Done)
      (event : Notification) (written : String)
      → t.session_id ≡ some session_id
      → (subscribe calls uuid callback t).0 ≡ ok done
      → event.session_id ≡ some (string session_id)
      → event.uuid ≡ some (string written)
      → normalize_uuid written ≡ normalize_uuid uuid
      → (receives event (subscribe calls uuid callback t).1 ≡ ok (some callback))
        × (receives event (disconnect calls (subscribe calls uuid callback t).1).1 ≡ ok none)
  unfolding receives subscribe disconnect
  receives_own uuid callback t session_id done event written own subscribed_ok named at same =
      let key = normalize_uuid uuid in
      let before = record t { subscribers = set_entry key callback t.subscribers } in
      let r = subscribe_in calls (require_session_id t.session_id) uuid t.world in
      let previous = get_entry key t.subscribers in
      let there =
        subscribe_in_lem key callback previous r before done
          (get-set_same key callback t.subscribers) subscribed_ok in
      let kept = subscribed-connected key previous r before ∙ own in
      (rw (named, kept, str_eq_refl session_id, at, same) (ap ok there), rw named)
