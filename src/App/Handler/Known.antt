-- ===== src/App/Handler/Known.antt =====
-- What `connectAll` of src/app/device-handler.ts makes sure of.
use bluetti_mqtt_node.Common.{
  ◌≡◌, refl, sym, subst, true, false, List, [], ◌∷◌, String, Bool-cases, inl, inr, All,
}
use bluetti_mqtt_node.Common.StringMap.{StringMap, get_entry, set_entry, is_some, get-set_same}
use bluetti_mqtt_node.Common.Extends.{Extends, Extends-trans, set-Extends, has-Extends}
use bluetti_mqtt_node.Errors.{Result, ok, throws}
use bluetti_mqtt_node.Devices.Device.{BluettiDevice}
use bluetti_mqtt_node.App.Polling.{
  PollingOptions, create_device_polling_state, create_device_telemetry,
}
use bluetti_mqtt_node.App.Runner.{Done}
use bluetti_mqtt_node.App.Handler.Setup.{
  HandlerCalls, DeviceHandler, set_missing, name_device, with_states, with_device, prepare,
  prepare_all, attached, connected, connect_all,
}

module _ {ℓ} {V : Type ℓ} where
  set_missing-Extends :
      (key : String) (value : V) (entries : StringMap V)
      → Extends entries (set_missing key value entries)
  unfolding Extends
  set_missing-Extends key value entries = elim (Bool-cases (is_some (get_entry key entries))) [
    | inl e ↦ rw e (λ k v h. h)
    | inr e ↦ rw e (set-Extends key value entries e)
  ]

  has-set_missing :
      (key : String) (value : V) (entries : StringMap V)
      → is_some (get_entry key (set_missing key value entries)) ≡ true
  has-set_missing key value entries = elim (Bool-cases (is_some (get_entry key entries))) [
    | inl e ↦ rw e e
    | inr e ↦ rw (e, get-set_same key value entries)
  ]

-- The handler has a model, a schedule and counters for the address.
abbrev pub IsKnown : {W : Type 0} → DeviceHandler W → String → Type 0
IsKnown handler address =
    (is_some (get_entry address handler.devices) ≡ true)
    × (is_some (get_entry address handler.polling_state) ≡ true)
    × (is_some (get_entry address handler.telemetry) ≡ true)

-- Whatever the handler had, it still has.
pub Grows : {W : Type 0} → DeviceHandler W → DeviceHandler W → Type 0
Grows before after =
    Extends before.devices after.devices
    × Extends before.polling_state after.polling_state
    × Extends before.telemetry after.telemetry

module _ {W : Type 0} where
  Grows-trans :
      (first second third : DeviceHandler W)
      → Grows first second
      → Grows second third
      → Grows first third
  unfolding Grows
  Grows-trans a b c (d, p, t) (d', p', t') = (
    Extends-trans a.devices b.devices c.devices d d',
    Extends-trans a.polling_state b.polling_state c.polling_state p p',
    Extends-trans a.telemetry b.telemetry c.telemetry t t',
  )

  Grows-refl : (handler : DeviceHandler W) → Grows handler handler
  unfolding Grows Extends
  Grows-refl handler = (λ k v h. h, λ k v h. h, λ k v h. h)

  Grows-IsKnown :
      (address : String) (before after : DeviceHandler W)
      → Grows before after
      → IsKnown before address
      → IsKnown after address
  unfolding Grows
  Grows-IsKnown address before after (d, p, t) (hd, hp, ht) = (
    has-Extends address before.devices after.devices d hd,
    has-Extends address before.polling_state after.polling_state p hp,
    has-Extends address before.telemetry after.telemetry t ht,
  )

-- How the preparation of the addresses ends.
unfoldable pub Prepared :
    {W : Type 0} → List String → DeviceHandler W → Result Done × DeviceHandler W → Type 0
Prepared addresses before (ok done, after) = Grows before after × All (IsKnown after) addresses
Prepared addresses before (throws e, after) = Grows before after

module _ {W : Type 0} (calls : HandlerCalls W) (options : PollingOptions) where
  -- The schedule and the counters of an address that has a model.
  states-Prepared :
      (address : String) (before handler : DeviceHandler W)
      → Extends before.devices handler.devices
      → before.polling_state ≡ handler.polling_state
      → before.telemetry ≡ handler.telemetry
      → is_some (get_entry address handler.devices) ≡ true
      → Prepared (address ∷ []) before (ok tt, with_states calls options address handler)
  unfolding Prepared Grows
  states-Prepared address before handler devices polling telemetry has =
      let state = create_device_polling_state options in
      (
        (
          devices,
          subst (λ m. Extends m (set_missing address state handler.polling_state)) (sym polling)
              (set_missing-Extends address state handler.polling_state),
          subst (λ m. Extends m (set_missing address create_device_telemetry handler.telemetry))
              (sym telemetry)
              (set_missing-Extends address create_device_telemetry handler.telemetry),
        ),
        (
          (
            has,
            has-set_missing address state handler.polling_state,
            has-set_missing address create_device_telemetry handler.telemetry,
          ),
          tt,
        ),
      )

  device-Prepared :
      (r : Result BluettiDevice) (address : String) (handler : DeviceHandler W)
      → is_some (get_entry address handler.devices) ≡ false
      → Prepared (address ∷ []) handler (with_device calls options r address handler)
  unfolding Prepared
  device-Prepared (throws e) address handler missing = Grows-refl handler
  device-Prepared (ok device) address handler missing =
      states-Prepared address handler
        (record handler { devices = set_entry address device handler.devices })
        (set-Extends address device handler.devices missing) refl refl
        (rw (get-set_same address device handler.devices))

  prepare-Prepared :
      (address : String) (handler : DeviceHandler W)
      → Prepared (address ∷ []) handler (prepare calls options address handler)
  unfolding prepare Extends
  prepare-Prepared address handler =
      elim (Bool-cases (is_some (get_entry address handler.devices))) [
        | inl e ↦ rw e (states-Prepared address handler handler (λ k v h. h) refl refl e)
        | inr e ↦
            rw e
              (device-Prepared (name_device calls options address handler.world) address handler e)
      ]

  more-Prepared :
      (address : String) (addresses : List String) (before next : DeviceHandler W)
      (r : Result Done × DeviceHandler W)
      → Grows before next
      → IsKnown next address
      → Prepared addresses next r
      → Prepared (address ∷ addresses) before r
  unfolding Prepared
  more-Prepared address addresses before next (ok done, after) grown known (grows, all) = (
    Grows-trans before next after grown grows,
    (Grows-IsKnown address next after grows known, all),
  )
  more-Prepared address addresses before next (throws e, after) grown known grows =
      Grows-trans before next after grown grows

  prepare_all-Prepared :
      (addresses : List String) (handler : DeviceHandler W)
      → Prepared addresses handler (prepare_all calls options addresses handler)
  unfolding prepare_all Prepared
  prepare_all-Prepared [] handler = (Grows-refl handler, tt)
  prepare_all-Prepared (address ∷ addresses) handler =
      go (prepare calls options address handler) (prepare-Prepared address handler)
        (prepare_all-Prepared addresses)
    where
      go :
          (x : Result Done × DeviceHandler W)
          → Prepared (address ∷ []) handler x
          → ((next : DeviceHandler W)
              → Prepared addresses next (prepare_all calls options addresses next))
          → Prepared (address ∷ addresses) handler (elim x.0 [
            | throws e ↦ (throws e, x.1)
            | ok done ↦ prepare_all calls options addresses x.1
          ])
      go (throws e, next) prepared rest = prepared
      go (ok done, next) (grown, (known, nil)) rest =
          more-Prepared address addresses handler next (prepare_all calls options addresses next)
            grown known (rest next)

  attached-Grows : (handler : DeviceHandler W) → Grows handler (attached calls options handler)
  unfolding Grows
  attached-Grows handler = elim (Bool-cases handler.command_listener_attached) [
    | inl e ↦ rw e (Grows-refl handler)
    | inr e ↦ rw e (Grows-refl handler)
  ]

  after-Prepared :
      (addresses : List String) (before next : DeviceHandler W) (r : Result Done × DeviceHandler W)
      → Grows before next
      → Prepared addresses next r
      → Prepared addresses before r
  unfolding Prepared
  after-Prepared addresses before next (ok done, after) grown (grows, all) =
      (Grows-trans before next after grown grows, all)
  after-Prepared addresses before next (throws e, after) grown grows =
      Grows-trans before next after grown grows

  -- If `connectAll` returns, the handler has a model, a schedule and counters for every address of
  -- the manager; in any case it keeps those that it had.
  pub connect_all-Prepared :
      (handler : DeviceHandler W)
      → Prepared calls.addresses handler (connect_all calls options handler)
  unfolding connect_all Prepared prepare_all Grows
  connect_all-Prepared handler =
      let (r, world) = calls.connect_all handler.world in
      go r (record handler { world = world }) (Grows-refl handler)
    where
      go :
          (r : Result Done) (next : DeviceHandler W)
          → Grows handler next
          → Prepared calls.addresses handler (connected calls options r next)
      go (throws e) next grown = grown
      go (ok done) next grown =
          after-Prepared calls.addresses handler (attached calls options next)
            (prepare_all calls options calls.addresses (attached calls options next))
            (Grows-trans handler next (attached calls options next) grown (attached-Grows next))
            (prepare_all-Prepared calls.addresses (attached calls options next))
