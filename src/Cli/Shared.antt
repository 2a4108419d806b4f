-- ===== src/Cli/Shared.antt =====
-- src/cli/shared.ts. The helper client, the transport and the session are functions on the state of
-- the world.
use bluetti_mqtt_node.Common.{
  ℕ, ◌≡◌, ◌⊎◌, refl, sym, ap, Bool, true, false, List, [], ◌∷◌, ◌++◌, Option, none, some, String,
  inl, inr,
}
use bluetti_mqtt_node.Errors.{Error, error, Result, ok, throws, ◌>>=◌}
use bluetti_mqtt_node.Commands.{DeviceCommand, parse_response}
use bluetti_mqtt_node.Commands.Frames.{read_command}
use bluetti_mqtt_node.Devices.Struct.{ParsedFieldMap}
use bluetti_mqtt_node.Devices.Device.{BluettiDevice, ReadWindow, parse}
use bluetti_mqtt_node.Devices.Registry.{create_device_from_advertisement}
use bluetti_mqtt_node.App.Runner.{Done}

pub record DeviceCalls (W : Type 0) : Type 0 where
  -- `session.connectAndInitialize()` on a new transport.
  pub connect : W → Result Done × W
  pub name : W → Option String
  -- `transport.disconnect()`.
  pub disconnect : W → Result Done × W
  -- `client.dispose()`.
  pub dispose : W → W
  -- `session.perform(command)`.
  pub perform : DeviceCommand → W → Result (List ℕ) × W

pub record PollCommandResult : Type 0 where
  pub command : ReadWindow
  pub response : List ℕ
  pub parsed : ParsedFieldMap

module _ {W : Type 0} (calls : DeviceCalls W) where
  abbrev pub released : Bool → Result Done × W → Result Done × W
  released report (ok done, world) = (ok done, calls.dispose world)
  released true (throws e, world) = (throws e, world)
  released false (throws e, world) = (ok tt, calls.dispose world)

  -- `cleanup`, the first time that it is called.
  unfoldable pub cleanup : Bool → W → Result Done × W
  cleanup report world = released report (calls.disconnect world)

  module _ {A : Type 0} (address : String) (work : BluettiDevice → W → Result A × W) where
    abbrev pub work_on : Result BluettiDevice → W → Result A × W
    work_on (throws e) world = (throws e, world)
    work_on (ok device) world = work device world

    abbrev pub device_named : Option String → Result BluettiDevice
    device_named none = throws error
    device_named (some name) = create_device_from_advertisement address name

    abbrev pub connected : Result Done × W → Result A × W
    connected (throws e, world) = (throws e, world)
    connected (ok done, world) = work_on (device_named (calls.name world)) world

    -- The `try` block up to the call of `cleanup`.
    unfoldable pub attempt : W → Result A × W
    attempt world = connected (calls.connect world)

    -- The second call of `cleanup` does nothing.
    abbrev pub returned : A → Result Done × W → Result A × W
    returned a (ok done, world) = (ok a, world)
    returned a (throws e, world) = (throws e, world)

    unfoldable pub concluded : Result A × W → Result A × W
    unfolding cleanup
    concluded (ok a, world) = returned a (cleanup true world)
    concluded (throws e, world) = (throws e, (cleanup false world).1)

    unfoldable pub with_connected_device : W → Result A × W
    unfolding attempt concluded
    with_connected_device world = concluded (attempt world)

  abbrev pub polled : ReadWindow → Result (List ℕ) → BluettiDevice → Result PollCommandResult
  polled window (throws e) device = throws e
  polled window (ok response) device = do
    parsed ←
        parse device window.starting_address
          (parse_response (read_command window.starting_address window.quantity) response)
    ok (record { command = window; response = response; parsed = parsed })

  -- The loop of `runPollingCommands`, with the results so far.
  unfoldable pub run_polling_commands :
      BluettiDevice
      → List ReadWindow
      → List PollCommandResult
      → W
      → Result (List PollCommandResult) × W
  run_polling_commands device [] results world = (ok results, world)
  run_polling_commands device (window ∷ windows) results world =
      let (r, world') =
        calls.perform (read_command window.starting_address window.quantity) world in
      elim (polled window r device) [
        | throws e ↦ (throws e, world')
        | ok result ↦ run_polling_commands device windows (results ++ result ∷ []) world'
      ]

-- The outcome of the work comes first, and the client is disposed of, unless the work succeeded and
-- the transport could not be disconnected.
module _ {W A : Type 0} (calls : DeviceCalls W) (address : String)
    (work : BluettiDevice → W → Result A × W) where
  unfoldable pub Released : Result A × W → Result A × W → Type 0
  Released (throws e, world) end = end ≡ (throws e, calls.dispose (calls.disconnect world).1)
  Released (ok a, world) end =
      ((end ≡ (ok a, calls.dispose (calls.disconnect world).1))
        × ((calls.disconnect world).0 ≡ ok tt))
      ⊎ ((e : Error) × ((calls.disconnect world).0 ≡ throws e)
          × (end ≡ (throws e, (calls.disconnect world).1)))

  -- What the attempt gave is what the caller gets, after the release of the connection and of the
  -- client; only where the attempt succeeded and its disconnection failed, the caller gets the
  -- error of the disconnection, and the client is not disposed of.
  pub with_connected_device-Released :
      (world : W)
      → Released (attempt calls address work world) (with_connected_device calls address work world)
  unfolding with_connected_device Released cleanup concluded
  with_connected_device-Released world = go (attempt calls address work world)
    where
      thrown :
          (e : Error) (x : Result Done × W)
          → ◌≡◌ {A = Result A × W}
              (throws e, (released calls false x).1)
              (throws e, calls.dispose x.1)
      thrown e (ok done, after) = refl
      thrown e (throws x, after) = refl

      stopped :
          (a : A) (before : W) (x : Result Done × W)
          → calls.disconnect before ≡ x
          → Released (ok a, before) (returned calls address work a (released calls true x))
      stopped a before (ok done, after) same =
          inl (ap (λ y. (ok a, calls.dispose y.1)) (sym same), ap (λ y. y.0) same)
      stopped a before (throws e, after) same =
          inr (e, ap (λ y. y.0) same, ap (λ y. (throws e, y.1)) (sym same))

      go : (x : Result A × W) → Released x (concluded calls address work x)
      go (throws e, before) = thrown e (calls.disconnect before)
      go (ok a, before) = stopped a before (calls.disconnect before) refl
