-- ===== src/App/Runner/Packs.antt =====
-- What `runPackCommands` of src/app/device-executor.ts makes of the results of its command sets.
use bluetti_mqtt_node.Common.{ℕ, ◌≡◌, refl, ap, ◌∙◌, false, List, [], ◌∷◌}
use bluetti_mqtt_node.Errors.{ok}
use bluetti_mqtt_node.Devices.Device.{BluettiDevice, ReadWindow}
use bluetti_mqtt_node.App.Polling.{CommandResult, success, expected_error, busy, connection_error}
use bluetti_mqtt_node.App.Runner.{
  Environment, Run, switches_packs, run_command_set, run_packs, run_from_first_pack,
  run_pack_commands,
}

-- What a set of pack windows of a device without a pack switch ends as.
abbrev pub pack_result : CommandResult → CommandResult
pack_result busy = busy
pack_result _ = success

module _ {W : Type 0} (env : Environment W) where
  one_pack :
      (device : BluettiDevice) (delay : ℕ) (run : Run W) (result : CommandResult)
      → env.is_stop_requested run.world ≡ false
      → switches_packs device ≡ false
      → (run_command_set env device device.pack_polling_commands delay run).0 ≡ ok result
      → run_packs env device delay 1 1 run ≡ (
        ok (pack_result result),
        (run_command_set env device device.pack_polling_commands delay run).1,
      )
  unfolding run_packs
  one_pack device delay run success going unswitched h =
      rw (going, unswitched, unswitched, h, unswitched)
  one_pack device delay run expected_error going unswitched h =
      rw (going, unswitched, unswitched, h, unswitched)
  one_pack device delay run busy going unswitched h =
      rw (going, unswitched, unswitched, h, unswitched)
  one_pack device delay run connection_error going unswitched h =
      rw (going, unswitched, unswitched, h, unswitched)

  from_first :
      (windows : List ReadWindow) (device : BluettiDevice) (delay : ℕ) (run : Run W)
      (window : ReadWindow) (rest : List ReadWindow)
      → windows ≡ window ∷ rest
      → run_from_first_pack env windows device delay run
        ≡ run_packs env device delay device.pack_num_max 1 run
  unfolding run_from_first_pack
  from_first [] device delay run window rest h = cc
  from_first (first ∷ windows) device delay run window rest h = refl

  -- On a device with one pack, whatever result but busy the pack windows end with is returned as
  -- a success, also the loss of the connection.
  pub one_pack_result :
      (device : BluettiDevice) (delay : ℕ) (run run' : Run W) (window : ReadWindow)
      (rest : List ReadWindow) (result : CommandResult)
      → device.pack_num_max ≡ 1
      → device.pack_polling_commands ≡ window ∷ rest
      → env.is_stop_requested run.world ≡ false
      → run_command_set env device device.pack_polling_commands delay run ≡ (ok result, run')
      → run_pack_commands env device delay run ≡ (ok (pack_result result), run')
  unfolding run_pack_commands
  one_pack_result device delay run run' window rest result one windows going h =
      let unswitched : switches_packs device ≡ false = rw one in
      from_first device.pack_polling_commands device delay run window rest windows
      ∙ ap (λ n. run_packs env device delay n 1 run) one
      ∙ one_pack device delay run result going unswitched (ap (λ x. x.0) h)
      ∙ ap (λ x. (ok (pack_result result), x.1)) h
