-- ===== src/Manager/Cleanup.antt =====
-- `disconnectAll` of src/bluetooth/manager.ts against a plain account of the attempts.
use bluetti_mqtt_node.Common.{
  ◌≡◌, refl, ap, ◌∙◌, Bool, true, false, ◌&&◌, List, [], ◌∷◌, if◌then◌else◌, String,
}
use bluetti_mqtt_node.Common.StringMap.{StringMap, delete_entry, str_eq_refl, delete_commute}
use bluetti_mqtt_node.Errors.{is_ok, Error, aggregate_error, Result, ok, throws}
use bluetti_mqtt_node.App.Runner.{Done}
use bluetti_mqtt_node.Manager.{
  Sessions, Manager, collect, disconnect_each, aggregate, disconnect_all,
}

module _ {S W : Type 0} (env : Sessions S W) where
  -- The world after one attempt to disconnect each session, whatever became of the others.
  abbrev pub after_attempts : StringMap S → W → W
  after_attempts [] world = world
  after_attempts ((address, session) ∷ entries) world =
      after_attempts entries (env.disconnect session world).1

  -- Every attempt succeeds.
  abbrev pub all_succeed : StringMap S → W → Bool
  all_succeed [] world = true
  all_succeed ((address, session) ∷ entries) world =
      let (r, world') = env.disconnect session world in is_ok r && all_succeed entries world'

  abbrev pub delete_all : StringMap S → StringMap S → StringMap S
  delete_all [] sessions = sessions
  delete_all ((address, session) ∷ entries) sessions =
      delete_all entries (delete_entry address sessions)

  each-after_attempts :
      (entries : StringMap S) (failures : List Error) (m : Manager S W)
      → (disconnect_each env entries failures m).1 ≡ record {
        sessions = delete_all entries m.sessions;
        world = after_attempts entries m.world;
      }
  unfolding disconnect_each
  each-after_attempts [] failures m = refl
  each-after_attempts ((address, session) ∷ entries) failures m =
      each-after_attempts entries (collect env (env.disconnect session m.world).0 failures)
        (record {
          sessions = delete_entry address m.sessions;
          world = (env.disconnect session m.world).1;
        })

  delete_all-delete :
      (address : String) (entries sessions : StringMap S)
      → delete_all entries (delete_entry address sessions)
        ≡ delete_entry address (delete_all entries sessions)
  delete_all-delete address [] sessions = refl
  delete_all-delete address ((other, session) ∷ entries) sessions =
      ap (delete_all entries) (delete_commute other address sessions)
      ∙ delete_all-delete address entries (delete_entry other sessions)

  -- Deleting the key of every entry, one after the other, leaves nothing.
  delete_all_lem : (entries : StringMap S) → delete_all entries entries ≡ []
  delete_all_lem [] = refl
  delete_all_lem ((address, session) ∷ entries) = rw (str_eq_refl address) (
      delete_all-delete address entries entries
      ∙ ap (delete_entry address) (delete_all_lem entries))

  is_empty : List Error → Bool
  is_empty [] = true
  is_empty (e ∷ failures) = false

  aggregate_lem :
      (failures : List Error)
      → aggregate env failures ≡ (if is_empty failures then ok tt else throws aggregate_error)
  unfolding is_empty
  aggregate_lem [] = refl
  aggregate_lem (e ∷ failures) = refl

  collected :
      (r : Result Done) (failures : List Error)
      → is_empty (collect env r failures) ≡ (is_empty failures && is_ok r)
  unfolding is_empty
  collected (ok done) [] = refl
  collected (ok done) (e ∷ failures) = refl
  collected (throws x) [] = refl
  collected (throws x) (e ∷ failures) = refl

  each-all_succeed :
      (entries : StringMap S) (failures : List Error) (m : Manager S W)
      → is_empty (disconnect_each env entries failures m).0
        ≡ (is_empty failures && all_succeed entries m.world)
  unfolding disconnect_each
  each-all_succeed [] failures m = right (is_empty failures)
    where
      right : (b : Bool) → b ≡ (b && true)
      right true = refl
      right false = refl
  each-all_succeed ((address, session) ∷ entries) failures m =
      let (r, world) = env.disconnect session m.world in
      each-all_succeed entries (collect env r failures)
        (record { sessions = delete_entry address m.sessions; world = world })
      ∙ ap (λ b. b && all_succeed entries world) (collected r failures)
      ∙ assoc (is_empty failures) (is_ok r) (all_succeed entries world)
    where
      assoc : (a b c : Bool) → ((a && b) && c) ≡ (a && (b && c))
      assoc true b c = refl
      assoc false b c = refl

  -- `disconnectAll` tries to disconnect every session, leaves no session, and throws an
  -- AggregateError just if some attempt failed.
  pub disconnect_all_lem :
      (m : Manager S W)
      → disconnect_all env m ≡ (
        (if all_succeed m.sessions m.world then ok tt else throws aggregate_error),
        record { sessions = []; world = after_attempts m.sessions m.world },
      )
  unfolding disconnect_all is_empty
  disconnect_all_lem m =
      let outcome : (disconnect_all env m).0
          ≡ (if all_succeed m.sessions m.world then ok tt else throws aggregate_error) =
        aggregate_lem (disconnect_each env m.sessions [] m).0
        ∙ ap (λ b. if b then ok tt else throws aggregate_error)
            (each-all_succeed m.sessions [] m) in
      let state : (disconnect_all env m).1
          ≡ record { sessions = []; world = after_attempts m.sessions m.world } =
        each-after_attempts m.sessions [] m
        ∙ ap (λ s. record { sessions = s; world = after_attempts m.sessions m.world })
            (delete_all_lem m.sessions) in
      ap (λ r. (r, (disconnect_all env m).1)) outcome
      ∙ ap (λ x. ((if all_succeed m.sessions m.world then ok tt else throws aggregate_error), x))
          state
