-- ===== src/EventBus/Tests.antt =====
-- Two listeners, of which the first throws.
use bluetti_mqtt_node.Common.{ℕ, ◌+◌, ◌≡◌, refl, [], ◌∷◌}
use bluetti_mqtt_node.Errors.{error, ok, throws}
use bluetti_mqtt_node.EventBus.{Listeners, publish}

abbrev two_listeners : Listeners ℕ ℕ
two_listeners =
    (0, λ message world. (throws error, world + message))
    ∷ (1, λ message world. (ok tt, world + 1))
    ∷ []

both_are_told : publish 5 two_listeners 0 ≡ (throws error, 6)
unfolding publish
both_are_told = refl
