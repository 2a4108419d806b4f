-- ===== src/EventBus.antt =====
-- src/core/event-bus.ts. A listener is a function on the state of the world that returns or throws;
-- it is known by a number. The two sets of listeners are alike, so that a bus has two of one kind.
-- `Promise.all` starts every listener; that each runs to its end before the next is the order here.
mod Tests
use bluetti_mqtt_node.Common.{
  ℕ, ◌≡◌, refl, sym, ap, ◌∙◌, Bool, true, false, ◌&&◌, List, [], ◌∷◌, ◌==◌, if◌then◌else◌,
  Bool-cases, inl, inr,
}
use bluetti_mqtt_node.Errors.{is_ok, Error, Result, ok, throws}
use bluetti_mqtt_node.App.Runner.{Done}

-- `Promise.all`: the first rejection is the outcome.
abbrev pub first_of : Result Done → Result Done → Result Done
first_of (throws e) rest = throws e
first_of (ok done) rest = rest

module _ (M W : Type 0) where
  abbrev pub AsyncListener : Type 0
  AsyncListener = M → W → Result Done × W

  abbrev pub Listeners : Type 0
  Listeners = List (ℕ × AsyncListener)

module _ {M W : Type 0} where
  -- `Set.add`: a listener that is there is not added again.
  unfoldable pub add_listener : ℕ → AsyncListener M W → Listeners M W → Listeners M W
  add_listener id listener [] = (id, listener) ∷ []
  add_listener id listener ((k, old) ∷ listeners) =
      if k == id then (k, old) ∷ listeners else (k, old) ∷ add_listener id listener listeners

  -- The function that adding returns.
  unfoldable pub remove_listener : ℕ → Listeners M W → Listeners M W
  remove_listener id [] = []
  remove_listener id ((k, old) ∷ listeners) =
      if k == id then listeners else (k, old) ∷ remove_listener id listeners

  -- `publishParserMessage` and `publishCommandMessage`.
  unfoldable pub publish : M → Listeners M W → W → Result Done × W
  publish message [] world = (ok tt, world)
  publish message ((id, listener) ∷ listeners) world =
      let (r, world') = listener message world in
      let (rest, after) = publish message listeners world' in (first_of r rest, after)

  -- The world after every listener has had the message.
  abbrev pub told : M → Listeners M W → W → W
  told message [] world = world
  told message ((id, listener) ∷ listeners) world =
      told message listeners (listener message world).1

  abbrev pub all_accept : M → Listeners M W → W → Bool
  all_accept message [] world = true
  all_accept message ((id, listener) ∷ listeners) world =
      let (r, world') = listener message world in is_ok r && all_accept message listeners world'

  -- Every listener gets the message, also where an earlier one throws, and publishing returns
  -- just if none of them throws.
  pub publish_tells_all :
      (message : M) (listeners : Listeners M W) (world : W)
      → ((publish message listeners world).1 ≡ told message listeners world)
        × (is_ok (publish message listeners world).0 ≡ all_accept message listeners world)
  unfolding publish
  publish_tells_all message [] world = (refl, refl)
  publish_tells_all message ((id, listener) ∷ listeners) world =
      let (r, world') = listener message world in
      let (tells, accepts) = publish_tells_all message listeners world' in
      (tells, first r (publish message listeners world').0 ∙ ap (λ b. is_ok r && b) accepts)
    where
      first : (a b : Result Done) → is_ok (first_of a b) ≡ (is_ok a && is_ok b)
      first (ok done) b = refl
      first (throws e) b = refl
