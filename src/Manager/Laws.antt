-- ===== src/Manager/Laws.antt =====
-- The sessions that src/bluetooth/manager.ts has for its addresses.
use text.Mathlib.Text.{◌==◌ as str_eq}
use bluetti_mqtt_node.Common.{
  ◌≡◌, refl, ap, subst, ◌∙◌, true, false, List, [], ◌∷◌, ◌++◌, none, some, String, Bool-cases,
  Option-cases, inl, inr, All,
}
use bluetti_mqtt_node.Common.StringMap.{
  get_entry, is_some, get-set_same, get-set_other, str_eq_path,
}
use bluetti_mqtt_node.Common.Extends.{Extends, Extends-trans, has-Extends}
use bluetti_mqtt_node.Errors.{Error, Result, ok, throws}
use bluetti_mqtt_node.App.Runner.{Done}
use bluetti_mqtt_node.Manager.{Sessions, Manager, install, connect_new, connect_all}

module _ {S W : Type 0} (env : Sessions S W) where
  -- The session is the one that the address has, and it was connected last.
  abbrev pub Installed : String → Manager S W → Type 0
  Installed address after =
      (session : S) × (world : W) × (done : Done) × (env.connect_and_initialize session world
        ≡ (ok done, after.world))
      × (get_entry address after.sessions ≡ some session)

  -- The attempt that threw the error.
  abbrev pub Threw : Error → W → Type 0
  Threw e after =
      (session : S) × (world : W) × (env.connect_and_initialize session world ≡ (throws e, after))

  abbrev pub Tried : String → Manager S W → Result Done × Manager S W → Type 0
  Tried address before (ok done, after) = Installed address after
  Tried address before (throws e, after) = (after.sessions ≡ before.sessions) × Threw e after.world

  pub connect_new-Tried :
      (address : String) (m : Manager S W) → Tried address m (connect_new env address m)
  unfolding connect_new
  connect_new-Tried address m =
      go (env.connect_and_initialize (env.create address m.world).0 (env.create address m.world).1)
        refl
    where
      session : S
      session = (env.create address m.world).0

      go :
          (r : Result Done × W)
          → env.connect_and_initialize session (env.create address m.world).1 ≡ r
          → Tried address m (install env address session r.0 (record m { world = r.1 }))
      go (ok done, world) e = (
        session,
        (env.create address m.world).1,
        done,
        e,
        get-set_same address session m.sessions,
      )
      go (throws x, world) e = (refl, (session, (env.create address m.world).1, e))

  -- Sessions of other addresses are left alone.
  pub connect_new_other :
      (address other : String) (m : Manager S W)
      → str_eq address other ≡ false
      → get_entry other (connect_new env address m).1.sessions ≡ get_entry other m.sessions
  unfolding connect_new
  connect_new_other address other m differs =
      go (env.connect_and_initialize (env.create address m.world).0 (env.create address m.world).1)
    where
      go :
          (r : Result Done × W)
          → get_entry other
              (install env address
                (env.create address m.world).0
                r.0
                (record m { world = r.1 })).1.sessions
            ≡ get_entry other m.sessions
      go (ok done, world) =
          get-set_other other address (env.create address m.world).0 m.sessions differs
      go (throws x, world) = refl

  abbrev pub Kept : Manager S W → Manager S W → Type 0
  Kept before after = Extends before.sessions after.sessions

  abbrev pub Has : Manager S W → String → Type 0
  Has after address = is_some (get_entry address after.sessions) ≡ true

  -- How `connectAll` ends: with a session for every address, or with the error of the first
  -- address that could not be connected.
  unfoldable pub Connected : List String → Manager S W → Result Done × Manager S W → Type 0
  Connected addresses before (ok done, after) = Kept before after × All (Has after) addresses
  Connected addresses before (throws e, after) =
      Kept before after
      × ((firsts : List String) × (failed : String) × (rest : List String) × (addresses
            ≡ firsts ++ failed ∷ rest)
          × All (Has after) firsts
          × (get_entry failed after.sessions ≡ none)
          × Threw e after.world)

  -- One address more, that has a session already when the others are connected.
  more :
      (address : String) (addresses : List String) (before next : Manager S W)
      (r : Result Done × Manager S W)
      → Kept before next
      → Has next address
      → Connected addresses next r
      → Connected (address ∷ addresses) before r
  unfolding Connected
  more address addresses before next (ok done, after) first has (kept, all) = (
    Extends-trans before.sessions next.sessions after.sessions first kept,
    (has-Extends address next.sessions after.sessions kept has, all),
  )
  more address addresses before next (throws e, after) first has
        (kept, (firsts, failed, rest, same, all, missing, threw)) =
      (
        Extends-trans before.sessions next.sessions after.sessions first kept,
        (
          address ∷ firsts,
          failed,
          rest,
          ap (◌∷◌ address) same,
          (has-Extends address next.sessions after.sessions kept has, all),
          missing,
          threw,
        ),
      )

  new-Kept :
      (address : String) (m : Manager S W)
      → is_some (get_entry address m.sessions) ≡ false
      → Kept m (connect_new env address m).1
  unfolding Extends
  new-Kept address m missing other session there = elim (Bool-cases (str_eq address other)) [
    | inl e ↦
        let same =
          subst (λ a. is_some (get_entry a m.sessions) ≡ false) (str_eq_path address other e)
            missing in
        absurd (let t : is_some (get_entry other m.sessions) ≡ true = rw there in cc)
    | inr e ↦ connect_new_other address other m e ∙ there
  ]

  -- A new session is connected before the others.
  after_new :
      (address : String) (addresses : List String) (m : Manager S W) (r : Result Done × Manager S W)
      → is_some (get_entry address m.sessions) ≡ false
      → Tried address m r
      → Kept m r.1
      → Connected addresses r.1 (connect_all env addresses r.1)
      → Connected
          (address ∷ addresses)
          m
          (elim r.0 [ ok done ↦ connect_all env addresses r.1 | throws e ↦ (throws e, r.1) ])
  unfolding Connected
  after_new address addresses m (ok done, next) missing (session, world, d, e, there) kept rest =
      more address addresses m next (connect_all env addresses next) kept (rw there) rest
  after_new address addresses m (throws e, next) missing (same, threw) kept rest =
      elim (Option-cases (get_entry address m.sessions)) [
        | inl gone ↦
            (kept, ([], address, addresses, refl, tt, ap (get_entry address) same ∙ gone, threw))
        | inr (session, there) ↦
            let t : is_some (get_entry address m.sessions) ≡ true = rw there in absurd (cc)
      ]

  -- `connectAll` ends as said, and no session of before is lost or replaced.
  pub connect_all-Connected :
      (addresses : List String) (m : Manager S W)
      → Connected addresses m (connect_all env addresses m)
  unfolding connect_all Connected Extends
  connect_all-Connected [] m = ((λ a s h. h), tt)
  connect_all-Connected (address ∷ addresses) m =
      elim (Bool-cases (is_some (get_entry address m.sessions))) [
        | inl has ↦ rw has (
            more address addresses m m (connect_all env addresses m) (λ a s h. h) has
              (connect_all-Connected addresses m))
        | inr missing ↦ rw missing (
            after_new address addresses m (connect_new env address m) missing
              (connect_new-Tried address m) (new-Kept address m missing)
              (connect_all-Connected addresses (connect_new env address m).1))
      ]
