-- ===== src/Helper/Client/Steps.antt =====
-- What the changes of the client's maps and of its log of settled promises, in
-- src/bluetooth/helper-request.ts and src/bluetooth/helper-line-router.ts, do to a request's phase.
use text.Mathlib.Text.{◌==◌ as str_eq}
use bluetti_mqtt_node.Common.{
  ◌≡◌, refl, sym, subst, Bool, true, false, [], ◌∷◌, ◌++◌, if◌then◌else◌, Option, none, some,
  String, Bool-cases, Option-cases, inl, inr,
}
use bluetti_mqtt_node.Common.StringMap.{
  StringMap, get_entry, set_entry, delete_entry, is_some, str_eq_path, get-set_same, get-set_other,
  get-delete_same, get-delete_other, get-append, get-append_found,
}
use bluetti_mqtt_node.Errors.{Error}
use bluetti_mqtt_node.App.Runner.{Done}
use bluetti_mqtt_node.Helper.Client.{Reply, rejected, all_rejected}
use bluetti_mqtt_node.Helper.Client.Phases.{answered, phase_of, ask, answer, conclude, lose}

-- A request that waits has an entry.
pub answer-present :
    (reply : Reply) (log : Option Reply) (entry : Option Done)
    → is_some entry ≡ true
    → conclude reply (phase_of log entry) ≡ answer reply (phase_of log entry)
answer-present reply (some first) entry h = refl
answer-present reply none (some done) h = refl
answer-present reply none none h = cc

pub answer-absent :
    (reply : Reply) (log : Option Reply) (entry : Option Done)
    → is_some entry ≡ false
    → phase_of log entry ≡ answer reply (phase_of log entry)
answer-absent reply (some first) entry h = refl
answer-absent reply none (some done) h = cc
answer-absent reply none none h = refl

pub lose-none :
    (log : Option Reply) (entry : Option Done) → phase_of log none ≡ lose (phase_of log entry)
lose-none none none = refl
lose-none none (some done) = refl
lose-none (some reply) entry = refl

pub phase-delete :
    (id q : String) (log : Option Reply) (pending : StringMap Done)
    → phase_of log (get_entry q (delete_entry id pending)) ≡ (
        if str_eq id q
        then lose (phase_of log (get_entry q pending))
        else phase_of log (get_entry q pending))
phase-delete id q log pending = elim (Bool-cases (str_eq id q)) [
  | inl e ↦
      let gone =
        subst (λ x. get_entry q (delete_entry x pending) ≡ none) (sym (str_eq_path id q e))
          (get-delete_same q pending) in
      rw (e, gone) (lose-none log (get_entry q pending))
  | inr e ↦ rw (e, get-delete_other q id pending e)
]

pub phase-set :
    (id q : String) (log : Option Reply) (pending : StringMap Done)
    → phase_of log (get_entry q (set_entry id tt pending)) ≡ (
        if str_eq id q
        then ask (phase_of log (get_entry q pending))
        else phase_of log (get_entry q pending))
phase-set id q log pending = elim (Bool-cases (str_eq id q)) [
  | inl e ↦
      let there =
        subst (λ x. get_entry q (set_entry x tt pending) ≡ some tt) (sym (str_eq_path id q e))
          (get-set_same q tt pending) in
      rw (e, there) (asked log (get_entry q pending))
  | inr e ↦ rw (e, get-set_other q id tt pending e)
]
  where
    asked : (o : Option Reply) (entry : Option Done) → phase_of o (some tt) ≡ ask (phase_of o entry)
    asked none none = refl
    asked none (some done) = refl
    asked (some reply) entry = refl

-- A promise is settled and its entry goes.
pub phase-settle :
    (id q : String) (reply : Reply) (settled : StringMap Reply) (pending : StringMap Done)
    → phase_of (get_entry q (settled ++ (id, reply) ∷ [])) (get_entry q (delete_entry id pending))
      ≡ (if str_eq id q
          then conclude reply (phase_of (get_entry q settled) (get_entry q pending))
          else phase_of (get_entry q settled) (get_entry q pending))
phase-settle id q reply settled pending = elim (Option-cases (get_entry q settled)) [
  | inl fresh ↦ elim (Bool-cases (str_eq id q)) [
    | inl e ↦
        rw (get-append q settled ((id, reply) ∷ []) fresh, e, fresh)
          (concluded (get_entry q pending))
    | inr e ↦
        rw
          (get-append q settled ((id, reply) ∷ []) fresh, e, fresh, get-delete_other q id pending e)
  ]
  | inr (first, found) ↦
      rw (get-append_found q first settled ((id, reply) ∷ []) found, found)
        (kept (str_eq id q) first)
]
  where
    concluded : (entry : Option Done) → answered reply ≡ conclude reply (phase_of none entry)
    concluded none = refl
    concluded (some done) = refl

    kept :
        (b : Bool) (first : Reply)
        → answered first ≡ (if b then conclude reply (answered first) else answered first)
    kept true first = refl
    kept false first = refl

get-all_rejected :
    (q : String) (e : Error) (pending : StringMap Done)
    → get_entry q (all_rejected e pending)
      ≡ (if is_some (get_entry q pending) then some (rejected e) else none)
get-all_rejected q e [] = refl
get-all_rejected q e ((id, entry) ∷ pending) = elim (Bool-cases (str_eq id q)) [
  | inl k ↦ rw k
  | inr k ↦ rw k (get-all_rejected q e pending)
]

pub phase-reject_all :
    (q : String) (e : Error) (settled : StringMap Reply) (pending : StringMap Done)
    → phase_of (get_entry q (settled ++ all_rejected e pending)) none
      ≡ answer (rejected e) (phase_of (get_entry q settled) (get_entry q pending))
phase-reject_all q e settled pending = elim (Option-cases (get_entry q settled)) [
  | inl fresh ↦
      rw (get-append q settled (all_rejected e pending) fresh, fresh, get-all_rejected q e pending)
        (told (get_entry q pending))
  | inr (first, found) ↦ rw (get-append_found q first settled (all_rejected e pending) found, found)
]
  where
    told :
        (entry : Option Done)
        → phase_of (if is_some entry then some (rejected e) else none) none
          ≡ answer (rejected e) (phase_of none entry)
    told none = refl
    told (some done) = refl
