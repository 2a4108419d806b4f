-- ===== src/Common/Occurrences.antt =====
-- How often a list of entries has a key.
use text.Mathlib.Text.{◌==◌ as str_eq}
use mathlib.Core.Path.{◌≡◌, refl, sym, ap, ◌∙◌}
use mathlib.Core.Logic.{inl, inr}
use mathlib.Core.Bool.{true, false}
use mathlib.Core.Option.{Option, none, some}
use mathlib.Core.List.{List, [], ◌∷◌, ◌++◌}
use Prim.Native.String.{String}
use Prim.Native.Nat.{ℕ, suc, ◌+◌, ◌≤◌}
use native.Mathlib.Omega.{arith}
use bluetti_mqtt_node.Common.StringMap.{
  StringMap, get_entry, set_entry, delete_entry, is_some, str_eq_refl,
}
use bluetti_mqtt_node.Common.Tests.{if◌then◌else◌, Bool-cases, Option-cases}

pub some_injective {ℓ} : {A : Type ℓ} {a b : A} → some a ≡ some b → a ≡ b
some_injective h = cc

pub is_some-cases {ℓ} : {A : Type ℓ} (o : Option A) → is_some o ≡ true → (a : A) × (o ≡ some a)
is_some-cases none h = absurd (cc)
is_some-cases (some a) h = (a, refl)

module _ {ℓ} {V : Type ℓ} where
  -- The values that a list of entries has for a key, in their order.
  abbrev pub values_of : String → StringMap V → List V
  values_of key [] = []
  values_of key ((k, v) ∷ entries) =
      if str_eq k key then v ∷ values_of key entries else values_of key entries

  abbrev pub occurrences : String → StringMap V → ℕ
  occurrences key [] = 0
  occurrences key ((k, v) ∷ entries) =
      if str_eq k key then suc (occurrences key entries) else occurrences key entries

  pub occurrences-append :
      (key : String) (xs ys : StringMap V)
      → occurrences key (xs ++ ys) ≡ occurrences key xs + occurrences key ys
  occurrences-append key [] ys = omega arith
  occurrences-append key ((k, v) ∷ xs) ys =
      let rest = occurrences-append key xs ys in
      elim (Bool-cases (str_eq k key)) [ inl e ↦ rw e (omega arith) | inr e ↦ rw e rest ]

  pub occurrences-delete_le :
      (key other : String) (entries : StringMap V)
      → occurrences key (delete_entry other entries) ≤ occurrences key entries
  occurrences-delete_le key other [] = omega arith
  occurrences-delete_le key other ((k, v) ∷ entries) =
      let rest = occurrences-delete_le key other entries in
      elim (Bool-cases (str_eq k other)) [
        | inl e ↦ elim (Bool-cases (str_eq k key)) [
          | inl f ↦ rw (e, f) (omega arith)
          | inr f ↦ rw (e, f) rest
        ]
        | inr e ↦ elim (Bool-cases (str_eq k key)) [
          | inl f ↦ rw (e, f) (omega arith)
          | inr f ↦ rw (e, f) rest
        ]
      ]

  pub occurrences-delete_same :
      (key : String) (entries : StringMap V) → occurrences key (delete_entry key entries) ≡ 0
  occurrences-delete_same key [] = refl
  occurrences-delete_same key ((k, v) ∷ entries) =
      let rest = occurrences-delete_same key entries in
      elim (Bool-cases (str_eq k key)) [ inl e ↦ rw e rest | inr e ↦ rw (e, e) rest ]

  pub occurrences-none :
      (key : String) (entries : StringMap V)
      → occurrences key entries ≡ 0
      → values_of key entries ≡ []
  occurrences-none key [] h = refl
  occurrences-none key ((k, v) ∷ entries) h = elim (Bool-cases (str_eq k key)) [
    | inl e ↦
        let one : occurrences key ((k, v) ∷ entries) ≡ suc (occurrences key entries) = rw e in
        absurd (omega arith)
    | inr e ↦
        let rest : occurrences key ((k, v) ∷ entries) ≡ occurrences key entries = rw e in
        rw e (occurrences-none key entries (sym rest ∙ h))
  ]

  get_first :
      (key k : String) (v : V) (entries : StringMap V)
      → str_eq k key ≡ true
      → get_entry key ((k, v) ∷ entries) ≡ some v
  get_first key k v entries e = rw e

  get_later :
      (key k : String) (v : V) (entries : StringMap V)
      → str_eq k key ≡ false
      → get_entry key ((k, v) ∷ entries) ≡ get_entry key entries
  get_later key k v entries e = rw e

  pub absent-occurrences :
      (key : String) (entries : StringMap V)
      → get_entry key entries ≡ none
      → occurrences key entries ≡ 0
  absent-occurrences key [] h = refl
  absent-occurrences key ((k, v) ∷ entries) h = elim (Bool-cases (str_eq k key)) [
    | inl e ↦ let found = get_first key k v entries e in absurd (cc)
    | inr e ↦ rw e (absent-occurrences key entries (sym (get_later key k v entries e) ∙ h))
  ]

  pub occurrences-found :
      (key : String) (entries : StringMap V) (v : V)
      → get_entry key entries ≡ some v
      → (n : ℕ) × (occurrences key entries ≡ suc n) × (n ≡ 0 → values_of key entries ≡ v ∷ [])
  occurrences-found key [] v h = absurd (cc)
  occurrences-found key ((k, w) ∷ entries) v h = elim (Bool-cases (str_eq k key)) [
    | inl e ↦
        let same : w ≡ v = some_injective (sym (get_first key k w entries e) ∙ h) in
        rw (e, same)
          (occurrences key entries, refl, λ z. ap (◌∷◌ v) (occurrences-none key entries z))
    | inr e ↦ rw e (occurrences-found key entries v (sym (get_later key k w entries e) ∙ h))
  ]

  -- An entry that is set where there was none is the only one.
  pub occurrences-set :
      (key : String) (v : V) (entries : StringMap V)
      → get_entry key entries ≡ none
      → occurrences key (set_entry key v entries) ≡ 1
  occurrences-set key v [] h = rw (str_eq_refl key)
  occurrences-set key v ((k, w) ∷ entries) h = elim (Bool-cases (str_eq k key)) [
    | inl e ↦ let found = get_first key k w entries e in absurd (cc)
    | inr e ↦ rw (e, e) (occurrences-set key v entries (sym (get_later key k w entries e) ∙ h))
  ]

  pub occurrences-absent :
      (key : String) (entries : StringMap V)
      → occurrences key entries ≡ 0
      → get_entry key entries ≡ none
  occurrences-absent key entries h = elim (Option-cases (get_entry key entries)) [
    | inl absent ↦ absent
    | inr (v, found) ↦
        let (n, more, _) = occurrences-found key entries v found in absurd (omega arith)
  ]

  pub occurrences-set_other :
      (key other : String) (v : V) (entries : StringMap V)
      → str_eq other key ≡ false
      → occurrences key (set_entry other v entries) ≡ occurrences key entries
  occurrences-set_other key other v [] h = rw h
  occurrences-set_other key other v ((k, w) ∷ entries) h = elim (Bool-cases (str_eq k other)) [
    | inl e ↦ rw e
    | inr e ↦
        let rest = occurrences-set_other key other v entries h in
        elim (Bool-cases (str_eq k key)) [
          | inl f ↦ rw (e, f) (ap suc rest)
          | inr f ↦ rw (e, f) rest
        ]
  ]
