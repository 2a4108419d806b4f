-- ===== src/Common/StringMap.antt =====
-- A JavaScript `Map` with strings for keys: its entries in the order of insertion.
use mathlib.Core.Path.{◌≡◌, refl, sym, ap, ◌∙◌}
use mathlib.Core.Logic.{inl, inr}
use mathlib.Core.Bool.{Bool, true, false}
use mathlib.Core.Option.{Option, none, some}
use mathlib.Core.List.{List, [], ◌∷◌, ◌++◌}
use Prim.Native.String.{String}
use text.Mathlib.Text.{◌==◌ as str_eq}
use text.Mathlib.TextEquality.{eq_iff}
use bluetti_mqtt_node.Common.Tests.{if◌then◌else◌, Bool-cases}

abbrev pub StringMap {ℓ} : Type ℓ → Type ℓ
StringMap V = List (String × V)

module _ {ℓ} {V : Type ℓ} where
  abbrev pub get_entry : String → StringMap V → Option V
  get_entry key [] = none
  get_entry key ((k, v) ∷ entries) = if str_eq k key then some v else get_entry key entries

  -- `Map.set`: the entry of a key that is there keeps its place.
  abbrev pub set_entry : String → V → StringMap V → StringMap V
  set_entry key value [] = (key, value) ∷ []
  set_entry key value ((k, v) ∷ entries) =
      if str_eq k key then (k, value) ∷ entries else (k, v) ∷ set_entry key value entries

  abbrev pub delete_entry : String → StringMap V → StringMap V
  delete_entry key [] = []
  delete_entry key ((k, v) ∷ entries) =
      if str_eq k key then delete_entry key entries else (k, v) ∷ delete_entry key entries

  abbrev pub is_some : Option V → Bool
  is_some none = false
  is_some (some v) = true

pub str_eq_refl : (s : String) → str_eq s s ≡ true
str_eq_refl s = let (_, equal) = eq_iff s s in equal refl

pub str_eq_path : (s t : String) → str_eq s t ≡ true → s ≡ t
str_eq_path s t h = let (same, _) = eq_iff s t in same h

pub str_eq_sym : (s t : String) → str_eq s t ≡ str_eq t s
str_eq_sym s t = elim (Bool-cases (str_eq s t)) [
  | inl e ↦ let p = str_eq_path s t e in rw p
  | inr e ↦ elim (Bool-cases (str_eq t s)) [
    | inl k ↦ let p = str_eq_path t s k in rw p
    | inr k ↦ e ∙ sym k
  ]
]

-- Two keys that one key equals are equal.
pub str_eq_trans : (s t u : String) → str_eq s t ≡ true → str_eq s u ≡ str_eq t u
str_eq_trans s t u h = ap (λ x. str_eq x u) (str_eq_path s t h)

module _ {ℓ} {V : Type ℓ} where
  pub get-set_same :
      (key : String) (value : V) (entries : StringMap V)
      → get_entry key (set_entry key value entries) ≡ some value
  get-set_same key value [] = rw (str_eq_refl key)
  get-set_same key value ((k, v) ∷ entries) = elim (Bool-cases (str_eq k key)) [
    | inl e ↦ rw (e, e)
    | inr e ↦ rw (e, e, get-set_same key value entries)
  ]

  pub get-set_other :
      (key other : String) (value : V) (entries : StringMap V)
      → str_eq other key ≡ false
      → get_entry key (set_entry other value entries) ≡ get_entry key entries
  get-set_other key other value [] h = rw h
  get-set_other key other value ((k, v) ∷ entries) h = elim (Bool-cases (str_eq k other)) [
    | inl e ↦ let differs = str_eq_trans k other key e ∙ h in rw (e, differs)
    | inr e ↦ elim (Bool-cases (str_eq k key)) [
      | inl p ↦ rw (e, p)
      | inr p ↦ rw (e, p, get-set_other key other value entries h)
    ]
  ]

  pub get-delete_same :
      (key : String) (entries : StringMap V) → get_entry key (delete_entry key entries) ≡ none
  get-delete_same key [] = refl
  get-delete_same key ((k, v) ∷ entries) = elim (Bool-cases (str_eq k key)) [
    | inl e ↦ rw e (get-delete_same key entries)
    | inr e ↦ rw (e, e, get-delete_same key entries)
  ]

  pub get-delete_other :
      (key other : String) (entries : StringMap V)
      → str_eq other key ≡ false
      → get_entry key (delete_entry other entries) ≡ get_entry key entries
  get-delete_other key other [] h = refl
  get-delete_other key other ((k, v) ∷ entries) h = elim (Bool-cases (str_eq k other)) [
    | inl e ↦
        let differs = str_eq_trans k other key e ∙ h in
        rw (e, differs, get-delete_other key other entries h)
    | inr e ↦ elim (Bool-cases (str_eq k key)) [
      | inl p ↦ rw (e, p)
      | inr p ↦ rw (e, p, get-delete_other key other entries h)
    ]
  ]

  pub get-append :
      (key : String) (xs ys : StringMap V)
      → get_entry key xs ≡ none
      → get_entry key (xs ++ ys) ≡ get_entry key ys
  get-append key [] ys h = refl
  get-append key ((k, v) ∷ xs) ys h = elim (Bool-cases (str_eq k key)) [
    | inl e ↦ let found : get_entry key ((k, v) ∷ xs) ≡ some v = rw e in cc
    | inr e ↦
        let rest : get_entry key ((k, v) ∷ xs) ≡ get_entry key xs = rw e in
        rw (e, get-append key xs ys (sym rest ∙ h))
  ]

  pub get-append_found :
      (key : String) (value : V) (xs ys : StringMap V)
      → get_entry key xs ≡ some value
      → get_entry key (xs ++ ys) ≡ some value
  get-append_found key value [] ys h = cc
  get-append_found key value ((k, v) ∷ xs) ys h = elim (Bool-cases (str_eq k key)) [
    | inl e ↦ let found : get_entry key ((k, v) ∷ xs) ≡ some v = rw e in rw e (sym found ∙ h)
    | inr e ↦
        let rest : get_entry key ((k, v) ∷ xs) ≡ get_entry key xs = rw e in
        rw (e, get-append_found key value xs ys (sym rest ∙ h))
  ]

  pub delete_commute :
      (a b : String) (entries : StringMap V)
      → delete_entry a (delete_entry b entries) ≡ delete_entry b (delete_entry a entries)
  delete_commute a b [] = refl
  delete_commute a b ((k, v) ∷ entries) = elim (Bool-cases (str_eq k a)) [
    | inl e ↦ elim (Bool-cases (str_eq k b)) [
      | inl f ↦ rw (e, f) (delete_commute a b entries)
      | inr f ↦ rw (e, f, e) (delete_commute a b entries)
    ]
    | inr e ↦ elim (Bool-cases (str_eq k b)) [
      | inl f ↦ rw (e, f) (delete_commute a b entries)
      | inr f ↦ rw (e, f, e, delete_commute a b entries)
    ]
  ]
