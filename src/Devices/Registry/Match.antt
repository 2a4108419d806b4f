-- ===== src/Devices/Registry/Match.antt =====
-- What a match of the name pattern of src/devices/registry.ts takes a name apart into.
use Prim.Native.Char.{Char, code}
use Prim.Native.String.{String, [] as empty, ◌∷◌ as ◌then◌}
use text.Mathlib.Text.{◌==◌ as str_eq}
use text.Mathlib.TextEquality.{Char-path, eq_iff}
use bluetti_mqtt_node.Common.{
  ◌≤◌, ◌≡◌, refl, ap, ◌∙◌, sym, true, List, Memᴰ, [], ◌∷◌, ◌==◌, ==_iff, if◌then◌else◌, Option,
  none, some, Bool-cases, Option-cases, and-true, inl, inr, arith,
}
use bluetti_mqtt_node.Devices.Definition.{DeviceDefinition, definition_in}
use bluetti_mqtt_node.Devices.Registry.{
  is_digit, all_digits, is_serial, strip, serial_in, match_models,
}

-- One text and then another.
abbrev pub join : String → String → String
join empty s = s
join (c then model) s = c then (join model s)

abbrev pub IsDigit : Char → Type 0
IsDigit c = (48 ≤ code c) × (code c ≤ 57)

abbrev pub IsDigits : String → Type 0
IsDigits empty = Unit
IsDigits (c then s) = IsDigit c × IsDigits s

-- One or more digits.
abbrev pub IsSerial : String → Type 0
IsSerial empty = ⊥
IsSerial (c then s) = IsDigit c × IsDigits s

all_digits-IsDigits : (s : String) → all_digits s ≡ true → IsDigits s
all_digits-IsDigits empty h = tt
all_digits-IsDigits (c then s) h =
    let (digit, rest) = and-true (is_digit c) (all_digits s) h in
    (ground arith, all_digits-IsDigits s rest)

IsDigits-all_digits : (s : String) → IsDigits s → all_digits s ≡ true
IsDigits-all_digits empty h = refl
IsDigits-all_digits (c then s) (digit, rest) = let all = IsDigits-all_digits s rest in ground arith

pub is_serial-IsSerial : (s : String) → is_serial s ≡ true → IsSerial s
is_serial-IsSerial empty h = cc
is_serial-IsSerial (c then s) h = all_digits-IsDigits (c then s) h

pub IsSerial-is_serial : (s : String) → IsSerial s → is_serial s ≡ true
IsSerial-is_serial empty h = elim h [ ]
IsSerial-is_serial (c then s) h = IsDigits-all_digits (c then s) h

strip-some : (model name rest : String) → strip model name ≡ some rest → name ≡ join model rest
strip-some empty name rest h = cc
strip-some (c then model) empty rest h = cc
strip-some (c then model) (d then name) rest h = elim (Bool-cases (code c == code d)) [
  | inl e ↦
      let step : strip (c then model) (d then name) ≡ strip model name = rw e in
      let (same, _) = ==_iff (code c) (code d) in
      let c_eq_d = Char-path c d (same e) in
      let rest_lem = strip-some model name rest (sym step ∙ h) in cc
  | inr e ↦ let step : strip (c then model) (d then name) ≡ none = rw e in cc
]

serial_in-some :
    (o : Option String) (serial : String)
    → serial_in o ≡ some serial
    → (o ≡ some serial) × (is_serial serial ≡ true)
serial_in-some none serial h = cc
serial_in-some (some rest) serial h = elim (Bool-cases (is_serial rest)) [
  | inl e ↦
      let step : serial_in (some rest) ≡ some rest = rw e in
      let same : rest ≡ serial = cc in (ap some same, cc)
  | inr e ↦ let step : serial_in (some rest) ≡ none = rw e in cc
]

-- A match takes the text apart.
pub match_models-some :
    (models : List String) (name model serial : String)
    → match_models models name ≡ some (model, serial)
    → Memᴰ model models × (name ≡ join model serial) × (is_serial serial ≡ true)
unfolding match_models
match_models-some [] name model serial h = cc
match_models-some (m ∷ models) name model serial h =
    elim (Option-cases (serial_in (strip m name))) [
      | inl e ↦
          let step : match_models (m ∷ models) name ≡ match_models models name = rw e in
          let (among, split, digits) = match_models-some models name model serial (sym step ∙ h) in
          (Memᴰ.tail among, split, digits)
      | inr (s, e) ↦
          let step : match_models (m ∷ models) name ≡ some (m, s) = rw e in
          let (stripped, digits) = serial_in-some (strip m name) s e in
          let m_lem : model ≡ m = cc in
          let s_lem : s ≡ serial = cc in
          (
            Memᴰ.head m_lem,
            strip-some m name s stripped
                ∙ ap (λ t. join m t) s_lem
                ∙ ap (λ t. join t serial) (sym m_lem),
            ap is_serial (sym s_lem) ∙ digits,
          )
    ]

pub definition_in-some :
    (defs : List DeviceDefinition) (model : String) (def : DeviceDefinition)
    → definition_in defs model ≡ some def
    → Memᴰ def defs × (def.type_name ≡ model)
definition_in-some [] model def h = cc
definition_in-some (d ∷ defs) model def h = elim (Bool-cases (str_eq d.type_name model)) [
  | inl e ↦
      let step : definition_in (d ∷ defs) model ≡ some d = rw e in
      let same : d ≡ def = cc in
      let (equal, _) = eq_iff d.type_name model in
      (Memᴰ.head (sym same), ap (λ x. x.type_name) (sym same) ∙ equal e)
  | inr e ↦
      let step : definition_in (d ∷ defs) model ≡ definition_in defs model = rw e in
      let (among, named) = definition_in-some defs model def (sym step ∙ h) in
      (Memᴰ.tail among, named)
]
