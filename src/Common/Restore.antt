-- ===== src/Common/Restore.antt =====
-- An entry that is set for a time, and put back where what needed it failed.
use text.Mathlib.Text.{◌==◌ as str_eq}
use Prim.Native.String.{String}
use mathlib.Core.Path.{◌≡◌, refl, subst, ◌∙◌}
use mathlib.Core.Logic.{inl, inr}
use mathlib.Core.Bool.{false}
use mathlib.Core.Option.{Option, none, some}
use bluetti_mqtt_node.Common.Tests.{Bool-cases}
use bluetti_mqtt_node.Common.StringMap.{
  StringMap, get_entry, set_entry, delete_entry, str_eq_path, get-set_same, get-set_other,
  get-delete_same, get-delete_other,
}

abbrev pub restore {ℓ} : {V : Type ℓ} → String → Option V → StringMap V → StringMap V
restore key none entries = delete_entry key entries
restore key (some previous) entries = set_entry key previous entries

-- A subscription that failed leaves every callback as it was.
pub restored {ℓ} :
    {V : Type ℓ} (key other : String) (callback : V) (subscribers : StringMap V)
    → get_entry other (restore key (get_entry key subscribers) (set_entry key callback subscribers))
      ≡ get_entry other subscribers
restored {V} key other callback subscribers = elim (Bool-cases (str_eq key other)) [
  | inl e ↦
      subst
        (λ x.
          get_entry x (restore key (get_entry key subscribers) (set_entry key callback subscribers))
          ≡ get_entry x subscribers)
        (str_eq_path key other e) (here (get_entry key subscribers) refl)
  | inr e ↦ there (get_entry key subscribers) e
]
  where
    here :
        (previous : Option V)
        → previous ≡ get_entry key subscribers
        → get_entry key (restore key previous (set_entry key callback subscribers))
          ≡ get_entry key subscribers
    here none h = get-delete_same key (set_entry key callback subscribers) ∙ h
    here (some p) h = get-set_same key p (set_entry key callback subscribers) ∙ h

    there :
        (previous : Option V)
        → str_eq key other ≡ false
        → get_entry other (restore key previous (set_entry key callback subscribers))
          ≡ get_entry other subscribers
    there none e =
        get-delete_other other key (set_entry key callback subscribers) e
        ∙ get-set_other other key callback subscribers e
    there (some p) e =
        get-set_other other key p (set_entry key callback subscribers) e
        ∙ get-set_other other key callback subscribers e
