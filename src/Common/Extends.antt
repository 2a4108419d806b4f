-- ===== src/Common/Extends.antt =====
-- Maps that only grow.
use text.Mathlib.Text.{◌==◌ as str_eq}
use Prim.Native.String.{String}
use mathlib.Core.Path.{◌≡◌, subst, ◌∙◌}
use mathlib.Core.Logic.{inl, inr}
use mathlib.Core.Bool.{true, false}
use mathlib.Core.Option.{some}
use bluetti_mqtt_node.Common.Tests.{Bool-cases, Option-cases}
use bluetti_mqtt_node.Common.StringMap.{
  StringMap, get_entry, set_entry, is_some, str_eq_path, get-set_other,
}

-- No entry of the one map is lost or changed in the other.
unfoldable pub Extends {ℓ} : {V : Type ℓ} → StringMap V → StringMap V → Type ℓ
Extends {V} before after =
    (key : String) (value : V)
    → get_entry key before ≡ some value
    → get_entry key after ≡ some value

module _ {ℓ} {V : Type ℓ} where
  pub Extends-refl : (entries : StringMap V) → Extends entries entries
  unfolding Extends
  Extends-refl entries key value h = h

  pub Extends-trans :
      (first second third : StringMap V)
      → Extends first second
      → Extends second third
      → Extends first third
  unfolding Extends
  Extends-trans first second third f g key value h = g key value (f key value h)

  -- An entry that is added where there was none.
  pub set-Extends :
      (key : String) (value : V) (entries : StringMap V)
      → is_some (get_entry key entries) ≡ false
      → Extends entries (set_entry key value entries)
  unfolding Extends
  set-Extends key value entries missing other old there = elim (Bool-cases (str_eq key other)) [
    | inl e ↦
        let gone =
          subst (λ k. is_some (get_entry k entries) ≡ false) (str_eq_path key other e) missing in
        let found : is_some (get_entry other entries) ≡ true = rw there in absurd (cc)
    | inr e ↦ get-set_other other key value entries e ∙ there
  ]

  pub has-Extends :
      (key : String) (before after : StringMap V)
      → Extends before after
      → is_some (get_entry key before) ≡ true
      → is_some (get_entry key after) ≡ true
  unfolding Extends
  has-Extends key before after f h = elim (Option-cases (get_entry key before)) [
    | inl missing ↦ cc
    | inr (value, there) ↦ rw (f key value there)
  ]
