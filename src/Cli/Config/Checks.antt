-- ===== src/Cli/Config/Checks.antt =====
-- What each check of src/cli/cli-config.ts accepts.
use Prim.Native.Char.{code}
use Prim.Native.String.{String, [] as no_chars, ◌∷◌ as ◌then◌}
use text.Mathlib.Text.{◌==◌ as str_eq}
use bluetti_mqtt_node.Common.{
  ◌≡◌, ◌↔◌, refl, sym, ap, ◌∙◌, subst, false, Option, none, some, inl, inr, Bool-cases,
}
use bluetti_mqtt_node.Common.StringMap.{str_eq_path}
use bluetti_mqtt_node.Common.Occurrences.{some_injective}
use bluetti_mqtt_node.Helper.Json.{Json, null, boolean, number, string, array, object}
use bluetti_mqtt_node.Cli.Config.{
  LogLevel, debug, info, warn, error_level, is_space, is_blank, optional, ◌>>=◌,
  require_config_string, require_boolean, parse_log_level, require_log_level,
}
use bluetti_mqtt_node.Cli.Config.Described.{
  Taken, HasText, SaysText, SaysFlag, level_name, SaysLevel,
}

-- The check takes a value just if the value says it.
abbrev pub Exact {ℓ} : {A : Type ℓ} → (Json → Option A) → (Json → A → Type 0) → Type ℓ
Exact {A} read Says = (value : Json) (a : A) → (read value ≡ some a) ↔ Says value a

-- A chain of checks that succeeds has a first value, and goes on from it.
pub bind_some {ℓ κ} :
    {A : Type ℓ} {B : Type κ} {o : Option A} {k : A → Option B} {b : B}
    → (o >>= k) ≡ some b
    → (a : A) × (o ≡ some a) × (k a ≡ some b)
bind_some {o = none} h = cc
bind_some {o = some a} h = (a, refl, h)

pub took {ℓ} :
    {A : Type ℓ} {read : Json → Option A} {Says : Json → A → Type 0} (exact : Exact read Says)
    (given : Option Json) {first taken : Option A}
    → optional read given ≡ some first
    → first ≡ taken
    → Taken Says given taken
took exact none h same = inl (refl, sym same ∙ sym (some_injective h))
took {read} exact (some value) h same =
    let (a, found, rest) = bind_some {o = read value} {k = λ a. some (some a)} h in
    let (says, _) = exact value a in
    inr (value, a, refl, says found, sym same ∙ sym (some_injective rest))

pub takes {ℓ} :
    {A : Type ℓ} {read : Json → Option A} {Says : Json → A → Type 0} (exact : Exact read Says)
    (given : Option Json) (taken : Option A)
    → Taken Says given taken
    → optional read given ≡ some taken
takes exact given taken (inl (absent, out)) = rw (absent, out)
takes exact given taken (inr (value, a, there, says, took)) =
    let (_, found) = exact value a in let e = found says in rw (there, took, e)

blank-HasText : (s : String) → is_blank s ≡ false → HasText s
unfolding is_blank
blank-HasText no_chars h = cc
blank-HasText (c then s) h = elim (Bool-cases (is_space (code c))) [
  | inl e ↦
      let rest : is_blank (c then s) ≡ is_blank s = rw e in inr (blank-HasText s (sym rest ∙ h))
  | inr e ↦ inl e
]

HasText-blank : (s : String) → HasText s → is_blank s ≡ false
unfolding is_blank
HasText-blank no_chars h = absurd h
HasText-blank (c then s) (inl e) = rw e
HasText-blank (c then s) (inr h) = elim (Bool-cases (is_space (code c))) [
  | inl e ↦ rw e (HasText-blank s h)
  | inr e ↦ rw e
]

text_read : (s t : String) → require_config_string (string s) ≡ some t → SaysText (string s) t
unfolding require_config_string
text_read s t h = elim (Bool-cases (is_blank s)) [
  | inl e ↦ let out : require_config_string (string s) ≡ none = rw e in absurd (cc)
  | inr e ↦
      let kept : require_config_string (string s) ≡ some s = rw e in
      let same : s ≡ t = some_injective (sym kept ∙ h) in
      (ap string same, subst HasText same (blank-HasText s e))
]

pub text-Exact : Exact require_config_string SaysText
unfolding require_config_string
text-Exact value a = (go value, back)
  where
    go : (v : Json) → require_config_string v ≡ some a → SaysText v a
    go (string s) h = text_read s a h
    go null h = absurd (cc)
    go (boolean b) h = absurd (cc)
    go (number n) h = absurd (cc)
    go (array items) h = absurd (cc)
    go (object fields) h = absurd (cc)

    back : SaysText value a → require_config_string value ≡ some a
    back (same, has) = rw (same, HasText-blank a has)

pub flag-Exact : Exact require_boolean SaysFlag
flag-Exact value a = (go value, back)
  where
    go : (v : Json) → require_boolean v ≡ some a → SaysFlag v a
    go (boolean b) h = ap boolean (some_injective h)
    go (string s) h = absurd (cc)
    go null h = absurd (cc)
    go (number n) h = absurd (cc)
    go (array items) h = absurd (cc)
    go (object fields) h = absurd (cc)

    back : SaysFlag value a → require_boolean value ≡ some a
    back same = rw same

level_read : (s : String) (level : LogLevel) → parse_log_level s ≡ some level → s ≡ level_name level
level_read s level h = elim (Bool-cases (str_eq s "debug")) [
  | inl a ↦
      let e : parse_log_level s ≡ some debug = rw a in
      str_eq_path s "debug" a ∙ ap level_name (some_injective (sym e ∙ h))
  | inr a ↦ elim (Bool-cases (str_eq s "info")) [
    | inl b ↦
        let e : parse_log_level s ≡ some info = rw (a, b) in
        str_eq_path s "info" b ∙ ap level_name (some_injective (sym e ∙ h))
    | inr b ↦ elim (Bool-cases (str_eq s "warn")) [
      | inl c ↦
          let e : parse_log_level s ≡ some warn = rw (a, b, c) in
          str_eq_path s "warn" c ∙ ap level_name (some_injective (sym e ∙ h))
      | inr c ↦ elim (Bool-cases (str_eq s "error")) [
        | inl d ↦
            let e : parse_log_level s ≡ some error_level = rw (a, b, c, d) in
            str_eq_path s "error" d ∙ ap level_name (some_injective (sym e ∙ h))
        | inr d ↦ let e : parse_log_level s ≡ none = rw (a, b, c, d) in absurd (cc)
      ]
    ]
  ]
]

parse-level_name : (level : LogLevel) → parse_log_level (level_name level) ≡ some level
parse-level_name debug = refl
parse-level_name info = refl
parse-level_name warn = refl
parse-level_name error_level = refl

pub level-Exact : Exact require_log_level SaysLevel
level-Exact value a = (go value, back)
  where
    go : (v : Json) → require_log_level v ≡ some a → SaysLevel v a
    go (string s) h = ap string (level_read s a h)
    go (boolean b) h = absurd (cc)
    go null h = absurd (cc)
    go (number n) h = absurd (cc)
    go (array items) h = absurd (cc)
    go (object fields) h = absurd (cc)

    back : SaysLevel value a → require_log_level value ≡ some a
    back same = rw same (parse-level_name a)
