-- ===== src/Cli/Config/Described.antt =====
-- What a configuration file of src/cli/cli-config.ts has to say for a configuration, field by field.
use Prim.Native.Char.{code}
use Prim.Native.String.{String, [] as no_chars, ◌∷◌ as ◌then◌}
use bluetti_mqtt_node.Common.{
  ℕ, ◌*◌, ◌≤◌, ◌≡◌, ◌⊎◌, Bool, true, false, List, [], ◌∷◌, Option, none, some,
}
use bluetti_mqtt_node.Common.JsNumber.{JsNumber, nat, neg, frac, not_finite, dyadic}
use bluetti_mqtt_node.Helper.Json.{
  Json, Items, Fields, boolean, number, string, array, object, item, end, get_field,
}
use bluetti_mqtt_node.Cli.Config.{
  LogLevel, debug, info, warn, error_level, CliMqttTlsConfig, CliConfigFile, is_space, times_1000,
}

-- The field is absent and stays out, or its value says what is taken.
abbrev pub Taken {ℓ} : {A : Type ℓ} → (Json → A → Type 0) → Option Json → Option A → Type ℓ
Taken {A} Says given taken =
    ((given ≡ none) × (taken ≡ none))
    ⊎ ((value : Json) × (a : A) × (given ≡ some value) × Says value a × (taken ≡ some a))

-- Some character is no white space.
abbrev pub HasText : String → Type 0
HasText no_chars = ⊥
HasText (c then s) = (is_space (code c) ≡ false) ⊎ HasText s

abbrev pub SaysText : Json → String → Type 0
SaysText value s = (value ≡ string s) × HasText s

abbrev pub SaysFlag : Json → Bool → Type 0
SaysFlag value b = value ≡ boolean b

abbrev pub level_name : LogLevel → String
level_name debug = "debug"
level_name info = "info"
level_name warn = "warn"
level_name error_level = "error"

abbrev pub SaysLevel : Json → LogLevel → Type 0
SaysLevel value level = value ≡ string (level_name level)

abbrev pub items_of : List String → Items
items_of [] = end
items_of (text ∷ texts) = item (string text) (items_of texts)

abbrev pub SaysTexts : Json → List String → Type 0
SaysTexts value texts = value ≡ array (items_of texts)

-- A number of seconds that is a whole number of milliseconds, none or more, as a 32-bit timer
-- takes them. A fraction is one of those if the double nearest to its thousandfold is an integer.
abbrev pub IsDelay : JsNumber → Type 0
IsDelay (nat seconds) = seconds * 1000 ≤ 2147483647
IsDelay (neg n) = ⊥
IsDelay (frac not_finite) = ⊥
IsDelay (frac (dyadic true n k)) = ⊥
IsDelay (frac (dyadic false n k)) =
    (milliseconds : ℕ) × (times_1000 n k ≡ some milliseconds) × (milliseconds ≤ 2147483647)

abbrev pub SaysDelay : Json → JsNumber → Type 0
SaysDelay value seconds = (value ≡ number seconds) × IsDelay seconds

abbrev pub SaysTls : Json → CliMqttTlsConfig → Type 0
SaysTls value tls =
    (fields : Fields) × (value ≡ object fields)
    × Taken SaysText (get_field "caPath" fields) tls.ca_path
    × Taken SaysText (get_field "certPath" fields) tls.cert_path
    × Taken SaysText (get_field "keyPath" fields) tls.key_path
    × Taken SaysFlag (get_field "rejectUnauthorized" fields) tls.reject_unauthorized
    × Taken SaysText (get_field "servername" fields) tls.servername

-- The configuration is what the fields of the file say.
unfoldable pub Describes : Fields → CliConfigFile → Type 0
Describes fields config =
    Taken SaysText (get_field "broker" fields) config.broker
    × Taken SaysText (get_field "username" fields) config.username
    × Taken SaysText (get_field "password" fields) config.password
    × Taken SaysTls (get_field "tls" fields) config.tls
    × Taken SaysDelay (get_field "interval" fields) config.interval
    × Taken SaysFlag (get_field "once" fields) config.once
    × Taken SaysTexts (get_field "addresses" fields) config.addresses
    × Taken SaysLevel (get_field "logLevel" fields) config.log_level
