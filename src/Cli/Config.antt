-- ===== src/Cli/Config.antt =====
-- src/cli/cli-config.ts: the checks of the configuration file. A UsageError is `none`, its text left
-- out.
pub mod Described
pub mod Checks
pub mod Values
mod Product
pub mod Laws
use Prim.Native.Char.{Char, code}
use Prim.Native.String.{String, [] as no_chars, ◌∷◌ as ◌then◌}
use text.Mathlib.Text.{◌==◌ as str_eq}
use bluetti_mqtt_node.Common.{
  ℕ, zero, suc, ltb, ◌/◌, ◌%◌, ◌^◌, ◌*◌, Bool, true, false, ◌&&◌, ◌||◌, List, [], ◌∷◌, leb, ◌==◌,
  if◌then◌else◌, Option, none, some,
}
use bluetti_mqtt_node.Common.JsNumber.{JsNumber, nat, neg, frac, not_finite, dyadic}
use bluetti_mqtt_node.Helper.Json.{
  Json, Items, Fields, null, boolean, number, string, array, object, item, end, get_field,
  optional_property,
}

pub data LogLevel : Type 0 where
  debug info warn error_level : LogLevel

pub record CliMqttTlsConfig : Type 0 where
  pub ca_path : Option String
  pub cert_path : Option String
  pub key_path : Option String
  pub reject_unauthorized : Option Bool
  pub servername : Option String

pub record CliConfigFile : Type 0 where
  pub broker : Option String
  pub username : Option String
  pub password : Option String
  pub tls : Option CliMqttTlsConfig
  pub interval : Option JsNumber
  pub once : Option Bool
  pub addresses : Option (List String)
  pub log_level : Option LogLevel

infixl 5 ◌>>=◌
abbrev pub ◌>>=◌ {ℓ κ} : {A : Type ℓ} {B : Type κ} → Option A → (A → Option B) → Option B
none >>= k = none
some a >>= k = k a

abbrev pub max_timer_ms : ℕ
max_timer_ms = 2147483647

-- What `trim` takes away.
abbrev pub is_space : ℕ → Bool
is_space n =
    (leb 9 n && leb n 13)
    || n == 32
    || n == 160
    || n == 0x1680
    || (leb 0x2000 n && leb n 0x200a)
    || n == 0x2028
    || n == 0x2029
    || n == 0x202f
    || n == 0x205f
    || n == 0x3000
    || n == 0xfeff

-- `value.trim() === ""`.
unfoldable pub is_blank : String → Bool
is_blank no_chars = true
is_blank (c then s) = is_space (code c) && is_blank s

abbrev pub when {ℓ} : {A : Type ℓ} → Bool → A → Option A
when b a = if b then some a else none

unfoldable pub require_config_string : Json → Option String
require_config_string (string s) = if is_blank s then none else some s
require_config_string null = none
require_config_string (boolean b) = none
require_config_string (number n) = none
require_config_string (array items) = none
require_config_string (object fields) = none

abbrev pub require_boolean : Json → Option Bool
require_boolean (boolean b) = some b
require_boolean null = none
require_boolean (number n) = none
require_boolean (string s) = none
require_boolean (array items) = none
require_boolean (object fields) = none

-- `parseLogLevel`, and the levels of the file.
abbrev pub parse_log_level : String → Option LogLevel
parse_log_level raw =
    if str_eq raw "debug"
    then some debug
    else if str_eq raw "info"
    then some info
    else if str_eq raw "warn"
    then some warn
    else if str_eq raw "error"
    then some error_level
    else none

abbrev pub require_log_level : Json → Option LogLevel
require_log_level (string s) = parse_log_level s
require_log_level null = none
require_log_level (boolean b) = none
require_log_level (number n) = none
require_log_level (array items) = none
require_log_level (object fields) = none

abbrev pub texts_with : Json → Option (List String) → Option (List String)
texts_with (string s) (some texts) = some (s ∷ texts)
texts_with _ _ = none

abbrev pub all_texts : Items → Option (List String)
all_texts end = some []
all_texts (item value items) = texts_with value (all_texts items)

abbrev pub require_texts : Json → Option (List String)
require_texts (array items) = all_texts items
require_texts null = none
require_texts (boolean b) = none
require_texts (number n) = none
require_texts (string s) = none
require_texts (object fields) = none

-- A field that may be left out.
abbrev pub optional {ℓ} : {A : Type ℓ} → (Json → Option A) → Option Json → Option (Option A)
optional read none = some none
optional read (some value) = read value >>= λ a. some (some a)

-- `parseTlsConfig` on the properties of an object.
unfoldable pub parse_tls_fields : Fields → Option CliMqttTlsConfig
unfolding require_config_string
parse_tls_fields fields = do
  ca_path ← optional require_config_string (get_field "caPath" fields)
  cert_path ← optional require_config_string (get_field "certPath" fields)
  key_path ← optional require_config_string (get_field "keyPath" fields)
  reject_unauthorized ← optional require_boolean (get_field "rejectUnauthorized" fields)
  servername ← optional require_config_string (get_field "servername" fields)
  some (record {
    ca_path = ca_path;
    cert_path = cert_path;
    key_path = key_path;
    reject_unauthorized = reject_unauthorized;
    servername = servername;
  })

abbrev pub parse_tls_config : Json → Option CliMqttTlsConfig
unfolding parse_tls_fields
parse_tls_config (object fields) = parse_tls_fields fields
parse_tls_config null = none
parse_tls_config (boolean b) = none
parse_tls_config (number n) = none
parse_tls_config (string s) = none
parse_tls_config (array items) = none

-- How many times a number is halved until it has no more than 53 bits, up to a limit.
abbrev pub excess_bits : ℕ → ℕ → ℕ
excess_bits zero n = 0
excess_bits (suc limit) n =
    let rest = excess_bits limit (n / 2) in if ltb n (2 ^ 53) then 0 else suc rest

-- n / 2 ^ bits, rounded to the nearest integer and halfway to the even one.
abbrev pub rounded : ℕ → ℕ → ℕ
rounded n bits =
    let q = n / 2 ^ bits in
    let twice_rest = (n % 2 ^ bits) * 2 in
    if ltb (2 ^ bits) twice_rest || (twice_rest == 2 ^ bits && q % 2 == 1) then suc q else q

-- The double nearest to 1000 times n / 2 ^ k, if it is an integer. For n below 2 ^ 53 the product
-- has ten bits more at most.
unfoldable pub times_1000 : ℕ → ℕ → Option ℕ
times_1000 n k =
    let product = n * 1000 in
    let bits = excess_bits 10 product in
    let nearest = rounded product bits * 2 ^ bits in
    if nearest % 2 ^ k == 0 then some (nearest / 2 ^ k) else none

abbrev pub is_short_delay : Option ℕ → Bool
is_short_delay none = false
is_short_delay (some milliseconds) = leb milliseconds max_timer_ms

unfoldable pub is_valid_interval_seconds : JsNumber → Bool
unfolding times_1000
is_valid_interval_seconds (nat n) = leb (n * 1000) max_timer_ms
is_valid_interval_seconds (neg n) = false
is_valid_interval_seconds (frac not_finite) = false
is_valid_interval_seconds (frac (dyadic true n k)) = false
is_valid_interval_seconds (frac (dyadic false n k)) = is_short_delay (times_1000 n k)

abbrev pub require_interval : Json → Option JsNumber
unfolding is_valid_interval_seconds
require_interval (number n) = when (is_valid_interval_seconds n) n
require_interval null = none
require_interval (boolean b) = none
require_interval (string s) = none
require_interval (array items) = none
require_interval (object fields) = none

unfoldable pub config_of_fields : Fields → Option CliConfigFile
unfolding require_config_string parse_tls_config require_interval
config_of_fields fields = do
  broker ← optional require_config_string (get_field "broker" fields)
  username ← optional require_config_string (get_field "username" fields)
  password ← optional require_config_string (get_field "password" fields)
  tls ← optional parse_tls_config (get_field "tls" fields)
  interval ← optional require_interval (get_field "interval" fields)
  once ← optional require_boolean (get_field "once" fields)
  addresses ← optional require_texts (get_field "addresses" fields)
  log_level ← optional require_log_level (get_field "logLevel" fields)
  some (record {
    broker = broker;
    username = username;
    password = password;
    tls = tls;
    interval = interval;
    once = once;
    addresses = addresses;
    log_level = log_level;
  })

-- An array is an object of JavaScript, without these properties.
abbrev pub config_of_json : Json → Option CliConfigFile
unfolding config_of_fields
config_of_json (object fields) = config_of_fields fields
config_of_json (array items) = config_of_fields Fields.empty
config_of_json null = none
config_of_json (boolean b) = none
config_of_json (number n) = none
config_of_json (string s) = none

-- `readConfigFile`, given what reading the file and `JSON.parse` gave.
unfoldable pub read_config_file : Option (Option Json) → Option CliConfigFile
unfolding config_of_json
read_config_file none = none
read_config_file (some none) = none
read_config_file (some (some json)) = config_of_json json
