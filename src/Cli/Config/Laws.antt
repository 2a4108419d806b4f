-- ===== src/Cli/Config/Laws.antt =====
-- Which configuration files src/cli/cli-config.ts accepts, and what it takes from them.
use bluetti_mqtt_node.Common.{◌≡◌, ◌↔◌, ap, some}
use bluetti_mqtt_node.Common.Occurrences.{some_injective}
use bluetti_mqtt_node.Helper.Json.{Fields, object, get_field}
use bluetti_mqtt_node.Cli.Config.{CliConfigFile, config_of_fields, config_of_json, read_config_file}
use bluetti_mqtt_node.Cli.Config.Described.{Describes}
use bluetti_mqtt_node.Cli.Config.Checks.{
  bind_some, took, takes, text-Exact, flag-Exact, level-Exact,
}
use bluetti_mqtt_node.Cli.Config.Values.{texts-Exact, delay-Exact, tls-Exact}

describes :
    (fields : Fields) (config : CliConfigFile)
    → config_of_fields fields ≡ some config
    → Describes fields config
unfolding config_of_fields Describes
describes fields config h =
    let (broker, e1, h1) = bind_some h in
    let (username, e2, h2) = bind_some h1 in
    let (password, e3, h3) = bind_some h2 in
    let (tls, e4, h4) = bind_some h3 in
    let (interval, e5, h5) = bind_some h4 in
    let (once, e6, h6) = bind_some h5 in
    let (addresses, e7, h7) = bind_some h6 in
    let (log_level, e8, h8) = bind_some h7 in
    let same = some_injective h8 in
    (
      took text-Exact (get_field "broker" fields) e1 (ap (λ c. c.broker) same),
      took text-Exact (get_field "username" fields) e2 (ap (λ c. c.username) same),
      took text-Exact (get_field "password" fields) e3 (ap (λ c. c.password) same),
      took tls-Exact (get_field "tls" fields) e4 (ap (λ c. c.tls) same),
      took delay-Exact (get_field "interval" fields) e5 (ap (λ c. c.interval) same),
      took flag-Exact (get_field "once" fields) e6 (ap (λ c. c.once) same),
      took texts-Exact (get_field "addresses" fields) e7 (ap (λ c. c.addresses) same),
      took level-Exact (get_field "logLevel" fields) e8 (ap (λ c. c.log_level) same),
    )

described :
    (fields : Fields) (config : CliConfigFile)
    → Describes fields config
    → config_of_fields fields ≡ some config
unfolding config_of_fields Describes
described fields config (broker, username, password, tls, interval, once, addresses, log_level) =
    rw (
      takes text-Exact (get_field "broker" fields) config.broker broker,
      takes text-Exact (get_field "username" fields) config.username username,
      takes text-Exact (get_field "password" fields) config.password password,
      takes tls-Exact (get_field "tls" fields) config.tls tls,
      takes delay-Exact (get_field "interval" fields) config.interval interval,
      takes flag-Exact (get_field "once" fields) config.once once,
      takes texts-Exact (get_field "addresses" fields) config.addresses addresses,
      takes level-Exact (get_field "logLevel" fields) config.log_level log_level,
    )

-- A file whose text is a JSON object is accepted with a configuration just if each field is absent
-- from both, or the configuration has the value of the field: for `broker`, `username` and
-- `password` a text that is not blank; for `tls` an object whose own fields are texts that are not
-- blank and a Boolean, each absent or taken in the same way; for `interval` a number of seconds
-- that is a whole number of milliseconds from 0 to 2147483647; for `once` a Boolean; for
-- `addresses` an array of texts; for `logLevel` the name of a level.
pub read_config_file_iff :
    (fields : Fields) (config : CliConfigFile)
    → (read_config_file (some (some (object fields))) ≡ some config) ↔ Describes fields config
unfolding read_config_file config_of_json
read_config_file_iff fields config = (describes fields config, described fields config)
