-- ===== src/Cli/Config/Values.antt =====
-- What the checks of src/cli/cli-config.ts accept as addresses, intervals and TLS options.
use Prim.Native.String.{String}
use bluetti_mqtt_node.Common.{
  ℕ, ◌≡◌, refl, sym, ap, ◌∙◌, subst, true, false, List, [], ◌∷◌, Option, none, some, inl, inr,
  Bool-cases, arith,
}
use bluetti_mqtt_node.Common.Occurrences.{some_injective}
use bluetti_mqtt_node.Common.JsNumber.{JsNumber, nat, neg, frac, not_finite, dyadic}
use bluetti_mqtt_node.Helper.Json.{
  Json, Items, Fields, null, boolean, number, string, array, object, item, end, get_field,
}
use bluetti_mqtt_node.Cli.Config.{
  CliMqttTlsConfig, times_1000, is_short_delay, is_valid_interval_seconds, all_texts, texts_with,
  require_texts, parse_tls_fields, parse_tls_config, require_interval, when,
}
use bluetti_mqtt_node.Cli.Config.Described.{items_of, SaysTexts, IsDelay, SaysDelay, SaysTls}
use bluetti_mqtt_node.Cli.Config.Checks.{Exact, bind_some, took, takes, text-Exact, flag-Exact}

item_read :
    (v : Json) (items : Items) (rest : Option (List String)) (texts : List String)
    → ((others : List String) → rest ≡ some others → items ≡ items_of others)
    → texts_with v rest ≡ some texts
    → item v items ≡ items_of texts
item_read (string s) items (some others) texts ih k =
    let same : (s ∷ others) ≡ texts = some_injective k in
    ap (item (string s)) (ih others refl) ∙ ap items_of same
item_read (string s) items none texts ih k = absurd (cc)
item_read null items rest texts ih k = absurd (cc)
item_read (boolean b) items rest texts ih k = absurd (cc)
item_read (number n) items rest texts ih k = absurd (cc)
item_read (array is) items rest texts ih k = absurd (cc)
item_read (object fields) items rest texts ih k = absurd (cc)

texts_read :
    (items : Items) (texts : List String) → all_texts items ≡ some texts → items ≡ items_of texts
texts_read end [] h = refl
texts_read end (t ∷ texts) h = absurd (cc)
texts_read (item value items) texts h =
    item_read value items (all_texts items) texts (texts_read items) h

all_texts-items_of : (texts : List String) → all_texts (items_of texts) ≡ some texts
all_texts-items_of [] = refl
all_texts-items_of (t ∷ texts) = ap (texts_with (string t)) (all_texts-items_of texts)

pub texts-Exact : Exact require_texts SaysTexts
texts-Exact value a = (go value, back)
  where
    go : (v : Json) → require_texts v ≡ some a → SaysTexts v a
    go (array items) h = ap array (texts_read items a h)
    go (string s) h = absurd (cc)
    go (boolean b) h = absurd (cc)
    go null h = absurd (cc)
    go (number n) h = absurd (cc)
    go (object fields) h = absurd (cc)

    back : SaysTexts value a → require_texts value ≡ some a
    back same = rw same (all_texts-items_of a)

interval-IsDelay : (n : JsNumber) → is_valid_interval_seconds n ≡ true → IsDelay n
unfolding is_valid_interval_seconds
interval-IsDelay (nat n) h = ground arith
interval-IsDelay (neg n) h = absurd (cc)
interval-IsDelay (frac not_finite) h = absurd (cc)
interval-IsDelay (frac (dyadic true n k)) h = absurd (cc)
interval-IsDelay (frac (dyadic false n k)) h = go (times_1000 n k) refl h
  where
    go :
        (o : Option ℕ)
        → times_1000 n k ≡ o
        → is_short_delay o ≡ true
        → IsDelay (frac (dyadic false n k))
    go none e s = absurd (cc)
    go (some ms) e s = (ms, e, ground arith)

IsDelay-valid_interval : (n : JsNumber) → IsDelay n → is_valid_interval_seconds n ≡ true
unfolding is_valid_interval_seconds
IsDelay-valid_interval (nat n) h = ground arith
IsDelay-valid_interval (neg n) h = absurd h
IsDelay-valid_interval (frac not_finite) h = absurd h
IsDelay-valid_interval (frac (dyadic true n k)) h = absurd h
IsDelay-valid_interval (frac (dyadic false n k)) (ms, e, le) = rw e (ground arith)

pub delay-Exact : Exact require_interval SaysDelay
unfolding require_interval
delay-Exact value a = (go value, back)
  where
    numeric :
        (n : JsNumber) → when (is_valid_interval_seconds n) n ≡ some a → SaysDelay (number n) a
    numeric n h = elim (Bool-cases (is_valid_interval_seconds n)) [
      | inl e ↦
          let kept : when (is_valid_interval_seconds n) n ≡ some n = rw e in
          let same : n ≡ a = some_injective (sym kept ∙ h) in
          (ap number same, subst IsDelay same (interval-IsDelay n e))
      | inr e ↦ let out : when (is_valid_interval_seconds n) n ≡ none = rw e in absurd (cc)
    ]

    go : (v : Json) → require_interval v ≡ some a → SaysDelay v a
    go (number n) h = numeric n h
    go (string s) h = absurd (cc)
    go (boolean b) h = absurd (cc)
    go null h = absurd (cc)
    go (array items) h = absurd (cc)
    go (object fields) h = absurd (cc)

    back : SaysDelay value a → require_interval value ≡ some a
    back (same, delay) = rw (same, IsDelay-valid_interval a delay)

tls_read :
    (fields : Fields) (tls : CliMqttTlsConfig)
    → parse_tls_fields fields ≡ some tls
    → SaysTls (object fields) tls
unfolding parse_tls_fields
tls_read fields tls h =
    let (ca, e1, h1) = bind_some h in
    let (cert, e2, h2) = bind_some h1 in
    let (key, e3, h3) = bind_some h2 in
    let (reject, e4, h4) = bind_some h3 in
    let (servername, e5, h5) = bind_some h4 in
    let same = some_injective h5 in
    (
      fields,
      refl,
      took text-Exact (get_field "caPath" fields) e1 (ap (λ c. c.ca_path) same),
      took text-Exact (get_field "certPath" fields) e2 (ap (λ c. c.cert_path) same),
      took text-Exact (get_field "keyPath" fields) e3 (ap (λ c. c.key_path) same),
      took flag-Exact (get_field "rejectUnauthorized" fields) e4
          (ap (λ c. c.reject_unauthorized) same),
      took text-Exact (get_field "servername" fields) e5 (ap (λ c. c.servername) same),
    )

pub tls-Exact : Exact parse_tls_config SaysTls
unfolding parse_tls_config parse_tls_fields
tls-Exact value a = (go value, back)
  where
    go : (v : Json) → parse_tls_config v ≡ some a → SaysTls v a
    go (object fields) h = tls_read fields a h
    go (number n) h = absurd (cc)
    go (string s) h = absurd (cc)
    go (boolean b) h = absurd (cc)
    go null h = absurd (cc)
    go (array items) h = absurd (cc)

    back : SaysTls value a → parse_tls_config value ≡ some a
    back (fields, same, ca, cert, key, reject, servername) = rw (
      same,
      takes text-Exact (get_field "caPath" fields) a.ca_path ca,
      takes text-Exact (get_field "certPath" fields) a.cert_path cert,
      takes text-Exact (get_field "keyPath" fields) a.key_path key,
      takes flag-Exact (get_field "rejectUnauthorized" fields) a.reject_unauthorized reject,
      takes text-Exact (get_field "servername" fields) a.servername servername,
    )
