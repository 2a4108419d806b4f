-- ===== src/Helper/Json.antt =====
-- What `JSON.parse` gives for a line of the helper, and the reading of its properties. A key that
-- a line repeats is there once, with its last value.
use text.Mathlib.Text.{◌==◌ as str_eq}
use bluetti_mqtt_node.Common.{Bool, true, false, ◌&&◌, if◌then◌else◌, Option, none, some, String}
use bluetti_mqtt_node.Common.JsNumber.{JsNumber}
use bluetti_mqtt_node.Errors.{error, Result, ok, throws}

mutual
  pub data Json : Type 0 where
    null : Json
    boolean : Bool → Json
    number : JsNumber → Json
    string : String → Json
    array : Items → Json
    object : Fields → Json

  pub data Items : Type 0 where
    end : Items
    item : Json → Items → Items

  pub data Fields : Type 0 where
    empty : Fields
    field : String → Json → Fields → Fields

abbrev pub get_field : String → Fields → Option Json
get_field name empty = none
get_field name (field key value fields) =
    if str_eq key name then some value else get_field name fields

-- `value[name]`; `undefined` is `none`. The names that are read are those of no built-in property.
abbrev pub property : String → Json → Result (Option Json)
property name null = throws error
property name (object fields) = ok (get_field name fields)
property name (boolean b) = ok none
property name (number n) = ok none
property name (string s) = ok none
property name (array items) = ok none

-- `value[name]` where the value may be `undefined`, which throws.
abbrev pub property_of : String → Option Json → Result (Option Json)
property_of name none = throws error
property_of name (some value) = property name value

-- `value?.[name]`.
abbrev pub optional_property : String → Option Json → Option Json
optional_property name none = none
optional_property name (some null) = none
optional_property name (some (object fields)) = get_field name fields
optional_property name (some _) = none

abbrev pub not_defined : Option Json → Bool
not_defined none = true
not_defined (some value) = false

-- `value === text`.
abbrev pub is_text : String → Option Json → Bool
is_text text (some (string s)) = str_eq s text
is_text text _ = false

abbrev pub is_string : Option Json → Bool
is_string (some (string s)) = true
is_string _ = false

-- Whether a template makes a text of a value. An object's own `toString` is no function, and
-- `valueOf` gives no text for it; the elements of an array become texts, but for `null`.
unfoldable mutual
  pub has_text : Json → Bool
  has_text (object fields) = not_defined (get_field "toString" fields)
  has_text (array items) = all_have_text items
  has_text null = true
  has_text (boolean b) = true
  has_text (number n) = true
  has_text (string s) = true

  pub all_have_text : Items → Bool
  all_have_text end = true
  all_have_text (item value items) = has_text value && all_have_text items

-- `undefined` becomes a text.
unfoldable pub may_have_text : Option Json → Bool
unfolding has_text
may_have_text none = true
may_have_text (some value) = has_text value

-- `isHelperScanDevice` and `isHelperConnectPayload` of src/bluetooth/helper-client.ts.
abbrev pub is_helper_scan_device : Json → Bool
is_helper_scan_device (object fields) =
    is_string (get_field "address" fields) && is_string (get_field "name" fields)
is_helper_scan_device (array items) = false
is_helper_scan_device null = false
is_helper_scan_device (boolean b) = false
is_helper_scan_device (number n) = false
is_helper_scan_device (string s) = false

abbrev pub is_helper_connect_payload : Option Json → Bool
is_helper_connect_payload (some (object fields)) =
    is_string (get_field "sessionId" fields)
    && is_string (get_field "address" fields)
    && is_string (get_field "name" fields)
is_helper_connect_payload _ = false

-- The devices of a scan's answer that pass the guard.
abbrev pub valid_devices : Items → Items
valid_devices end = end
valid_devices (item device devices) =
    if is_helper_scan_device device
    then item device (valid_devices devices)
    else valid_devices devices

unfoldable pub scanned : Option Json → Items
scanned payload = elim (optional_property "devices" payload) [
  | some (array devices) ↦ valid_devices devices
  | _ ↦ end
]
