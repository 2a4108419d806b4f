-- ===== src/Broker/Topic.antt =====
-- COMMAND_TOPIC of src/broker/client.ts: its three groups, and the topic of a device's field.
use Prim.Native.Char.{Char, code}
use Prim.Native.String.{String, [] as empty, ◌∷◌ as ◌then◌}
use bluetti_mqtt_node.Common.{
  ℕ, ◌+◌, ◌≡◌, refl, Bool, true, false, ◌&&◌, ◌||◌, leb, ◌==◌, if◌then◌else◌, Option, none, some,
  and-true,
}
use bluetti_mqtt_node.Devices.Registry.{is_digit}

infixr 5 ◌join◌
abbrev pub ◌join◌ : String → String → String
empty join t = t
(c then s) join t = c then (s join t)

-- Letters are compared without regard to case.
abbrev pub lower_code : ℕ → ℕ
lower_code n = if leb 65 n && leb n 90 then n + 32 else n

abbrev pub strip_prefix : String → String → Option String
strip_prefix empty topic = some topic
strip_prefix (c then start) empty = none
strip_prefix (c then start) (d then topic) =
    if lower_code (code c) == lower_code (code d) then strip_prefix start topic else none

-- `[A-Z0-9]` and `[a-z0-9_]`, without regard to case.
abbrev pub is_model_char : Char → Bool
is_model_char c = is_digit c || (leb 97 (lower_code (code c)) && leb (lower_code (code c)) 122)

abbrev pub is_field_char : Char → Bool
is_field_char c = is_model_char c || code c == 95

abbrev pub all_chars : (Char → Bool) → String → Bool
all_chars p empty = true
all_chars p (c then s) = p c && all_chars p s

-- One or more characters of a class, and what follows them.
abbrev pub push : Char → String × String → String × String
push c (s, rest) = (c then s, rest)

abbrev pub span : (Char → Bool) → String → String × String
span p empty = (empty, empty)
span p (c then s) = let rest = span p s in if p c then push c rest else (empty, c then s)

abbrev pub group : String × String → Option (String × String)
group (empty, rest) = none
group (c then s, rest) = some (c then s, rest)

-- The character that separates two groups.
abbrev pub after : ℕ → String → Option String
after n empty = none
after n (c then s) = if code c == n then some s else none

abbrev pub field_group :
    String → String → Option (String × String) → Option (String × String × String)
field_group model serial none = none
field_group model serial (some (field, empty)) = some (model, serial, field)
field_group model serial (some (field, c then s)) = none

abbrev pub after_serial : String → String → Option String → Option (String × String × String)
after_serial model serial none = none
after_serial model serial (some rest) = field_group model serial (group (span is_field_char rest))

abbrev pub serial_group : String → Option (String × String) → Option (String × String × String)
serial_group model none = none
serial_group model (some (serial, rest)) = after_serial model serial (after 47 rest)

abbrev pub after_model : String → Option String → Option (String × String × String)
after_model model none = none
after_model model (some rest) = serial_group model (group (span is_digit rest))

abbrev pub model_group : Option (String × String) → Option (String × String × String)
model_group none = none
model_group (some (model, rest)) = after_model model (after 45 rest)

abbrev pub groups : Option String → Option (String × String × String)
groups none = none
groups (some rest) = model_group (group (span is_model_char rest))

-- `COMMAND_TOPIC.exec(topic)`.
unfoldable pub exec_command_topic : String → Option (String × String × String)
exec_command_topic topic = groups (strip_prefix "bluetti/command/" topic)

abbrev pub command_topic : String → String → String → String
command_topic model serial field =
    "bluetti/command/" join (model join ("-" join (serial join ("/" join field))))

-- A group of the class, not empty.
abbrev pub IsGroup : (Char → Bool) → String → Type 0
IsGroup p empty = ⊥
IsGroup p (c then s) = all_chars p (c then s) ≡ true

span_lem :
    (p : Char → Bool) (s : String) (c : Char) (rest : String)
    → all_chars p s ≡ true
    → p c ≡ false
    → span p (s join (c then rest)) ≡ (s, c then rest)
span_lem p empty c rest h stops = rw stops
span_lem p (d then s) c rest h stops =
    let (first, others) = and-true (p d) (all_chars p s) h in
    rw (first, span_lem p s c rest others stops)

span_all : (p : Char → Bool) (s : String) → all_chars p s ≡ true → span p s ≡ (s, empty)
span_all p empty h = refl
span_all p (d then s) h =
    let (first, others) = and-true (p d) (all_chars p s) h in rw (first, span_all p s others)

-- The topic of a device's field is taken apart into the model, the serial number and the field.
pub exec-command_topic :
    (model serial field : String)
    → IsGroup is_model_char model
    → IsGroup is_digit serial
    → IsGroup is_field_char field
    → exec_command_topic (command_topic model serial field) ≡ some (model, serial, field)
unfolding exec_command_topic
exec-command_topic empty serial field m s f = absurd m
exec-command_topic (c then model) empty field m s f = absurd s
exec-command_topic (c then model) (d then serial) empty m s f = absurd f
exec-command_topic (c then model) (d then serial) (e then field) m s f =
    let first =
      span_lem is_model_char (c then model) "-" ((d then serial) join ("/" join (e then field))) m
        refl in
    let second = span_lem is_digit (d then serial) "/" (e then field) s refl in
    let third = span_all is_field_char (e then field) f in rw (first, second, third)
