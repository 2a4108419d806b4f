-- ===== src/Devices/Field/Laws.antt =====
-- What the decoders of src/devices/field.ts give, on data of the field's own size.
use bluetti_mqtt_node.Common.{
  ℕ, zero, suc, ◌+◌, ◌*◌, ◌^◌, ◌≤◌, ◌<◌, ◌≡◌, refl, ap, List, [], ◌∷◌, length, get_elem?, ◌==◌,
  some, arith,
}
use bluetti_mqtt_node.Errors.{ok}
use bluetti_mqtt_node.Devices.Field.{
  FieldKind, uint_field, bool_field, enum_field, decimal_field, decimal_array_field, string_field,
  swap_string_field, version_field, serial_number_field, DeviceField, ParsedValue,
  read_uint16_big_endian, read_words, swap_byte_pairs, parse_kind, parse_field, enum_value_of,
  number, boolean, quotient, quotients, text, bigint, read_ascii,
}

-- The sizes that the subclasses give their fields.
abbrev pub HasSize : FieldKind → ℕ → Type 0
HasSize version_field size = size ≡ 2
HasSize serial_number_field size = size ≡ 4
HasSize (decimal_array_field scale) size = Unit
HasSize string_field size = Unit
HasSize swap_string_field size = Unit
HasSize (uint_field range) size = size ≡ 1
HasSize bool_field size = size ≡ 1
HasSize (enum_field entries) size = size ≡ 1
HasSize (decimal_field scale range) size = size ≡ 1

get_elem?-some : (xs : List ℕ) (i : ℕ) → i < length xs → (x : ℕ) × (get_elem? xs i ≡ some x)
get_elem?-some [] i h = absurd (omega arith)
get_elem?-some (x ∷ xs) zero h = (x, refl)
get_elem?-some (x ∷ xs) (suc i) h = get_elem?-some xs i (omega arith)

read_total :
    (bytes : List ℕ) (offset : ℕ)
    → offset + 2 ≤ length bytes
    → (word : ℕ) × (read_uint16_big_endian bytes offset ≡ ok word)
unfolding read_uint16_big_endian
read_total bytes offset h =
    let (high, p) = get_elem?-some bytes offset (omega arith) in
    let (low, q) = get_elem?-some bytes (suc offset) (omega arith) in (high * 256 + low, rw (p, q))

read_words_total :
    (left index : ℕ) (bytes : List ℕ)
    → (index + left) * 2 ≤ length bytes
    → (words : List ℕ) × (read_words left index bytes ≡ ok words) × (length words ≡ left)
unfolding read_words
read_words_total zero index bytes h = ([], refl, refl)
read_words_total (suc left) index bytes h =
    let (word, p) = read_total bytes (index * 2) (omega arith) in
    let (words, q, n) = read_words_total left (suc index) bytes (omega arith) in
    (word ∷ words, rw (p, q), ap suc n)

parse_kind_total :
    (kind : FieldKind) (size : ℕ) (bytes : List ℕ)
    → HasSize kind size
    → length bytes ≡ size * 2
    → (value : ParsedValue) × (parse_kind kind size bytes ≡ ok value)
parse_kind_total (uint_field range) size bytes h e =
    let (raw, p) = read_total bytes 0 (omega arith) in (number raw, rw p)
parse_kind_total bool_field size bytes h e =
    let (raw, p) = read_total bytes 0 (omega arith) in (boolean (raw == 1), rw p)
parse_kind_total (enum_field entries) size bytes h e =
    let (raw, p) = read_total bytes 0 (omega arith) in (enum_value_of entries raw, rw p)
parse_kind_total (decimal_field scale range) size bytes h e =
    let (raw, p) = read_total bytes 0 (omega arith) in (quotient raw (10 ^ scale), rw p)
parse_kind_total (decimal_array_field scale) size bytes h e =
    let (words, p, _) = read_words_total size 0 bytes (omega arith) in
    (quotients words (10 ^ scale), rw p)
parse_kind_total string_field size bytes h e = (text (read_ascii bytes), refl)
parse_kind_total swap_string_field size bytes h e =
    (text (read_ascii (swap_byte_pairs bytes)), refl)
parse_kind_total version_field size bytes h e =
    let (low, p) = read_total bytes 0 (omega arith) in
    let (high, q) = read_total bytes 2 (omega arith) in
    (quotient (low + high * 0x10000) 100, rw (p, q))
parse_kind_total serial_number_field size bytes h e =
    let (w0, p0) = read_total bytes 0 (omega arith) in
    let (w1, p1) = read_total bytes 2 (omega arith) in
    let (w2, p2) = read_total bytes 4 (omega arith) in
    let (w3, p3) = read_total bytes 6 (omega arith) in
    (bigint (w0 + w1 * 2 ^ 16 + w2 * 2 ^ 32 + w3 * 2 ^ 48), rw (p0, p1, p2, p3))

-- A field decodes every slice of its own size: no decoder misses a byte.
pub parse_field_total :
    (field : DeviceField) (bytes : List ℕ)
    → HasSize field.kind field.size
    → length bytes ≡ field.size * 2
    → (value : ParsedValue) × (parse_field field bytes ≡ ok value)
unfolding parse_field
parse_field_total field bytes h e = parse_kind_total field.kind field.size bytes h e
