-- ===== src/Cli/Args.antt =====
-- src/cli/args.ts: the help flags and the Bluetooth address among the arguments. The text of an
-- error is left out.
mod Patterns
pub mod Laws
use Prim.Native.Nat.{◌-◌}
use Prim.Native.Char.{Char, code}
use Prim.Native.String.{String, [] as no_chars, ◌∷◌ as ◌then◌}
use text.Mathlib.Text.{◌==◌ as str_eq}
use bluetti_mqtt_node.Common.{
  ℕ, zero, suc, Bool, true, false, ◌&&◌, ◌||◌, List, [], ◌∷◌, leb, ◌==◌, if◌then◌else◌, Option,
  none, some,
}
use bluetti_mqtt_node.Common.Texts.{nth_char}
use bluetti_mqtt_node.Cli.Config.{is_space, is_blank}

-- What a function returns, or the class of the error that it throws.
pub data Parsed {ℓ} (A : Type ℓ) : Type ℓ where
  parsed : A → Parsed A
  help_error usage_error : Parsed A

abbrev pub is_hex : ℕ → Bool
is_hex n = (leb 48 n && leb n 57) || (leb 65 n && leb n 70)

abbrev pub is_end : String → Bool
is_end no_chars = true
is_end (c then s) = false

-- `[0-9A-F]{2}`, and the rest of a pattern.
abbrev pub pair_then : (String → Bool) → String → Bool
pair_then rest (a then (b then s)) = is_hex (code a) && (is_hex (code b) && rest s)
pair_then rest (a then no_chars) = false
pair_then rest no_chars = false

abbrev pub separator_then : ℕ → (String → Bool) → String → Bool
separator_then separator rest (c then s) = (code c == separator) && rest s
separator_then separator rest no_chars = false

-- `^([0-9A-F]{2}:){n}[0-9A-F]{2}$`, with the separator in place of the colon.
unfoldable pub pairs_pattern : ℕ → ℕ → String → Bool
pairs_pattern separator zero s = pair_then is_end s
pairs_pattern separator (suc n) s =
    pair_then (separator_then separator (pairs_pattern separator n)) s

-- `^[0-9A-F]{n}$`.
unfoldable pub digits_pattern : ℕ → String → Bool
digits_pattern zero s = is_end s
digits_pattern (suc n) no_chars = false
digits_pattern (suc n) (c then s) = is_hex (code c) && digits_pattern n s

abbrev pub colon : ℕ
colon = 58

abbrev pub hyphen : ℕ
hyphen = 45

abbrev pub mac_colon_pattern : String → Bool
mac_colon_pattern s = pairs_pattern colon 5 s

abbrev pub mac_hyphen_pattern : String → Bool
mac_hyphen_pattern s = pairs_pattern hyphen 5 s

abbrev pub mac_compact_pattern : String → Bool
mac_compact_pattern s = digits_pattern 12 s

abbrev pub upper_char : Char → Char
upper_char c =
    if leb 97 (code c) && leb (code c) 122
    then nth_char "ABCDEFGHIJKLMNOPQRSTUVWXYZ" (code c - 97) c
    else c

abbrev pub letter_f : Char
letter_f = "F"

-- `toUpperCase`. Of the letters beyond ASCII only the ligature of two f becomes a text of
-- hexadecimal digits; the others, which no pattern accepts, are left as they are.
unfoldable pub to_upper_case : String → String
to_upper_case no_chars = no_chars
to_upper_case (c then s) =
    if code c == 0xfb00
    then letter_f
    then (letter_f then to_upper_case s)
    else upper_char c then to_upper_case s

unfoldable pub trim_start : String → String
trim_start no_chars = no_chars
trim_start (c then s) = if is_space (code c) then trim_start s else c then s

unfoldable pub trim_end : String → String
trim_end no_chars = no_chars
trim_end (c then s) = if is_blank (c then s) then no_chars else c then trim_end s

abbrev pub trim : String → String
trim s = trim_end (trim_start s)

-- `includes` of a text of one character.
unfoldable pub has_char : ℕ → String → Bool
has_char n no_chars = false
has_char n (c then s) = (code c == n) || has_char n s

-- `replace(/-/g, "")`.
unfoldable pub without_hyphens : String → String
without_hyphens no_chars = no_chars
without_hyphens (c then s) =
    if code c == hyphen then without_hyphens s else c then without_hyphens s

abbrev pub colon_char : Char
colon_char = ":"

abbrev pub after_colon : String → String
after_colon no_chars = no_chars
after_colon (c then s) = colon_char then (c then s)

-- `match(/.{2}/g)` and `join(":")`, on a text of one line; a last single character is left out.
unfoldable pub joined_pairs : String → String
joined_pairs (a then (b then s)) = a then (b then after_colon (joined_pairs s))
joined_pairs (a then no_chars) = no_chars
joined_pairs no_chars = no_chars

abbrev pub or_else : String → String → String
or_else no_chars normalized = normalized
or_else (c then s) normalized = c then s

unfoldable pub with_colons : String → String
with_colons normalized =
    if has_char colon normalized
    then normalized
    else or_else (joined_pairs (without_hyphens normalized)) normalized

abbrev pub matches_some : String → Bool
matches_some s = mac_colon_pattern s || (mac_hyphen_pattern s || mac_compact_pattern s)

unfoldable pub validate_bluetooth_address : String → Parsed String
validate_bluetooth_address address =
    let normalized = to_upper_case (trim address) in
    if matches_some normalized then parsed (with_colons normalized) else usage_error

-- `argv.includes(flag)`.
abbrev pub includes_flag : String → List String → Bool
includes_flag flag [] = false
includes_flag flag (argument ∷ argv) = str_eq argument flag || includes_flag flag argv

abbrev pub has_help_flag : List String → Bool
has_help_flag argv = includes_flag "--help" argv || includes_flag "-h" argv

-- The only argument, if it is not the empty text.
abbrev pub single_argument : List String → Parsed String
single_argument [] = usage_error
single_argument (no_chars ∷ []) = usage_error
single_argument ((c then s) ∷ []) = validate_bluetooth_address (c then s)
single_argument (_ ∷ (_ ∷ _)) = usage_error

abbrev pub require_single_address_arg : List String → Parsed String
require_single_address_arg argv = if has_help_flag argv then help_error else single_argument argv

abbrev pub as_some : Parsed String → Parsed (Option String)
as_some (parsed address) = parsed (some address)
as_some help_error = help_error
as_some usage_error = usage_error

abbrev pub optional_argument : List String → Parsed (Option String)
optional_argument [] = parsed none
optional_argument (no_chars ∷ []) = parsed none
optional_argument ((c then s) ∷ []) = as_some (validate_bluetooth_address (c then s))
optional_argument (_ ∷ (_ ∷ _)) = usage_error

abbrev pub optional_single_address_arg : List String → Parsed (Option String)
optional_single_address_arg argv = if has_help_flag argv then help_error else optional_argument argv
