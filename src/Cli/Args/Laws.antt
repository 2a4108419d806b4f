-- ===== src/Cli/Args/Laws.antt =====
-- The addresses that validateBluetoothAddress in src/cli/args.ts returns.
use Prim.Native.Char.{code}
use Prim.Native.String.{String, [] as no_chars, ◌∷◌ as ◌then◌}
use bluetti_mqtt_node.Common.{
  ℕ, zero, suc, Bool, true, false, ◌&&◌, ◌||◌, ◌≡◌, refl, leb, ◌==◌, and-true, Bool-cases, inl, inr,
  sym, ap, ◌∙◌, if◌then◌else◌, arith,
}
use bluetti_mqtt_node.Cli.Args.{
  is_hex, is_end, pairs_pattern, digits_pattern, colon, hyphen, has_char, joined_pairs,
  without_hyphens, after_colon, with_colons, mac_colon_pattern, mac_hyphen_pattern,
  mac_compact_pattern, matches_some, validate_bluetooth_address, to_upper_case, trim, trim_start,
  trim_end, parsed, usage_error,
}
use bluetti_mqtt_node.Cli.Config.{is_space, is_blank}
use bluetti_mqtt_node.Cli.Args.Patterns.{
  hyphen_not_hex, pair-cases, separator-cases, end-empty, hyphens_no_colon, digits_no_colon,
  digits_kept, colons_have_colon, twice, hyphens_stripped, digits_joined, or-cases, with_colons_lem,
  with_colons_same, with_colons-IsMac,
}

-- The hexadecimal digits of a text.
abbrev pub hex_digits : String → String
hex_digits no_chars = no_chars
hex_digits (c then s) = if is_hex (code c) then c then hex_digits s else hex_digits s

hex_digits-without_hyphens : (s : String) → hex_digits (without_hyphens s) ≡ hex_digits s
unfolding without_hyphens
hex_digits-without_hyphens no_chars = refl
hex_digits-without_hyphens (c then s) = elim (Bool-cases (code c == hyphen)) [
  | inl same ↦ rw (same, hyphen_not_hex (code c) same, hex_digits-without_hyphens s)
  | inr other ↦ rw (other, hex_digits-without_hyphens s)
]

hex_digits-after_colon : (s : String) → hex_digits (after_colon s) ≡ hex_digits s
hex_digits-after_colon no_chars = refl
hex_digits-after_colon (c then s) = refl

hex_digits-joined_pairs :
    (n : ℕ) (s : String)
    → digits_pattern (twice n) s ≡ true
    → hex_digits (joined_pairs s) ≡ hex_digits s
unfolding digits_pattern joined_pairs twice
hex_digits-joined_pairs n no_chars h = refl
hex_digits-joined_pairs zero (a then no_chars) h = ground arith
hex_digits-joined_pairs (suc n) (a then no_chars) h = ground arith
hex_digits-joined_pairs zero (a then (b then t)) h =
    let (first, h1) = and-true (is_hex (code a)) (is_hex (code b) && is_end t) h in
    let (second, h2) = and-true (is_hex (code b)) (is_end t) h1 in rw (end-empty t h2)
hex_digits-joined_pairs (suc n) (a then (b then t)) h =
    let (first, h1) =
      and-true (is_hex (code a)) (is_hex (code b) && digits_pattern (twice n) t) h in
    let (second, h2) = and-true (is_hex (code b)) (digits_pattern (twice n) t) h1 in
    rw (hex_digits-after_colon (joined_pairs t), hex_digits-joined_pairs n t h2)

digits_stay :
    (s : String)
    → has_char colon s ≡ false
    → digits_pattern (twice 5) (without_hyphens s) ≡ true
    → hex_digits (with_colons s) ≡ hex_digits s
digits_stay s absent digits =
    let joined = digits_joined 5 (without_hyphens s) digits in
    rw (
      with_colons_lem s absent joined,
      hex_digits-joined_pairs 5 (without_hyphens s) digits,
      hex_digits-without_hyphens s,
    )

-- The digits stay.
hex_digits-with_colons :
    (s : String) → matches_some s ≡ true → hex_digits (with_colons s) ≡ hex_digits s
unfolding twice
hex_digits-with_colons s h =
    elim (or-cases (mac_colon_pattern s) (mac_hyphen_pattern s || mac_compact_pattern s) h) [
      | inl colons ↦ rw (with_colons_same s (colons_have_colon 4 s colons))
      | inr rest ↦ elim (or-cases (mac_hyphen_pattern s) (mac_compact_pattern s) rest) [
        | inl hyphens ↦ digits_stay s (hyphens_no_colon 5 s hyphens) (hyphens_stripped 5 s hyphens)
        | inr digits ↦
            digits_stay s (digits_no_colon 12 s digits) (rw (digits_kept 12 s digits, digits))
      ]
    ]

-- A character of an address with colons stays as it is.
is_plain : ℕ → Bool
is_plain n = is_hex n || n == colon

all_plain : String → Bool
all_plain no_chars = true
all_plain (c then s) = is_plain (code c) && all_plain s

plain_upper :
    (n : ℕ) → is_plain n ≡ true → ((leb 97 n && leb n 122) ≡ false) × ((n == 0xfb00) ≡ false)
unfolding is_plain
plain_upper n h = (ground arith, ground arith)

plain_space : (n : ℕ) → is_plain n ≡ true → is_space n ≡ false
unfolding is_plain
plain_space n h = ground arith

hex_plain : (n : ℕ) → is_hex n ≡ true → is_plain n ≡ true
unfolding is_plain
hex_plain n h = rw h

colon_plain : (n : ℕ) → (n == colon) ≡ true → is_plain n ≡ true
unfolding is_plain
colon_plain n h = ground arith

colons_plain : (n : ℕ) (s : String) → pairs_pattern colon n s ≡ true → all_plain s ≡ true
unfolding pairs_pattern all_plain
colons_plain zero s h =
    let (a, b, t, e, first, second, h1) = pair-cases s h in
    rw (e, end-empty t h1, hex_plain (code a) first, hex_plain (code b) second)
colons_plain (suc n) s h =
    let (a, b, t, e, first, second, h1) = pair-cases s h in
    let (c, u, e1, third, h2) = separator-cases colon t h1 in
    rw (
      e,
      e1,
      hex_plain (code a) first,
      hex_plain (code b) second,
      colon_plain (code c) third,
      colons_plain n u h2,
    )

upper_same : (s : String) → all_plain s ≡ true → to_upper_case s ≡ s
unfolding all_plain to_upper_case
upper_same no_chars h = refl
upper_same (c then s) h =
    let (plain, rest) = and-true (is_plain (code c)) (all_plain s) h in
    let (no_letter, no_ligature) = plain_upper (code c) plain in
    rw (no_ligature, no_letter, upper_same s rest)

trim_start_same : (s : String) → all_plain s ≡ true → trim_start s ≡ s
unfolding all_plain trim_start
trim_start_same no_chars h = refl
trim_start_same (c then s) h =
    let (plain, rest) = and-true (is_plain (code c)) (all_plain s) h in
    rw (plain_space (code c) plain)

trim_end_same : (s : String) → all_plain s ≡ true → trim_end s ≡ s
unfolding all_plain trim_end is_blank
trim_end_same no_chars h = refl
trim_end_same (c then s) h =
    let (plain, rest) = and-true (is_plain (code c)) (all_plain s) h in
    rw (plain_space (code c) plain, trim_end_same s rest)

-- An address with colons in capital letters is returned as it is.
mac_is_kept : (s : String) → mac_colon_pattern s ≡ true → validate_bluetooth_address s ≡ parsed s
unfolding validate_bluetooth_address
mac_is_kept s h =
    let plain = colons_plain 5 s h in
    let normal =
      ap to_upper_case (ap trim_end (trim_start_same s plain) ∙ trim_end_same s plain)
      ∙ upper_same s plain in
    rw (normal, h, with_colons_same s (colons_have_colon 4 s h))

parsed_injective : {a b : String} → parsed a ≡ parsed b → a ≡ b
parsed_injective h = cc

-- Six pairs of digits with colons between them, whose digits are those of the address in capital
-- letters.
pub IsCanonical : String → String → Type 0
IsCanonical address t =
    (mac_colon_pattern t ≡ true) × (hex_digits t ≡ hex_digits (to_upper_case (trim address)))

validated :
    (matched : Bool) (address t : String)
    → matches_some (to_upper_case (trim address)) ≡ matched
    → (if matched then parsed (with_colons (to_upper_case (trim address))) else usage_error)
      ≡ parsed t
    → IsCanonical address t
unfolding IsCanonical
validated true address t e h =
    let same = sym (parsed_injective h) in
    let s = to_upper_case (trim address) in
    (rw (same, with_colons-IsMac s e), rw (same, hex_digits-with_colons s e))
validated false address t e h = cc

-- An address that validateBluetoothAddress returns is six pairs of hexadecimal digits in capital
-- letters with colons between them; its digits are those of the given address put in capital
-- letters, in their order; and it is itself accepted and returned unchanged.
pub validate_bluetooth_address-IsCanonical :
    (address t : String)
    → validate_bluetooth_address address ≡ parsed t
    → IsCanonical address t × (validate_bluetooth_address t ≡ parsed t)
unfolding validate_bluetooth_address IsCanonical
validate_bluetooth_address-IsCanonical address t h =
    let (canonical, digits) =
      validated (matches_some (to_upper_case (trim address))) address t refl h in
    ((canonical, digits), mac_is_kept t canonical)
