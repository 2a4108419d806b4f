-- ===== src/Cli/Args/Patterns.antt =====
-- The patterns of src/cli/args.ts, and the separators taken out and put in.
use Prim.Native.Char.{Char, code}
use Prim.Native.String.{String, [] as no_chars, ◌∷◌ as ◌then◌}
use bluetti_mqtt_node.Common.{
  ℕ, zero, suc, Bool, true, false, ◌&&◌, ◌||◌, ◌≡◌, refl, ◌==◌, and-true, ◌⊎◌, inl, inr,
  if◌then◌else◌, arith,
}
use bluetti_mqtt_node.Cli.Args.{
  is_hex, is_end, pair_then, separator_then, pairs_pattern, digits_pattern, colon, hyphen, has_char,
  joined_pairs, without_hyphens, after_colon, colon_char, or_else, with_colons, mac_colon_pattern,
  mac_hyphen_pattern, mac_compact_pattern, matches_some,
}

hex_not_colon : (n : ℕ) → is_hex n ≡ true → (n == colon) ≡ false
hex_not_colon n h = ground arith

hex_not_hyphen : (n : ℕ) → is_hex n ≡ true → (n == hyphen) ≡ false
hex_not_hyphen n h = ground arith

hyphen_not_colon : (n : ℕ) → (n == hyphen) ≡ true → (n == colon) ≡ false
hyphen_not_colon n h = ground arith

pub hyphen_not_hex : (n : ℕ) → (n == hyphen) ≡ true → is_hex n ≡ false
hyphen_not_hex n h = ground arith

pub pair-cases :
    {rest : String → Bool} (s : String)
    → pair_then rest s ≡ true
    → (a : Char) × (b : Char) × (t : String) × (s ≡ (a then (b then t)))
      × (is_hex (code a) ≡ true)
      × (is_hex (code b) ≡ true)
      × (rest t ≡ true)
pair-cases no_chars h = cc
pair-cases (a then no_chars) h = cc
pair-cases {rest} (a then (b then t)) h =
    let (first, h1) = and-true (is_hex (code a)) (is_hex (code b) && rest t) h in
    let (second, h2) = and-true (is_hex (code b)) (rest t) h1 in (a, b, t, refl, first, second, h2)

pub separator-cases :
    (separator : ℕ) {rest : String → Bool} (s : String)
    → separator_then separator rest s ≡ true
    → (c : Char) × (t : String) × (s ≡ (c then t))
      × ((code c == separator) ≡ true)
      × (rest t ≡ true)
separator-cases separator no_chars h = cc
separator-cases separator {rest} (c then t) h =
    let (first, h1) = and-true (code c == separator) (rest t) h in (c, t, refl, first, h1)

pub end-empty : (s : String) → is_end s ≡ true → s ≡ no_chars
end-empty no_chars h = refl
end-empty (c then s) h = cc

-- A text of digits and hyphens has no colon.
pub hyphens_no_colon :
    (n : ℕ) (s : String) → pairs_pattern hyphen n s ≡ true → has_char colon s ≡ false
unfolding pairs_pattern has_char
hyphens_no_colon zero s h =
    let (a, b, t, e, first, second, h1) = pair-cases s h in
    rw (e, end-empty t h1, hex_not_colon (code a) first, hex_not_colon (code b) second)
hyphens_no_colon (suc n) s h =
    let (a, b, t, e, first, second, h1) = pair-cases s h in
    let (c, u, e1, third, h2) = separator-cases hyphen t h1 in
    rw (
      e,
      e1,
      hex_not_colon (code a) first,
      hex_not_colon (code b) second,
      hyphen_not_colon (code c) third,
      hyphens_no_colon n u h2,
    )

pub digits_no_colon : (n : ℕ) (s : String) → digits_pattern n s ≡ true → has_char colon s ≡ false
unfolding digits_pattern has_char
digits_no_colon zero s h = rw (end-empty s h)
digits_no_colon (suc n) no_chars h = refl
digits_no_colon (suc n) (c then s) h =
    let (first, h1) = and-true (is_hex (code c)) (digits_pattern n s) h in
    rw (hex_not_colon (code c) first, digits_no_colon n s h1)

pub digits_kept : (n : ℕ) (s : String) → digits_pattern n s ≡ true → without_hyphens s ≡ s
unfolding digits_pattern without_hyphens
digits_kept zero s h = rw (end-empty s h)
digits_kept (suc n) no_chars h = refl
digits_kept (suc n) (c then s) h =
    let (first, h1) = and-true (is_hex (code c)) (digits_pattern n s) h in
    rw (hex_not_hyphen (code c) first, digits_kept n s h1)

pub colons_have_colon :
    (n : ℕ) (s : String) → pairs_pattern colon (suc n) s ≡ true → has_char colon s ≡ true
unfolding pairs_pattern has_char
colons_have_colon n s h =
    let (a, b, t, e, first, second, h1) = pair-cases s h in
    let (c, u, e1, third, h2) = separator-cases colon t h1 in
    rw (e, e1, hex_not_colon (code a) first, hex_not_colon (code b) second, third)

-- A text that ends with a pattern of pairs is not empty.
pairs-cases :
    (separator n : ℕ) (s : String)
    → pairs_pattern separator n s ≡ true
    → (c : Char) × (t : String) × (s ≡ (c then t))
unfolding pairs_pattern
pairs-cases separator zero s h = let (a, b, t, e, _, _, _) = pair-cases s h in (a, b then t, e)
pairs-cases separator (suc n) s h = let (a, b, t, e, _, _, _) = pair-cases s h in (a, b then t, e)

after_colon_lem : (c : Char) (t s : String) → s ≡ (c then t) → after_colon s ≡ (colon_char then s)
after_colon_lem c t s e = rw e

or_else_lem : (c : Char) (t s normalized : String) → s ≡ (c then t) → or_else s normalized ≡ s
or_else_lem c t s normalized e = rw e

-- Two digits, a colon and pairs are pairs.
colon-joins :
    (n : ℕ) (a b : Char) (s : String)
    → is_hex (code a) ≡ true
    → is_hex (code b) ≡ true
    → pairs_pattern colon n s ≡ true
    → pairs_pattern colon (suc n) (a then (b then after_colon s)) ≡ true
unfolding pairs_pattern
colon-joins n a b s first second h =
    let (c, t, e) = pairs-cases colon n s h in
    let joined = after_colon_lem c t s e in rw (joined, first, second, h)

unfoldable pub twice : ℕ → ℕ
twice zero = 2
twice (suc n) = suc (suc (twice n))

-- Pairs with hyphens are their digits once the hyphens are taken out.
pub hyphens_stripped :
    (n : ℕ) (s : String)
    → pairs_pattern hyphen n s ≡ true
    → digits_pattern (twice n) (without_hyphens s) ≡ true
unfolding pairs_pattern digits_pattern without_hyphens twice
hyphens_stripped zero s h =
    let (a, b, t, e, first, second, h1) = pair-cases s h in
    rw (
      e,
      end-empty t h1,
      hex_not_hyphen (code a) first,
      hex_not_hyphen (code b) second,
      first,
      second,
    )
hyphens_stripped (suc n) s h =
    let (a, b, t, e, first, second, h1) = pair-cases s h in
    let (c, u, e1, third, h2) = separator-cases hyphen t h1 in
    rw (
      e,
      e1,
      hex_not_hyphen (code a) first,
      hex_not_hyphen (code b) second,
      third,
      first,
      second,
      hyphens_stripped n u h2,
    )

pub digits_joined :
    (n : ℕ) (s : String)
    → digits_pattern (twice n) s ≡ true
    → pairs_pattern colon n (joined_pairs s) ≡ true
unfolding pairs_pattern digits_pattern joined_pairs twice
digits_joined zero no_chars h = cc
digits_joined (suc n) no_chars h = cc
digits_joined zero (a then no_chars) h = ground arith
digits_joined (suc n) (a then no_chars) h = ground arith
digits_joined zero (a then (b then t)) h =
    let (first, h1) = and-true (is_hex (code a)) (is_hex (code b) && is_end t) h in
    let (second, h2) = and-true (is_hex (code b)) (is_end t) h1 in
    rw (end-empty t h2, first, second)
digits_joined (suc n) (a then (b then t)) h =
    let (first, h1) =
      and-true (is_hex (code a)) (is_hex (code b) && digits_pattern (twice n) t) h in
    let (second, h2) = and-true (is_hex (code b)) (digits_pattern (twice n) t) h1 in
    colon-joins n a b (joined_pairs t) first second (digits_joined n t h2)

pub or-cases : (a b : Bool) → (a || b) ≡ true → (a ≡ true) ⊎ (b ≡ true)
or-cases true b h = inl refl
or-cases false b h = inr h

-- An address without colons becomes its pairs.
pub with_colons_lem :
    (s : String)
    → has_char colon s ≡ false
    → mac_colon_pattern (joined_pairs (without_hyphens s)) ≡ true
    → with_colons s ≡ joined_pairs (without_hyphens s)
unfolding with_colons
with_colons_lem s absent h =
    let (c, t, e) = pairs-cases colon 5 (joined_pairs (without_hyphens s)) h in
    let kept = or_else_lem c t (joined_pairs (without_hyphens s)) s e in rw (absent, kept)

pub with_colons_same : (s : String) → has_char colon s ≡ true → with_colons s ≡ s
unfolding with_colons
with_colons_same s present = rw present

-- What the address becomes has the form with colons.
pub with_colons-IsMac :
    (s : String) → matches_some s ≡ true → mac_colon_pattern (with_colons s) ≡ true
unfolding twice
with_colons-IsMac s h =
    elim (or-cases (mac_colon_pattern s) (mac_hyphen_pattern s || mac_compact_pattern s) h) [
      | inl colons ↦ rw (with_colons_same s (colons_have_colon 4 s colons), colons)
      | inr rest ↦ elim (or-cases (mac_hyphen_pattern s) (mac_compact_pattern s) rest) [
        | inl hyphens ↦
            let joined = digits_joined 5 (without_hyphens s) (hyphens_stripped 5 s hyphens) in
            rw (with_colons_lem s (hyphens_no_colon 5 s hyphens) joined, joined)
        | inr digits ↦
            let kept = digits_kept 12 s digits in
            let joined = digits_joined 5 s digits in
            rw (with_colons_lem s (digits_no_colon 12 s digits) (rw (kept, joined)), kept, joined)
      ]
    ]
