-- ===== src/Common/Texts.antt =====
-- `toLowerCase` and `includes` on strings. Letters beyond ASCII are left as they are.
use Prim.Native.Nat.{ℕ, zero, suc, ◌-◌}
use Prim.Native.Char.{Char, code}
use Prim.Native.String.{String, [] as empty, ◌∷◌ as ◌then◌}
use mathlib.Core.Bool.{Bool, true, false, ◌&&◌, ◌||◌}
use bluetti_mqtt_node.Common.Tests.{leb, ◌==◌, if◌then◌else◌}

abbrev pub nth_char : String → ℕ → Char → Char
nth_char empty n c = c
nth_char (d then s) zero c = d
nth_char (d then s) (suc n) c = nth_char s n c

abbrev lower_char : Char → Char
lower_char c =
    if leb 65 (code c) && leb (code c) 90
    then nth_char "abcdefghijklmnopqrstuvwxyz" (code c - 65) c
    else c

unfoldable pub to_lower_case : String → String
to_lower_case empty = empty
to_lower_case (c then s) = lower_char c then to_lower_case s

abbrev starts_with : String → String → Bool
starts_with empty s = true
starts_with (c then needle) empty = false
starts_with (c then needle) (d then s) = (code c == code d) && starts_with needle s

-- `s.includes(needle)`.
unfoldable pub includes : String → String → Bool
includes needle empty = starts_with needle empty
includes needle (c then s) = starts_with needle (c then s) || includes needle s
