-- ===== src/Prelude/Text.antt =====
-- Go's strings package where the server uses it: TrimSpace, ToLower, HasPrefix, on texts that are
-- valid UTF-8, read by code points.
use Prim.Native.Nat.{ℕ}
use Prim.Native.Char.{Char, code}
use Prim.Native.String.{String, [], ◌∷◌}
use mathlib.Core.Path.{◌≡◌, refl}
use mathlib.Core.Bool.{Bool, true, false, ◌&&◌, ◌||◌}
use yesnas_server.Prelude.Tests.{leb, ltb, ◌==◌, if◌then◌else◌}

-- unicode.IsSpace.
unfoldable pub is_space : ℕ → Bool
is_space c =
    (leb 9 c && leb c 13)
    || c == 32
    || c == 0x85
    || c == 0xa0
    || c == 0x1680
    || (leb 0x2000 c && leb c 0x200a)
    || c == 0x2028
    || c == 0x2029
    || c == 0x202f
    || c == 0x205f
    || c == 0x3000

abbrev pub is_empty : String → Bool
is_empty [] = true
is_empty (c ∷ s) = false

unfoldable pub trim_left : String → String
unfolding is_space
trim_left [] = []
trim_left (c ∷ s) = let rest = trim_left s in if is_space (code c) then rest else c ∷ s

unfoldable pub trim_right : String → String
unfolding is_space
trim_right [] = []
trim_right (c ∷ s) =
    let rest = trim_right s in if is_space (code c) && is_empty rest then [] else c ∷ rest

-- strings.TrimSpace.
unfoldable pub trim_space : String → String
unfolding trim_left trim_right
trim_space s = trim_right (trim_left s)

-- The letter of `to` that stands where `c` stands in `from`.
abbrev replace_char : String → String → Char → Char
replace_char (a ∷ from) (b ∷ to) c =
    let rest = replace_char from to c in if code a == code c then b else rest
replace_char _ _ c = c

-- unicode.ToLower: exact on ASCII; `wide` is its table from U+0080 on.
unfoldable pub lower_char : (Char → Char) → Char → Char
lower_char wide c =
    if ltb (code c) 128
    then replace_char "ABCDEFGHIJKLMNOPQRSTUVWXYZ" "abcdefghijklmnopqrstuvwxyz" c
    else wide c

-- strings.ToLower.
unfoldable pub to_lower : (Char → Char) → String → String
unfolding lower_char
to_lower wide [] = []
to_lower wide (c ∷ s) = lower_char wide c ∷ to_lower wide s

trim_test : trim_space "  ab c \n" ≡ "ab c"
unfolding trim_space
trim_test = refl

lower_test : to_lower (λ c. c) "RAID10 x" ≡ "raid10 x"
unfolding to_lower
lower_test = refl
