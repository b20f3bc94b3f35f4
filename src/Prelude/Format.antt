-- ===== src/Prelude/Format.antt =====
-- Go's fmt verb %d for numbers that are not negative, and strings.Contains, HasSuffix, TrimSuffix.
use Prim.Native.String.{[], ◌∷◌}
use Prim.Native.String
use yesnas_server.Prelude.{
  ℕ, zero, suc, ◌/◌, ◌%◌, ◌≡◌, refl, String, Bool, true, ◌||◌, str_eq, ◌==◌, if◌then◌else◌,
}
use yesnas_server.Prelude.FilePath.{has_prefix}

abbrev letter_at : String → ℕ → String
letter_at [] n = ""
letter_at (c ∷ s) zero = c ∷ []
letter_at (c ∷ s) (suc n) = letter_at s n

abbrev digit : ℕ → String
digit n = letter_at "0123456789" n

-- The digits of `n`; a number has at most as many digits as its value, and one more.
abbrev digits : ℕ → ℕ → String
digits zero n = ""
digits (suc fuel) n =
    let above = digits fuel (n / 10) in
    if n / 10 == 0 then digit (n % 10) else String.◌++◌ above (digit (n % 10))

-- %d.
unfoldable pub decimal : ℕ → String
decimal n = digits (suc n) n

-- strings.Contains, with the part first.
unfoldable pub contains : String → String → Bool
unfolding has_prefix
contains part [] = str_eq part ""
contains part (c ∷ s) = has_prefix part (c ∷ s) || contains part s

-- strings.TrimSuffix, with the suffix first.
unfoldable pub trim_suffix : String → String → String
trim_suffix suffix [] = []
trim_suffix suffix (c ∷ s) =
    let rest = trim_suffix suffix s in if str_eq (c ∷ s) suffix then [] else c ∷ rest

decimal_test : decimal 2048 ≡ "2048"
unfolding decimal
decimal_test = refl

contains_test : contains "cross-device link" "rename: invalid cross-device link" ≡ true
unfolding contains
contains_test = refl

trim_suffix_test : trim_suffix ".gz" "a.tar.gz" ≡ "a.tar"
unfolding trim_suffix
trim_suffix_test = refl
