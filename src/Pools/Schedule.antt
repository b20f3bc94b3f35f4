-- ===== src/Pools/Schedule.antt =====
-- internal/storagepool/create.go: the weekly schedule of automatic snapshots, a text of weekdays 1-7.
pub mod Spec
pub mod Calendar
pub mod NextRun
pub mod Keyword
pub mod Idempotent
use Prim.Native.Char.{Char, code}
use Prim.Native.String.{[], ◌∷◌}
use Prim.Native.String
use mathlib.Core.List
use yesnas_server.Prelude.{
  ℕ, zero, suc, ◌+◌, ◌≡◌, refl, String, Bool, true, false, Option, none, some, List, ◌||◌, ◌&&◌,
  not, ltb, leb, ◌==◌, if◌then◌else◌,
}
use yesnas_server.Prelude.Result.{Result, ok, err, ◌>>=◌, ◌>>◌, check}
use yesnas_server.Prelude.Text.{trim_space, is_empty}

abbrev pub push : String → Char → String
push s c = String.◌++◌ s (c ∷ [])

-- The keys of the map `seen`.
abbrev pub has_seen : ℕ → List ℕ → Bool
has_seen c List.[] = false
has_seen c (List.◌∷◌ x xs) = x == c || has_seen c xs

-- The loop over the bytes of the value, for one digit; `none` is the error return.
pub collect : Char → String → List ℕ → String → Option (List ℕ × String)
collect digit [] seen out = some (seen, out)
collect digit (c ∷ s) seen out =
    let fresh = code c == code digit && not (has_seen (code c) seen) in
    let rest =
      collect digit s (if fresh then List.◌∷◌ (code c) seen else seen)
        (if fresh then push out c else out) in
    if ltb (code c) b'1' || ltb b'7' (code c) then none else rest

-- The loop over the digits.
pub collect_digits : String → String → List ℕ → String → Option String
collect_digits [] value seen out = some out
collect_digits (digit ∷ digits) value seen out = elim (collect digit value seen out) [
  | none ↦ none
  | some (seen', out') ↦ collect_digits digits value seen' out'
]

abbrev pub week_digits : String
week_digits = "1234567"

abbrev pub schedule_required : String
schedule_required = "auto snapshot schedule is required"

abbrev pub schedule_malformed : String
schedule_malformed =
    "auto snapshot schedule must be a string containing weekdays 1-7, for example 123567"

abbrev pub schedule_no_day : String
schedule_no_day = "auto snapshot schedule must include at least one weekday between 1 and 7"

abbrev pub finish_schedule : Option String → Result String
finish_schedule none = err schedule_malformed
finish_schedule (some out) = if is_empty out then err schedule_no_day else ok out

unfoldable pub normalize_weekly_schedule : String → Result String
unfolding trim_space collect collect_digits
normalize_weekly_schedule schedule =
    let value = trim_space schedule in
    if is_empty value
    then err schedule_required
    else finish_schedule (collect_digits week_digits value List.[] [])

unfoldable pub normalize_auto_snapshot : Bool → String → Result String
normalize_auto_snapshot enabled schedule =
    if not enabled then ok "" else normalize_weekly_schedule schedule

-- time.Weekday, Sunday is 0.
unfoldable pub weekday_from_digit : ℕ → ℕ
weekday_from_digit c =
    if c == b'1'
    then 1
    else if c == b'2'
    then 2
    else if c == b'3'
    then 3
    else if c == b'4'
    then 4
    else if c == b'5'
    then 5
    else if c == b'6'
    then 6
    else 0

normalize_test : normalize_weekly_schedule " 7135513 " ≡ ok "1357"
unfolding normalize_weekly_schedule
normalize_test = refl
