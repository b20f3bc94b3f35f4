-- ===== src/Pools/Schedule/Calendar.antt =====
-- internal/storagepool/create.go: NextAutoSnapshotTime. Instants are nanoseconds; the server's
-- time zone is a parameter, since Go's time package reads it from the machine.
use Prim.Native.Char.{Char, code}
use Prim.Native.String.{[], ◌∷◌}
use yesnas_server.Prelude.{
  ℕ, zero, suc, ◌+◌, ◌*◌, ◌/◌, ◌%◌, ◌≤◌, ◌≡◌, String, Bool, Option, none, some, List, ◌&&◌, str_eq,
  ltb, not, if◌then◌else◌, arith,
}
use yesnas_server.Prelude.Result.{ok, err}
use yesnas_server.Prelude.Text.{trim_space, to_lower, is_empty}
use yesnas_server.Pools.Schedule.{normalize_weekly_schedule, weekday_from_digit, has_seen}

-- time.Local: the civil day (from 1970-01-01) and the civil month (from January 1970, twelve to
-- a year) of an instant, and the instants at which time.Date(year, month, day, 0, 0, 0, 0, loc)
-- lies for a day and for the first of a month. time.Date carries a month 13 over to the next year.
pub record Zone : Type 0 where
  pub day_of : ℕ → ℕ
  pub midnight : ℕ → ℕ
  pub month_of : ℕ → ℕ
  pub month_start : ℕ → ℕ

-- What the time package documents of a zone whose days all begin at 0:00.
pub record IsZone (z : Zone) : Type 0 where
  pub day_of_mono : (s t : ℕ) → s ≤ t → z.day_of s ≤ z.day_of t
  pub day_of_midnight : (d : ℕ) → z.day_of (z.midnight d) ≡ d
  pub month_of_mono : (s t : ℕ) → s ≤ t → z.month_of s ≤ z.month_of t
  pub month_of_start : (m : ℕ) → z.month_of (z.month_start m) ≡ m

-- What holds besides: the day and the month of an instant began before it, or with it.
pub record BeginsAtMidnight (z : Zone) : Type 0 where
  pub midnight_le : (t : ℕ) → z.midnight (z.day_of t) ≤ t
  pub month_start_le : (t : ℕ) → z.month_start (z.month_of t) ≤ t

abbrev pub hour : ℕ
hour = 3600000000000

-- 1970-01-01 was a Thursday.
abbrev pub weekday_of : ℕ → ℕ
weekday_of day = (day + 4) % 7

unfoldable pub allowed_weekdays : String → List ℕ
unfolding weekday_from_digit
allowed_weekdays [] = List.[]
allowed_weekdays (c ∷ s) = List.◌∷◌ (weekday_from_digit (code c)) (allowed_weekdays s)

abbrev pub is_candidate : Zone → List ℕ → ℕ → ℕ → Bool
is_candidate z allowed base day =
    ltb base (z.midnight day) && has_seen (weekday_of (z.day_of (z.midnight day))) allowed

-- The loop over the offsets; the first argument counts those that are left.
unfoldable pub scan_days : Zone → List ℕ → ℕ → ℕ → ℕ → Option ℕ
scan_days z allowed base zero day = none
scan_days z allowed base (suc k) day =
    let rest = scan_days z allowed base k (suc day) in
    if is_candidate z allowed base day then some (z.midnight day) else rest

-- The switch on the keyword schedules.
unfoldable pub next_by_keyword : (Char → Char) → Zone → ℕ → String → ℕ
next_by_keyword wide z base schedule =
    let keyword = to_lower wide (trim_space schedule) in
    if str_eq keyword "hourly"
    then base / hour * hour + hour
    else if str_eq keyword "daily"
    then z.midnight (suc (z.day_of base))
    else if str_eq keyword "monthly"
    then z.month_start (suc (z.month_of base))
    else z.midnight (suc (z.day_of base))

abbrev or_else : Option ℕ → ℕ → ℕ
or_else (some t) fallback = t
or_else none fallback = fallback

unfoldable pub next_auto_snapshot_time : (Char → Char) → Zone → ℕ → String → ℕ
unfolding scan_days allowed_weekdays
next_auto_snapshot_time wide z base schedule = elim (normalize_weekly_schedule schedule) [
  | ok normalized ↦
      or_else (scan_days z (allowed_weekdays normalized) base 8 (z.day_of base))
        (next_by_keyword wide z base schedule)
  | err e ↦ next_by_keyword wide z base schedule
]

unfoldable pub initial_auto_snapshot_next_run : (Char → Char) → Zone → Bool → String → ℕ → Option ℕ
initial_auto_snapshot_next_run wide z enabled schedule now =
    if not enabled
    then none
    else if is_empty (trim_space schedule)
    then none
    else some (next_auto_snapshot_time wide z now schedule)

abbrev pub utc_day : ℕ
utc_day = 86400000000000

-- Coordinated universal time; a month is taken as 31 days, which no test here looks at.
abbrev pub utc : Zone
utc = record {
  day_of = λ t. t / utc_day;
  midnight = λ d. d * utc_day;
  month_of = λ t. t / (31 * utc_day);
  month_start = λ m. m * (31 * utc_day);
}

pub utc-IsZone : IsZone utc
utc-IsZone = record {
  day_of_mono = λ s t h. omega arith;
  day_of_midnight = λ d. omega arith;
  month_of_mono = λ s t h. omega arith;
  month_of_start = λ m. omega arith;
}

pub utc-BeginsAtMidnight : BeginsAtMidnight utc
utc-BeginsAtMidnight = record { midnight_le = λ t. omega arith; month_start_le = λ t. omega arith }
