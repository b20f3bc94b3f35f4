-- ===== src/Pools/Schedule/Keyword.antt =====
-- Schedules that are no weekdays: internal/storagepool/create.go, the switch at the end of
-- NextAutoSnapshotTime.
use Prim.Native.Char.{Char}
use mathlib.Core.Path.{subst}
use yesnas_server.Prelude.{
  ℕ, suc, ◌+◌, ◌*◌, ◌/◌, ◌%◌, ◌≤◌, ◌<◌, ◌≡◌, refl, sym, String, arith, str_eq, str_eq_iff, ◌⊎◌,
  if◌then◌else◌, Bool-cases, inl, inr,
}
use yesnas_server.Prelude.Result.{err}
use yesnas_server.Prelude.Text.{trim_space, to_lower}
use yesnas_server.Pools.Schedule.{normalize_weekly_schedule}
use yesnas_server.Pools.Schedule.Calendar.{
  Zone, IsZone, BeginsAtMidnight, hour, next_by_keyword, next_auto_snapshot_time,
}
use yesnas_server.Pools.Schedule.NextRun.{lt-midnight, lt-month_start}

-- The instants at which a schedule may run: the full hours, the midnights, or the midnights that
-- begin a month.
pub data Rhythm : Type 0 where
  hours days months : Rhythm

abbrev pub rhythm_of : (Char → Char) → String → Rhythm
rhythm_of wide schedule =
    let keyword = to_lower wide (trim_space schedule) in
    if str_eq keyword "hourly" then hours else if str_eq keyword "monthly" then months else days

abbrev pub Strikes : Zone → Rhythm → ℕ → Type 0
Strikes z hours t = t % hour ≡ 0
Strikes z days t = (d : ℕ) × (t ≡ z.midnight d)
Strikes z months t = (m : ℕ) × (t ≡ z.month_start m)

-- The first of these instants after a given one.
pub record IsNextStroke (z : Zone) (rhythm : Rhythm) (base next : ℕ) : Type 0 where
  pub strikes : Strikes z rhythm next
  pub after : base < next
  pub first : (t : ℕ) → Strikes z rhythm t → base < t → next ≤ t

eq_or_lt : (m n : ℕ) → m ≤ n → (m ≡ n) ⊎ (m < n)
eq_or_lt m n h = ground arith

le_or_lt : (m n : ℕ) → (m ≤ n) ⊎ (n < m)
le_or_lt m n = ground arith

next_hour-IsNextStroke :
    (z : Zone) (base : ℕ) → IsNextStroke z hours base (base / hour * hour + hour)
next_hour-IsNextStroke z base = record {
  strikes = omega arith;
  after = omega arith;
  first = λ t s h. omega (arith, s);
}

-- Days and months alike: each instant has a number that grows with it, and each number a first
-- instant.
module _ (number start : ℕ → ℕ) (number_mono : (s t : ℕ) → s ≤ t → number s ≤ number t)
    (number-start : (n : ℕ) → number (start n) ≡ n)
    (start_le : (t : ℕ) → start (number t) ≤ t) where
  same_start : (base n : ℕ) → n ≡ number base → start n ≤ base
  same_start base n e = rw e (start_le base)

  lt-number : (base n : ℕ) → base < start n → number base < n
  lt-number base n h =
      elim (eq_or_lt (number base) n (omega (arith, number_mono base (start n), number-start n))) [
        | inl e ↦ absurd (omega (arith, same_start base n (sym e)))
        | inr less ↦ less
      ]

  start_mono : (m n : ℕ) → m ≤ n → start m ≤ start n
  start_mono m n h = elim (eq_or_lt m n h) [
    | inl e ↦ rw e (omega arith)
    | inr less ↦ elim (le_or_lt (start m) (start n)) [
      | inl fine ↦ fine
      | inr back ↦
          absurd (omega (arith, number_mono (start n) (start m), number-start m, number-start n))
    ]
  ]

  next_start-le : (base n : ℕ) → base < start n → start (suc (number base)) ≤ start n
  next_start-le base n h = start_mono (suc (number base)) n (lt-number base n h)

module _ (wide : Char → Char) (z : Zone) (laws : IsZone z) (starts : BeginsAtMidnight z) where
  open laws use {day_of_mono, day_of_midnight, month_of_mono, month_of_start}
  open starts use {midnight_le, month_start_le}

  next_day-IsNextStroke : (base : ℕ) → IsNextStroke z days base (z.midnight (suc (z.day_of base)))
  next_day-IsNextStroke base = record {
    strikes = (suc (z.day_of base), refl);
    after = lt-midnight z laws base (suc (z.day_of base)) (omega arith);
    first = λ t s h. rw s.1 (
        next_start-le z.day_of z.midnight day_of_mono day_of_midnight midnight_le base s.0
          (subst (λ x. base < x) s.1 h));
  }

  next_month-IsNextStroke :
      (base : ℕ) → IsNextStroke z months base (z.month_start (suc (z.month_of base)))
  next_month-IsNextStroke base = record {
    strikes = (suc (z.month_of base), refl);
    after = lt-month_start z laws base (suc (z.month_of base)) (omega arith);
    first = λ t s h. rw s.1 (
        next_start-le z.month_of z.month_start month_of_mono month_of_start month_start_le base s.0
          (subst (λ x. base < x) s.1 h));
  }

  keyword-IsNextStroke :
      (base : ℕ) (schedule : String)
      → IsNextStroke z (rhythm_of wide schedule) base (next_by_keyword wide z base schedule)
  unfolding next_by_keyword
  keyword-IsNextStroke base schedule =
      let keyword = to_lower wide (trim_space schedule) in
      elim (Bool-cases (str_eq keyword "hourly")) [
        | inl e ↦ rw e (next_hour-IsNextStroke z base)
        | inr e ↦ rw e (elim (Bool-cases (str_eq keyword "daily")) [
          | inl day ↦ rw ((str_eq_iff keyword "daily").0 day) (next_day-IsNextStroke base)
          | inr other ↦ rw other (elim (Bool-cases (str_eq keyword "monthly")) [
            | inl month ↦ rw month (next_month-IsNextStroke base)
            | inr none_of_them ↦ rw none_of_them (next_day-IsNextStroke base)
          ])
        ])
      ]

  -- For a schedule that does not normalize, in a zone whose days and months begin at 0:00, the
  -- next run is the first full hour after the given instant where the schedule reads hourly, the
  -- first beginning of a month after it where it reads monthly, and the first midnight after it
  -- in all other cases.
  pub next_auto_snapshot_time-IsNextStroke :
      (base : ℕ) (schedule message : String)
      → normalize_weekly_schedule schedule ≡ err message
      → IsNextStroke z (rhythm_of wide schedule) base (next_auto_snapshot_time wide z base schedule)
  unfolding next_auto_snapshot_time
  next_auto_snapshot_time-IsNextStroke base schedule message h =
      rw (h, next_auto_snapshot_time) (keyword-IsNextStroke base schedule)
