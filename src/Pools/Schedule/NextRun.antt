-- ===== src/Pools/Schedule/NextRun.antt =====
-- When the next automatic snapshot runs: create.go, NextAutoSnapshotTime.
use Prim.Native.Char.{Char, code}
use Prim.Native.String.{[], ◌∷◌}
use yesnas_server.Prelude.{
  ℕ, zero, suc, ◌+◌, ◌-◌, ◌%◌, ◌≤◌, ◌<◌, ◌≡◌, ◌⊎◌, inl, inr, refl, ap, String, true, false, some,
  List, ◌&&◌, ltb, ltb→lt, arith, Bool-cases,
}
use yesnas_server.Prelude.Result.{Result, ok, err}
use yesnas_server.Prelude.Text.{is_empty}
use yesnas_server.Pools.Schedule.{normalize_weekly_schedule, weekday_from_digit, has_seen}
use yesnas_server.Pools.Schedule.Spec.{normalize-nonempty}
use yesnas_server.Pools.Schedule.Calendar.{
  Zone, IsZone, weekday_of, allowed_weekdays, is_candidate, scan_days, next_by_keyword,
  next_auto_snapshot_time,
}

le-cases : (m n : ℕ) → m ≤ n → (m ≡ n) ⊎ (suc m ≤ n)
le-cases m n h = ground arith

not-lt-le : {m n : ℕ} → ¬ (m < n) → n ≤ m
not-lt-le h = omega arith

module _ (z : Zone) (laws : IsZone z) where
  open laws use {day_of_mono, day_of_midnight, month_of_mono, month_of_start}

  -- The midnight of a later day than an instant's comes after the instant.
  pub lt-midnight : (t d : ℕ) → z.day_of t < d → t < z.midnight d
  lt-midnight t d h = elim (Bool-cases (ltb t (z.midnight d))) [
    | inl e ↦ ltb→lt _ _ e
    | inr e ↦ absurd (omega (arith, day_of_mono (z.midnight d) t (ground arith), day_of_midnight d))
  ]

  pub lt-month_start : (t m : ℕ) → z.month_of t < m → t < z.month_start m
  lt-month_start t m h = elim (Bool-cases (ltb t (z.month_start m))) [
    | inl e ↦ ltb→lt _ _ e
    | inr e ↦
        absurd (omega (arith, month_of_mono (z.month_start m) t (ground arith), month_of_start m))
  ]

  midnight-le : (d e : ℕ) → z.midnight d < z.midnight e → d ≤ e
  midnight-le d e h =
      omega (arith, day_of_mono (z.midnight d) (z.midnight e), day_of_midnight d, day_of_midnight e)

  day_of-le : (t e : ℕ) → t < z.midnight e → z.day_of t ≤ e
  day_of-le t e h = omega (arith, day_of_mono t (z.midnight e), day_of_midnight e)

  keyword-later : (wide : Char → Char) (t : ℕ) (s : String) → t < next_by_keyword wide z t s
  unfolding next_by_keyword
  keyword-later wide t s =
      ground (arith, lt-midnight t (suc (z.day_of t)), lt-month_start t (suc (z.month_of t)))

-- A scan that finds stops at the first candidate.
record IsFirst (z : Zone) (allowed : List ℕ) (base from found : ℕ) : Type 0 where
  day : ℕ
  not_before : from ≤ day
  lands : found ≡ z.midnight day
  fits : is_candidate z allowed base day ≡ true
  earliest : (e : ℕ) → from ≤ e → e < day → is_candidate z allowed base e ≡ false

module _ (z : Zone) (allowed : List ℕ) (base : ℕ) where
  IsFirst-pred :
      (day found : ℕ)
      → is_candidate z allowed base day ≡ false
      → IsFirst z allowed base (suc day) found
      → IsFirst z allowed base day found
  IsFirst-pred day found e r = record {
    day = r.day;
    not_before = omega (arith, r.not_before);
    lands = r.lands;
    fits = r.fits;
    earliest = λ d p q. elim (le-cases day d p) [
      | inl same ↦ rw (← same) e
      | inr later ↦ r.earliest d later q
    ];
  }

  scan_days-IsFirst :
      (k day found : ℕ)
      → scan_days z allowed base k day ≡ some found
      → IsFirst z allowed base day found
  unfolding scan_days
  scan_days-IsFirst zero day found h = absurd (ground arith)
  scan_days-IsFirst (suc k) day found h = elim (Bool-cases (is_candidate z allowed base day)) [
    | inl e ↦ record {
      day = day;
      not_before = omega arith;
      lands = ground arith;
      fits = e;
      earliest = λ d p q. absurd (omega arith);
    }
    | inr e ↦ IsFirst-pred day found e (scan_days-IsFirst k (suc day) found (rw e at h))
  ]

  scan_days-finds :
      (k day target : ℕ)
      → day ≤ target
      → target < day + k
      → is_candidate z allowed base target ≡ true
      → (found : ℕ) × (scan_days z allowed base k day ≡ some found)
  unfolding scan_days
  scan_days-finds zero day target lo hi c = absurd (omega arith)
  scan_days-finds (suc k) day target lo hi c = elim (Bool-cases (is_candidate z allowed base day)) [
    | inl e ↦ (z.midnight day, rw e refl)
    | inr e ↦ elim (le-cases day target lo) [
      | inl same ↦ absurd (cc (ap (is_candidate z allowed base) same))
      | inr later ↦ rw e (scan_days-finds k (suc day) target later (omega arith) c)
    ]
  ]

module _ (z : Zone) (laws : IsZone z) where
  open laws use {day_of_midnight}

  is_candidate_iff :
      (allowed : List ℕ) (base day : ℕ)
      → is_candidate z allowed base day
        ≡ (ltb base (z.midnight day) && has_seen (weekday_of day) allowed)
  is_candidate_iff allowed base day = rw (day_of_midnight day) refl

  -- Some weekday is allowed, so that one of the next seven days is a candidate.
  candidate_within_week :
      (w : ℕ) (rest : List ℕ) (base : ℕ)
      → w < 7
      → (day : ℕ) × (z.day_of base < day)
        × (day < z.day_of base + 8)
        × (is_candidate z (List.◌∷◌ w rest) base day ≡ true)
  candidate_within_week w rest base h =
      let day : ℕ = z.day_of base + 1 + (w + 7 - (z.day_of base + 5) % 7) % 7 in
      let fits : weekday_of day ≡ w = omega arith in
      (
        day,
        omega arith,
        omega arith,
        rw (is_candidate_iff (List.◌∷◌ w rest) base day)
            (ground (arith, fits, lt-midnight z laws base day)),
      )

weekday_from_digit-lt : (c : ℕ) → weekday_from_digit c < 7
unfolding weekday_from_digit
weekday_from_digit-lt c = ground arith

-- A midnight of an allowed weekday, and the first of those after an instant.
pub record IsNextRun (z : Zone) (normalized : String) (base next : ℕ) : Type 0 where
  pub day : ℕ
  pub lands : next ≡ z.midnight day
  pub after : base < next
  pub weekday : has_seen (weekday_of day) (allowed_weekdays normalized) ≡ true
  pub first :
      (e : ℕ)
      → base < z.midnight e
      → has_seen (weekday_of e) (allowed_weekdays normalized) ≡ true
      → day ≤ e

module _ (wide : Char → Char) (z : Zone) (laws : IsZone z) where
  scan_week :
      (normalized : String) (base : ℕ)
      → is_empty normalized ≡ false
      → (found : ℕ) × (scan_days z (allowed_weekdays normalized) base 8 (z.day_of base)
          ≡ some found)
  unfolding allowed_weekdays
  scan_week [] base h = absurd (ground arith)
  scan_week (c ∷ s) base h =
      let (day, lo, hi, fits) =
        candidate_within_week z laws (weekday_from_digit (code c)) (allowed_weekdays s) base
          (weekday_from_digit-lt (code c)) in
      scan_days-finds z (allowed_weekdays (c ∷ s)) base 8 (z.day_of base) day (omega arith) hi fits

  IsFirst-IsNextRun :
      (normalized : String) (base found : ℕ)
      → IsFirst z (allowed_weekdays normalized) base (z.day_of base) found
      → IsNextRun z normalized base found
  IsFirst-IsNextRun normalized base found r =
      let both = is_candidate_iff z laws (allowed_weekdays normalized) base r.day in
      record {
        day = r.day;
        lands = r.lands;
        after = rw r.lands (ground (arith, both, r.fits));
        weekday = ground (arith, both, r.fits);
        first = λ e p q. not-lt-le (λ lt. absurd (
            ground (
              arith,
              r.earliest e (day_of-le z laws base e p) lt,
              is_candidate_iff z laws (allowed_weekdays normalized) base e,
            )));
      }

  -- For a schedule that normalizes, the next run is the first midnight after the given instant
  -- that falls on a weekday of the schedule, in a zone whose days begin at 0:00.
  pub next_auto_snapshot_time-IsNextRun :
      (base : ℕ) (schedule normalized : String)
      → normalize_weekly_schedule schedule ≡ ok normalized
      → IsNextRun z normalized base (next_auto_snapshot_time wide z base schedule)
  unfolding next_auto_snapshot_time
  next_auto_snapshot_time-IsNextRun base schedule normalized h =
      let (found, e) = scan_week normalized base (normalize-nonempty schedule normalized h) in
      rw (h, next_auto_snapshot_time)
        (rw e (IsFirst-IsNextRun normalized base found (scan_days-IsFirst z _ base 8 _ found e)))

  -- Every schedule, unreadable ones included: the next run comes after the given instant.
  pub next_auto_snapshot_time-later :
      (base : ℕ) (schedule : String) → base < next_auto_snapshot_time wide z base schedule
  unfolding next_auto_snapshot_time
  next_auto_snapshot_time-later base schedule = by_result (normalize_weekly_schedule schedule) refl
    where
      by_result :
          (r : Result String)
          → normalize_weekly_schedule schedule ≡ r
          → base < next_auto_snapshot_time wide z base schedule
      by_result (ok n) e = (next_auto_snapshot_time-IsNextRun base schedule n e).after
      by_result (err m) e =
          rw (e, next_auto_snapshot_time) (keyword-later z laws wide base schedule)
