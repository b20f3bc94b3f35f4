-- ===== src/Pools/Schedule/Spec.antt =====
-- What a normalised weekly schedule is, apart from the loops of create.go: the digits of the week
-- that the value has, in the order of the week.
use Prim.Native.Char.{Char, code}
use Prim.Native.String.{[], ◌∷◌}
use Prim.Native.String
use Prim.Native.String.append
use text.Mathlib.TextEquality.{Char-path}
use text.Mathlib.TextLemmas.{append-nil, append_assoc}
use yesnas_server.Prelude.{
  ℕ, ◌≡◌, refl, ap, ◌∙◌, sym, inl, inr, String, Bool, true, false, Option, none, some, List, ◌||◌,
  ◌&&◌, not, ◌⊎◌, ltb, ◌==◌, ==_iff, if◌then◌else◌, arith, Bool-cases,
}
use yesnas_server.Prelude.Result.{ok, err}
use yesnas_server.Prelude.Text.{trim_space, is_empty}
use yesnas_server.Pools.Schedule.{
  push, has_seen, collect, collect_digits, week_digits, finish_schedule, normalize_weekly_schedule,
  schedule_required, schedule_malformed,
}

abbrev pub is_weekday_digit : ℕ → Bool
is_weekday_digit c = not (ltb c b'1' || ltb b'7' c)

abbrev pub all_weekday_digits : String → Bool
all_weekday_digits [] = true
all_weekday_digits (c ∷ s) = is_weekday_digit (code c) && all_weekday_digits s

abbrev pub has_digit : Char → String → Bool
has_digit d [] = false
has_digit d (c ∷ s) = code c == code d || has_digit d s

-- The digits of the first text that the second has.
unfoldable pub present : String → String → String
present [] value = []
present (d ∷ digits) value =
    let rest = present digits value in if has_digit d value then d ∷ rest else rest

collected : Char → String → List ℕ → String → List ℕ × String
collected d s seen out =
    if has_digit d s && not (has_seen (code d) seen)
    then (List.◌∷◌ (code d) seen, push out d)
    else (seen, out)

has_seen_self : (c : ℕ) (seen : List ℕ) → has_seen c (List.◌∷◌ c seen) ≡ true
has_seen_self c seen = ground arith

collect_valid :
    (d : Char) (s : String) (seen : List ℕ) (out : String)
    → all_weekday_digits s ≡ true
    → collect d s seen out ≡ some (collected d s seen out)
unfolding collect collected
collect_valid d [] seen out v = refl
collect_valid d (c ∷ s) seen out v = elim (Bool-cases (code c == code d)) [
  | inl e ↦
      let same : c ≡ d = Char-path c d ((==_iff _ _).0 e) in
      ground (
        arith,
        same,
        collect_valid d s seen out,
        collect_valid d s (List.◌∷◌ (code d) seen) (push out d),
        has_seen_self (code d) seen,
      )
  | inr e ↦ ground (arith, collect_valid d s seen out)
]

collect_invalid :
    (d : Char) (s : String) (seen : List ℕ) (out : String)
    → all_weekday_digits s ≡ false
    → collect d s seen out ≡ none
unfolding collect
collect_invalid d [] seen out v = cc
collect_invalid d (c ∷ s) seen out v =
    ground (
      arith,
      collect_invalid d s seen out,
      collect_invalid d s (List.◌∷◌ (code c) seen) (push out c),
    )

-- No digit of the text was seen before, nor stands in it twice.
abbrev Unseen : String → List ℕ → Type 0
Unseen [] seen = Unit {0}
Unseen (d ∷ digits) seen = (has_seen (code d) seen ≡ false) × Unseen digits (List.◌∷◌ (code d) seen)

Unseen-weaken :
    (digits : String) (xs ys : List ℕ)
    → ((c : ℕ) → has_seen c xs ≡ false → has_seen c ys ≡ false)
    → Unseen digits xs
    → Unseen digits ys
Unseen-weaken [] xs ys sub u = tt
Unseen-weaken (d ∷ digits) xs ys sub u = (
  sub (code d) u.0,
  Unseen-weaken digits (List.◌∷◌ (code d) xs) (List.◌∷◌ (code d) ys) (λ c h. ground (arith, sub c))
      u.1,
)

Unseen-tail :
    (d : ℕ) (digits : String) (seen : List ℕ) → Unseen digits (List.◌∷◌ d seen) → Unseen digits seen
Unseen-tail d digits seen = Unseen-weaken digits (List.◌∷◌ d seen) seen (λ c h. ground arith)

push-append :
    (out : String) (d : Char) (rest : String)
    → String.◌++◌ (push out d) rest ≡ String.◌++◌ out (d ∷ rest)
push-append out d rest =
    append_assoc out (d ∷ []) rest
    ∙ ap (String.◌++◌ out) (append.cons d [] rest ∙ ap (◌∷◌ d) (append.nil rest))

collect_digits_valid :
    (digits value : String) (seen : List ℕ) (out : String)
    → all_weekday_digits value ≡ true
    → Unseen digits seen
    → collect_digits digits value seen out ≡ some (String.◌++◌ out (present digits value))
unfolding collect_digits collected present
collect_digits_valid [] value seen out v u = ap some (sym (append-nil out))
collect_digits_valid (d ∷ digits) value seen out v u = elim (Bool-cases (has_digit d value)) [
  | inl e ↦ ground (
    arith,
    collect_valid d value seen out v,
    collect_digits_valid digits value (List.◌∷◌ (code d) seen) (push out d) v u.1,
    push-append out d (present digits value),
  )
  | inr e ↦ ground (
    arith,
    collect_valid d value seen out v,
    collect_digits_valid digits value seen out v (Unseen-tail (code d) digits seen u.1),
  )
]

-- Some digit of the text stands in the value.
abbrev HasOne : String → String → Type 0
HasOne [] value = ⊥
HasOne (d ∷ digits) value = (has_digit d value ≡ true) ⊎ HasOne digits value

present-nonempty :
    (digits value : String) → HasOne digits value → is_empty (present digits value) ≡ false
unfolding present
present-nonempty [] value h = absurd h
present-nonempty (d ∷ digits) value (inl h) = rw h refl
present-nonempty (d ∷ digits) value (inr h) = elim (Bool-cases (has_digit d value)) [
  | inl e ↦ rw e refl
  | inr e ↦ rw e (present-nonempty digits value h)
]

weekday_digit_cases :
    (n : ℕ)
    → is_weekday_digit n ≡ true
    → (n ≡ 49) ⊎ (n ≡ 50) ⊎ (n ≡ 51) ⊎ (n ≡ 52) ⊎ (n ≡ 53) ⊎ (n ≡ 54) ⊎ (n ≡ 55)
weekday_digit_cases n h = ground arith

has_digit_head : (d c : Char) (s : String) → code c ≡ code d → has_digit d (c ∷ s) ≡ true
has_digit_head d c s e = ground arith

week_HasOne :
    (value : String)
    → is_empty value ≡ false
    → all_weekday_digits value ≡ true
    → HasOne week_digits value
week_HasOne [] e v = cc
week_HasOne (c ∷ s) e v = elim (weekday_digit_cases (code c) (ground arith)) [
  | inl h ↦ inl (has_digit_head "1" c s h)
  | inr (inl h) ↦ inr (inl (has_digit_head "2" c s h))
  | inr (inr (inl h)) ↦ inr (inr (inl (has_digit_head "3" c s h)))
  | inr (inr (inr (inl h))) ↦ inr (inr (inr (inl (has_digit_head "4" c s h))))
  | inr (inr (inr (inr (inl h)))) ↦ inr (inr (inr (inr (inl (has_digit_head "5" c s h)))))
  | inr (inr (inr (inr (inr (inl h))))) ↦
      inr (inr (inr (inr (inr (inl (has_digit_head "6" c s h))))))
  | inr (inr (inr (inr (inr (inr h))))) ↦
      inr (inr (inr (inr (inr (inr (inl (has_digit_head "7" c s h)))))))
]

collect_digits_invalid :
    (d : Char) (digits value : String) (seen : List ℕ) (out : String)
    → all_weekday_digits value ≡ false
    → collect_digits (d ∷ digits) value seen out ≡ none
unfolding collect_digits
collect_digits_invalid d digits value seen out v =
    rw (collect_invalid d value seen out v, collect_digits) refl

week-Unseen : Unseen week_digits List.[]
week-Unseen = (refl, (refl, (refl, (refl, (refl, (refl, (refl, tt)))))))

finished :
    (value : String)
    → is_empty value ≡ false
    → finish_schedule (collect_digits week_digits value List.[] []) ≡ (
        if all_weekday_digits value then ok (present week_digits value) else err schedule_malformed)
finished value e = elim (Bool-cases (all_weekday_digits value)) [
  | inl v ↦
      rw (v, collect_digits_valid week_digits value List.[] [] v week-Unseen)
        (rw (append.nil (present week_digits value))
          (rw (present-nonempty week_digits value (week_HasOne value e v)) refl))
  | inr v ↦ rw (v, collect_digits_invalid "1" "234567" value List.[] [] v) refl
]

-- A schedule is accepted exactly when what is left after trimming is not empty and has the digits
-- 1 to 7 only; the result is then its digits in the order of the week, each once. The two errors
-- are told apart as the code tells them.
pub normalize_weekly_schedule_lem :
    (s : String)
    → normalize_weekly_schedule s ≡ (
        if is_empty (trim_space s)
        then err schedule_required
        else if all_weekday_digits (trim_space s)
        then ok (present week_digits (trim_space s))
        else err schedule_malformed)
unfolding normalize_weekly_schedule
normalize_weekly_schedule_lem s = elim (Bool-cases (is_empty (trim_space s))) [
  | inl e ↦ rw (e, normalize_weekly_schedule) refl
  | inr e ↦ rw (e, normalize_weekly_schedule) (finished (trim_space s) e)
]

finish_schedule-nonempty :
    (o : Option String) (n : String) → finish_schedule o ≡ ok n → is_empty n ≡ false
finish_schedule-nonempty none n h = absurd (ground arith)
finish_schedule-nonempty (some out) n h = ground arith

-- A schedule that is accepted names a day.
pub normalize-nonempty : (s n : String) → normalize_weekly_schedule s ≡ ok n → is_empty n ≡ false
unfolding normalize_weekly_schedule
normalize-nonempty s n h = elim (Bool-cases (is_empty (trim_space s))) [
  | inl e ↦ absurd (ground arith)
  | inr e ↦
      finish_schedule-nonempty (collect_digits week_digits (trim_space s) List.[] []) n
        (ground arith)
]
