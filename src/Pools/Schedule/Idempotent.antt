-- ===== src/Pools/Schedule/Idempotent.antt =====
-- Normalising a schedule twice: internal/storagepool/create.go, normalizeWeeklySchedule.
use Prim.Native.Char.{Char, code}
use Prim.Native.String.{[], ◌∷◌}
use mathlib.Core.Path.{subst}
use yesnas_server.Prelude.{ℕ, ◌≡◌, refl, ap, sym, ◌∙◌, String, true, false, ◌&&◌, arith}
use yesnas_server.Prelude.Result.{ok}
use yesnas_server.Prelude.Text.{is_space, trim_left, trim_right, trim_space}
use yesnas_server.Pools.Schedule.{normalize_weekly_schedule, week_digits}
use yesnas_server.Pools.Schedule.Spec.{
  is_weekday_digit, all_weekday_digits, has_digit, present, normalize_weekly_schedule_lem,
  normalize-nonempty,
}

digit_no_space : (c : ℕ) → is_weekday_digit c ≡ true → is_space c ≡ false
unfolding is_space
digit_no_space c h = ground arith

trim_right-digits : (s : String) → all_weekday_digits s ≡ true → trim_right s ≡ s
unfolding trim_right
trim_right-digits [] h = refl
trim_right-digits (c ∷ s) h = ground (arith, digit_no_space (code c), trim_right-digits s)

trim_left-digits : (s : String) → all_weekday_digits s ≡ true → trim_left s ≡ s
unfolding trim_left
trim_left-digits [] h = refl
trim_left-digits (c ∷ s) h = ground (arith, digit_no_space (code c))

-- A text of weekday digits has nothing to trim.
pub trim_space-digits : (s : String) → all_weekday_digits s ≡ true → trim_space s ≡ s
unfolding trim_space
trim_space-digits s h = rw (trim_left-digits s h) (trim_right-digits s h)

present-all :
    (digits value : String)
    → all_weekday_digits digits ≡ true
    → all_weekday_digits (present digits value) ≡ true
unfolding present
present-all [] value h = refl
present-all (d ∷ digits) value h = ground (arith, present-all digits value)

has_digit_cong :
    (x d : Char) (value : String) → code x ≡ code d → has_digit x value ≡ has_digit d value
has_digit_cong x d [] e = refl
has_digit_cong x d (c ∷ s) e = ground (arith, has_digit_cong x d s e)

has_digit-present :
    (d : Char) (digits value : String)
    → has_digit d (present digits value) ≡ (has_digit d digits && has_digit d value)
unfolding present
has_digit-present d [] value = refl
has_digit-present d (x ∷ digits) value =
    ground (arith, has_digit-present d digits value, has_digit_cong x d value)

present_cong :
    (digits v w : String)
    → ((d : Char) → has_digit d digits ≡ true → has_digit d v ≡ has_digit d w)
    → present digits v ≡ present digits w
unfolding present
present_cong [] v w same = refl
present_cong (d ∷ digits) v w same =
    ground (arith, same d, present_cong digits v w (λ x h. same x (ground arith)))

present_idem :
    (digits value : String) → present digits (present digits value) ≡ present digits value
present_idem digits value =
    present_cong digits (present digits value) value
      (λ d h. has_digit-present d digits value ∙ ground arith)

-- What a schedule that is accepted normalizes to has digits only.
pub normalize-digits :
    (s n : String)
    → normalize_weekly_schedule s ≡ ok n
    → (n ≡ present week_digits (trim_space s)) × (all_weekday_digits n ≡ true)
normalize-digits s n h =
    let shape : n ≡ present week_digits (trim_space s) =
      ground (arith, normalize_weekly_schedule_lem s) in
    (shape, rw shape (present-all week_digits (trim_space s) refl))

-- A normalised schedule is accepted again and stays as it is.
pub normalize_idem :
    (s n : String) → normalize_weekly_schedule s ≡ ok n → normalize_weekly_schedule n ≡ ok n
normalize_idem s n h =
    let (shape, digits) = normalize-digits s n h in
    let trimmed = trim_space-digits n digits in
    let nonempty = normalize-nonempty s n h in
    let stays : present week_digits n ≡ n =
      subst (λ k. present week_digits k ≡ k) (sym shape)
        (present_idem week_digits (trim_space s)) in
    normalize_weekly_schedule_lem n ∙ rw trimmed (rw (nonempty, digits) (ap ok stays))
