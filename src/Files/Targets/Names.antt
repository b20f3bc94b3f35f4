-- ===== src/Files/Targets/Names.antt =====
-- internal/files/operations.go: nextAvailablePath, the first free name with a number.
use yesnas_server.Prelude.{
  ℕ, zero, suc, ◌+◌, ◌<◌, String, Bool, true, false, ◌&&◌, ◌≡◌, ◌⊎◌, refl, ap, sym, ◌∙◌, inl, inr,
  arith, if◌then◌else◌,
}
use yesnas_server.Prelude.Result.{ok, err, ok-injective}
use yesnas_server.Files.Disk.{Os, OsError, Info, Stat, found, unreadable, History, is_not_exist}
use yesnas_server.Files.Targets.{candidate, next_candidate}

-- os.Stat says that nothing is there, or that something is.
abbrev pub is_absent : Stat → Bool
is_absent (found info) = false
is_absent (unreadable e) = is_not_exist e

abbrev pub is_present : Stat → Bool
is_present (found info) = true
is_present (unreadable e) = false

Stat-cases : (s : Stat) → ((info : Info) × (s ≡ found info)) ⊎ ((e : OsError) × (s ≡ unreadable e))
Stat-cases (found info) = inl (info, refl)
Stat-cases (unreadable e) = inr (e, refl)

-- Something is at each of the next names.
abbrev pub all_taken : (ℕ → Stat) → ℕ → ℕ → Bool
all_taken stat i zero = true
all_taken stat i (suc count) = is_present (stat i) && all_taken stat (suc i) count

-- The path is the candidate of a number among `fuel` from `i` on; nothing is there, and something
-- is at every candidate before it.
unfoldable pub IsFirstFree : (ℕ → Stat) → (ℕ → String) → ℕ → ℕ → String → Type 0
IsFirstFree stat name fuel i path =
    (count : ℕ) × (count < fuel)
    × (path ≡ name (i + count))
    × (is_absent (stat (i + count)) ≡ true)
    × (all_taken stat i count ≡ true)

next_candidate-taken :
    (os : Os) (h : History) (dir base ext : String) (fuel i : ℕ) (info : Info)
    → os.stat h (candidate dir base ext i) ≡ found info
    → next_candidate os h dir base ext (suc fuel) i ≡ next_candidate os h dir base ext fuel (suc i)
unfolding next_candidate
next_candidate-taken os h dir base ext fuel i info there = rw (there, next_candidate) refl

next_candidate-gone :
    (os : Os) (h : History) (dir base ext : String) (fuel i : ℕ) (e : OsError)
    → os.stat h (candidate dir base ext i) ≡ unreadable e
    → next_candidate os h dir base ext (suc fuel) i
      ≡ (if is_not_exist e then ok (candidate dir base ext i) else err "failed to check target")
unfolding next_candidate
next_candidate-gone os h dir base ext fuel i e gone = rw (gone, next_candidate) refl

accepted_name :
    (b : Bool) (name path message : String)
    → (if b then ok name else err message) ≡ ok path
    → (b ≡ true) × (path ≡ name)
accepted_name true name path message e = (refl, sym (ok-injective name path e))
accepted_name false name path message e = absurd (ground (arith, e))

-- A name that the loop of nextAvailablePath returns is the first free one: os.Stat says that nothing
-- is there, and that something is at each candidate from number `i` on before it; its number is
-- less than `fuel` above `i`.
pub next_candidate-IsFirstFree :
    (os : Os) (h : History) (dir base ext : String) (fuel i : ℕ) (path : String)
    → next_candidate os h dir base ext fuel i ≡ ok path
    → IsFirstFree (λ n. os.stat h (candidate dir base ext n)) (candidate dir base ext) fuel i path
unfolding next_candidate IsFirstFree
next_candidate-IsFirstFree os h dir base ext zero i path e = absurd (ground (arith, e))
next_candidate-IsFirstFree os h dir base ext (suc fuel) i path e =
    let name = candidate dir base ext in
    let stat : ℕ → Stat = λ n. os.stat h (candidate dir base ext n) in
    elim (Stat-cases (os.stat h (candidate dir base ext i))) [
      | inl (info, there) ↦
          let (count, high, named, free, taken) =
            next_candidate-IsFirstFree os h dir base ext fuel (suc i) path
              (sym (next_candidate-taken os h dir base ext fuel i info there) ∙ e) in
          let shift : suc i + count ≡ i + suc count = omega arith in
          (
            suc count,
            omega (arith, high),
            named ∙ ap name shift,
            sym (ap (λ n. is_absent (stat n)) shift) ∙ free,
            rw there taken,
          )
      | inr (error, gone) ↦
          let (absent, same) =
            accepted_name (is_not_exist error) (candidate dir base ext i) path
              "failed to check target"
              (sym (next_candidate-gone os h dir base ext fuel i error gone) ∙ e) in
          let none_before : i ≡ i + 0 = omega arith in
          (
            0,
            omega arith,
            same ∙ ap name none_before,
            sym (ap (λ n. is_absent (stat n)) none_before) ∙ ap is_absent gone ∙ absent,
            refl,
          )
    ]
