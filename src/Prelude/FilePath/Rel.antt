-- ===== src/Prelude/FilePath/Rel.antt =====
-- What a result of filepath.Rel that does not go up says of the two paths.
use Prim.Native.String.{String}
use mathlib.Core.Path.{◌≡◌, refl, ap, ◌∙◌, sym}
use mathlib.Core.Bool.{true, false}
use mathlib.Core.Logic.{inl, inr}
use mathlib.Core.Option.{Option, none, some}
use mathlib.Core.Option
use mathlib.Core.List.{List, ◌++◌}
use mathlib.Core.List.{append-nil}
use native.Mathlib.Omega.{arith}
use text.Mathlib.Text.{◌==◌ as str_eq}
use text.Mathlib.TextEquality.{eq_iff as str_eq_iff}
use yesnas_server.Prelude.Tests.{Bool-cases}
use yesnas_server.Prelude.FilePath.{
  join_slash, elements, is_abs, clean, resolved, rel, rel_cleaned, rel_elements, strip_common,
}
use yesnas_server.Prelude.FilePath.Clean.{elements-clean, is_abs-clean, resolved-clean}
use yesnas_server.Prelude.FilePath.Relative.{is_abs-clean-relative}
use yesnas_server.Prelude.FilePath.Up.{goes_up, rel_elements-down}

-- The path is absolute and lies at or below the other: the elements of `root`, then `rest`.
unfoldable pub IsBelow : String → String → Type 0
IsBelow root path =
    (is_abs path ≡ true) × ((rest : List String) × (resolved path ≡ resolved root ++ rest))

IsBelow-same :
    (root path : String)
    → is_abs root ≡ true
    → is_abs path ≡ true
    → clean path ≡ clean root
    → IsBelow root path
unfolding IsBelow
IsBelow-same root path hr hp e = (
  hp,
  (
    List.[],
    sym (elements-clean path hp)
        ∙ ap elements e
        ∙ elements-clean root hr
        ∙ sym (append-nil (resolved root)),
  ),
)

is_abs-same :
    (root path : String) → is_abs root ≡ true → clean path ≡ clean root → is_abs path ≡ true
is_abs-same root path hr e = elim (Bool-cases (is_abs path)) [
  | inl h ↦ h
  | inr h ↦
      absurd (ground (arith, is_abs-clean-relative path h, ap is_abs e ∙ is_abs-clean root hr))
]

dot-relative : is_abs "." ≡ false
unfolding is_abs
dot-relative = refl

not-dot : (path : String) → is_abs path ≡ true → str_eq path "." ≡ false
not-dot path h = elim (Bool-cases (str_eq path ".")) [
  | inl e ↦ absurd (ground (arith, h, dot-relative, ap is_abs ((str_eq_iff path ".").0 e)))
  | inr e ↦ e
]

rel-differ :
    (root path : String)
    → str_eq (clean path) (clean root) ≡ false
    → rel root path ≡ rel_cleaned (clean root) (clean path)
unfolding rel
rel-differ root path h = rw h refl

rel_cleaned-abs :
    (root path : String)
    → is_abs root ≡ true
    → is_abs path ≡ true
    → rel_cleaned root path
      ≡ Option.map join_slash (rel_elements (strip_common (elements root) (elements path)))
unfolding rel_cleaned
rel_cleaned-abs root path hr hp = rw (hr, hp, not-dot root hr) refl

rel_cleaned-mixed :
    (root path : String) → is_abs root ≡ true → is_abs path ≡ false → rel_cleaned root path ≡ none
unfolding rel_cleaned
rel_cleaned-mixed root path hr hp = rw (hr, hp) refl

map-some :
    (f : List String → String) (o : Option (List String)) (r : String)
    → Option.map f o ≡ some r
    → (parts : List String) × (o ≡ some parts) × (f parts ≡ r)
map-some f none r e = absurd (ground (arith, e))
map-some f (some parts) r e = (parts, refl, ground (arith, e))

rel_cleaned-IsBelow :
    (root path r : String)
    → is_abs root ≡ true
    → is_abs path ≡ true
    → rel_cleaned (clean root) (clean path) ≡ some r
    → goes_up r ≡ false
    → IsBelow root path
unfolding IsBelow
rel_cleaned-IsBelow root path r hr hp e down =
    let (parts, found, joined) =
      map-some join_slash
        (rel_elements (strip_common (elements (clean root)) (elements (clean path)))) r
        (sym (
            rel_cleaned-abs (clean root) (clean path) (is_abs-clean root hr) (is_abs-clean path hp))
          ∙ e) in
    let (rest, below) =
      rel_elements-down (elements (clean root)) (elements (clean path)) parts found
        (ap goes_up joined ∙ down) in
    (
      hp,
      (rest, sym (elements-clean path hp) ∙ below ∙ ap (λ xs. xs ++ rest) (elements-clean root hr)),
    )

pub rel-IsBelow :
    (root path r : String)
    → is_abs root ≡ true
    → rel root path ≡ some r
    → goes_up r ≡ false
    → IsBelow root path
rel-IsBelow root path r hr e down = elim (Bool-cases (str_eq (clean path) (clean root))) [
  | inl same ↦
      let equal = (str_eq_iff (clean path) (clean root)).0 same in
      IsBelow-same root path hr (is_abs-same root path hr equal) equal
  | inr differ ↦
      let e' = sym (rel-differ root path differ) ∙ e in
      elim (Bool-cases (is_abs path)) [
        | inl hp ↦ rel_cleaned-IsBelow root path r hr hp e' down
        | inr hp ↦
            let gone =
              rel_cleaned-mixed (clean root) (clean path) (is_abs-clean root hr)
                (is_abs-clean-relative path hp) in
            absurd (ground (arith, gone, e'))
      ]
]

-- The same for paths that were cleaned before.
pub IsBelow-clean :
    (root path : String)
    → is_abs root ≡ true
    → IsBelow (clean root) (clean path)
    → IsBelow root path
unfolding IsBelow
IsBelow-clean root path hr below = elim (Bool-cases (is_abs path)) [
  | inl hp ↦ (
    hp,
    (
      below.1.0,
      sym (resolved-clean path hp)
          ∙ below.1.1
          ∙ ap (λ xs. xs ++ below.1.0) (resolved-clean root hr),
    ),
  )
  | inr hp ↦ absurd (ground (arith, is_abs-clean-relative path hp, below.0))
]
