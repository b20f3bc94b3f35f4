-- ===== src/Prelude/FilePath/Up.antt =====
-- The elements of a path that filepath.Rel gives, and whether it goes up.
use Prim.Native.String.{String, [], ◌∷◌}
use Prim.Native.String
use Prim.Native.String.append
use mathlib.Core.Path.{◌≡◌, refl, ap, ◌∙◌, sym}
use mathlib.Core.Bool.{Bool, true, false, ◌||◌}
use mathlib.Core.Logic.{inl, inr}
use mathlib.Core.Option.{some}
use mathlib.Core.List.{List, ◌++◌}
use mathlib.Core.List.{append-nil}
use native.Mathlib.Omega.{arith}
use text.Mathlib.Text.{◌==◌ as str_eq}
use text.Mathlib.TextEquality.{eq_iff as str_eq_iff}
use yesnas_server.Prelude.Tests.{Bool-cases}
use yesnas_server.Prelude.FilePath.{join_slash, rel_elements, strip_common, ups, has_prefix}

strip_common-split :
    (xs ys : List String)
    → (common : List String) × (xs ≡ common ++ (strip_common xs ys).0)
      × (ys ≡ common ++ (strip_common xs ys).1)
unfolding strip_common
strip_common-split List.[] ys = (List.[], refl, refl)
strip_common-split (List.◌∷◌ x xs) List.[] = (List.[], refl, refl)
strip_common-split (List.◌∷◌ x xs) (List.◌∷◌ y ys) = elim (Bool-cases (str_eq x y)) [
  | inl e ↦
      let (common, ex, ey) = strip_common-split xs ys in
      rw e (
        List.◌∷◌ x common,
        ap (List.◌∷◌ x) ex,
        ap (λ z. List.◌∷◌ z ys) (sym ((str_eq_iff x y).0 e)) ∙ ap (List.◌∷◌ x) ey,
      )
  | inr e ↦ rw e (List.[], refl, refl)
]

-- Whether a relative path leaves the directory that it starts in.
unfoldable pub goes_up : String → Bool
unfolding has_prefix
goes_up r = str_eq r ".." || has_prefix "../" r

or_true : (b : Bool) → (b || true) ≡ true
or_true true = refl
or_true false = refl

dots_slash : (s : String) → String.◌++◌ ".." (String.◌++◌ "/" s) ≡ "." ∷ "." ∷ "/" ∷ s
dots_slash s =
    append.cons "." "." (String.◌++◌ "/" s)
    ∙ ap (◌∷◌ ".") (
        append.cons "." "" (String.◌++◌ "/" s)
        ∙ ap (◌∷◌ ".")
            (append.nil (String.◌++◌ "/" s) ∙ append.cons "/" "" s ∙ ap (◌∷◌ "/") (append.nil s)))

goes_up-dots : (s : String) → goes_up (String.◌++◌ ".." (String.◌++◌ "/" s)) ≡ true
unfolding goes_up has_prefix
goes_up-dots s = ap goes_up (dots_slash s) ∙ or_true (str_eq ("." ∷ "." ∷ "/" ∷ s) "..")

goes_up-ups :
    (x : String) (xs ys : List String) → goes_up (join_slash (ups (List.◌∷◌ x xs) ys)) ≡ true
unfolding join_slash goes_up
goes_up-ups x List.[] List.[] = refl
goes_up-ups x List.[] (List.◌∷◌ y ys) = goes_up-dots (join_slash (List.◌∷◌ y ys))
goes_up-ups x (List.◌∷◌ x' xs) ys = goes_up-dots (join_slash (ups (List.◌∷◌ x' xs) ys))

-- The elements of the second path begin with those of the first.
pub rel_elements-down :
    (xs ys : List String) (parts : List String)
    → rel_elements (strip_common xs ys) ≡ some parts
    → goes_up (join_slash parts) ≡ false
    → (rest : List String) × (ys ≡ xs ++ rest)
rel_elements-down xs ys parts e down =
    let (common, ex, ey) = strip_common-split xs ys in
    down_from common (strip_common xs ys).0 (strip_common xs ys).1 ex ey e
  where
    down_from :
        (common a b : List String)
        → xs ≡ common ++ a
        → ys ≡ common ++ b
        → rel_elements (a, b) ≡ some parts
        → (rest : List String) × (ys ≡ xs ++ rest)
    down_from common List.[] b ex ey e = (b, ey ∙ ap (λ zs. zs ++ b) (sym (ex ∙ append-nil common)))
    down_from common (List.◌∷◌ x a) List.[] ex ey e =
        absurd (ground (arith, goes_up-ups x a List.[], e, down))
    down_from common (List.◌∷◌ x a) (List.◌∷◌ y b) ex ey e = elim (Bool-cases (str_eq x "..")) [
      | inl up ↦ absurd (ground (arith, e, up))
      | inr up ↦ absurd (ground (arith, goes_up-ups x a (List.◌∷◌ y b), e, up, down))
    ]
