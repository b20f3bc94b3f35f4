-- ===== src/Prelude/FilePath/Elements.antt =====
-- Path elements: what splitting at the slashes and joining with them do to each other.
use Prim.Native.Char.{Char, code}
use Prim.Native.String.{String, [], ◌∷◌}
use Prim.Native.String
use Prim.Native.String.append
use mathlib.Core.Path.{◌≡◌, refl, ap, ◌∙◌}
use mathlib.Core.Bool.{Bool, true, false, ◌||◌}
use mathlib.Core.Logic.{inl, inr}
use mathlib.Core.List.{List}
use native.Mathlib.Omega.{arith}
use text.Mathlib.Text.{◌==◌ as str_eq}
use text.Mathlib.TextEquality.{eq_iff as str_eq_iff}
use yesnas_server.Prelude.Tests.{◌==◌, Bool-cases}
use yesnas_server.Prelude.Lists.{All}
use yesnas_server.Prelude.FilePath.{split_slash, join_slash, has_slash, onto_first, elements}

-- A name that can stand between two slashes of a cleaned absolute path.
unfoldable pub IsElement : String → Type 0
IsElement p =
    (has_slash p ≡ false) × (str_eq p "" ≡ false) × (str_eq p "." ≡ false) × (str_eq p ".." ≡ false)

or-right : (a b : Bool) → (a || b) ≡ false → b ≡ false
or-right a b h = ground (arith, h)

has_slash-tail : (c : Char) (p : String) → has_slash (c ∷ p) ≡ false → has_slash p ≡ false
unfolding has_slash
has_slash-tail c p h = or-right (code c == b'/') (has_slash p) h

or-left : (a b : Bool) → (a || b) ≡ false → a ≡ false
or-left a b h = ground (arith, h)

has_slash-head : (c : Char) (p : String) → has_slash (c ∷ p) ≡ false → (code c == b'/') ≡ false
unfolding has_slash
has_slash-head c p h = or-left (code c == b'/') (has_slash p) h

pub split_slash-element : (p : String) → has_slash p ≡ false → split_slash p ≡ List.◌∷◌ p List.[]
unfolding split_slash
split_slash-element [] h = refl
split_slash-element (c ∷ p) h =
    rw (has_slash-head c p h, split_slash-element p (has_slash-tail c p h)) refl

pub split_slash-append :
    (p s : String)
    → has_slash p ≡ false
    → split_slash (String.◌++◌ p (String.◌++◌ "/" s)) ≡ List.◌∷◌ p (split_slash s)
unfolding split_slash
split_slash-append [] s h =
    rw (append.nil (String.◌++◌ "/" s), append.cons "/" [] s, append.nil s) refl
split_slash-append (c ∷ p) s h =
    rw
      (
        append.cons c p (String.◌++◌ "/" s),
        has_slash-head c p h,
        split_slash-append p s (has_slash-tail c p h),
      )
      refl

-- Every part that Split gives is free of slashes.
unfoldable pub IsSlashFree : String → Type 0
IsSlashFree p = has_slash p ≡ false

IsSlashFree-onto_first :
    (c : Char) (parts : List String)
    → (code c == b'/') ≡ false
    → All IsSlashFree parts
    → All IsSlashFree (onto_first c parts)
unfolding has_slash IsSlashFree
IsSlashFree-onto_first c List.[] e h = (rw e refl, tt)
IsSlashFree-onto_first c (List.◌∷◌ p parts) e h = (rw e h.0, h.1)

pub split_slash-IsSlashFree : (s : String) → All IsSlashFree (split_slash s)
unfolding split_slash has_slash IsSlashFree
split_slash-IsSlashFree [] = (refl, tt)
split_slash-IsSlashFree (c ∷ s) = elim (Bool-cases (code c == b'/')) [
  | inl e ↦ rw e (refl, split_slash-IsSlashFree s)
  | inr e ↦ rw e (IsSlashFree-onto_first c (split_slash s) e (split_slash-IsSlashFree s))
]

pub split_slash-join_slash :
    (p : String) (ps : List String)
    → All IsElement (List.◌∷◌ p ps)
    → split_slash (join_slash (List.◌∷◌ p ps)) ≡ List.◌∷◌ p ps
unfolding join_slash IsElement
split_slash-join_slash p List.[] h = split_slash-element p h.0.0
split_slash-join_slash p (List.◌∷◌ q ps) h =
    split_slash-append p (join_slash (List.◌∷◌ q ps)) h.0.0
    ∙ ap (List.◌∷◌ p) (split_slash-join_slash q ps h.1)

abbrev is_nil : String → Bool
is_nil [] = true
is_nil (c ∷ s) = false

pub str_eq-cons : (c : Char) (s : String) → str_eq (c ∷ s) "" ≡ false
str_eq-cons c s = elim (Bool-cases (str_eq (c ∷ s) "")) [
  | inl e ↦ absurd (ground (arith, ap is_nil ((str_eq_iff (c ∷ s) "").0 e)))
  | inr e ↦ e
]

not-empty-join_slash :
    (p : String) (ps : List String)
    → str_eq p "" ≡ false
    → str_eq (join_slash (List.◌∷◌ p ps)) "" ≡ false
unfolding join_slash
not-empty-join_slash p List.[] h = h
not-empty-join_slash [] (List.◌∷◌ q ps) h = absurd (ground (arith, h))
not-empty-join_slash (c ∷ p) (List.◌∷◌ q ps) h =
    rw (append.cons c p (String.◌++◌ "/" (join_slash (List.◌∷◌ q ps))))
      (str_eq-cons c (String.◌++◌ p (String.◌++◌ "/" (join_slash (List.◌∷◌ q ps)))))

-- The elements of a cleaned absolute path are those it was joined from.
pub elements-join_slash :
    (ps : List String) → All IsElement ps → elements (String.◌++◌ "/" (join_slash ps)) ≡ ps
unfolding elements IsElement join_slash
elements-join_slash List.[] h = refl
elements-join_slash (List.◌∷◌ p ps) h =
    rw
      (
        append.cons "/" [] (join_slash (List.◌∷◌ p ps)),
        append.nil (join_slash (List.◌∷◌ p ps)),
        not-empty-join_slash p ps h.0.1,
      )
      (split_slash-join_slash p ps h)
