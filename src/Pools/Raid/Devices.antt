-- ===== src/Pools/Raid/Devices.antt =====
-- What internal/storagepool/create.go, normalizeDevicePaths, accepts as the path of a device.
use Prim.Native.Char.{code}
use text.Mathlib.TextEquality.{Char-path}
use yesnas_server.Prelude.{
  ◌≡◌, refl, sym, ap, ◌∙◌, String, Bool, true, false, List, [], ◌∷◌, ◌&&◌, ◌==◌, arith, Bool-cases,
  inl, inr,
}
use yesnas_server.Prelude.FilePath.{clean, has_prefix, is_abs, resolved, elements, split_slash}
use yesnas_server.Prelude.FilePath.Clean.{elements-clean, clean-clean, resolved-clean}
use yesnas_server.Prelude.FilePath.Elements.{str_eq-cons}
use yesnas_server.Prelude.FilePath.Relative.{is_abs-clean-relative}

-- A path in the one form that filepath.Clean gives it, of a file in /dev or deeper.
abbrev pub IsDevicePath : String → Type 0
IsDevicePath path =
    (clean path ≡ path)
    × (name : String) × (rest : List String) × (resolved path ≡ "dev" ∷ name ∷ rest)

abbrev onto : String → String → String
onto String.[] s = s
onto (String.◌∷◌ c p) s = String.◌∷◌ c (onto p s)

and_true : (a b : Bool) → (a && b) ≡ true → (a ≡ true) × (b ≡ true)
and_true a b h = (ground arith, ground arith)

rooted : (s : String) → ¬ (is_abs (onto "/dev/" s) ≡ false)
unfolding is_abs
rooted s h = cc

has_prefix-onto : (p s : String) → has_prefix p s ≡ true → (rest : String) × (s ≡ onto p rest)
unfolding has_prefix
has_prefix-onto String.[] s h = (s, refl)
has_prefix-onto (String.◌∷◌ c p) String.[] h = absurd (ground arith)
has_prefix-onto (String.◌∷◌ c p) (String.◌∷◌ d s) h =
    let first = and_true (code c == code d) (has_prefix p s) h in
    let same : c ≡ d = Char-path c d (ground (arith, first)) in
    let found = has_prefix-onto p s first.1 in
    (found.0, ap (λ x. String.◌∷◌ x s) (sym same) ∙ ap (String.◌∷◌ c) found.1)

split_slash-head :
    (s : String) → (name : String) × (rest : List String) × (split_slash s ≡ name ∷ rest)
unfolding split_slash
split_slash-head String.[] = ("", [], refl)
split_slash-head (String.◌∷◌ c s) = elim (Bool-cases (code c == b'/')) [
  | inl e ↦ ("", split_slash s, rw e refl)
  | inr e ↦
      let (name, rest, found) = split_slash-head s in
      (String.◌∷◌ c name, rest, rw e (rw found refl))
]

elements-dev : (s : String) → elements (onto "/dev/" s) ≡ "dev" ∷ split_slash s
unfolding elements split_slash
elements-dev s = rw (str_eq-cons "d" (onto "ev/" s)) refl

-- What is cleaned and begins with /dev/ is the path of a device.
pub clean-IsDevicePath :
    (path : String) → has_prefix "/dev/" (clean path) ≡ true → IsDevicePath (clean path)
clean-IsDevicePath path h =
    let (rest, shape) = has_prefix-onto "/dev/" (clean path) h in
    let (name, deeper, parts) = split_slash-head rest in
    elim (Bool-cases (is_abs path)) [
      | inl e ↦ (
        clean-clean path e,
        name,
        deeper,
        resolved-clean path e
            ∙ sym (elements-clean path e)
            ∙ ap elements shape
            ∙ elements-dev rest
            ∙ ap (λ xs. "dev" ∷ xs) parts,
      )
      | inr e ↦ absurd (rooted rest (sym (ap is_abs shape) ∙ is_abs-clean-relative path e))
    ]
