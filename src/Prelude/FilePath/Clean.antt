-- ===== src/Prelude/FilePath/Clean.antt =====
-- What filepath.Clean gives for an absolute path, and what filepath.Rel says of two of them.
use Prim.Native.String.{String, [], ◌∷◌}
use Prim.Native.String
use Prim.Native.String.append
use mathlib.Core.Path.{◌≡◌, refl, ap, ◌∙◌, sym}
use mathlib.Core.Bool.{true}
use mathlib.Core.Logic.{inl, inr}
use mathlib.Core.List.{List, reverse-reverse}
use mathlib.Core.List
use text.Mathlib.Text.{◌==◌ as str_eq}
use yesnas_server.Prelude.Tests.{Bool-cases}
use yesnas_server.Prelude.Lists.{All}
use yesnas_server.Prelude.FilePath.{
  split_slash, join_slash, elements, is_abs, clean, resolved, resolve_part, resolve_parts, climb,
}
use yesnas_server.Prelude.FilePath.Elements.{
  IsElement, IsSlashFree, split_slash-IsSlashFree, elements-join_slash, split_slash-join_slash,
}

climb-IsElement : (stack : List String) → All IsElement stack → All IsElement (climb true stack)
unfolding IsElement
climb-IsElement List.[] h = tt
climb-IsElement (List.◌∷◌ top stack) h = rw h.0.3 h.1

resolve_part-IsElement :
    (part : String) (stack : List String)
    → IsSlashFree part
    → All IsElement stack
    → All IsElement (resolve_part true part stack)
unfolding resolve_part IsElement IsSlashFree
resolve_part-IsElement part stack s h = elim (Bool-cases (str_eq part "")) [
  | inl e ↦ rw e h
  | inr e ↦ elim (Bool-cases (str_eq part ".")) [
    | inl e' ↦ rw (e, e') h
    | inr e' ↦ elim (Bool-cases (str_eq part "..")) [
      | inl e'' ↦ rw (e, e', e'') (climb-IsElement stack h)
      | inr e'' ↦ rw (e, e', e'') ((s, e, e', e''), h)
    ]
  ]
]

reverse_aux-IsElement :
    (xs ys : List String)
    → All IsElement xs
    → All IsElement ys
    → All IsElement (List.reverse_aux xs ys)
reverse_aux-IsElement List.[] ys hx hy = hy
reverse_aux-IsElement (List.◌∷◌ x xs) ys hx hy =
    reverse_aux-IsElement xs (List.◌∷◌ x ys) hx.1 (hx.0, hy)

resolve_parts-IsElement :
    (parts stack : List String)
    → All IsSlashFree parts
    → All IsElement stack
    → All IsElement (resolve_parts true parts stack)
unfolding resolve_parts
resolve_parts-IsElement List.[] stack s h = reverse_aux-IsElement stack List.[] h tt
resolve_parts-IsElement (List.◌∷◌ part parts) stack s h =
    resolve_parts-IsElement parts (resolve_part true part stack) s.1
      (resolve_part-IsElement part stack s.0 h)

-- No element of a cleaned absolute path is empty, `.` or `..`, and none has a slash.
pub resolved-IsElement : (path : String) → All IsElement (resolved path)
unfolding resolved
resolved-IsElement path =
    resolve_parts-IsElement (split_slash path) List.[] (split_slash-IsSlashFree path) tt

pub clean-abs :
    (path : String) → is_abs path ≡ true → clean path ≡ String.◌++◌ "/" (join_slash (resolved path))
unfolding clean resolved
clean-abs path h = rw h refl

pub elements-clean : (path : String) → is_abs path ≡ true → elements (clean path) ≡ resolved path
elements-clean path h =
    ap elements (clean-abs path h) ∙ elements-join_slash (resolved path) (resolved-IsElement path)

resolve_parts-elements :
    (ps stack : List String)
    → All IsElement ps
    → resolve_parts true ps stack ≡ List.reverse (List.reverse_aux ps stack)
unfolding resolve_parts resolve_part IsElement
resolve_parts-elements List.[] stack h = refl
resolve_parts-elements (List.◌∷◌ p ps) stack h =
    rw (h.0.1, h.0.2, h.0.3) (resolve_parts-elements ps (List.◌∷◌ p stack) h.1)

resolved-join_slash :
    (ps : List String) → All IsElement ps → resolved (String.◌++◌ "/" (join_slash ps)) ≡ ps
unfolding resolved split_slash resolve_parts resolve_part join_slash
resolved-join_slash List.[] h = refl
resolved-join_slash (List.◌∷◌ p ps) h =
    rw
      (
        append.cons "/" [] (join_slash (List.◌∷◌ p ps)),
        append.nil (join_slash (List.◌∷◌ p ps)),
        split_slash-join_slash p ps h,
      )
      (resolve_parts-elements (List.◌∷◌ p ps) List.[] h ∙ reverse-reverse (List.◌∷◌ p ps))

pub resolved-clean : (path : String) → is_abs path ≡ true → resolved (clean path) ≡ resolved path
resolved-clean path h =
    ap resolved (clean-abs path h) ∙ resolved-join_slash (resolved path) (resolved-IsElement path)

pub is_abs-clean : (path : String) → is_abs path ≡ true → is_abs (clean path) ≡ true
unfolding is_abs
is_abs-clean path h = rw (clean-abs path h, append.cons "/" [] (join_slash (resolved path))) refl

pub clean-clean : (path : String) → is_abs path ≡ true → clean (clean path) ≡ clean path
clean-clean path h =
    clean-abs (clean path) (is_abs-clean path h)
    ∙ ap (λ ps. String.◌++◌ "/" (join_slash ps)) (resolved-clean path h)
    ∙ sym (clean-abs path h)
