-- ===== src/Prelude/FilePath/Relative.antt =====
-- filepath.Clean of a relative path: what it gives is relative.
use Prim.Native.String.{String, [], ◌∷◌}
use Prim.Native.String
use Prim.Native.String.append
use mathlib.Core.Path.{◌≡◌, refl}
use mathlib.Core.Bool.{Bool, true, false}
use mathlib.Core.Logic.{inl, inr}
use mathlib.Core.List.{List, ◌++◌}
use mathlib.Core.List
use native.Mathlib.Omega.{arith}
use text.Mathlib.Text.{◌==◌ as str_eq}
use yesnas_server.Prelude.Tests.{Bool-cases}
use yesnas_server.Prelude.Lists.{All}
use yesnas_server.Prelude.FilePath.{
  split_slash, join_slash, has_slash, is_abs, clean, resolve_part, resolve_parts, climb, or_dot,
}
use yesnas_server.Prelude.FilePath.Elements.{IsSlashFree, split_slash-IsSlashFree}

-- A part of a cleaned path.
unfoldable IsPart : String → Type 0
IsPart p = (has_slash p ≡ false) × (str_eq p "" ≡ false)

climb-IsPart :
    (rooted : Bool) (stack : List String) → All IsPart stack → All IsPart (climb rooted stack)
unfolding IsPart has_slash
climb-IsPart true List.[] h = tt
climb-IsPart false List.[] h = ((refl, refl), tt)
climb-IsPart rooted (List.◌∷◌ top stack) h = elim (Bool-cases (str_eq top "..")) [
  | inl e ↦ rw e ((refl, refl), h)
  | inr e ↦ rw e h.1
]

resolve_part-IsPart :
    (rooted : Bool) (part : String) (stack : List String)
    → IsSlashFree part
    → All IsPart stack
    → All IsPart (resolve_part rooted part stack)
unfolding resolve_part IsPart IsSlashFree
resolve_part-IsPart rooted part stack s h = elim (Bool-cases (str_eq part "")) [
  | inl e ↦ rw e h
  | inr e ↦ elim (Bool-cases (str_eq part ".")) [
    | inl e' ↦ rw (e, e') h
    | inr e' ↦ elim (Bool-cases (str_eq part "..")) [
      | inl e'' ↦ rw (e, e', e'') (climb-IsPart rooted stack h)
      | inr e'' ↦ rw (e, e', e'') ((s, e), h)
    ]
  ]
]

reverse_aux-IsPart :
    (xs ys : List String) → All IsPart xs → All IsPart ys → All IsPart (List.reverse_aux xs ys)
reverse_aux-IsPart List.[] ys hx hy = hy
reverse_aux-IsPart (List.◌∷◌ x xs) ys hx hy = reverse_aux-IsPart xs (List.◌∷◌ x ys) hx.1 (hx.0, hy)

resolve_parts-IsPart :
    (rooted : Bool) (parts stack : List String)
    → All IsSlashFree parts
    → All IsPart stack
    → All IsPart (resolve_parts rooted parts stack)
unfolding resolve_parts
resolve_parts-IsPart rooted List.[] stack s h = reverse_aux-IsPart stack List.[] h tt
resolve_parts-IsPart rooted (List.◌∷◌ part parts) stack s h =
    resolve_parts-IsPart rooted parts (resolve_part rooted part stack) s.1
      (resolve_part-IsPart rooted part stack s.0 h)

or_dot-join_slash : (ps : List String) → All IsPart ps → is_abs (or_dot (join_slash ps)) ≡ false
unfolding join_slash is_abs IsPart has_slash
or_dot-join_slash List.[] h = refl
or_dot-join_slash (List.◌∷◌ [] List.[]) h = refl
or_dot-join_slash (List.◌∷◌ (c ∷ p) List.[]) h = ground (arith, h.0.0)
or_dot-join_slash (List.◌∷◌ [] (List.◌∷◌ q ps)) h = absurd (ground (arith, h.0.1))
or_dot-join_slash (List.◌∷◌ (c ∷ p) (List.◌∷◌ q ps)) h =
    rw (append.cons c p (String.◌++◌ "/" (join_slash (List.◌∷◌ q ps)))) (ground (arith, h.0.0))

-- A relative path stays relative.
pub is_abs-clean-relative : (path : String) → is_abs path ≡ false → is_abs (clean path) ≡ false
unfolding clean
is_abs-clean-relative path h = rw h (
    or_dot-join_slash (resolve_parts false (split_slash path) List.[])
      (resolve_parts-IsPart false (split_slash path) List.[] (split_slash-IsSlashFree path) tt))
