-- ===== src/Prelude/FilePath.antt =====
-- Go's path/filepath on Unix where the server uses it: Clean, IsAbs, HasPrefix of strings.
pub mod Elements
pub mod Clean
pub mod Relative
pub mod Up
pub mod Rel
use Prim.Native.Char.{Char, code}
use Prim.Native.String.{String, [], ◌∷◌}
use Prim.Native.String
use mathlib.Core.Path.{◌≡◌, refl}
use mathlib.Core.Bool.{Bool, true, false, not, ◌&&◌, ◌||◌}
use mathlib.Core.Option
use mathlib.Core.Option.{Option, none, some}
use mathlib.Core.List
use mathlib.Core.List.{List}
use text.Mathlib.Text.{◌==◌ as str_eq}
use yesnas_server.Prelude.Tests.{◌==◌, if◌then◌else◌}

-- strings.HasPrefix, with the prefix first.
unfoldable pub has_prefix : String → String → Bool
has_prefix [] s = true
has_prefix (c ∷ p) [] = false
has_prefix (c ∷ p) (d ∷ s) = code c == code d && has_prefix p s

abbrev onto_first : Char → List String → List String
onto_first c List.[] = List.◌∷◌ (c ∷ []) List.[]
onto_first c (List.◌∷◌ part parts) = List.◌∷◌ (c ∷ part) parts

-- strings.Split(s, "/").
unfoldable pub split_slash : String → List String
split_slash [] = List.◌∷◌ "" List.[]
split_slash (c ∷ s) =
    let rest = split_slash s in if code c == b'/' then List.◌∷◌ "" rest else onto_first c rest

unfoldable pub join_slash : List String → String
join_slash List.[] = ""
join_slash (List.◌∷◌ part List.[]) = part
join_slash (List.◌∷◌ part (List.◌∷◌ next parts)) =
    String.◌++◌ part (String.◌++◌ "/" (join_slash (List.◌∷◌ next parts)))

-- One element of the path; the stack has its last element at the head.
abbrev climb : Bool → List String → List String
climb rooted List.[] = if rooted then List.[] else List.◌∷◌ ".." List.[]
climb rooted (List.◌∷◌ top stack) =
    if str_eq top ".." then List.◌∷◌ ".." (List.◌∷◌ top stack) else stack

unfoldable pub resolve_part : Bool → String → List String → List String
resolve_part rooted part stack =
    if str_eq part "" || str_eq part "."
    then stack
    else if str_eq part ".."
    then climb rooted stack
    else List.◌∷◌ part stack

unfoldable pub resolve_parts : Bool → List String → List String → List String
unfolding resolve_part
resolve_parts rooted List.[] stack = List.reverse stack
resolve_parts rooted (List.◌∷◌ part parts) stack =
    resolve_parts rooted parts (resolve_part rooted part stack)

-- filepath.IsAbs.
unfoldable pub is_abs : String → Bool
is_abs [] = false
is_abs (c ∷ s) = code c == b'/'

abbrev or_dot : String → String
or_dot [] = "."
or_dot (c ∷ s) = c ∷ s

-- filepath.Clean.
unfoldable pub clean : String → String
unfolding is_abs split_slash resolve_parts join_slash
clean path =
    if is_abs path
    then String.◌++◌ "/" (join_slash (resolve_parts true (split_slash path) List.[]))
    else or_dot (join_slash (resolve_parts false (split_slash path) List.[]))

clean_test : clean "/dev//sda/../sdb/./" ≡ "/dev/sdb"
unfolding clean
clean_test = refl

clean_test_relative : clean "a/../../b" ≡ "../b"
unfolding clean
clean_test_relative = refl

-- The elements of an absolute path once it is cleaned, the first element below the root first.
unfoldable pub resolved : String → List String
unfolding split_slash resolve_parts
resolved path = resolve_parts true (split_slash path) List.[]

-- filepath.Join of two elements.
unfoldable pub join : String → String → String
unfolding clean
join a b =
    if str_eq a ""
    then (if str_eq b "" then "" else clean b)
    else clean (String.◌++◌ a (String.◌++◌ "/" b))

abbrev from_first_named : List String → List String
from_first_named List.[] = List.[]
from_first_named (List.◌∷◌ part parts) =
    let rest = from_first_named parts in if str_eq part "" then rest else List.◌∷◌ part parts

-- filepath.Join of any number of elements.
unfoldable pub join_all : List String → String
unfolding join_slash clean
join_all parts = elim (from_first_named parts) [
  | List.[] ↦ ""
  | List.◌∷◌ part rest ↦ clean (join_slash (List.◌∷◌ part rest))
]

abbrev last_named : String → List String → String
last_named found List.[] = found
last_named found (List.◌∷◌ part parts) = last_named (if str_eq part "" then found else part) parts

-- filepath.Base: the last element that is not empty.
unfoldable pub base : String → String
unfolding split_slash
base path =
    let found = last_named "" (split_slash path) in
    if str_eq path "" then "." else if str_eq found "" then "/" else found

abbrev without_last : List String → List String
without_last List.[] = List.[]
without_last (List.◌∷◌ part List.[]) = List.◌∷◌ "" List.[]
without_last (List.◌∷◌ part (List.◌∷◌ next parts)) =
    List.◌∷◌ part (without_last (List.◌∷◌ next parts))

-- filepath.Dir: what stands up to the last slash, cleaned.
unfoldable pub dir : String → String
unfolding split_slash clean
dir path = clean (join_slash (without_last (split_slash path)))

unfoldable pub has_slash : String → Bool
has_slash [] = false
has_slash (c ∷ s) = code c == b'/' || has_slash s

-- filepath.Ext: from the last dot of the last element.
unfoldable pub ext : String → String
unfolding has_slash
ext [] = ""
ext (c ∷ s) =
    let rest = ext s in
    if not (str_eq rest "") then rest else if code c == b'.' && not (has_slash s) then c ∷ s else ""

-- The elements of a cleaned path between its slashes.
unfoldable pub elements : String → List String
unfolding split_slash
elements [] = List.[]
elements (c ∷ s) =
    if code c == b'/' then (if str_eq s "" then List.[] else split_slash s) else split_slash (c ∷ s)

-- The loop of filepath.Rel over the elements that both paths begin with.
unfoldable pub strip_common : List String → List String → List String × List String
strip_common List.[] ys = (List.[], ys)
strip_common (List.◌∷◌ x xs) List.[] = (List.◌∷◌ x xs, List.[])
strip_common (List.◌∷◌ x xs) (List.◌∷◌ y ys) =
    let rest = strip_common xs ys in if str_eq x y then rest else (List.◌∷◌ x xs, List.◌∷◌ y ys)

abbrev ups : List String → List String → List String
ups List.[] ys = ys
ups (List.◌∷◌ x xs) ys = List.◌∷◌ ".." (ups xs ys)

-- What is left of the two paths; `none` is the error of Rel.
abbrev pub rel_elements : List String × List String → Option (List String)
rel_elements (List.[], ys) = some ys
rel_elements (List.◌∷◌ x xs, List.[]) = some (ups (List.◌∷◌ x xs) List.[])
rel_elements (List.◌∷◌ x xs, List.◌∷◌ y ys) =
    if str_eq x ".." then none else some (ups (List.◌∷◌ x xs) (List.◌∷◌ y ys))

-- filepath.Rel of two cleaned paths that differ.
unfoldable pub rel_cleaned : String → String → Option String
unfolding elements strip_common join_slash
rel_cleaned from to =
    let from_parts = if str_eq from "." then List.[] else elements from in
    if (is_abs from && is_abs to) || (not (is_abs from) && not (is_abs to))
    then Option.map join_slash (rel_elements (strip_common from_parts (elements to)))
    else none

-- filepath.Rel.
unfoldable pub rel : String → String → Option String
unfolding rel_cleaned clean
rel from to =
    if str_eq (clean to) (clean from) then some "." else rel_cleaned (clean from) (clean to)

rel_test : rel "/srv/pools" "/srv/pools/a/../b/c" ≡ some "b/c"
unfolding rel
rel_test = refl

rel_test_above : rel "/srv/pools" "/srv/other" ≡ some "../other"
unfolding rel
rel_test_above = refl

join_test : join "/srv/pools/" "../x" ≡ "/srv/x"
unfolding join
join_test = refl

base_test : base "/a/b//" ≡ "b"
unfolding base
base_test = refl

dir_test : dir "/a/b/c" ≡ "/a/b"
unfolding dir
dir_test = refl

ext_test : ext "/a.b/photo.tar.gz" ≡ ".gz"
unfolding ext
ext_test = refl
