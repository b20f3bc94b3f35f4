-- ===== src/Files/Paths.antt =====
-- internal/files/paths.go: identifiers of files, the test that a path lies under a root, the trail
-- of folders to a path, and the kind of media.
use yesnas_server.Prelude.{
  String, Bool, true, false, Option, none, some, List, [], ◌∷◌, ◌≡◌, refl, ◌&&◌, ◌||◌, not, str_eq,
  str_eq_iff, if◌then◌else◌, ap, ◌∙◌, sym, inl, inr, arith, Bool-cases, Option-cases,
}
use yesnas_server.Prelude.Text.{to_lower}
use yesnas_server.Prelude.FilePath.{clean, rel, has_prefix, join, is_abs, ext, split_slash}
use yesnas_server.Prelude.FilePath.Clean.{is_abs-clean}
use yesnas_server.Prelude.FilePath.Up.{goes_up}
use yesnas_server.Prelude.FilePath.Rel.{IsBelow, IsBelow-clean, rel-IsBelow}
use yesnas_server.Files.Disk.{Os}

unfoldable pub encode_file_path : Os → String → String
encode_file_path os path = os.encode (clean path)

-- `none` is an identifier that is no base64.
unfoldable pub decode_file_id : Os → String → Option String
decode_file_id os id = elim (os.decode id) [ none ↦ none | some path ↦ some (clean path) ]

unfoldable pub stays_below : Option String → Bool
unfolding has_prefix
stays_below none = false
stays_below (some r) = str_eq r "." || (not (str_eq r "..") && not (has_prefix "../" r))

unfoldable pub is_path_within_root : String → String → Bool
unfolding clean rel stays_below
is_path_within_root root target = stays_below (rel (clean root) (clean target))

unfoldable pub detect_media_type : Os → String → String → String
unfolding ext to_lower has_prefix
detect_media_type os file_name mime_type =
    let e = to_lower os.wide (ext file_name) in
    if str_eq e ".psd" || str_eq e ".ai" || str_eq e ".tiff"
    then "file"
    else if has_prefix "image/" mime_type
    then "image"
    else if has_prefix "video/" mime_type
    then "video"
    else "file"

pub record Breadcrumb : Type 0 where
  pub id : String
  pub name : String

-- The loop of buildBreadcrumbs over the parts of the relative path.
unfoldable pub crumbs_below : Os → String → List String → List Breadcrumb
unfolding encode_file_path join
crumbs_below os current [] = []
crumbs_below os current (part ∷ parts) =
    let next = join current part in
    let crumbs = crumbs_below os next parts in
    let skipped = crumbs_below os current parts in
    if str_eq part "." || str_eq part ""
    then skipped
    else record { id = encode_file_path os next; name = part } ∷ crumbs

abbrev root_crumb : Os → String → Breadcrumb
root_crumb os root = record { id = encode_file_path os root; name = "Root" }

abbrev or_empty : Option String → String
or_empty none = ""
or_empty (some r) = r

unfoldable pub build_breadcrumbs : Os → String → String → List Breadcrumb
unfolding clean has_prefix rel split_slash crumbs_below
build_breadcrumbs os path root =
    let path = clean path in
    let root = clean root in
    if not (has_prefix root path)
    then root_crumb os root ∷ []
    else root_crumb os root ∷ crumbs_below os root (split_slash (or_empty (rel root path)))

dot_or_down : (r : String) → stays_below (some r) ≡ true → goes_up r ≡ false
unfolding goes_up has_prefix stays_below
dot_or_down r h = elim (Bool-cases (str_eq r ".")) [
  | inl e ↦ rw ((str_eq_iff r ".").0 e) refl
  | inr e ↦ ground (arith, e, h)
]

-- A path that the test accepts is absolute, and its elements begin with those of the root.
pub is_path_within_root-IsBelow :
    (root target : String)
    → is_abs root ≡ true
    → is_path_within_root root target ≡ true
    → IsBelow root target
unfolding is_path_within_root
is_path_within_root-IsBelow root target h accepted =
    elim (Option-cases (rel (clean root) (clean target))) [
      | inl e ↦ absurd (ground (arith, e, accepted))
      | inr (r, e) ↦ IsBelow-clean root target h (
          rel-IsBelow (clean root) (clean target) r (is_abs-clean root h) e
            (dot_or_down r (sym (ap stays_below e) ∙ accepted)))
    ]
