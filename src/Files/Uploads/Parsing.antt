-- ===== src/Files/Uploads/Parsing.antt =====
-- internal/files/uploads.go: the headers of the requests, and the record of a new upload.
use Prim.Native.Char.{code}
use Prim.Native.String.{[], ◌∷◌}
use yesnas_server.Prelude.{
  ℕ, ◌+◌, ◌-◌, ◌*◌, String, Option, none, some, List, ◌≡◌, refl, ◌||◌, not, ltb, ◌==◌, str_eq,
  if◌then◌else◌,
}
use yesnas_server.Prelude.Result.{Result, ok, err}
use yesnas_server.Prelude.Text.{trim_space, is_empty}
use yesnas_server.Prelude.FilePath.{base}
use yesnas_server.Files.Uploads.{Upload, Server}

-- The digits of a number after `value`; no other letter is let through.
abbrev read_digits : ℕ → String → Option ℕ
read_digits value [] = some value
read_digits value (c ∷ s) =
    let rest = read_digits (value * 10 + (code c - b'0')) s in
    if ltb (code c) b'0' || ltb b'9' (code c) then none else rest

-- The digits of strconv.ParseInt, at least one, below 2 ^ 63.
abbrev read_number : String → Option ℕ
read_number [] = none
read_number (c ∷ s) = elim (read_digits 0 (c ∷ s)) [
  | none ↦ none
  | some n ↦ if ltb n 9223372036854775808 then some n else none
]

-- strconv.ParseInt(s, 10, 64) where the caller refuses an error and a number below 0.
unfoldable pub parse_not_negative : String → Option ℕ
parse_not_negative [] = none
parse_not_negative (c ∷ s) =
    if code c == b'+'
    then read_number s
    else if code c == b'-'
    then elim (read_number s) [ none ↦ none | some n ↦ if n == 0 then some 0 else none ]
    else read_number (c ∷ s)

unfoldable pub parse_upload_length : String → Result ℕ
unfolding parse_not_negative trim_space
parse_upload_length raw = elim (parse_not_negative (trim_space raw)) [
  | none ↦ err "invalid Upload-Length"
  | some n ↦ ok n
]

-- strings.Split at commas.
unfoldable pub split_commas : String → List String
split_commas [] = List.◌∷◌ "" List.[]
split_commas (c ∷ s) =
    let rest = split_commas s in
    if code c == b',' then List.◌∷◌ "" rest else elim rest [
      | List.[] ↦ List.◌∷◌ (c ∷ []) List.[]
      | List.◌∷◌ part parts ↦ List.◌∷◌ (c ∷ part) parts
    ]

-- strings.SplitN(s, " ", 2): the part before the first blank, and the part behind it.
unfoldable pub cut_blank : String → String × Option String
cut_blank [] = ("", none)
cut_blank (c ∷ s) =
    let (before, after) = cut_blank s in
    if code c == b' ' then ("", some s) else (c ∷ before, after)

abbrev decoded_value : Server → Option String → Result String
unfolding trim_space
decoded_value sv none = ok ""
decoded_value sv (some raw) = elim (sv.std_decode (trim_space raw)) [
  | none ↦ err "illegal base64 data"
  | some value ↦ ok value
]

-- The loop of parseTusMetadata; a key that comes again stands before its earlier value.
unfoldable pub read_pairs :
    Server → List String → List (String × String) → Result (List (String × String))
unfolding trim_space cut_blank decoded_value
read_pairs sv List.[] result = ok result
read_pairs sv (List.◌∷◌ pair pairs) result =
    let skipped = read_pairs sv pairs result in
    let (key, raw) = cut_blank (trim_space pair) in
    if is_empty (trim_space pair)
    then skipped
    else if is_empty (trim_space key)
    then err "invalid metadata key"
    else elim (decoded_value sv raw) [
      | err e ↦ err e
      | ok value ↦ read_pairs sv pairs (List.◌∷◌ (trim_space key, value) result)
    ]

unfoldable pub parse_tus_metadata : Server → String → Result (List (String × String))
unfolding trim_space split_commas read_pairs
parse_tus_metadata sv header =
    if is_empty (trim_space header)
    then ok List.[]
    else read_pairs sv (split_commas (trim_space header)) List.[]

-- The value of a key, and the empty text of a key that is not there.
abbrev pub value_of : String → List (String × String) → String
value_of key List.[] = ""
value_of key (List.◌∷◌ (name, value) rest) =
    let later = value_of key rest in if str_eq key name then value else later

-- firstNonEmpty of two values.
unfoldable pub first_non_empty : String → String → String
unfolding trim_space
first_non_empty a b = if is_empty (trim_space a) then trim_space b else trim_space a

unfoldable pub file_name_of : List (String × String) → String
unfolding trim_space first_non_empty
file_name_of raw = trim_space (first_non_empty (value_of "filename" raw) (value_of "name" raw))

-- The record that buildTusUploadMeta returns, with the identifier and the time it takes.
unfoldable pub new_upload : String → ℕ → ℕ → List (String × String) → Upload
unfolding trim_space first_non_empty file_name_of
new_upload id now length raw = record {
  id = id;
  storage_pool_id = trim_space (value_of "storagePoolId" raw);
  parent_id = trim_space (value_of "parentId" raw);
  relative_path = trim_space (value_of "relativePath" raw);
  file_name = file_name_of raw;
  file_type = trim_space (first_non_empty (value_of "filetype" raw) (value_of "type" raw));
  temp_dir = "";
  upload_length = length;
  offset = 0;
  created_at = now;
  updated_at = now;
  raw_metadata = raw;
}

unfoldable pub build_tus_upload_meta : String → ℕ → ℕ → List (String × String) → Result Upload
unfolding trim_space file_name_of base new_upload
build_tus_upload_meta id now length raw =
    if is_empty (file_name_of raw)
    then err "file name is required"
    else if not (str_eq (file_name_of raw) (base (file_name_of raw)))
    then err "invalid file name"
    else if is_empty (trim_space (value_of "storagePoolId" raw))
    then err "storagePoolId is required"
    else ok (new_upload id now length raw)

parse_test : parse_not_negative "+0042" ≡ some 42
unfolding parse_not_negative
parse_test = refl

parse_test_range : parse_not_negative "9223372036854775808" ≡ none
unfolding parse_not_negative
parse_test_range = refl

cut_blank_test : cut_blank "filename YS50eHQ=" ≡ ("filename", some "YS50eHQ=")
unfolding cut_blank
cut_blank_test = refl
