-- ===== src/Files/Uploads.antt =====
-- internal/files/uploads.go: resumable uploads. What is kept of an upload, where, and the requests.
pub mod Parsing
pub mod Finalize
pub mod Handlers
pub mod Create
pub mod Bytes
pub mod Persist
pub mod Confined
pub mod Log
use Prim.Native.String
use yesnas_server.Prelude.{
  ℕ, zero, suc, ◌+◌, ◌-◌, String, Bool, true, false, Option, none, some, List, [], ◌∷◌, ◌++◌, ◌≡◌,
  refl, length, take, drop, str_eq, if◌then◌else◌,
}
use yesnas_server.Prelude.Text.{trim_space, is_empty}
use yesnas_server.Prelude.FilePath.{join}
use yesnas_server.Files.Disk.{Os, Storages}

-- tusUploadMeta. Offsets and lengths are int64 and not negative; the sum of an offset and a number
-- of written bytes stays below 2 ^ 63, as the file they are in has that many bytes.
pub record Upload : Type 0 where
  pub id : String
  pub storage_pool_id : String
  pub parent_id : String
  pub relative_path : String
  pub file_name : String
  pub file_type : String
  pub temp_dir : String
  pub upload_length : ℕ
  pub offset : ℕ
  pub created_at : ℕ
  pub updated_at : ℕ
  pub raw_metadata : List (String × String)

-- What is outside of the package: the operating system's environment, the standard base64, the
-- storages by identifier and the storage of a pool.
pub record Server : Type 0 where
  pub os : Os
  pub std_decode : String → Option String
  pub getenv : String → String
  pub temp_dir : String
  pub storages : Storages
  pub pool_storage : String → Option String

-- The payload of a cloud synchronisation, and the identifier of its storage.
pub record CloudSync : Type 0 where
  pub storage_id : String
  pub local_path : String
  pub target_path : String
  pub content_type : String
  pub file_name : String

-- Files by their path: the records of uploads, `none` one that is no JSON; the bytes received; the
-- files of the storages. The queue of cloud synchronisations. The identifiers of the uploads that
-- a patch has locked.
pub record Store : Type 0 where
  pub metas : List (String × Option Upload)
  pub temps : List (String × List ℕ)
  pub files : List (String × List ℕ)
  pub queue : List CloudSync
  pub locks : List String

-- The file at a path.
module _ {ℓ} {Content : Type ℓ} where
  abbrev pub at : String → List (String × Content) → Option Content
  at path [] = none
  at path ((name, content) ∷ rest) =
      let later = at path rest in if str_eq path name then some content else later

  abbrev pub without : String → List (String × Content) → List (String × Content)
  without path [] = []
  without path ((name, content) ∷ rest) =
      let kept = without path rest in if str_eq path name then kept else (name, content) ∷ kept

  abbrev pub with_file : String → Content → List (String × Content) → List (String × Content)
  with_file path content files = (path, content) ∷ without path files

abbrev pub holds : String → List String → Bool
holds id [] = false
holds id (other ∷ rest) = let later = holds id rest in if str_eq id other then true else later

abbrev pub released : String → List String → List String
released id [] = []
released id (other ∷ rest) =
    let kept = released id rest in if str_eq id other then kept else other ∷ kept

-- Bytes that are not there are zero.
abbrev pub zeros : ℕ → List ℕ
zeros zero = []
zeros (suc n) = 0 ∷ zeros n

-- What a file holds after `bytes` was written to it from `offset` on.
unfoldable pub write_at : ℕ → List ℕ → List ℕ → List ℕ
write_at offset bytes file =
    take offset file ++ zeros (offset - length file) ++ bytes ++ drop (offset + length bytes) file

unfoldable pub upload_meta_root_path : Server → String
unfolding trim_space join
upload_meta_root_path sv =
    let custom = trim_space (sv.getenv "YESNAS_UPLOAD_METADIR") in
    if is_empty custom then join sv.temp_dir "yesnas-upload-meta" else custom

unfoldable pub tus_meta_file_path : Server → String → String
unfolding upload_meta_root_path join
tus_meta_file_path sv id = join (upload_meta_root_path sv) (String.◌++◌ id ".json")

unfoldable pub tus_temp_file_path : Upload → String
unfolding join
tus_temp_file_path meta = join meta.temp_dir (String.◌++◌ meta.id ".bin")

write_at_test : write_at 3 (7 ∷ []) (1 ∷ []) ≡ 1 ∷ 0 ∷ 0 ∷ 7 ∷ []
unfolding write_at
write_at_test = refl
