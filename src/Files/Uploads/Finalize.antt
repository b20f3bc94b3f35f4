-- ===== src/Files/Uploads/Finalize.antt =====
-- internal/files/uploads.go: resolveUploadStorage, buildTusTargetPath and finalizeTusUpload.
use yesnas_server.Prelude.{
  ℕ, String, Bool, true, false, Option, none, some, List, [], ◌∷◌, ◌++◌, ◌||◌, not, str_eq,
  if◌then◌else◌,
}
use yesnas_server.Prelude.Result.{Result, ok, err, ◌>>=◌, ◌>>◌, check}
use yesnas_server.Prelude.Text.{trim_space, is_empty}
use yesnas_server.Prelude.FilePath.{clean, join, is_abs}
use yesnas_server.Files.Disk.{Storage, StorageType, cloud}
use yesnas_server.Files.Paths.{decode_file_id, is_path_within_root}
use yesnas_server.Files.Uploads.{
  Upload, Server, Store, CloudSync, at, without, with_file, tus_temp_file_path,
}

abbrev or_error {ℓ} : {Value : Type ℓ} → Option Value → String → Result Value
or_error none message = err message
or_error (some value) message = ok value

-- The storage with the identifier, or the storage of the pool with the identifier.
unfoldable pub resolve_upload_storage : Server → String → Result Storage
unfolding trim_space
resolve_upload_storage sv storage_pool_id =
    let id = trim_space storage_pool_id in
    if is_empty id then err "storagePoolId is required" else elim (sv.storages id) [
      | some storage ↦ ok storage
      | none ↦ elim (sv.pool_storage id) [
        | none ↦ err "storage not found"
        | some storage_id ↦
            if is_empty (trim_space storage_id)
            then err "storage not found"
            else or_error (sv.storages (trim_space storage_id)) "storage not found"
      ]
    ]

unfoldable pub build_tus_target_path : String → String → Upload → Result String
unfolding trim_space clean is_abs join is_path_within_root
build_tus_target_path root parent meta =
    let below = clean (trim_space meta.relative_path) in
    if not (is_empty (trim_space meta.relative_path))
    then if str_eq below "." || str_eq below "" || is_abs below
      then err "invalid relativePath"
      else if not (is_path_within_root root (join parent below))
      then err "relativePath escapes storage root"
      else ok (join parent below)
    else if not (is_path_within_root root (join parent meta.file_name))
    then err "target path invalid"
    else ok (join parent meta.file_name)

-- Where the file of a complete upload goes.
pub data Delivery : Type 0 where
  to_cloud : CloudSync → Delivery
  to_disk : String → Delivery

abbrev pub target_path : Delivery → String
target_path (to_cloud sync) = sync.target_path
target_path (to_disk target) = target

unfoldable pub parent_of_upload : Server → Storage → Upload → Result String
unfolding clean decode_file_id
parent_of_upload sv storage meta =
    if is_empty meta.parent_id
    then ok (clean storage.mount_path)
    else or_error (decode_file_id sv.os meta.parent_id) "invalid parentId"

unfoldable pub delivery_to : StorageType → Upload → String → Delivery
unfolding tus_temp_file_path
delivery_to cloud meta target = to_cloud (record {
  storage_id = meta.storage_pool_id;
  local_path = tus_temp_file_path meta;
  target_path = target;
  content_type = meta.file_type;
  file_name = meta.file_name;
})
delivery_to _ meta target = to_disk target

-- finalizeTusUpload up to the first change.
unfoldable pub plan_finalize : Server → Upload → Result Delivery
unfolding resolve_upload_storage parent_of_upload is_path_within_root build_tus_target_path
    delivery_to
plan_finalize sv meta = do
  storage ← resolve_upload_storage sv meta.storage_pool_id
  parent ← parent_of_upload sv storage meta
  check (is_path_within_root storage.mount_path parent) "parent path out of storage root"
  target ← build_tus_target_path storage.mount_path parent meta
  ok (delivery_to storage.type meta target)

-- How persistUploadedFile ends: the file was moved; it was not; or it was copied, and the received
-- file could not be removed.
pub data Persisted : Type 0 where
  moved not_moved copied_only : Persisted

-- What the operating system and the database let the delivery do.
pub record Faults : Type 0 where
  pub enqueues : Bool
  pub makes_dir : Bool
  pub stats : Bool
  pub persists : Persisted

abbrev persist : Persisted → String → String → List ℕ → Store → Result (Unit {0}) × Store
persist moved temp target content st =
    (ok tt, record st { files = with_file target content st.files; temps = without temp st.temps })
persist not_moved temp target content st = (err "persist failed", st)
persist copied_only temp target content st =
    (err "remove failed", record st { files = with_file target content st.files })

abbrev is_there {ℓ} : {Content : Type ℓ} → Option Content → Bool
is_there none = false
is_there (some content) = true

-- os.Stat(targetPath) finds a file: one that was delivered, the received bytes of any upload, or
-- the record of one.
abbrev pub is_taken : String → Store → Bool
is_taken target st =
    is_there (at target st.files)
    || (is_there (at target st.temps) || is_there (at target st.metas))

-- The rest of finalizeTusUpload.
unfoldable pub deliver : Faults → Upload → Delivery → Store → Result (Unit {0}) × Store
unfolding tus_temp_file_path
deliver f meta (to_cloud sync) st =
    if f.enqueues
    then (ok tt, record st { queue = st.queue ++ sync ∷ [] })
    else (err "enqueue failed", st)
deliver f meta (to_disk target) st =
    if not f.makes_dir
    then (err "create target directory", st)
    else if is_taken target st
    then (err "target file already exists", st)
    else if not f.stats
    then (err "stat failed", st)
    else elim (at (tus_temp_file_path meta) st.temps) [
      | none ↦ (err "no such file", st)
      | some content ↦ persist f.persists (tus_temp_file_path meta) target content st
    ]

unfoldable pub finalize_tus_upload : Server → Faults → Upload → Store → Result (Unit {0}) × Store
unfolding plan_finalize deliver
finalize_tus_upload sv f meta st = elim (plan_finalize sv meta) [
  | err e ↦ (err e, st)
  | ok delivery ↦ deliver f meta delivery st
]
