-- ===== src/Files/Uploads/Create.antt =====
-- internal/files/uploads.go: HandleTusCreate, the beginning of an upload.
pub mod Fresh
use Prim.Native.String
use yesnas_server.Prelude.{
  ℕ, String, Bool, true, false, Option, none, some, List, [], ◌∷◌, ◌≡◌, refl, not, str_eq,
  if◌then◌else◌,
}
use yesnas_server.Prelude.Result.{Result, ok, err}
use yesnas_server.Prelude.Text.{trim_space, is_empty}
use yesnas_server.Prelude.FilePath.{join}
use yesnas_server.Files.Disk.{Storage, StorageType, cloud}
use yesnas_server.Files.Uploads.{Upload, Server, Store, with_file, tus_temp_file_path}
use yesnas_server.Files.Uploads.Parsing.{
  parse_upload_length, parse_tus_metadata, build_tus_upload_meta,
}
use yesnas_server.Files.Uploads.Finalize.{resolve_upload_storage}
use yesnas_server.Files.Uploads.Handlers.{
  Disk, Reply, tus_error, created, save_tus_upload_meta, validate_tus_request,
}

unfoldable pub cloud_upload_root_path : Server → String
unfolding trim_space
cloud_upload_root_path sv =
    let custom = trim_space (sv.getenv "YESNAS_CLOUD_UPLOAD_TMPDIR") in
    if is_empty custom then "/srv/yesnas/cache/uploads" else custom

unfoldable pub storage_upload_root_path : Server → Storage → String
unfolding join cloud_upload_root_path
storage_upload_root_path sv storage = elim storage.type [
  | cloud ↦ join (cloud_upload_root_path sv) storage.id
  | _ ↦ join storage.mount_path ".uploads"
]

-- The headers of the request, and the identifier and the time that the upload is given.
pub record Creation : Type 0 where
  pub resumable : String
  pub upload_length : String
  pub upload_metadata : String
  pub id : String
  pub now : ℕ

-- The record of the new upload before its directory is known.
unfoldable pub read_creation : Server → Creation → Result Upload
unfolding parse_upload_length parse_tus_metadata build_tus_upload_meta
read_creation sv r = elim (parse_upload_length r.upload_length) [
  | err e ↦ err e
  | ok length ↦ elim (parse_tus_metadata sv r.upload_metadata) [
    | err e ↦ err e
    | ok raw ↦ build_tus_upload_meta r.id r.now length raw
  ]
]

-- The empty file and the record are written.
unfoldable pub begin_upload : Server → Disk → Upload → Store → Reply × Store
unfolding tus_temp_file_path save_tus_upload_meta
begin_upload sv disk meta st =
    let emptied = record st { temps = with_file (tus_temp_file_path meta) [] st.temps } in
    let (is_saved, st1) = save_tus_upload_meta sv disk.saves meta emptied in
    if not disk.makes_meta_root
    then (tus_error 500 none, st)
    else if not disk.makes_temp_root
    then (tus_error 500 none, st)
    else if not disk.opens
    then (tus_error 500 none, st)
    else if not is_saved
    then (tus_error 500 none, st1)
    else (created meta.id, st1)

unfoldable pub handle_tus_create : Server → Disk → Creation → Store → Reply × Store
unfolding validate_tus_request read_creation resolve_upload_storage storage_upload_root_path
    begin_upload
handle_tus_create sv disk r st =
    if not (validate_tus_request r.resumable)
    then (tus_error 412 none, st)
    else elim (read_creation sv r) [
      | err e ↦ (tus_error 400 none, st)
      | ok meta ↦ elim (resolve_upload_storage sv meta.storage_pool_id) [
        | err e ↦ (tus_error 404 none, st)
        | ok storage ↦
            begin_upload sv disk (record meta { temp_dir = storage_upload_root_path sv storage }) st
      ]
    ]
