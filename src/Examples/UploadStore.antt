-- ===== src/Examples/UploadStore.antt =====
-- internal/files/uploads.go at concrete inputs: an upload of four bytes, two of which arrived.
use yesnas_server.Prelude.{ℕ, true, none, some, List, [], ◌∷◌, ◌++◌, ◌≡◌, ◌≢◌, refl, take, arith}
use yesnas_server.Prelude.Text.{trim_space}
use yesnas_server.Prelude.FilePath.{is_abs}
use yesnas_server.Prelude.FilePath.Rel.{IsBelow}
use yesnas_server.Files.Uploads.{Upload, Server, Store, at, tus_meta_file_path, tus_temp_file_path}
use yesnas_server.Files.Uploads.Finalize.{moved, to_disk, plan_finalize, resolve_upload_storage}
use yesnas_server.Files.Uploads.Confined.{plan_finalize-IsBelow}
use yesnas_server.Files.Uploads.Parsing.{parse_not_negative}
use yesnas_server.Files.Uploads.Handlers.{
  Disk, saved, damaged, progress, Patch, handle_tus_patch, load_tus_upload_meta,
  validate_tus_request,
}
use yesnas_server.Files.Uploads.Create.{Creation, handle_tus_create}
use yesnas_server.Files.Uploads.Create.Fresh.{IsRead, handle_tus_create-HasReceived}
use yesnas_server.Files.Disk.{Os, Call, other}
use yesnas_server.Files.Uploads.Persist.{
  IsPlaced, persist_uploaded_file, persist_uploaded_file-IsPlaced,
}
use yesnas_server.Files.Uploads.Log.{HasReceived, IsAppended}
use yesnas_server.Files.Uploads.Log.Patches.{handle_tus_patch-IsAppended}
use yesnas_server.Files.Uploads.Log.Runs.{run_patches, accepted, IsFor, run_patches-HasReceived}
use yesnas_server.Files.Uploads.Log.Finished.{IsSound, IsPatchAt, IsDelivered}
use yesnas_server.Files.Uploads.Log.Delivered.{handle_tus_patch-IsDelivered}
use yesnas_server.Examples.FileTree.{machine, storages, disk_a}

abbrev server : Server
server = record {
  os = machine;
  std_decode = some;
  getenv = λ name. "";
  temp_dir = "/tmp";
  storages = storages;
  pool_storage = λ id. none;
}

abbrev upload : Upload
upload = record {
  id = "u1";
  storage_pool_id = "s";
  parent_id = "";
  relative_path = "x/../new.bin";
  file_name = "new.bin";
  file_type = "";
  temp_dir = "/srv/a/.uploads";
  upload_length = 4;
  offset = 2;
  created_at = 1;
  updated_at = 1;
  raw_metadata = [];
}

abbrev store : Store
store = record {
  metas = ("/tmp/yesnas-upload-meta/u1.json", some upload) ∷ [];
  temps = ("/srv/a/.uploads/u1.bin", 1 ∷ 2 ∷ 9 ∷ []) ∷ [];
  files = [];
  queue = [];
  locks = [];
}

abbrev disk : Disk
disk = record {
  makes_meta_root = true;
  makes_temp_root = true;
  opens = true;
  seeks = true;
  reads_all = true;
  saves = saved;
  removes_temp = true;
  removes_meta = true;
  delivery = record { enqueues = true; makes_dir = true; stats = true; persists = moved };
}

abbrev patch_of : List ℕ → Patch
patch_of bytes = record {
  resumable = "1.0.0";
  content_type = "application/offset+octet-stream";
  upload_id = " u1 ";
  upload_offset = "2";
  received = bytes;
  now = 7;
}

abbrev creation : Creation
creation = record {
  resumable = "1.0.0";
  upload_length = "4";
  upload_metadata = "filename new.bin,storagePoolId s";
  id = "u2";
  now = 3;
}

saved-not-damaged : saved ≢ damaged
saved-not-damaged e = ground (arith, e)

upload-HasReceived : HasReceived server store upload (1 ∷ 2 ∷ [])
unfolding HasReceived tus_meta_file_path tus_temp_file_path
upload-HasReceived = (refl, refl, omega arith, refl)

disk-IsSound : IsSound disk
unfolding IsSound
disk-IsSound = (refl, refl, refl, refl, refl, refl, refl, refl)

patch-IsPatchAt : IsPatchAt server (patch_of (3 ∷ 4 ∷ [])) upload store
unfolding IsPatchAt validate_tus_request trim_space load_tus_upload_meta parse_not_negative
patch-IsPatchAt = (refl, refl, refl, refl, refl)

patch-IsFor : IsFor "u1" (disk, patch_of (3 ∷ []))
unfolding IsFor trim_space
patch-IsFor = (refl, saved-not-damaged)

handle_tus_patch-IsAppended_example :
    IsAppended server
      (patch_of (3 ∷ []))
      upload
      (1 ∷ 2 ∷ [])
      (handle_tus_patch server disk (patch_of (3 ∷ [])) store)
unfolding load_tus_upload_meta trim_space
handle_tus_patch-IsAppended_example =
    handle_tus_patch-IsAppended server disk (patch_of (3 ∷ [])) upload store (1 ∷ 2 ∷ [])
      upload-HasReceived refl saved-not-damaged (λ e. ground (arith, e))

run_patches-HasReceived_example :
    (after : Upload) × (after.id ≡ "u1")
    × (after.upload_length ≡ 4)
    × HasReceived server (run_patches server ((disk, patch_of (3 ∷ [])) ∷ []) store).1 after (
        (1 ∷ 2 ∷ [])
        ++ accepted
            ((disk, patch_of (3 ∷ [])) ∷ [])
            (run_patches server ((disk, patch_of (3 ∷ [])) ∷ []) store).0)
run_patches-HasReceived_example =
    run_patches-HasReceived server ((disk, patch_of (3 ∷ [])) ∷ []) store upload (1 ∷ 2 ∷ [])
      upload-HasReceived refl (patch-IsFor, tt) (omega arith)

handle_tus_patch-IsDelivered_example :
    ((handle_tus_patch server disk (patch_of (3 ∷ 4 ∷ [])) store).0 ≡ progress 4)
    × ((content : List ℕ) × (take 4 content ≡ 1 ∷ 2 ∷ 3 ∷ 4 ∷ [])
        × IsDelivered server upload "/srv/a/new.bin" content
            (handle_tus_patch server disk (patch_of (3 ∷ 4 ∷ [])) store).1)
unfolding plan_finalize
handle_tus_patch-IsDelivered_example =
    handle_tus_patch-IsDelivered server disk (patch_of (3 ∷ 4 ∷ [])) upload store (1 ∷ 2 ∷ [])
      "/srv/a/new.bin" upload-HasReceived patch-IsPatchAt disk-IsSound refl refl refl refl

plan_finalize-IsBelow_example : IsBelow "/srv/a" "/srv/a/new.bin"
unfolding plan_finalize resolve_upload_storage is_abs
plan_finalize-IsBelow_example =
    plan_finalize-IsBelow server upload disk_a (to_disk "/srv/a/new.bin") refl refl refl

handle_tus_create-HasReceived_example :
    (meta : Upload) × ("u2" ≡ meta.id)
    × IsRead creation meta
    × HasReceived server (handle_tus_create server disk creation store).1 meta []
unfolding handle_tus_create
handle_tus_create-HasReceived_example =
    handle_tus_create-HasReceived server disk creation store "u2" refl

-- A rename that crosses devices is followed by a copy and the removal of the received file.
abbrev two_devices : Os
two_devices = record machine {
  result = λ h call. elim call [
    | Call.rename a b ↦
        some (record { kind = other; message = "rename: Invalid Cross-Device Link" })
    | _ ↦ none
  ];
  wide = λ c. c;
}

persist_uploaded_file-IsPlaced_example :
    IsPlaced two_devices "/tmp/u1.bin" "/srv/a/new.bin"
      (persist_uploaded_file two_devices "/tmp/u1.bin" "/srv/a/new.bin" []).1
unfolding persist_uploaded_file
persist_uploaded_file-IsPlaced_example =
    persist_uploaded_file-IsPlaced two_devices "/tmp/u1.bin" "/srv/a/new.bin" [] refl

abbrev overlong : Store
unfolding handle_tus_patch
overlong = (handle_tus_patch server disk (patch_of (5 ∷ 6 ∷ 7 ∷ 8 ∷ [])) store).1

-- A patch that is too long is refused after its bytes were written, and they stay behind the last
-- byte of the file that the next patch completes.
overlong_test :
    at "/srv/a/new.bin" (handle_tus_patch server disk (patch_of (3 ∷ 4 ∷ [])) overlong).1.files
    ≡ some (1 ∷ 2 ∷ 3 ∷ 4 ∷ 7 ∷ 8 ∷ [])
unfolding handle_tus_patch overlong
overlong_test = refl
