-- ===== src/Files/Uploads/Log/Finished.antt =====
-- internal/files/uploads.go: the patch that completes an upload.
use yesnas_server.Prelude.{
  ℕ, String, true, false, none, some, List, ◌≡◌, refl, ap, ◌∙◌, ==_iff, str_eq,
}
use yesnas_server.Prelude.Result.{ok}
use yesnas_server.Prelude.Text.{trim_space}
use yesnas_server.Files.Uploads.{
  Upload, Server, Store, holds, released, at, without, with_file, tus_temp_file_path,
  tus_meta_file_path,
}
use yesnas_server.Files.Uploads.Parsing.{parse_not_negative}
use yesnas_server.Files.Uploads.Finalize.{
  Faults, moved, to_disk, plan_finalize, is_taken, deliver, finalize_tus_upload,
}
use yesnas_server.Files.Uploads.Handlers.{
  Disk, saved, progress, Patch, record_progress, complete_upload, loaded, load_tus_upload_meta,
  validate_tus_request, save_tus_upload_meta, cleanup_tus_upload_meta_only, after_finalize,
}

-- The operating system does what the request asks of it.
unfoldable pub IsSound : Disk → Type 0
IsSound disk =
    (disk.opens ≡ true)
    × (disk.seeks ≡ true)
    × (disk.reads_all ≡ true)
    × (disk.saves ≡ saved)
    × (disk.removes_meta ≡ true)
    × (disk.delivery.makes_dir ≡ true)
    × (disk.delivery.stats ≡ true)
    × (disk.delivery.persists ≡ moved)

-- The request is a patch at the offset of the upload.
unfoldable pub IsPatchAt : Server → Patch → Upload → Store → Type 0
IsPatchAt sv r meta st =
    (validate_tus_request r.resumable ≡ true)
    × (str_eq (trim_space r.content_type) "application/offset+octet-stream" ≡ true)
    × (load_tus_upload_meta sv (trim_space r.upload_id) st ≡ loaded meta)
    × (holds meta.id st.locks ≡ false)
    × (parse_not_negative (trim_space r.upload_offset) ≡ some meta.offset)

-- What is left of a complete upload: the file at the target, and neither record nor bytes.
unfoldable pub IsDelivered : Server → Upload → String → List ℕ → Store → Type 0
IsDelivered sv meta target content st =
    (at target st.files ≡ some content)
    × (at (tus_meta_file_path sv meta.id) st.metas ≡ none)
    × (at (tus_temp_file_path meta) st.temps ≡ none)

-- The store after the delivery of the bytes.
abbrev pub delivered_store : Server → Upload → String → List ℕ → Store → Store
delivered_store sv meta target content st = record {
  metas = without (tus_meta_file_path sv meta.id) st.metas;
  temps = without (tus_temp_file_path meta) st.temps;
  files = with_file target content st.files;
  queue = st.queue;
  locks = released meta.id st.locks;
}

deliver-moved :
    (f : Faults) (meta : Upload) (target : String) (content : List ℕ) (st : Store)
    → f.makes_dir ≡ true
    → is_taken target st ≡ false
    → f.stats ≡ true
    → at (tus_temp_file_path meta) st.temps ≡ some content
    → f.persists ≡ moved
    → deliver f meta (to_disk target) st ≡ (
      ok tt,
      record st {
        files = with_file target content st.files;
        temps = without (tus_temp_file_path meta) st.temps;
      },
    )
unfolding deliver
deliver-moved f meta target content st dir free stats there persists =
    rw (dir, deliver, free, stats, there, persists) refl

finalize-moved :
    (sv : Server) (f : Faults) (meta : Upload) (target : String) (st : Store)
    → plan_finalize sv meta ≡ ok (to_disk target)
    → finalize_tus_upload sv f meta st ≡ deliver f meta (to_disk target) st
unfolding finalize_tus_upload
finalize-moved sv f meta target st plan = rw (plan, finalize_tus_upload) refl

complete_upload-delivered :
    (sv : Server) (disk : Disk) (meta : Upload) (target : String) (content : List ℕ) (st : Store)
    → IsSound disk
    → plan_finalize sv meta ≡ ok (to_disk target)
    → is_taken target st ≡ false
    → at (tus_temp_file_path meta) st.temps ≡ some content
    → complete_upload sv disk meta st
      ≡ (progress meta.offset, delivered_store sv meta target content st)
unfolding complete_upload after_finalize cleanup_tus_upload_meta_only IsSound
complete_upload-delivered sv disk meta target content st sound plan free there =
    ap (after_finalize sv disk meta) (
      finalize-moved sv disk.delivery meta target st plan
      ∙ deliver-moved disk.delivery meta target content st sound.5 free sound.6 there sound.7)
    ∙ rw (sound.4, after_finalize) refl

pub record_progress-delivered :
    (sv : Server) (disk : Disk) (meta : Upload) (target : String) (content : List ℕ) (st : Store)
    → IsSound disk
    → meta.offset ≡ meta.upload_length
    → plan_finalize sv meta ≡ ok (to_disk target)
    → is_taken target
        (record st { metas = with_file (tus_meta_file_path sv meta.id) (some meta) st.metas })
      ≡ false
    → at (tus_temp_file_path meta) st.temps ≡ some content
    → record_progress sv disk meta st ≡ (
      progress meta.offset,
      delivered_store sv meta target content
          (record st { metas = with_file (tus_meta_file_path sv meta.id) (some meta) st.metas }),
    )
unfolding record_progress IsSound save_tus_upload_meta
record_progress-delivered sv disk meta target content st sound full plan free there =
    rw (sound.3, (==_iff meta.offset meta.upload_length).1 full)
      (complete_upload-delivered sv disk meta target content
        (record st { metas = with_file (tus_meta_file_path sv meta.id) (some meta) st.metas }) sound
        plan free there)
