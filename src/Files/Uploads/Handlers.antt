-- ===== src/Files/Uploads/Handlers.antt =====
-- internal/files/uploads.go: the handlers of the resumable uploads.
use yesnas_server.Prelude.{
  ℕ, ◌+◌, String, Bool, true, false, Option, none, some, List, [], ◌∷◌, ◌≡◌, ◌⊎◌, inl, inr, refl,
  length, not, ltb, ◌==◌, str_eq, if◌then◌else◌,
}
use yesnas_server.Prelude.Result.{Result, ok, err}
use yesnas_server.Prelude.Text.{trim_space, is_empty}
use yesnas_server.Files.Uploads.{
  Upload, Server, Store, at, without, with_file, holds, released, write_at, tus_meta_file_path,
  tus_temp_file_path,
}
use yesnas_server.Files.Uploads.Parsing.{parse_not_negative}
use yesnas_server.Files.Uploads.Finalize.{Faults, finalize_tus_upload}

-- How saveTusUploadMeta ends; a write that fails may leave a file that is no JSON.
pub data Saved : Type 0 where
  saved unsaved damaged : Saved

-- What the operating system lets a request do.
pub record Disk : Type 0 where
  pub makes_meta_root : Bool
  pub makes_temp_root : Bool
  pub opens : Bool
  pub seeks : Bool
  pub reads_all : Bool
  pub saves : Saved
  pub removes_temp : Bool
  pub removes_meta : Bool
  pub delivery : Faults

-- An answer: an error with its status and the offset it names, or what was done.
pub data Reply : Type 0 where
  tus_error : ℕ → Option ℕ → Reply
  created : String → Reply
  progress : ℕ → Reply
  described : ℕ → ℕ → Reply
  deleted : Reply

pub data Loaded : Type 0 where
  missing unreadable : Loaded
  loaded : Upload → Loaded

abbrev pub as_loaded : Option (Option Upload) → Loaded
as_loaded none = missing
as_loaded (some none) = unreadable
as_loaded (some (some meta)) = loaded meta

unfoldable pub load_tus_upload_meta : Server → String → Store → Loaded
unfolding tus_meta_file_path
load_tus_upload_meta sv id st =
    if is_empty id then missing else as_loaded (at (tus_meta_file_path sv id) st.metas)

unfoldable pub save_tus_upload_meta : Server → Saved → Upload → Store → Bool × Store
unfolding tus_meta_file_path
save_tus_upload_meta sv saved meta st =
    (true, record st { metas = with_file (tus_meta_file_path sv meta.id) (some meta) st.metas })
save_tus_upload_meta sv unsaved meta st = (false, st)
save_tus_upload_meta sv damaged meta st =
    (false, record st { metas = with_file (tus_meta_file_path sv meta.id) none st.metas })

-- cleanupTusUpload: both files are removed, and the first error is returned.
unfoldable pub cleanup_tus_upload : Server → Disk → Upload → Store → Bool × Store
unfolding tus_meta_file_path tus_temp_file_path
cleanup_tus_upload sv disk meta st = (
  if disk.removes_temp then disk.removes_meta else false,
  record st {
    temps = if disk.removes_temp then without (tus_temp_file_path meta) st.temps else st.temps;
    metas =
        if disk.removes_meta then without (tus_meta_file_path sv meta.id) st.metas else st.metas;
  },
)

unfoldable pub cleanup_tus_upload_meta_only : Server → Disk → Upload → Store → Bool × Store
unfolding tus_meta_file_path
cleanup_tus_upload_meta_only sv disk meta st =
    if disk.removes_meta
    then (true, record st { metas = without (tus_meta_file_path sv meta.id) st.metas })
    else (false, st)

unfoldable pub validate_tus_request : String → Bool
unfolding trim_space
validate_tus_request resumable = str_eq (trim_space resumable) "1.0.0"

-- The answer once the record of a delivered upload was removed, or could not be.
abbrev pub close_upload : Upload → Bool × Store → Reply × Store
close_upload meta (true, st) =
    (progress meta.offset, record st { locks = released meta.id st.locks })
close_upload meta (false, st) = (tus_error 500 none, st)

unfoldable pub after_finalize : Server → Disk → Upload → Result (Unit {0}) × Store → Reply × Store
unfolding cleanup_tus_upload cleanup_tus_upload_meta_only
after_finalize sv disk meta (err e, st) =
    (tus_error 500 none, (cleanup_tus_upload sv disk meta st).1)
after_finalize sv disk meta (ok done, st) =
    close_upload meta (cleanup_tus_upload_meta_only sv disk meta st)

-- The end of a patch that received the last byte.
unfoldable pub complete_upload : Server → Disk → Upload → Store → Reply × Store
unfolding finalize_tus_upload after_finalize
complete_upload sv disk meta st =
    after_finalize sv disk meta (finalize_tus_upload sv disk.delivery meta st)

-- The record is saved, and a complete upload is finalised.
unfoldable pub record_progress : Server → Disk → Upload → Store → Reply × Store
unfolding save_tus_upload_meta complete_upload
record_progress sv disk meta st =
    let (is_saved, st1) = save_tus_upload_meta sv disk.saves meta st in
    if not is_saved
    then (tus_error 500 none, st1)
    else if meta.offset == meta.upload_length
    then complete_upload sv disk meta st1
    else (progress meta.offset, st1)

-- A patch: its headers, the bytes that arrive, and the time.
pub record Patch : Type 0 where
  pub resumable : String
  pub content_type : String
  pub upload_id : String
  pub upload_offset : String
  pub received : List ℕ
  pub now : ℕ

abbrev pub opened : Option (List ℕ) → List ℕ
opened none = []
opened (some content) = content

-- The temporary file once it is open, and once the received bytes were written to it.
unfoldable pub opened_store : Upload → Store → Store
unfolding tus_temp_file_path
opened_store meta st =
    let path = tus_temp_file_path meta in
    record st { temps = with_file path (opened (at path st.temps)) st.temps }

unfoldable pub written_store : Patch → ℕ → Upload → Store → Store
unfolding tus_temp_file_path write_at
written_store r offset meta st =
    let path = tus_temp_file_path meta in
    record st {
      temps = with_file path (write_at offset r.received (opened (at path st.temps))) st.temps;
    }

-- The record after the received bytes were counted.
abbrev pub advanced : Patch → Upload → Upload
advanced r meta = record meta { offset = meta.offset + length r.received; updated_at = r.now }

-- The received bytes are written to the opened file from the offset on.
unfoldable pub write_patch : Server → Disk → Patch → ℕ → Upload → Store → Reply × Store
unfolding opened_store written_store record_progress
write_patch sv disk r offset meta st =
    if not disk.seeks
    then (tus_error 500 none, opened_store meta st)
    else if not disk.reads_all
    then (tus_error 500 none, written_store r offset meta st)
    else if ltb meta.upload_length (meta.offset + length r.received)
    then (tus_error 400 none, written_store r offset meta st)
    else record_progress sv disk (advanced r meta) (written_store r offset meta st)

-- HandleTusPatch once it has the lock.
unfoldable pub patch_locked : Server → Disk → Patch → Upload → Store → Reply × Store
unfolding parse_not_negative trim_space write_patch
patch_locked sv disk r meta st = elim (parse_not_negative (trim_space r.upload_offset)) [
  | none ↦ (tus_error 400 none, st)
  | some offset ↦
      if not (offset == meta.offset)
      then (tus_error 409 (some meta.offset), st)
      else if not disk.opens
      then (tus_error 500 none, st)
      else write_patch sv disk r offset meta st
]

abbrev pub unlocked : String → Reply × Store → Reply × Store
unlocked id (reply, st) = (reply, record st { locks = released id st.locks })

unfoldable pub handle_tus_patch : Server → Disk → Patch → Store → Reply × Store
unfolding validate_tus_request trim_space load_tus_upload_meta patch_locked
handle_tus_patch sv disk r st =
    if not (validate_tus_request r.resumable)
    then (tus_error 412 none, st)
    else if not (str_eq (trim_space r.content_type) "application/offset+octet-stream")
    then (tus_error 415 none, st)
    else elim (load_tus_upload_meta sv (trim_space r.upload_id) st) [
      | loaded meta ↦
          if holds meta.id st.locks
          then (tus_error 409 (some meta.offset), st)
          else unlocked meta.id
              (patch_locked sv disk r meta (record st { locks = meta.id ∷ st.locks }))
      | _ ↦ (tus_error 404 none, st)
    ]

unfoldable pub handle_tus_head : Server → String → String → Store → Reply
unfolding validate_tus_request trim_space load_tus_upload_meta
handle_tus_head sv resumable id st =
    if not (validate_tus_request resumable)
    then tus_error 412 none
    else elim (load_tus_upload_meta sv (trim_space id) st) [
      | loaded meta ↦ described meta.upload_length meta.offset
      | _ ↦ tus_error 404 none
    ]

unfoldable pub handle_tus_delete : Server → Disk → String → String → Store → Reply × Store
unfolding validate_tus_request trim_space load_tus_upload_meta cleanup_tus_upload
handle_tus_delete sv disk resumable id st =
    if not (validate_tus_request resumable)
    then (tus_error 412 none, st)
    else elim (load_tus_upload_meta sv (trim_space id) st) [
      | missing ↦ (tus_error 404 none, st)
      | unreadable ↦ (tus_error 500 none, st)
      | loaded meta ↦
          let (cleaned, st1) = cleanup_tus_upload sv disk meta st in
          if cleaned
          then (deleted, record st1 { locks = released meta.id st1.locks })
          else (tus_error 500 none, st1)
    ]

pub Saved-cases : (s : Saved) → (s ≡ saved) ⊎ ((s ≡ unsaved) ⊎ (s ≡ damaged))
Saved-cases saved = inl refl
Saved-cases unsaved = inr (inl refl)
Saved-cases damaged = inr (inr refl)
