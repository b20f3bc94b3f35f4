-- ===== src/Files/Uploads/Log.antt =====
-- internal/files/uploads.go: an upload as a log of bytes, to which a patch appends or which it
-- leaves alone.
pub mod Patches
pub mod Runs
pub mod Finished
pub mod Delivered
use yesnas_server.Prelude.{
  ℕ, ◌+◌, ◌≤◌, String, Bool, true, false, Option, none, some, List, [], ◌∷◌, ◌++◌, ◌≡◌, ◌≢◌, ◌⊎◌,
  refl, ap, sym, ◌∙◌, not, ltb, ◌==◌, length, take, length-append, str_eq, if◌then◌else◌, inl, inr,
  arith, Bool-cases, Option-cases,
}
use yesnas_server.Prelude.Text.{trim_space}
use yesnas_server.Files.Uploads.{
  Upload, Server, Store, at, with_file, write_at, tus_meta_file_path, tus_temp_file_path, holds,
}
use yesnas_server.Files.Uploads.Bytes.{at-with_file, take-write_at, take-write_at-before}
use yesnas_server.Files.Uploads.Parsing.{parse_not_negative}
use yesnas_server.Files.Uploads.Handlers.{
  Disk, Saved, saved, unsaved, damaged, Reply, tus_error, progress, Patch, opened, opened_store,
  written_store, advanced, Saved-cases, save_tus_upload_meta, record_progress, write_patch,
  patch_locked, handle_tus_patch, Loaded, missing, unreadable, loaded, load_tus_upload_meta,
  validate_tus_request,
}

-- The upload has received the bytes of `log`: its record is stored, with their number as offset,
-- and the file of received bytes begins with them.
unfoldable pub HasReceived : Server → Store → Upload → List ℕ → Type 0
HasReceived sv st meta log =
    (at (tus_meta_file_path sv meta.id) st.metas ≡ some (some meta))
    × (meta.offset ≡ length log)
    × (meta.offset ≤ meta.upload_length)
    × (take meta.offset (opened (at (tus_temp_file_path meta) st.temps)) ≡ log)

abbrev pub is_progress : Reply → Bool
is_progress (progress n) = true
is_progress _ = false

-- The patch was refused, and the log is what it was; or it was answered with the new offset, and
-- its bytes were appended.
unfoldable pub IsAppended : Server → Patch → Upload → List ℕ → Reply × Store → Type 0
unfolding HasReceived
IsAppended sv r meta log (reply, st) =
    ((reply ≡ progress (length (log ++ r.received)))
      × HasReceived sv st (advanced r meta) (log ++ r.received))
    ⊎ ((is_progress reply ≡ false) × HasReceived sv st meta log)

pub opened_store-HasReceived :
    (sv : Server) (meta : Upload) (st : Store) (log : List ℕ)
    → HasReceived sv st meta log
    → HasReceived sv (opened_store meta st) meta log
unfolding HasReceived opened_store
opened_store-HasReceived sv meta st log (filed, size, bound, bytes) = (
  filed,
  size,
  bound,
  rw
      (at-with_file (tus_temp_file_path meta) (opened (at (tus_temp_file_path meta) st.temps))
        st.temps)
      bytes,
)

pub written_store-HasReceived :
    (sv : Server) (r : Patch) (meta : Upload) (st : Store) (log : List ℕ)
    → HasReceived sv st meta log
    → HasReceived sv (written_store r meta.offset meta st) meta log
unfolding HasReceived written_store
written_store-HasReceived sv r meta st log (filed, size, bound, bytes) =
    let before = opened (at (tus_temp_file_path meta) st.temps) in
    (
      filed,
      size,
      bound,
      ap (λ o. take meta.offset (opened o))
            (at-with_file (tus_temp_file_path meta) (write_at meta.offset r.received before)
              st.temps)
          ∙ take-write_at-before meta.offset r.received before log bytes size,
    )

pub save-HasReceived :
    (sv : Server) (r : Patch) (meta : Upload) (st : Store) (log : List ℕ)
    → HasReceived sv st meta log
    → meta.offset + length r.received ≤ meta.upload_length
    → HasReceived sv
        (save_tus_upload_meta sv saved (advanced r meta) (written_store r meta.offset meta st)).1
        (advanced r meta)
        (log ++ r.received)
unfolding HasReceived written_store save_tus_upload_meta
save-HasReceived sv r meta st log (filed, size, bound, bytes) fits =
    let before = opened (at (tus_temp_file_path meta) st.temps) in
    (
      at-with_file (tus_meta_file_path sv meta.id) (some (advanced r meta)) st.metas,
      omega (arith, size, length-append log r.received),
      fits,
      ap (λ o. take (meta.offset + length r.received) (opened o))
            (at-with_file (tus_temp_file_path meta) (write_at meta.offset r.received before)
              st.temps)
          ∙ take-write_at meta.offset r.received before log bytes size,
    )

pub refused-IsAppended :
    (sv : Server) (r : Patch) (meta : Upload) (log : List ℕ) (status : ℕ) (o : Option ℕ)
    (st : Store)
    → HasReceived sv st meta log
    → IsAppended sv r meta log (tus_error status o, st)
unfolding IsAppended
refused-IsAppended sv r meta log status o st has = inr (refl, has)

not-equal : (a b : ℕ) → a ≢ b → (a == b) ≡ false
not-equal a b h = ground (arith, h)

pub advanced_size :
    (sv : Server) (st : Store) (r : Patch) (meta : Upload) (log : List ℕ)
    → HasReceived sv st meta log
    → meta.offset + length r.received ≡ length (log ++ r.received)
unfolding HasReceived
advanced_size sv st r meta log has = omega (arith, has.1, length-append log r.received)

pub record_progress-IsAppended :
    (sv : Server) (disk : Disk) (r : Patch) (meta : Upload) (st : Store) (log : List ℕ)
    → HasReceived sv st meta log
    → disk.saves ≢ damaged
    → meta.offset + length r.received ≢ meta.upload_length
    → meta.offset + length r.received ≤ meta.upload_length
    → IsAppended sv r meta log
        (record_progress sv disk (advanced r meta) (written_store r meta.offset meta st))
unfolding record_progress IsAppended
record_progress-IsAppended sv disk r meta st log has sound more fits =
    elim (Saved-cases disk.saves) [
      | inl e ↦
          rw (e, not-equal (meta.offset + length r.received) meta.upload_length more)
            (inl (
              ap progress (advanced_size sv st r meta log has),
              save-HasReceived sv r meta st log has fits,
            ))
      | inr (inl e) ↦ rw e (
          refused-IsAppended sv r meta log 500 none (written_store r meta.offset meta st)
            (written_store-HasReceived sv r meta st log has))
      | inr (inr e) ↦ absurd (sound e)
    ]
