-- ===== src/Files/Uploads/Log/Delivered.antt =====
-- internal/files/uploads.go: HandleTusPatch when the patch completes the upload.
use yesnas_server.Prelude.{
  ℕ, ◌+◌, String, Option, false, some, str_eq, str_eq_iff, Bool-cases, inl, inr, List, ◌∷◌, ◌++◌,
  ◌≡◌, refl, ap, sym, ◌∙◌, ltb, ==_iff, length, take, arith,
}
use mathlib.Core.Path.{subst}
use yesnas_server.Prelude.Result.{ok}
use yesnas_server.Prelude.Text.{trim_space}
use yesnas_server.Files.Uploads.{
  Upload, Server, Store, at, with_file, write_at, tus_temp_file_path, tus_meta_file_path,
}
use yesnas_server.Files.Uploads.Bytes.{at-with_file, at-with_file-other, at-without, take-write_at}
use yesnas_server.Files.Uploads.Parsing.{parse_not_negative}
use yesnas_server.Files.Uploads.Finalize.{to_disk, plan_finalize, is_taken}
use yesnas_server.Files.Uploads.Handlers.{
  Disk, Reply, progress, Patch, opened, written_store, advanced, record_progress, write_patch,
  patch_locked, handle_tus_patch, unlocked,
}
use yesnas_server.Files.Uploads.Log.{HasReceived}
use yesnas_server.Files.Uploads.Log.Finished.{
  IsSound, IsPatchAt, IsDelivered, delivered_store, record_progress-delivered,
}

not-over : (a b : ℕ) → b ≡ a → ltb a b ≡ false
not-over a b h = ground (arith, h)

write_patch_sound :
    (sv : Server) (disk : Disk) (r : Patch) (meta : Upload) (st : Store)
    → IsSound disk
    → meta.offset + length r.received ≡ meta.upload_length
    → write_patch sv disk r meta.offset meta st
      ≡ record_progress sv disk (advanced r meta) (written_store r meta.offset meta st)
unfolding write_patch IsSound
write_patch_sound sv disk r meta st sound full =
    rw
      (
        write_patch,
        sound.1,
        sound.2,
        not-over meta.upload_length (meta.offset + length r.received) full,
      )
      refl

patch_locked_sound :
    (sv : Server) (disk : Disk) (r : Patch) (meta : Upload) (st : Store)
    → IsSound disk
    → parse_not_negative (trim_space r.upload_offset) ≡ some meta.offset
    → patch_locked sv disk r meta st ≡ write_patch sv disk r meta.offset meta st
unfolding patch_locked IsSound
patch_locked_sound sv disk r meta st sound at_offset =
    rw (patch_locked, at_offset, (==_iff meta.offset meta.offset).1 refl, sound.0) refl

handle_tus_patch-free :
    (sv : Server) (disk : Disk) (r : Patch) (meta : Upload) (st : Store)
    → IsPatchAt sv r meta st
    → handle_tus_patch sv disk r st
      ≡ unlocked meta.id (patch_locked sv disk r meta (record st { locks = meta.id ∷ st.locks }))
unfolding handle_tus_patch IsPatchAt
handle_tus_patch-free sv disk r meta st p = rw (handle_tus_patch, p.0, p.1, p.2, p.3) refl

unlocked-IsDelivered :
    (sv : Server) (meta : Upload) (target : String) (content : List ℕ) (id : String)
    (answer : Reply × Store)
    → IsDelivered sv meta target content answer.1
    → IsDelivered sv meta target content (unlocked id answer).1
unfolding IsDelivered
unlocked-IsDelivered sv meta target content id (reply, st) d = d

delivered_store-IsDelivered :
    (sv : Server) (meta : Upload) (target : String) (content : List ℕ) (st : Store)
    → IsDelivered sv meta target content (delivered_store sv meta target content st)
unfolding IsDelivered
delivered_store-IsDelivered sv meta target content st = (
  at-with_file target content st.files,
  at-without (tus_meta_file_path sv meta.id) st.metas,
  at-without (tus_temp_file_path meta) st.temps,
)

-- The record of an upload does not stand at a free path.
free-differs :
    (target path : String) (stored : Option Upload) (st : Store)
    → is_taken target st ≡ false
    → at path st.metas ≡ some stored
    → str_eq target path ≡ false
free-differs target path stored st free there = elim (Bool-cases (str_eq target path)) [
  | inr e ↦ e
  | inl e ↦
      let found : at target st.metas ≡ some stored =
        ap (λ p. at p st.metas) ((str_eq_iff target path).0 e) ∙ there in
      absurd (ground (arith, found, free))
]

-- What a patch stores of its upload leaves a free path free.
still_free :
    (sv : Server) (meta : Upload) (target : String) (content : List ℕ) (st : Store)
    (locks : List String)
    → is_taken target st ≡ false
    → str_eq target (tus_temp_file_path meta) ≡ false
    → str_eq target (tus_meta_file_path sv meta.id) ≡ false
    → is_taken target (record st {
      temps = with_file (tus_temp_file_path meta) content st.temps;
      metas = with_file (tus_meta_file_path sv meta.id) (some meta) st.metas;
      locks = locks;
    })
      ≡ false
still_free sv meta target content st locks free apart other =
    rw
      (
        at-with_file-other target (tus_temp_file_path meta) content st.temps apart,
        at-with_file-other target (tus_meta_file_path sv meta.id) (some meta) st.metas other,
      )
      free

-- When the operating system does what it is asked, a patch at the offset of an upload that has
-- received the bytes of `log`, with as many bytes as are missing, is answered with the declared
-- length, and the file at the target, where no file was, begins with the bytes of `log` and of the
-- patch, as many as declared; the record of the upload and its temporary file are gone. The target
-- is the one that finalizeTusUpload computes for a storage that is no cloud, and it is not the
-- temporary file of the upload itself.
pub handle_tus_patch-IsDelivered :
    (sv : Server) (disk : Disk) (r : Patch) (meta : Upload) (st : Store) (log : List ℕ)
    (target : String)
    → HasReceived sv st meta log
    → IsPatchAt sv r meta st
    → IsSound disk
    → meta.offset + length r.received ≡ meta.upload_length
    → plan_finalize sv (advanced r meta) ≡ ok (to_disk target)
    → is_taken target st ≡ false
    → str_eq target (tus_temp_file_path meta) ≡ false
    → ((handle_tus_patch sv disk r st).0 ≡ progress meta.upload_length)
      × ((content : List ℕ) × (take meta.upload_length content ≡ log ++ r.received)
          × IsDelivered sv meta target content (handle_tus_patch sv disk r st).1)
unfolding HasReceived IsPatchAt IsDelivered written_store tus_temp_file_path
handle_tus_patch-IsDelivered sv disk r meta st log target has p sound full plan free apart =
    let path = tus_temp_file_path meta in
    let before = opened (at path st.temps) in
    let content = write_at meta.offset r.received before in
    let st0 = record st { locks = meta.id ∷ st.locks } in
    let kept = record st0 {
      temps = with_file path content st.temps;
      metas = with_file (tus_meta_file_path sv meta.id) (some (advanced r meta)) st.metas;
    } in
    let done_store = delivered_store sv (advanced r meta) target content kept in
    let run : handle_tus_patch sv disk r st
        ≡ unlocked meta.id (progress (meta.offset + length r.received), done_store) =
      handle_tus_patch-free sv disk r meta st p
      ∙ ap (unlocked meta.id) (
          patch_locked_sound sv disk r meta st0 sound p.4
          ∙ write_patch_sound sv disk r meta st0 sound full
          ∙ record_progress-delivered sv disk (advanced r meta) target content
              (written_store r meta.offset meta st0) sound full plan
              (still_free sv (advanced r meta) target content st st0.locks free apart
                (free-differs target (tus_meta_file_path sv meta.id) (some meta) st free has.0))
              (at-with_file path content st.temps)) in
    (
      ap (λ a. a.0) run ∙ ap progress full,
      (
        content,
        subst (λ n. take n content ≡ log ++ r.received) full
            (take-write_at meta.offset r.received before log has.3 has.1),
        subst (λ a. IsDelivered sv meta target content a.1) (sym run)
            (delivered_store-IsDelivered sv (advanced r meta) target content kept),
      ),
    )
