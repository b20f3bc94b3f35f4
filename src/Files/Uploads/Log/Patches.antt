-- ===== src/Files/Uploads/Log/Patches.antt =====
-- internal/files/uploads.go: HandleTusPatch against the log of the bytes received.
use yesnas_server.Prelude.{
  ℕ, ◌+◌, ◌≤◌, String, true, refl, ap, sym, ◌∙◌, ==_iff, false, none, some, List, ◌∷◌, ◌≡◌, ◌≢◌,
  ltb, ◌==◌, length, str_eq, inl, inr, arith, Bool-cases, Option-cases,
}
use mathlib.Core.Path.{subst}
use yesnas_server.Prelude.Text.{trim_space}
use yesnas_server.Files.Uploads.{Upload, Server, Store, holds}
use yesnas_server.Files.Uploads.Parsing.{parse_not_negative}
use yesnas_server.Files.Uploads.Handlers.{
  Disk, damaged, Reply, Patch, opened_store, written_store, write_patch, patch_locked,
  handle_tus_patch, loaded, load_tus_upload_meta, validate_tus_request, unlocked,
}
use yesnas_server.Files.Uploads.Log.{
  HasReceived, IsAppended, opened_store-HasReceived, written_store-HasReceived,
  record_progress-IsAppended, refused-IsAppended,
}

fits-declared : (a b : ℕ) → ltb a b ≡ false → b ≤ a
fits-declared a b h = ground (arith, h)

write_patch-IsAppended :
    (sv : Server) (disk : Disk) (r : Patch) (meta : Upload) (st : Store) (log : List ℕ)
    → HasReceived sv st meta log
    → disk.saves ≢ damaged
    → meta.offset + length r.received ≢ meta.upload_length
    → IsAppended sv r meta log (write_patch sv disk r meta.offset meta st)
unfolding write_patch
write_patch-IsAppended sv disk r meta st log has sound more =
    let written = written_store-HasReceived sv r meta st log has in
    elim (Bool-cases disk.seeks) [
      | inr e ↦ rw e (
          refused-IsAppended sv r meta log 500 none (opened_store meta st)
            (opened_store-HasReceived sv meta st log has))
      | inl e ↦ elim (Bool-cases disk.reads_all) [
        | inr e' ↦
            rw (e, e')
              (refused-IsAppended sv r meta log 500 none (written_store r meta.offset meta st)
                written)
        | inl e' ↦ elim (Bool-cases (ltb meta.upload_length (meta.offset + length r.received))) [
          | inl over ↦
              rw (e, e', over)
                (refused-IsAppended sv r meta log 400 none (written_store r meta.offset meta st)
                  written)
          | inr fits ↦
              rw (e, e', fits)
                (record_progress-IsAppended sv disk r meta st log has sound more
                  (fits-declared meta.upload_length (meta.offset + length r.received) fits))
        ]
      ]
    ]

patch_locked-same :
    (sv : Server) (disk : Disk) (r : Patch) (meta : Upload) (st : Store) (offset : ℕ)
    → parse_not_negative (trim_space r.upload_offset) ≡ some offset
    → (offset == meta.offset) ≡ true
    → disk.opens ≡ true
    → patch_locked sv disk r meta st ≡ write_patch sv disk r offset meta st
unfolding patch_locked
patch_locked-same sv disk r meta st offset e same open_ = rw (e, patch_locked, same, open_) refl

patch_locked-IsAppended :
    (sv : Server) (disk : Disk) (r : Patch) (meta : Upload) (st : Store) (log : List ℕ)
    → HasReceived sv st meta log
    → disk.saves ≢ damaged
    → meta.offset + length r.received ≢ meta.upload_length
    → IsAppended sv r meta log (patch_locked sv disk r meta st)
unfolding patch_locked
patch_locked-IsAppended sv disk r meta st log has sound more =
    elim (Option-cases (parse_not_negative (trim_space r.upload_offset))) [
      | inl e ↦ rw (e, patch_locked) (refused-IsAppended sv r meta log 400 none st has)
      | inr (offset, e) ↦ elim (Bool-cases (offset == meta.offset)) [
        | inr other ↦
            rw (e, patch_locked, other)
              (refused-IsAppended sv r meta log 409 (some meta.offset) st has)
        | inl same ↦ elim (Bool-cases disk.opens) [
          | inr shut ↦
              rw (e, patch_locked, same, shut) (refused-IsAppended sv r meta log 500 none st has)
          | inl open_ ↦
              let run =
                patch_locked-same sv disk r meta st offset e same open_
                ∙ ap (λ o. write_patch sv disk r o meta st) ((==_iff offset meta.offset).0 same) in
              subst (IsAppended sv r meta log) (sym run)
                (write_patch-IsAppended sv disk r meta st log has sound more)
        ]
      ]
    ]

relocked-HasReceived :
    (sv : Server) (st : Store) (meta : Upload) (log : List ℕ) (locks : List String)
    → HasReceived sv st meta log
    → HasReceived sv (record st { locks = locks }) meta log
unfolding HasReceived
relocked-HasReceived sv st meta log locks has = has

unlocked-IsAppended :
    (sv : Server) (r : Patch) (meta : Upload) (log : List ℕ) (id : String) (answer : Reply × Store)
    → IsAppended sv r meta log answer
    → IsAppended sv r meta log (unlocked id answer)
unfolding IsAppended HasReceived
unlocked-IsAppended sv r meta log id (reply, st) appended = appended

-- A patch of an upload that has received the bytes of `log`, and that the patch does not complete,
-- is refused, and then the upload still has received these bytes, whatever part of the body was
-- written; or it is answered with the number of the bytes of `log` and of its own body, and then
-- the upload has received both, in this order. The operating system may fail in any way but to
-- damage the record when it is saved.
pub handle_tus_patch-IsAppended :
    (sv : Server) (disk : Disk) (r : Patch) (meta : Upload) (st : Store) (log : List ℕ)
    → HasReceived sv st meta log
    → load_tus_upload_meta sv (trim_space r.upload_id) st ≡ loaded meta
    → disk.saves ≢ damaged
    → meta.offset + length r.received ≢ meta.upload_length
    → IsAppended sv r meta log (handle_tus_patch sv disk r st)
unfolding handle_tus_patch
handle_tus_patch-IsAppended sv disk r meta st log has known sound more =
    elim (Bool-cases (validate_tus_request r.resumable)) [
      | inr e ↦ rw (e, handle_tus_patch) (refused-IsAppended sv r meta log 412 none st has)
      | inl e ↦
          elim (Bool-cases (str_eq (trim_space r.content_type) "application/offset+octet-stream")) [
            | inr e' ↦
                rw (e, handle_tus_patch, e') (refused-IsAppended sv r meta log 415 none st has)
            | inl e' ↦ elim (Bool-cases (holds meta.id st.locks)) [
              | inl busy ↦
                  rw (e, handle_tus_patch, e', known, busy)
                    (refused-IsAppended sv r meta log 409 (some meta.offset) st has)
              | inr free ↦
                  rw (e, handle_tus_patch, e', known, free)
                    (unlocked-IsAppended sv r meta log meta.id
                      (patch_locked sv disk r meta (record st { locks = meta.id ∷ st.locks }))
                      (patch_locked-IsAppended sv disk r meta
                        (record st { locks = meta.id ∷ st.locks }) log
                        (relocked-HasReceived sv st meta log (meta.id ∷ st.locks) has) sound more))
            ]
          ]
    ]
