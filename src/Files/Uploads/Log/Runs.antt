-- ===== src/Files/Uploads/Log/Runs.antt =====
-- internal/files/uploads.go: one patch after the other, with a log of bytes as specification.
use yesnas_server.Prelude.{
  ℕ, ◌+◌, ◌<◌, String, false, List, [], ◌∷◌, ◌++◌, ◌≡◌, ◌≢◌, refl, ap, sym, length, length-append,
  if◌then◌else◌, inl, inr, arith, All,
}
use mathlib.Core.Path.{subst}
use mathlib.Core.List.{append-nil, append_assoc}
use yesnas_server.Prelude.Text.{trim_space, is_empty}
use yesnas_server.Files.Uploads.{Upload, Server, Store}
use yesnas_server.Files.Uploads.Handlers.{
  Disk, damaged, Reply, Patch, advanced, handle_tus_patch, loaded, load_tus_upload_meta,
}
use yesnas_server.Files.Uploads.Log.{HasReceived, IsAppended, is_progress}
use yesnas_server.Files.Uploads.Log.Patches.{handle_tus_patch-IsAppended}

-- The answers to patches that come one after the other, and the store after them.
unfoldable pub run_patches : Server → List (Disk × Patch) → Store → List Reply × Store
unfolding handle_tus_patch
run_patches sv [] st = ([], st)
run_patches sv ((disk, r) ∷ rs) st =
    let (reply, st1) = handle_tus_patch sv disk r st in
    let (replies, st2) = run_patches sv rs st1 in (reply ∷ replies, st2)

-- The specification: the log is made of the bodies that were answered with an offset.
abbrev pub accepted : List (Disk × Patch) → List Reply → List ℕ
accepted ((disk, r) ∷ rs) (reply ∷ replies) =
    let rest = accepted rs replies in if is_progress reply then r.received ++ rest else rest
accepted _ _ = []

abbrev pub total : List (Disk × Patch) → ℕ
total [] = 0
total ((disk, r) ∷ rs) = length r.received + total rs

-- The patch names the upload, and the record is not damaged when it is saved.
unfoldable pub IsFor : String → Disk × Patch → Type 0
IsFor id (disk, r) = (trim_space r.upload_id ≡ id) × (disk.saves ≢ damaged)

HasReceived-loaded :
    (sv : Server) (st : Store) (meta : Upload) (log : List ℕ) (id : String)
    → HasReceived sv st meta log
    → is_empty meta.id ≡ false
    → id ≡ meta.id
    → load_tus_upload_meta sv id st ≡ loaded meta
unfolding HasReceived load_tus_upload_meta
HasReceived-loaded sv st meta log id has named same = rw (same, named, has.0) refl

HasReceived-less :
    (sv : Server) (st : Store) (meta : Upload) (log : List ℕ) (n m : ℕ)
    → HasReceived sv st meta log
    → length log + (n + m) < meta.upload_length
    → meta.offset + n ≢ meta.upload_length
unfolding HasReceived
HasReceived-less sv st meta log n m has less e = ground (arith, has.1, less, e)

-- Patches of one upload, one after the other, whatever their headers, their bodies and the
-- failures of the operating system are, but a damaged record, and too few to complete the upload:
-- after them the upload has received the bytes that it had received before, and then the bodies
-- of exactly the patches that were answered with an offset, in their order.
pub run_patches-HasReceived :
    (sv : Server) (rs : List (Disk × Patch)) (st : Store) (meta : Upload) (log : List ℕ)
    → HasReceived sv st meta log
    → is_empty meta.id ≡ false
    → All (IsFor meta.id) rs
    → length log + total rs < meta.upload_length
    → (after : Upload) × (after.id ≡ meta.id)
      × (after.upload_length ≡ meta.upload_length)
      × HasReceived sv (run_patches sv rs st).1 after (log ++ accepted rs (run_patches sv rs st).0)
unfolding run_patches IsFor IsAppended
run_patches-HasReceived sv [] st meta log has named for_it less =
    (meta, refl, refl, subst (HasReceived sv st meta) (sym (append-nil log)) has)
run_patches-HasReceived sv ((disk, r) ∷ rs) st meta log has named for_it less =
    let answer = handle_tus_patch sv disk r st in
    let step : IsAppended sv r meta log answer =
      handle_tus_patch-IsAppended sv disk r meta st log has
        (HasReceived-loaded sv st meta log (trim_space r.upload_id) has named for_it.0.0) for_it.0.1
        (HasReceived-less sv st meta log (length r.received) (total rs) has less) in
    elim step [
      | inl (answered, has') ↦
          let (after, id, size, received) =
            run_patches-HasReceived sv rs answer.1 (advanced r meta) (log ++ r.received) has' named
              for_it.1 (ground (arith, less, length-append log r.received)) in
          (
            after,
            id,
            size,
            rw (ap is_progress answered) (
                subst (HasReceived sv (run_patches sv rs answer.1).1 after)
                  (append_assoc log r.received (accepted rs (run_patches sv rs answer.1).0))
                  received),
          )
      | inr (refused, has') ↦
          let (after, id, size, received) =
            run_patches-HasReceived sv rs answer.1 meta log has' named for_it.1
              (ground (arith, less)) in
          (after, id, size, rw refused received)
    ]
