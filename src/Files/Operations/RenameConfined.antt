-- ===== src/Files/Operations/RenameConfined.antt =====
-- internal/files/operations.go: where the calls of a rename go.
use yesnas_server.Prelude.{String, true, Option, some, ◌≡◌, refl, sym, inl, inr, arith}
use mathlib.Core.Path.{subst}
use yesnas_server.Prelude.Result.{ok, Result-cases}
use yesnas_server.Prelude.Text.{trim_space}
use yesnas_server.Prelude.FilePath.{join, dir, is_abs}
use yesnas_server.Files.Disk.{
  Os, History, Storage, Storages, done, require, need_ok, ◌>>=◌, ◌>>◌, done-injective,
  Outcome-cases, bind-done, need-done, need_ok-done, require-done,
}
use yesnas_server.Files.Targets.{
  resolve_file_operation_source, valid_file_name, validate_operation_target,
  validate_operation_target_base,
}
use yesnas_server.Files.Targets.Inside.{
  IsInside, resolve_file_operation_source-IsInside, validate_operation_target_base-IsInside,
  IsInside-clean,
}
use yesnas_server.Files.Operations.Calls.{Adds, Adds-nothing, Adds-answer_operation}
use yesnas_server.Files.Operations.{move_path, FileRequest, rename_in, plan_rename, handle_rename}
use yesnas_server.Files.Operations.Confined.{IsConfined, move_path-IsConfined}

validate_operation_target-base :
    (os : Os) (root source target : String) (h : History) (u : Unit {0})
    → validate_operation_target os root source target h ≡ ok u
    → (u' : Unit {0}) × (validate_operation_target_base root source target ≡ ok u')
unfolding validate_operation_target
validate_operation_target-base os root source target h u e =
    elim (Result-cases (validate_operation_target_base root source target)) [
      | inl (m, bad) ↦ absurd (ground (arith, bad, e))
      | inr (u', valid) ↦ (u', valid)
    ]

rename_in-IsInside :
    (os : Os) (storage : Storage) (source : String) (body : Option String) (h : History)
    (v : String × String × String)
    → is_abs storage.mount_path ≡ true
    → rename_in os storage source body h ≡ done v
    → (v.1 ≡ source) × IsInside storage.mount_path v.2
unfolding rename_in
rename_in-IsInside os storage source body h v abs e =
    let root = storage.mount_path in
    let (name, is_name, e1) =
      need-done body 400 "INVALID_BODY"
        (λ name.
          require (valid_file_name (trim_space name)) 400 "INVALID_FILE_NAME"
          >> (need_ok
                (validate_operation_target os root source (join (dir source) (trim_space name)) h)
                400 "INVALID_TARGET"
              >>= λ u. done (root, source, join (dir source) (trim_space name))))
        v e in
    let target = join (dir source) (trim_space name) in
    let (valid, e2) =
      require-done (valid_file_name (trim_space name)) 400 "INVALID_FILE_NAME"
        (need_ok (validate_operation_target os root source target h) 400 "INVALID_TARGET" >>= λ u.
          done (root, source, target))
        v e1 in
    let (u, accepted, e3) =
      need_ok-done (validate_operation_target os root source target h) 400 "INVALID_TARGET"
        (λ u. done (root, source, target)) v e2 in
    let (u', base) = validate_operation_target-base os root source target h u accepted in
    let inside = validate_operation_target_base-IsInside root source target u' abs base in
    subst (λ w. (w.1 ≡ source) × IsInside root w.2) (done-injective (root, source, target) v e3)
      (refl, IsInside-clean root target abs inside)

plan_rename-IsInside :
    (os : Os) (storages : Storages) (r : FileRequest String) (h : History) (storage : Storage)
    (v : String × String × String)
    → storages (trim_space r.storage) ≡ some storage
    → is_abs storage.mount_path ≡ true
    → plan_rename os storages r h ≡ done v
    → IsInside storage.mount_path v.1 × IsInside storage.mount_path v.2
unfolding plan_rename
plan_rename-IsInside os storages r h storage v known abs e =
    let (w, resolved, e1) =
      bind-done (resolve_file_operation_source os storages r.storage r.file_id h)
        (λ w. rename_in os w.0 w.1 r.body h) v e in
    let (same, inside) =
      resolve_file_operation_source-IsInside os storages r.storage r.file_id h storage w known abs
        resolved in
    let (kept, target) =
      rename_in-IsInside os storage w.1 r.body h v abs
        (subst (λ st. rename_in os st w.1 r.body h ≡ done v) same e1) in
    (subst (IsInside storage.mount_path) (sym kept) inside, target)

-- HandleRename calls the operating system only for paths in the storage that are not in its
-- trash, whatever the request, the files and the results of the calls are, when the storage is
-- mounted at an absolute path.
pub handle_rename-IsConfined :
    (os : Os) (storages : Storages) (r : FileRequest String) (h : History) (storage : Storage)
    → storages (trim_space r.storage) ≡ some storage
    → is_abs storage.mount_path ≡ true
    → Adds (IsConfined storage.mount_path) h (handle_rename os storages r h).1
unfolding handle_rename
handle_rename-IsConfined os storages r h storage known abs =
    elim (Outcome-cases (plan_rename os storages r h)) [
      | inl (s, (c, e)) ↦ rw (e, handle_rename) (Adds-nothing (IsConfined storage.mount_path) h)
      | inr (v, e) ↦
          let (source, target) = plan_rename-IsInside os storages r h storage v known abs e in
          rw (e, handle_rename)
            (Adds-answer_operation (IsConfined storage.mount_path) os v.0 v.2 "RENAME_FILE_FAILED" h
              (move_path os v.1 v.2 h)
              (move_path-IsConfined os storage.mount_path v.1 v.2 h source target))
    ]
