-- ===== src/Files/Operations/TransferConfined.antt =====
-- internal/files/operations.go: where the calls of a move and of a copy go.
use yesnas_server.Prelude.{
  String, Bool, true, Option, none, some, ◌≡◌, refl, ap, sym, ◌∙◌, not, inl, inr, arith, ◌≢◌,
}
use mathlib.Core.Path.{subst}
use yesnas_server.Prelude.Text.{trim_space}
use yesnas_server.Prelude.FilePath.{join, is_abs}
use yesnas_server.Files.Disk.{
  Os, OsError, History, Storage, Storages, done, require, ◌>>=◌, ◌>>◌, done-injective,
  Outcome-cases, bind-done, need_ok-done, require-done,
}
use yesnas_server.Files.Paths.{is_path_within_root}
use yesnas_server.Files.Targets.{
  resolve_file_operation_source, resolve_conflict_target, resolve_operation_parent,
  normalize_conflict_policy, valid_file_name, Policy,
}
use yesnas_server.Files.Targets.Inside.{
  IsInside, resolve_file_operation_source-IsInside, resolve_conflict_target-IsInside,
}
use yesnas_server.Files.Operations.Calls.{Adds, Adds-nothing, Adds-carry_out}
use yesnas_server.Files.Operations.{
  move_path, copy_path, carry_out, Transfer, FileRequest, TransferBody, transfer_to, transfer_in,
  plan_transfer, handle_move, handle_copy, name_or_base,
}
use yesnas_server.Files.Operations.Confined.{IsConfined, move_path-IsConfined, copy_path-IsConfined}

transfer_to-IsInside :
    (into_self : String) (os : Os) (storage : Storage) (source parent name : String)
    (policy : Policy) (h : History) (t : Transfer)
    → is_abs storage.mount_path ≡ true
    → policy ≢ Policy.rename
    → transfer_to into_self os storage source parent name policy h ≡ done t
    → (t.source ≡ source) × IsInside storage.mount_path t.target
unfolding transfer_to
transfer_to-IsInside into_self os storage source parent name policy h t abs kept e =
    let root = storage.mount_path in
    let planned : String × Bool → Transfer =
      λ v. record { root = root; source = source; target = v.0; should_overwrite = v.1 } in
    let (v, accepted, e1) =
      need_ok-done (resolve_conflict_target os root source (join parent name) policy h) 400
        "INVALID_TARGET"
        (λ v. require (not (is_path_within_root source v.0)) 400 into_self >> done (planned v)) t
        e in
    let (apart, e2) =
      require-done (not (is_path_within_root source v.0)) 400 into_self (done (planned v)) t e1 in
    subst (λ t. (t.source ≡ source) × IsInside root t.target) (done-injective (planned v) t e2)
      (
        refl,
        resolve_conflict_target-IsInside os root source (join parent name) policy h v abs kept
            accepted,
      )

-- The body asks for another policy than new names.
unfoldable pub KeepsNames : Os → Option TransferBody → Type 0
KeepsNames os none = Unit
KeepsNames os (some req) = normalize_conflict_policy os req.conflict_policy ≢ done Policy.rename

transfer_in-IsInside :
    (into_self : String) (os : Os) (storage : Storage) (source : String)
    (body : Option TransferBody) (h : History) (t : Transfer)
    → is_abs storage.mount_path ≡ true
    → KeepsNames os body
    → transfer_in into_self os storage source body h ≡ done t
    → (t.source ≡ source) × IsInside storage.mount_path t.target
unfolding transfer_in KeepsNames
transfer_in-IsInside into_self os storage source none h t abs kept e = absurd (ground (arith, e))
transfer_in-IsInside into_self os storage source (some req) h t abs kept e =
    let name = name_or_base req.name source in
    let (parent, resolved, e1) =
      bind-done (resolve_operation_parent os storage req.parent_id h)
        (λ parent.
          require (valid_file_name name) 400 "INVALID_FILE_NAME"
          >> (normalize_conflict_policy os req.conflict_policy >>= λ policy.
              transfer_to into_self os storage source parent name policy h))
        t e in
    let (valid, e2) =
      require-done (valid_file_name name) 400 "INVALID_FILE_NAME"
        (normalize_conflict_policy os req.conflict_policy >>= λ policy.
          transfer_to into_self os storage source parent name policy h)
        t e1 in
    let (policy, normal, e3) =
      bind-done (normalize_conflict_policy os req.conflict_policy)
        (λ policy. transfer_to into_self os storage source parent name policy h) t e2 in
    transfer_to-IsInside into_self os storage source parent name policy h t abs
      (λ same. kept (normal ∙ ap done same)) e3

plan_transfer-IsInside :
    (into_self : String) (os : Os) (storages : Storages) (r : FileRequest TransferBody)
    (h : History) (storage : Storage) (t : Transfer)
    → storages (trim_space r.storage) ≡ some storage
    → is_abs storage.mount_path ≡ true
    → KeepsNames os r.body
    → plan_transfer into_self os storages r h ≡ done t
    → IsInside storage.mount_path t.source × IsInside storage.mount_path t.target
unfolding plan_transfer
plan_transfer-IsInside into_self os storages r h storage t known abs kept e =
    let (w, resolved, e1) =
      bind-done (resolve_file_operation_source os storages r.storage r.file_id h)
        (λ w. transfer_in into_self os w.0 w.1 r.body h) t e in
    let (same, inside) =
      resolve_file_operation_source-IsInside os storages r.storage r.file_id h storage w known abs
        resolved in
    let (source, target) =
      transfer_in-IsInside into_self os storage w.1 r.body h t abs kept
        (subst (λ st. transfer_in into_self os st w.1 r.body h ≡ done t) same e1) in
    (subst (IsInside storage.mount_path) (sym source) inside, target)

carry_out-IsConfined :
    (os : Os) (root failed : String)
    (transfer : Os → String → String → History → Option OsError × History) (t : Transfer)
    (h : History)
    → IsInside root t.target
    → ((h1 : History) → Adds (IsConfined root) h1 (transfer os t.source t.target h1).1)
    → Adds (IsConfined root) h (carry_out os transfer failed t h).1
unfolding IsConfined
carry_out-IsConfined os root failed transfer t h inside moves =
    Adds-carry_out (IsConfined root) os transfer failed t h inside inside moves

-- HandleMove calls the operating system only for paths in the storage that are not in its trash,
-- whatever the request, the files and the results of the calls are, when the storage is mounted
-- at an absolute path and the request does not ask for a new name on a conflict.
pub handle_move-IsConfined :
    (os : Os) (storages : Storages) (r : FileRequest TransferBody) (h : History) (storage : Storage)
    → storages (trim_space r.storage) ≡ some storage
    → is_abs storage.mount_path ≡ true
    → KeepsNames os r.body
    → Adds (IsConfined storage.mount_path) h (handle_move os storages r h).1
unfolding handle_move
handle_move-IsConfined os storages r h storage known abs kept =
    elim (Outcome-cases (plan_transfer "MOVE_INTO_SELF" os storages r h)) [
      | inl (s, (c, e)) ↦ rw (e, handle_move) (Adds-nothing (IsConfined storage.mount_path) h)
      | inr (t, e) ↦
          let (source, target) =
            plan_transfer-IsInside "MOVE_INTO_SELF" os storages r h storage t known abs kept e in
          rw (e, handle_move)
            (carry_out-IsConfined os storage.mount_path "MOVE_FILE_FAILED" move_path t h target
              (λ h1. move_path-IsConfined os storage.mount_path t.source t.target h1 source target))
    ]

-- HandleCopy calls the operating system only for paths in the storage that are not in its trash,
-- whatever the request, the files and the results of the calls are, when the storage is mounted
-- at an absolute path and the request does not ask for a new name on a conflict.
pub handle_copy-IsConfined :
    (os : Os) (storages : Storages) (r : FileRequest TransferBody) (h : History) (storage : Storage)
    → storages (trim_space r.storage) ≡ some storage
    → is_abs storage.mount_path ≡ true
    → KeepsNames os r.body
    → Adds (IsConfined storage.mount_path) h (handle_copy os storages r h).1
unfolding handle_copy
handle_copy-IsConfined os storages r h storage known abs kept =
    elim (Outcome-cases (plan_transfer "COPY_INTO_SELF" os storages r h)) [
      | inl (s, (c, e)) ↦ rw (e, handle_copy) (Adds-nothing (IsConfined storage.mount_path) h)
      | inr (t, e) ↦
          let (source, target) =
            plan_transfer-IsInside "COPY_INTO_SELF" os storages r h storage t known abs kept e in
          rw (e, handle_copy)
            (carry_out-IsConfined os storage.mount_path "COPY_FILE_FAILED" copy_path t h target
              (λ h1. copy_path-IsConfined os storage.mount_path t.source t.target h1 source target))
    ]
