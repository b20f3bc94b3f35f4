-- ===== src/Files/Operations.antt =====
-- internal/files/operations.go and folders.go: the handlers that rename, move, copy and check
-- files and create folders, with the calls of the operating system that they make.
pub mod Calls
pub mod Confined
pub mod RenameConfined
pub mod TransferConfined
use Prim.Native.String
use yesnas_server.Prelude.{
  ℕ, String, Bool, true, false, Option, none, some, List, ◌≡◌, refl, ◌&&◌, ◌||◌, not, str_eq,
  if◌then◌else◌,
}
use yesnas_server.Prelude.Result.{Result, ok, err}
use yesnas_server.Prelude.Text.{trim_space, is_empty}
use yesnas_server.Prelude.FilePath.{clean, join, base, dir, rel}
use yesnas_server.Files.Disk.{
  Os, OsError, Info, Stat, found, unreadable, Call, rename, sudo_mv, sudo_cp, remove_all,
  sudo_rm_all, mkdir, sudo_mkdir, History, Storage, Storages, Outcome, done, refused, ◌>>=◌, ◌>>◌,
  require, need, need_ok, perform, is_not_exist, is_exist, is_permission, is_cross_device_rename,
  FileNodeType, folder_type, file_type,
}
use yesnas_server.Files.Paths.{encode_file_path, decode_file_id, is_path_within_root}
use yesnas_server.Files.Targets.{
  resolve_file_operation_source, resolve_operation_parent, valid_file_name,
  validate_operation_target, validate_operation_target_base, normalize_conflict_policy,
  resolve_conflict_target, Policy,
}

pub record FileOperationResponse : Type 0 where
  pub id : String
  pub parent_id : String
  pub name : String
  pub type : FileNodeType
  pub path : String

pub record FileConflictCheckResponse : Type 0 where
  pub has_conflict : Bool
  pub name : String
  pub parent_id : String
  pub target_id : String
  pub target_type : Option FileNodeType

-- What a client is answered; of an error the status and the code.
pub data Reply : Type 0 where
  api_error : ℕ → String → Reply
  operated : FileOperationResponse → Reply
  checked : FileConflictCheckResponse → Reply
  folder_created : String → String → String → Reply

-- A request about a file; `none` is a body that is no JSON.
pub record FileRequest (Body : Type 0) : Type 0 where
  pub storage : String
  pub file_id : String
  pub body : Option Body

-- MoveFileRequest, CopyFileRequest; FileConflictCheckRequest has no policy.
pub record TransferBody : Type 0 where
  pub parent_id : String
  pub name : String
  pub conflict_policy : String

unfoldable pub move_path : Os → String → String → History → Option OsError × History
unfolding perform is_cross_device_rename
move_path os source target h =
    let (renamed, h1) = perform os (rename source target) h in
    elim renamed [
      | none ↦ (none, h1)
      | some e ↦
          if not (is_permission e) && not (is_cross_device_rename os e)
          then (some e, h1)
          else perform os (sudo_mv source target) h1
    ]

unfoldable pub copy_path : Os → String → String → History → Option OsError × History
unfolding perform
copy_path os source target h = perform os (sudo_cp source target) h

unfoldable pub remove_path : Os → String → History → Option OsError × History
unfolding perform
remove_path os target h =
    let (removed, h1) = perform os (remove_all target) h in
    elim removed [
      | none ↦ (none, h1)
      | some e ↦ if not (is_permission e) then (some e, h1) else perform os (sudo_rm_all target) h1
    ]

abbrev type_of : Stat → FileNodeType
type_of (found info) = if info.is_dir then folder_type else file_type
type_of (unreadable e) = file_type

abbrev or_empty : Option String → String
or_empty none = ""
or_empty (some r) = r

unfoldable pub build_file_operation_response :
    Os → String → String → History → FileOperationResponse
unfolding encode_file_path dir base rel
build_file_operation_response os root path h = record {
  id = encode_file_path os path;
  parent_id = encode_file_path os (dir path);
  name = base path;
  type = type_of (os.stat h path);
  path = or_empty (rel root path);
}

-- The answer after a call that may fail.
unfoldable pub answer_operation :
    Os → String → String → String → Option OsError × History → Reply × History
unfolding build_file_operation_response
answer_operation os root target code (some e, h) = (api_error 500 code, h)
answer_operation os root target code (none, h) =
    (operated (build_file_operation_response os root target h), h)

-- The path that a file in the storage is renamed to.
unfoldable pub rename_in :
    Os → Storage → String → Option String → History → Outcome (String × String × String)
unfolding trim_space valid_file_name join dir validate_operation_target
rename_in os storage source body h = do
  name ← need body 400 "INVALID_BODY"
  require (valid_file_name (trim_space name)) 400 "INVALID_FILE_NAME"
  let target = join (dir source) (trim_space name)
  need_ok (validate_operation_target os storage.mount_path source target h) 400 "INVALID_TARGET"
  done (storage.mount_path, source, target)

-- HandleRename up to the call: the root, the path of the file and the path it gets.
unfoldable pub plan_rename :
    Os → Storages → FileRequest String → History → Outcome (String × String × String)
unfolding resolve_file_operation_source rename_in
plan_rename os storages r h = do
  (storage, source) ← resolve_file_operation_source os storages r.storage r.file_id h
  rename_in os storage source r.body h

unfoldable pub handle_rename : Os → Storages → FileRequest String → History → Reply × History
unfolding plan_rename move_path answer_operation
handle_rename os storages r h = elim (plan_rename os storages r h) [
  | refused status code ↦ (api_error status code, h)
  | done (root, source, target) ↦
      answer_operation os root target "RENAME_FILE_FAILED" (move_path os source target h)
]

unfoldable pub name_or_base : String → String → String
unfolding trim_space base
name_or_base name source = if is_empty (trim_space name) then base source else trim_space name

-- What a move or a copy does: which folder's file goes where, and what is removed first.
pub record Transfer : Type 0 where
  pub root : String
  pub source : String
  pub target : String
  pub should_overwrite : Bool

-- The checks of the path that a file is moved or copied to.
unfoldable pub transfer_to :
    String → Os → Storage → String → String → String → Policy → History → Outcome Transfer
unfolding join resolve_conflict_target is_path_within_root
transfer_to into_self os storage source parent name policy h = do
  (target, should_overwrite) ←
      need_ok (resolve_conflict_target os storage.mount_path source (join parent name) policy h) 400
        "INVALID_TARGET"
  require (not (is_path_within_root source target)) 400 into_self
  done (record {
    root = storage.mount_path;
    source = source;
    target = target;
    should_overwrite = should_overwrite;
  })

unfoldable pub transfer_in :
    String → Os → Storage → String → Option TransferBody → History → Outcome Transfer
unfolding resolve_operation_parent valid_file_name normalize_conflict_policy name_or_base
    transfer_to
transfer_in into_self os storage source body h = do
  req ← need body 400 "INVALID_BODY"
  parent ← resolve_operation_parent os storage req.parent_id h
  let name = name_or_base req.name source
  require (valid_file_name name) 400 "INVALID_FILE_NAME"
  policy ← normalize_conflict_policy os req.conflict_policy
  transfer_to into_self os storage source parent name policy h

-- HandleMove and HandleCopy up to their first call; the code is that of a target in the source.
unfoldable pub plan_transfer :
    String → Os → Storages → FileRequest TransferBody → History → Outcome Transfer
unfolding resolve_file_operation_source transfer_in
plan_transfer into_self os storages r h = do
  (storage, source) ← resolve_file_operation_source os storages r.storage r.file_id h
  transfer_in into_self os storage source r.body h

-- The call that moves or copies, once the target was cleared.
unfoldable pub after_overwrite :
    Os
    → (Os → String → String → History → Option OsError × History)
    → String
    → Transfer
    → Option OsError × History
    → Reply × History
unfolding answer_operation
after_overwrite os transfer failed t (some e, h) = (api_error 500 "OVERWRITE_TARGET_FAILED", h)
after_overwrite os transfer failed t (none, h) =
    answer_operation os t.root t.target failed (transfer os t.source t.target h)

-- The rest of the two handlers, with the call that moves or copies.
unfoldable pub carry_out :
    Os
    → (Os → String → String → History → Option OsError × History)
    → String
    → Transfer
    → History
    → Reply × History
unfolding remove_path after_overwrite
carry_out os transfer failed t h =
    after_overwrite os transfer failed t
      (if t.should_overwrite then remove_path os t.target h else (none, h))

unfoldable pub handle_move : Os → Storages → FileRequest TransferBody → History → Reply × History
unfolding plan_transfer carry_out move_path
handle_move os storages r h = elim (plan_transfer "MOVE_INTO_SELF" os storages r h) [
  | refused status code ↦ (api_error status code, h)
  | done t ↦ carry_out os move_path "MOVE_FILE_FAILED" t h
]

unfoldable pub handle_copy : Os → Storages → FileRequest TransferBody → History → Reply × History
unfolding plan_transfer carry_out copy_path
handle_copy os storages r h = elim (plan_transfer "COPY_INTO_SELF" os storages r h) [
  | refused status code ↦ (api_error status code, h)
  | done t ↦ carry_out os copy_path "COPY_FILE_FAILED" t h
]
