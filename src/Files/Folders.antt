-- ===== src/Files/Folders.antt =====
-- internal/files/operations.go: HandleConflictCheck; folders.go: HandleCreateFolder.
pub mod Below
use yesnas_server.Prelude.{
  String, true, false, Option, none, some, ◌||◌, not, str_eq, if◌then◌else◌,
}
use yesnas_server.Prelude.Text.{trim_space, is_empty}
use yesnas_server.Prelude.FilePath.{clean, join, base}
use yesnas_server.Files.Disk.{
  Os, OsError, exist, Info, Stat, found, unreadable, mkdir, sudo_mkdir, History, Storage, Storages,
  Outcome, done, refused, ◌>>=◌, ◌>>◌, require, need, need_ok, perform, is_not_exist, is_exist,
  is_permission, FileNodeType, folder_type, file_type,
}
use yesnas_server.Files.Paths.{encode_file_path, decode_file_id, is_path_within_root}
use yesnas_server.Files.Targets.{
  resolve_file_operation_source, resolve_operation_parent, valid_file_name,
  validate_operation_target_base,
}
use yesnas_server.Files.Operations.{
  FileRequest, TransferBody, Reply, api_error, checked, folder_created, name_or_base,
}

-- The path that HandleConflictCheck asks about, its folder and its name.
unfoldable pub plan_conflict_check :
    Os → Storages → FileRequest TransferBody → History → Outcome (String × String × String)
unfolding resolve_file_operation_source resolve_operation_parent valid_file_name join
    validate_operation_target_base name_or_base
plan_conflict_check os storages r h = do
  (storage, source) ← resolve_file_operation_source os storages r.storage r.file_id h
  body ← need r.body 400 "INVALID_BODY"
  parent ← resolve_operation_parent os storage body.parent_id h
  let name = name_or_base body.name source
  require (valid_file_name name) 400 "INVALID_FILE_NAME"
  let target = join parent name
  need_ok (validate_operation_target_base storage.mount_path source target) 400 "INVALID_TARGET"
  done (parent, name, target)

abbrev node_type : Info → FileNodeType
node_type info = if info.is_dir then folder_type else file_type

unfoldable pub handle_conflict_check : Os → Storages → FileRequest TransferBody → History → Reply
unfolding plan_conflict_check encode_file_path
handle_conflict_check os storages r h = elim (plan_conflict_check os storages r h) [
  | refused status code ↦ api_error status code
  | done (parent, name, target) ↦ elim (os.stat h target) [
    | found info ↦ checked (record {
      has_conflict = true;
      name = name;
      parent_id = encode_file_path os parent;
      target_id = encode_file_path os target;
      target_type = some (node_type info);
    })
    | unreadable e ↦
        if is_not_exist e
        then checked (record {
          has_conflict = false;
          name = name;
          parent_id = encode_file_path os parent;
          target_id = "";
          target_type = none;
        })
        else api_error 500 "STAT_TARGET_FAILED"
  ]
]

pub record CreateFolderBody : Type 0 where
  pub storage_id : String
  pub parent_id : String
  pub name : String

-- What is there after a failed mkdir by the administrator is an error of its own.
abbrev exists_or : OsError → Stat → Option OsError
exists_or e (found info) = some (record { kind = exist; message = "file already exists" })
exists_or e (unreadable e') = some e

unfoldable pub create_folder : Os → String → History → Option OsError × History
unfolding perform
create_folder os target h =
    let (made, h1) = perform os (mkdir target) h in
    elim made [
      | none ↦ (none, h1)
      | some e ↦
          if not (is_permission e)
          then (some e, h1)
          else let (made_by_sudo, h2) = perform os (sudo_mkdir target) h1 in
            elim made_by_sudo [
              | none ↦ (none, h2)
              | some e' ↦ (exists_or e' (os.stat h2 target), h2)
            ]
    ]

-- The folder that a new folder goes into.
unfoldable pub parent_of_new_folder : Os → String → String → Outcome String
unfolding clean decode_file_id
parent_of_new_folder os root parent_id =
    if is_empty parent_id
    then done (clean root)
    else need (decode_file_id os parent_id) 400 "INVALID_PARENT_ID"

-- The checks of the parent and of the path of a new folder.
unfoldable pub place_folder : String → String → String → Outcome (String × String × String)
unfolding join is_path_within_root
place_folder root parent name = do
  require (is_path_within_root root parent) 400 "PARENT_OUT_OF_RANGE"
  require (is_path_within_root root (join parent name)) 400 "TARGET_PATH_INVALID"
  done (parent, join parent name, name)

-- The checks of the name, and the folder that the new one goes into.
unfoldable pub folder_in : Os → Storage → CreateFolderBody → Outcome (String × String × String)
unfolding trim_space base parent_of_new_folder place_folder
folder_in os storage req = do
  let name = trim_space req.name
  require (not (is_empty name)) 400 "NAME_REQUIRED"
  require (not (str_eq name "." || str_eq name ".." || not (str_eq name (base name)))) 400
      "INVALID_FOLDER_NAME"
  parent ← parent_of_new_folder os storage.mount_path req.parent_id
  place_folder storage.mount_path parent name

abbrev pub storage_id_of : String → CreateFolderBody → String
storage_id_of storage_id req = if is_empty storage_id then req.storage_id else storage_id

-- HandleCreateFolder up to the call: the folder it is created in, its path and its name.
unfoldable pub plan_create_folder :
    Os → Storages → String → Option CreateFolderBody → Outcome (String × String × String)
unfolding folder_in
plan_create_folder os storages storage_id body = do
  req ← need body 400 "INVALID_BODY"
  require (not (is_empty (storage_id_of storage_id req))) 400 "STORAGE_ID_REQUIRED"
  storage ← need (storages (storage_id_of storage_id req)) 404 "STORAGE_NOT_FOUND"
  folder_in os storage req

unfoldable pub handle_create_folder :
    Os → Storages → String → Option CreateFolderBody → History → Reply × History
unfolding plan_create_folder create_folder encode_file_path
handle_create_folder os storages storage_id body h =
    elim (plan_create_folder os storages storage_id body) [
      | refused status code ↦ (api_error status code, h)
      | done (parent, target, name) ↦
          let (created, h1) = create_folder os target h in
          elim created [
            | some e ↦ (
              if is_exist e
                  then api_error 409 "FOLDER_ALREADY_EXISTS"
                  else api_error 500 "CREATE_FOLDER_FAILED",
              h1,
            )
            | none ↦
                (folder_created (encode_file_path os target) (encode_file_path os parent) name, h1)
          ]
    ]
