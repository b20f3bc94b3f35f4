-- ===== src/Files/Trash.antt =====
-- internal/files/trash.go: HandleDelete, the move of a file to the trash of its storage; store.go:
-- the records of the trash and of the favourites.
pub mod Named
pub mod Undone
use Prim.Native.String
use yesnas_server.Prelude.{
  ℕ, String, Bool, true, false, Option, none, some, List, [], ◌∷◌, ◌++◌, ◌≡◌, refl, ◌&&◌, not,
  str_eq, if◌then◌else◌,
}
use yesnas_server.Prelude.Text.{is_empty}
use yesnas_server.Prelude.FilePath.{clean, join, join_all, base, rel}
use yesnas_server.Prelude.Table.{delete_where}
use yesnas_server.Files.Disk.{
  Os, OsError, Info, Stat, Call, rename, mkdir_all, History, Storage, Storages, Outcome, done,
  refused, ◌>>=◌, ◌>>◌, require, need, perform,
}
use yesnas_server.Files.Paths.{decode_file_id, is_path_within_root}
use yesnas_server.Files.Targets.{need_file, trash_of}

-- The columns that are read here; deleted_at and expires_at have their defaults.
pub record RecycleBinItem : Type 0 where
  pub id : String
  pub storage_id : String
  pub file_name : String
  pub original_path : String
  pub recycle_path : String
  pub file_type : String
  pub size : ℕ

pub record Favorite : Type 0 where
  pub id : String
  pub storage_id : String
  pub file_path : String

pub record Records : Type 0 where
  pub recycle_bin : List RecycleBinItem
  pub favorites : List Favorite

-- The identifiers drawn, the date, and whether the two statements reach the database.
pub record Deletion : Type 0 where
  pub name_id : String
  pub record_id : String
  pub year : String
  pub month : String
  pub day : String
  pub inserts : Bool
  pub deletes : Bool

pub data Reply : Type 0 where
  api_error : ℕ → String → Reply
  recycled : RecycleBinItem → Reply

unfoldable pub add_recycle_bin_item :
    Bool → String → RecycleBinItem → Records → Option RecycleBinItem × Records
add_recycle_bin_item inserts new_id item db =
    let stored = record item { id = if str_eq item.id "" then new_id else item.id } in
    if inserts
    then (some stored, record db { recycle_bin = db.recycle_bin ++ stored ∷ [] })
    else (none, db)

unfoldable pub delete_favorite_by_path : Bool → String → String → Records → Records
delete_favorite_by_path deletes storage_id path db =
    if deletes
    then record db {
      favorites =
          delete_where (λ f. str_eq f.storage_id storage_id && str_eq f.file_path path)
            db.favorites;
    }
    else db

unfoldable pub build_trash_dir : String → Deletion → String
unfolding join_all
build_trash_dir root d = join_all (root ∷ ".trash" ∷ d.year ∷ d.month ∷ d.day ∷ [])

unfoldable pub unique_trash_name : String → String → String
unfolding base
unique_trash_name id name = String.◌++◌ id (String.◌++◌ "_" (base name))

-- Where a file goes.
unfoldable pub trash_target : String → Deletion → Info → String
unfolding build_trash_dir unique_trash_name join
trash_target root d info = join (build_trash_dir root d) (unique_trash_name d.name_id info.name)

-- HandleDelete up to the first call: the storage, the file, what it is, and its relative path.
unfoldable pub plan_delete :
    Os → Storages → String → String → History → Outcome (Storage × String × Info × String)
unfolding decode_file_id is_path_within_root trash_of rel
plan_delete os storages storage_id file_id h = do
  require (not (is_empty file_id)) 400 "FILE_ID_REQUIRED"
  storage ← need (storages storage_id) 404 "STORAGE_NOT_FOUND"
  source ← need (decode_file_id os file_id) 400 "INVALID_FILE_ID"
  require (is_path_within_root storage.mount_path source) 400 "PATH_OUT_OF_RANGE"
  require (not (is_path_within_root (trash_of storage.mount_path) source)) 400 "ALREADY_IN_TRASH"
  info ← need_file (os.stat h source) "FILE_NOT_FOUND" "STAT_FILE_FAILED"
  original ← need (rel storage.mount_path source) 500 "REL_PATH_FAILED"
  done (storage, source, info, original)

abbrev pub trash_item : String → Info → String → String → RecycleBinItem
trash_item storage_id info original recycle = record {
  id = "";
  storage_id = storage_id;
  file_name = info.name;
  original_path = original;
  recycle_path = recycle;
  file_type = if info.is_dir then "folder" else "file";
  size = info.size;
}

-- The answer after the statement of the trash record; a file without a record is moved back.
abbrev pub after_record :
    Os
    → Bool
    → String
    → String
    → String
    → String
    → History
    → Option RecycleBinItem × Records
    → Reply × History × Records
unfolding perform delete_favorite_by_path
after_record os deletes storage_id original source target h (none, db) =
    (api_error 500 "RECYCLE_RECORD_FAILED", (perform os (rename target source) h).1, db)
after_record os deletes storage_id original source target h (some item, db) =
    (recycled item, h, delete_favorite_by_path deletes storage_id original db)

-- After the file was moved.
unfoldable pub record_deletion :
    Os
    → Deletion
    → String
    → String
    → String
    → String
    → Info
    → String
    → History
    → Records
    → Reply × History × Records
unfolding rel perform add_recycle_bin_item after_record
record_deletion os d storage_id root source target info original h db = elim (rel root target) [
  | none ↦ (api_error 500 "TRASH_REL_PATH_FAILED", (perform os (rename target source) h).1, db)
  | some recycle ↦
      after_record os d.deletes storage_id original source target h (
        add_recycle_bin_item d.inserts d.record_id (trash_item storage_id info original recycle) db)
]

-- The calls of HandleDelete.
unfoldable pub move_to_trash :
    Os
    → Deletion
    → String
    → String
    → String
    → Info
    → String
    → History
    → Records
    → Reply × History × Records
unfolding build_trash_dir trash_target perform record_deletion
move_to_trash os d storage_id root source info original h db =
    let target = trash_target root d info in
    let (made, h1) = perform os (mkdir_all (build_trash_dir root d)) h in
    let (moved, h2) = perform os (rename source target) h1 in
    elim made [
      | some e ↦ (api_error 500 "CREATE_TRASH_DIR_FAILED", h1, db)
      | none ↦ elim moved [
        | some e ↦ (api_error 500 "MOVE_TO_TRASH_FAILED", h2, db)
        | none ↦ record_deletion os d storage_id root source target info original h2 db
      ]
    ]

unfoldable pub handle_delete :
    Os → Storages → Deletion → String → String → History → Records → Reply × History × Records
unfolding plan_delete move_to_trash
handle_delete os storages d storage_id file_id h db =
    elim (plan_delete os storages storage_id file_id h) [
      | refused status code ↦ (api_error status code, h, db)
      | done (storage, source, info, original) ↦
          move_to_trash os d storage_id storage.mount_path source info original h db
    ]
