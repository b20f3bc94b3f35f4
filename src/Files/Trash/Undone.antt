-- ===== src/Files/Trash/Undone.antt =====
-- internal/files/trash.go: HandleDelete either moves and records a file, or leaves it where it was.
use Prim.Native.String
use yesnas_server.Prelude.{
  ℕ, String, Bool, true, false, Option, none, some, [], ◌∷◌, ◌++◌, ◌≡◌, ◌⊎◌, refl, inl, inr, ◌&&◌,
  str_eq, if◌then◌else◌, Bool-cases, Option-cases,
}
use yesnas_server.Prelude.Table.{delete_where}
use yesnas_server.Prelude.FilePath.{rel, join, join_all, base}
use yesnas_server.Files.Disk.{
  Os, OsError, Info, rename, mkdir_all, History, Storage, Storages, Outcome-cases, perform,
}
use yesnas_server.Files.Trash.{
  RecycleBinItem, Records, Deletion, Reply, api_error, recycled, add_recycle_bin_item,
  delete_favorite_by_path, build_trash_dir, trash_target, trash_item, after_record, record_deletion,
  move_to_trash, plan_delete, handle_delete, unique_trash_name,
}
use yesnas_server.Files.Trash.Named.{Named, IsUnnamed, plan_delete-Named, plan_delete-IsUnnamed}

abbrev has_failed : Option OsError → Bool
has_failed none = false
has_failed (some e) = true

abbrev with_dir : History → String → History
with_dir h dir = h ++ mkdir_all dir ∷ []

abbrev with_move : History → String → String → String → History
with_move h dir source target = with_dir h dir ++ rename source target ∷ []

-- The folder of the day in the trash of a storage, and where a file goes in it.
abbrev pub day_folder : Deletion → String → String
day_folder d root = join_all (root ∷ ".trash" ∷ d.year ∷ d.month ∷ d.day ∷ [])

abbrev pub in_trash : Deletion → String → Info → String
in_trash d root info =
    join (day_folder d root) (String.◌++◌ d.name_id (String.◌++◌ "_" (base info.name)))

-- The folder could not be made; the file could not be moved; or it was moved and, as its place in
-- the trash or its record failed, moved back.
unfoldable pub IsUndone : Os → Deletion → String → String → Info → History → History → Type 0
IsUndone os d root source info h h' =
    let dir = day_folder d root in
    let target = in_trash d root info in
    ((h' ≡ with_dir h dir) × (has_failed (os.result h (mkdir_all dir)) ≡ true))
    ⊎ ((h' ≡ with_move h dir source target)
        × (has_failed (os.result (with_dir h dir) (rename source target)) ≡ true))
    ⊎ ((h' ≡ with_move h dir source target ++ rename target source ∷ [])
        × ((rel root target ≡ none) ⊎ (d.inserts ≡ false)))

-- What the trash records of a file: its name, kind and size, and the paths from the root of the
-- storage to where it was and to where it is.
pub record Remembers (d : Deletion) (storage_id root target : String) (info : Info)
    (original : String) (item : RecycleBinItem) : Type 0 where
  pub id : item.id ≡ d.record_id
  pub storage : item.storage_id ≡ storage_id
  pub file_name : item.file_name ≡ info.name
  pub file_type : item.file_type ≡ (if info.is_dir then "folder" else "file")
  pub size : item.size ≡ info.size
  pub original_path : item.original_path ≡ original
  pub recycle_path : rel root target ≡ some item.recycle_path

-- The file was moved, and its record is at the end of those of the trash. It is no favourite any
-- more, where that statement reached the database.
pub record IsRecorded (os : Os) (d : Deletion) (storage_id root source : String) (info : Info)
    (original : String) (h : History) (db : Records) (item : RecycleBinItem) (h' : History)
    (db' : Records) : Type 0 where
  pub moved : h' ≡ with_move h (day_folder d root) source (in_trash d root info)
  pub succeeded :
      has_failed (os.result (with_dir h (day_folder d root)) (rename source (in_trash d root info)))
      ≡ false
  pub remembers : Remembers d storage_id root (in_trash d root info) info original item
  pub stored : db'.recycle_bin ≡ db.recycle_bin ++ item ∷ []
  pub forgotten : db'.favorites ≡ (
      if d.deletes
      then delete_where
          (λ f. str_eq f.storage_id storage_id && str_eq f.file_path original)
          db.favorites
      else db.favorites)

unfoldable pub IsMoved :
    Os
    → Deletion
    → String
    → String
    → String
    → Info
    → String
    → History
    → Records
    → Reply × History × Records
    → Type 0
unfolding IsUndone
IsMoved os d storage_id root source info original h db (api_error status code, h', db') =
    (db' ≡ db) × IsUndone os d root source info h h'
IsMoved os d storage_id root source info original h db (recycled item, h', db') =
    IsRecorded os d storage_id root source info original h db item h' db'

kept_records :
    (deletes : Bool) (storage_id path : String) (db : Records)
    → (delete_favorite_by_path deletes storage_id path db).recycle_bin ≡ db.recycle_bin
unfolding delete_favorite_by_path
kept_records true storage_id path db = refl
kept_records false storage_id path db = refl

fewer_favorites :
    (deletes : Bool) (storage_id path : String) (db : Records)
    → (delete_favorite_by_path deletes storage_id path db).favorites ≡ (
        if deletes
        then delete_where
            (λ f. str_eq f.storage_id storage_id && str_eq f.file_path path)
            db.favorites
        else db.favorites)
unfolding delete_favorite_by_path
fewer_favorites true storage_id path db = refl
fewer_favorites false storage_id path db = refl

abbrev with_item : Deletion → String → Info → String → String → Records → Records
unfolding add_recycle_bin_item
with_item d storage_id info original recycle db =
    (add_recycle_bin_item true d.record_id (trash_item storage_id info original recycle) db).1

record_deletion-IsMoved :
    (os : Os) (d : Deletion) (storage_id root source : String) (info : Info) (original : String)
    (h : History) (db : Records)
    → os.result (with_dir h (day_folder d root)) (rename source (in_trash d root info)) ≡ none
    → IsMoved os d storage_id root source info original h db (
        record_deletion os d storage_id root source
          (in_trash d root info)
          info
          original
          (with_move h (day_folder d root) source (in_trash d root info))
          db)
unfolding record_deletion IsMoved IsUndone after_record add_recycle_bin_item perform
    delete_favorite_by_path
record_deletion-IsMoved os d storage_id root source info original h db moved =
    let target = in_trash d root info in
    elim (Option-cases (rel root target)) [
      | inl e ↦ rw (e, record_deletion) (refl, inr (inr (refl, inl e)))
      | inr (recycle, e) ↦ elim (Bool-cases d.inserts) [
        | inr gone ↦ rw (e, record_deletion, gone) (refl, inr (inr (refl, inr refl)))
        | inl stored ↦
            rw (e, record_deletion, stored)
              (record {
                moved = refl;
                succeeded = rw moved refl;
                remembers = record {
                  id = refl;
                  storage = refl;
                  file_name = refl;
                  file_type = refl;
                  size = refl;
                  original_path = refl;
                  recycle_path = e;
                };
                stored =
                    kept_records d.deletes storage_id original
                      (with_item d storage_id info original recycle db);
                forgotten =
                    fewer_favorites d.deletes storage_id original
                      (with_item d storage_id info original recycle db);
              })
      ]
    ]

move_to_trash-IsMoved :
    (os : Os) (d : Deletion) (storage_id root source : String) (info : Info) (original : String)
    (h : History) (db : Records)
    → IsMoved os d storage_id root source info original h db
        (move_to_trash os d storage_id root source info original h db)
unfolding move_to_trash IsMoved IsUndone perform build_trash_dir trash_target unique_trash_name
move_to_trash-IsMoved os d storage_id root source info original h db =
    let dir = day_folder d root in
    let target = in_trash d root info in
    elim (Option-cases (os.result h (mkdir_all dir))) [
      | inr (error, e) ↦ rw (e, move_to_trash) (refl, inl (refl, rw e refl))
      | inl e ↦ elim (Option-cases (os.result (with_dir h dir) (rename source target))) [
        | inr (error, failed) ↦
            rw (e, move_to_trash, failed) (refl, inr (inl (refl, rw failed refl)))
        | inl moved ↦
            rw (e, move_to_trash, moved)
              (record_deletion-IsMoved os d storage_id root source info original h db moved)
      ]
    ]

-- What HandleDelete answered and left: a refusal that did nothing, or the move of the file that the
-- request names.
unfoldable pub IsSettled :
    Os
    → Storages
    → Deletion
    → String
    → String
    → History
    → Records
    → Reply × History × Records
    → Type 0
unfolding IsMoved
IsSettled os storages d storage_id file_id h db result =
    ((status : ℕ) × ((code : String) × ((result ≡ (api_error status code, h, db))
          × IsUnnamed os storages storage_id file_id h)))
    ⊎ ((storage : Storage) × ((source : String) × ((info : Info) × ((original : String) × (Named os
                  storages storage_id file_id h storage source info original
                × IsMoved os d storage_id storage.mount_path source info original h db result)))))

-- HandleDelete, whatever the request, the files, the results of the calls and the statements are,
-- either refuses with an error, makes no call and leaves the records as they were, and then the
-- request names no file of a storage that lies outside of its trash; or it takes the file that the
-- request names. Then it either answers with the record that it put at the end of the trash, which
-- has the paths from the root of the storage to where the file was and to where it is, and the file
-- was moved into the folder of the day in the trash; or it answers with an error and leaves the
-- records as they were: the folder could not be made, the move failed, or the file's place in the
-- trash or its record failed and the file was called to be moved back.
pub handle_delete-IsSettled :
    (os : Os) (storages : Storages) (d : Deletion) (storage_id file_id : String) (h : History)
    (db : Records)
    → IsSettled os storages d storage_id file_id h db
        (handle_delete os storages d storage_id file_id h db)
unfolding handle_delete IsSettled
handle_delete-IsSettled os storages d storage_id file_id h db =
    elim (Outcome-cases (plan_delete os storages storage_id file_id h)) [
      | inl (status, (code, e)) ↦ inl (
        status,
        (
          code,
          (
            rw (e, handle_delete) refl,
            plan_delete-IsUnnamed os storages storage_id file_id h status code e,
          ),
        ),
      )
      | inr (v, e) ↦ inr (
        v.0,
        (
          v.1,
          (
            v.2,
            (
              v.3,
              (
                plan_delete-Named os storages storage_id file_id h v.0 v.1 v.2 v.3 e,
                rw (e, handle_delete)
                    (move_to_trash-IsMoved os d storage_id v.0.mount_path v.1 v.2 v.3 h db),
              ),
            ),
          ),
        ),
      )
    ]
