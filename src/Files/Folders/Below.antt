-- ===== src/Files/Folders/Below.antt =====
-- internal/files/folders.go: where HandleCreateFolder creates a folder.
use yesnas_server.Prelude.{
  String, true, some, [], ◌∷◌, ◌++◌, ◌≡◌, ◌⊎◌, refl, not, ◌||◌, str_eq, inl, inr, Bool-cases,
  Option-cases,
}
use mathlib.Core.Path.{subst}
use yesnas_server.Prelude.Text.{trim_space, is_empty}
use yesnas_server.Prelude.FilePath.{base, join, is_abs}
use yesnas_server.Prelude.FilePath.Rel.{IsBelow}
use yesnas_server.Files.Disk.{
  Os, Call, mkdir, sudo_mkdir, History, Storage, Storages, done, Outcome-cases, bind-done,
  require-done, done-injective, require, need, perform, is_permission, ◌>>=◌, ◌>>◌,
}
use yesnas_server.Files.Paths.{is_path_within_root, is_path_within_root-IsBelow}
use yesnas_server.Files.Operations.Calls.{Adds, Adds-nothing, Adds-perform, Adds-trans}
use yesnas_server.Files.Folders.{
  CreateFolderBody, create_folder, parent_of_new_folder, place_folder, folder_in, storage_id_of,
  plan_create_folder, handle_create_folder,
}

place_folder-within :
    (root parent name : String) (v : String × String × String)
    → place_folder root parent name ≡ done v
    → is_path_within_root root v.1 ≡ true
unfolding place_folder
place_folder-within root parent name v e =
    let (parent_within, e1) =
      require-done (is_path_within_root root parent) 400 "PARENT_OUT_OF_RANGE"
        (require (is_path_within_root root (join parent name)) 400 "TARGET_PATH_INVALID"
          >> done (parent, join parent name, name))
        v e in
    let (within, e2) =
      require-done (is_path_within_root root (join parent name)) 400 "TARGET_PATH_INVALID"
        (done (parent, join parent name, name)) v e1 in
    subst (λ w. is_path_within_root root w.1 ≡ true)
      (done-injective (parent, join parent name, name) v e2) within

folder_in-within :
    (os : Os) (storage : Storage) (req : CreateFolderBody) (v : String × String × String)
    → folder_in os storage req ≡ done v
    → is_path_within_root storage.mount_path v.1 ≡ true
unfolding folder_in
folder_in-within os storage req v e =
    let name = trim_space req.name in
    let root = storage.mount_path in
    let bad = str_eq name "." || str_eq name ".." || not (str_eq name (base name)) in
    let rest =
      parent_of_new_folder os root req.parent_id >>= λ parent. place_folder root parent name in
    let (named, e1) =
      require-done (not (is_empty name)) 400 "NAME_REQUIRED"
        (require (not bad) 400 "INVALID_FOLDER_NAME" >> rest) v e in
    let (valid, e2) = require-done (not bad) 400 "INVALID_FOLDER_NAME" rest v e1 in
    let (parent, resolved, e3) =
      bind-done (parent_of_new_folder os root req.parent_id)
        (λ parent. place_folder root parent name) v e2 in
    place_folder-within root parent name v e3

plan_create_folder-within :
    (os : Os) (storages : Storages) (storage_id : String) (req : CreateFolderBody)
    (storage : Storage) (v : String × String × String)
    → storages (storage_id_of storage_id req) ≡ some storage
    → plan_create_folder os storages storage_id (some req) ≡ done v
    → is_path_within_root storage.mount_path v.1 ≡ true
unfolding plan_create_folder
plan_create_folder-within os storages storage_id req storage v known e =
    let id = storage_id_of storage_id req in
    let (named, e1) =
      require-done (not (is_empty id)) 400 "STORAGE_ID_REQUIRED"
        (need (storages id) 404 "STORAGE_NOT_FOUND" >>= λ st. folder_in os st req) v e in
    folder_in-within os storage req v (
      subst (λ o. (need o 404 "STORAGE_NOT_FOUND" >>= λ st. folder_in os st req) ≡ done v) known e1)

-- The call creates a folder at or below the root.
unfoldable pub CreatesBelow : String → Call → Type 0
unfolding IsBelow
CreatesBelow root call =
    (path : String) × (IsBelow root path × ((call ≡ mkdir path) ⊎ (call ≡ sudo_mkdir path)))

create_folder-CreatesBelow :
    (os : Os) (root target : String) (h : History)
    → IsBelow root target
    → Adds (CreatesBelow root) h (create_folder os target h).1
unfolding create_folder perform CreatesBelow
create_folder-CreatesBelow os root target h below =
    let first = Adds-perform (CreatesBelow root) os (mkdir target) h (target, (below, inl refl)) in
    elim (Option-cases (os.result h (mkdir target))) [
      | inl e ↦ rw (e, create_folder) first
      | inr (error, e) ↦ elim (Bool-cases (is_permission error)) [
        | inr stop ↦ rw (e, create_folder, stop) first
        | inl go ↦
            let h1 = h ++ mkdir target ∷ [] in
            let both = Adds-trans (CreatesBelow root) h h1 (h1 ++ sudo_mkdir target ∷ []) first (
              Adds-perform (CreatesBelow root) os (sudo_mkdir target) h1
                (target, (below, inr refl))) in
            elim (Option-cases (os.result h1 (sudo_mkdir target))) [
              | inl e' ↦ rw (e, create_folder, go, e') both
              | inr (error', e') ↦ rw (e, create_folder, go, e') both
            ]
      ]
    ]

-- HandleCreateFolder creates folders only at or below the root of the storage, whatever the
-- request, the files and the results of the calls are, when the storage is mounted at an absolute
-- path.
pub handle_create_folder-CreatesBelow :
    (os : Os) (storages : Storages) (storage_id : String) (req : CreateFolderBody) (h : History)
    (storage : Storage)
    → storages (storage_id_of storage_id req) ≡ some storage
    → is_abs storage.mount_path ≡ true
    → Adds
        (CreatesBelow storage.mount_path)
        h
        (handle_create_folder os storages storage_id (some req) h).1
unfolding handle_create_folder
handle_create_folder-CreatesBelow os storages storage_id req h storage known abs =
    let root = storage.mount_path in
    elim (Outcome-cases (plan_create_folder os storages storage_id (some req))) [
      | inl (status, (code, e)) ↦ rw (e, handle_create_folder) (Adds-nothing (CreatesBelow root) h)
      | inr (v, e) ↦
          let below =
            is_path_within_root-IsBelow root v.1 abs
              (plan_create_folder-within os storages storage_id req storage v known e) in
          let calls = create_folder-CreatesBelow os root v.1 h below in
          elim (Option-cases (create_folder os v.1 h).0) [
            | inl made ↦ rw (e, handle_create_folder, made) calls
            | inr (error, failed) ↦ rw (e, handle_create_folder, failed) calls
          ]
    ]
