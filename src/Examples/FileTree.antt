-- ===== src/Examples/FileTree.antt =====
-- internal/files at concrete inputs: paths, names and the operations on one storage.
use yesnas_server.Prelude.{
  ℕ, String, true, false, none, some, [], ◌∷◌, ◌≡◌, ◌≢◌, refl, str_eq, if◌then◌else◌, arith,
}
use yesnas_server.Prelude.Text.{trim_space, to_lower}
use yesnas_server.Prelude.Format.{decimal}
use yesnas_server.Prelude.FilePath.{is_abs, join}
use yesnas_server.Prelude.FilePath.Rel.{IsBelow}
use yesnas_server.Files.Disk.{
  Os, Stat, found, unreadable, not_exist, Call, Storage, Storages, local, done,
}
use yesnas_server.Files.Paths.{is_path_within_root, is_path_within_root-IsBelow}
use yesnas_server.Files.Targets.{
  Policy, overwrite, normalize_conflict_policy, candidate, next_candidate,
}
use yesnas_server.Files.Targets.Names.{IsFirstFree, next_candidate-IsFirstFree}
use yesnas_server.Files.Folders.{CreateFolderBody, handle_create_folder}
use yesnas_server.Files.Folders.Below.{CreatesBelow, handle_create_folder-CreatesBelow}
use yesnas_server.Files.Trash.{Deletion, Records, handle_delete}
use yesnas_server.Files.Trash.Undone.{IsSettled, handle_delete-IsSettled}
use yesnas_server.Files.Pages.{paginate, paginate-take}
use yesnas_server.Files.Operations.{
  FileRequest, TransferBody, handle_rename, handle_move, handle_copy,
}
use yesnas_server.Files.Operations.Calls.{Adds}
use yesnas_server.Files.Operations.Confined.{IsConfined}
use yesnas_server.Files.Operations.RenameConfined.{handle_rename-IsConfined}
use yesnas_server.Files.Operations.TransferConfined.{
  KeepsNames, handle_move-IsConfined, handle_copy-IsConfined,
}

abbrev stat_of : String → Stat
stat_of path =
    if str_eq path "/srv/a/b.txt"
    then found (record { name = "b.txt"; is_dir = false; size = 3 })
    else if str_eq path "/srv/a/docs"
    then found (record { name = "docs"; is_dir = true; size = 0 })
    else if str_eq path "/srv/a/docs/b.txt"
    then found (record { name = "b.txt"; is_dir = false; size = 5 })
    else unreadable (record { kind = not_exist; message = "no such file" })

abbrev pub machine : Os
machine = record {
  stat = λ h path. stat_of path;
  result = λ h call. none;
  decode = some;
  encode = λ s. s;
  wide = λ c. c;
}

abbrev pub disk_a : Storage
disk_a = record { id = "s"; mount_path = "/srv/a"; type = local }

abbrev pub storages : Storages
storages id = if str_eq id "s" then some disk_a else none

abbrev renaming : FileRequest String
renaming = record { storage = " s "; file_id = "/srv/a/b.txt"; body = some "c.txt" }

abbrev transfer : FileRequest TransferBody
transfer = record {
  storage = "s";
  file_id = "/srv/a/b.txt";
  body = some (record { parent_id = "/srv/a/docs"; name = ""; conflict_policy = "Overwrite" });
}

overwrite-not-rename : done overwrite ≢ done Policy.rename
overwrite-not-rename e = ground (arith, e)

is_path_within_root-IsBelow_example : IsBelow "/srv/a" "/srv/b/../a/x"
unfolding is_abs is_path_within_root
is_path_within_root-IsBelow_example = is_path_within_root-IsBelow "/srv/a" "/srv/b/../a/x" refl refl

handle_rename-IsConfined_example :
    Adds (IsConfined "/srv/a") [] (handle_rename machine storages renaming []).1
unfolding is_abs trim_space
handle_rename-IsConfined_example =
    handle_rename-IsConfined machine storages renaming [] disk_a refl refl

handle_move-IsConfined_example :
    Adds (IsConfined "/srv/a") [] (handle_move machine storages transfer []).1
unfolding is_abs trim_space KeepsNames normalize_conflict_policy to_lower
handle_move-IsConfined_example =
    handle_move-IsConfined machine storages transfer [] disk_a refl refl overwrite-not-rename

handle_copy-IsConfined_example :
    Adds (IsConfined "/srv/a") [] (handle_copy machine storages transfer []).1
unfolding is_abs trim_space KeepsNames normalize_conflict_policy to_lower
handle_copy-IsConfined_example =
    handle_copy-IsConfined machine storages transfer [] disk_a refl refl overwrite-not-rename

next_candidate-IsFirstFree_example :
    IsFirstFree
      (λ n. machine.stat [] (candidate "/srv/a/docs" "b" ".txt" n))
      (candidate "/srv/a/docs" "b" ".txt")
      9
      1
      "/srv/a/docs/b (1).txt"
unfolding next_candidate candidate decimal join
next_candidate-IsFirstFree_example =
    next_candidate-IsFirstFree machine [] "/srv/a/docs" "b" ".txt" 9 1 "/srv/a/docs/b (1).txt" refl

abbrev onto_folder : FileRequest TransferBody
onto_folder = record transfer {
  body = some (record { parent_id = "/srv/a/docs"; name = "/"; conflict_policy = "overwrite" });
}

abbrev new_folder : CreateFolderBody
new_folder = record { storage_id = "s"; parent_id = "/srv/a/docs"; name = " new " }

handle_create_folder-CreatesBelow_example :
    Adds
      (CreatesBelow "/srv/a")
      []
      (handle_create_folder machine storages "" (some new_folder) []).1
unfolding is_abs
handle_create_folder-CreatesBelow_example =
    handle_create_folder-CreatesBelow machine storages "" new_folder [] disk_a refl refl

abbrev deletion : Deletion
deletion = record {
  name_id = "n1";
  record_id = "r1";
  year = "2026";
  month = "01";
  day = "31";
  inserts = false;
  deletes = true;
}

abbrev no_records : Records
no_records = record { recycle_bin = []; favorites = [] }

handle_delete-IsSettled_example :
    IsSettled machine storages deletion "s" "/srv/a/b.txt" [] no_records
      (handle_delete machine storages deletion "s" "/srv/a/b.txt" [] no_records)
handle_delete-IsSettled_example =
    handle_delete-IsSettled machine storages deletion "s" "/srv/a/b.txt" [] no_records

-- The record cannot be stored, and the file is moved back.
handle_delete_test :
    (handle_delete machine storages deletion "s" "/srv/a/b.txt" [] no_records).1
    ≡ Call.mkdir_all "/srv/a/.trash/2026/01/31"
      ∷ Call.rename "/srv/a/b.txt" "/srv/a/.trash/2026/01/31/n1_b.txt"
      ∷ Call.rename "/srv/a/.trash/2026/01/31/n1_b.txt" "/srv/a/b.txt"
      ∷ []
unfolding handle_delete
handle_delete_test = refl

paginate-take_example : paginate {A = ℕ} (1 ∷ 2 ∷ 3 ∷ 4 ∷ 5 ∷ []) 2 3 ≡ some (4 ∷ 5 ∷ [])
paginate-take_example = paginate-take (1 ∷ 2 ∷ 3 ∷ 4 ∷ 5 ∷ []) 2 3 (omega arith)

-- The largest limit and an offset of one: the sum is no int.
paginate_test : paginate {A = ℕ} (1 ∷ 2 ∷ 3 ∷ []) 9223372036854775807 1 ≡ none
unfolding paginate
paginate_test = refl

-- The name `/` names the folder itself, which an overwriting move removes.
move_onto_folder_test :
    (handle_move machine storages onto_folder []).1
    ≡ Call.remove_all "/srv/a/docs" ∷ Call.rename "/srv/a/b.txt" "/srv/a/docs" ∷ []
unfolding handle_move
move_onto_folder_test = refl
