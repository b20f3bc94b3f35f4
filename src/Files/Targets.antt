-- ===== src/Files/Targets.antt =====
-- internal/files/operations.go: which file an operation is about, which folder it goes to, and
-- which path it may write.
pub mod Inside
pub mod Names
use Prim.Native.String
use yesnas_server.Prelude.{
  ℕ, zero, suc, String, Bool, true, false, Option, none, some, List, ◌≡◌, refl, ◌&&◌, ◌||◌, not,
  str_eq, if◌then◌else◌,
}
use yesnas_server.Prelude.Result.{Result, ok, err, is_ok}
use yesnas_server.Prelude.Text.{to_lower, trim_space, is_empty}
use yesnas_server.Prelude.Format.{decimal, trim_suffix}
use yesnas_server.Prelude.FilePath.{clean, join, base, dir, ext}
use yesnas_server.Files.Disk.{
  Os, Info, Stat, found, unreadable, History, Storage, Storages, Outcome, done, refused, ◌>>=◌,
  ◌>>◌, require, need, is_not_exist,
}
use yesnas_server.Files.Paths.{decode_file_id, is_path_within_root}

-- os.Stat with the answers for a file that is not there and for any other error.
abbrev pub need_file : Stat → String → String → Outcome Info
need_file (found info) missing failed = done info
need_file (unreadable e) missing failed =
    if is_not_exist e then refused 404 missing else refused 500 failed

unfoldable pub trash_of : String → String
unfolding join
trash_of root = join root ".trash"

-- The checks of the path of a file that an operation is about.
unfoldable pub check_source : Os → Storage → String → History → Outcome (Storage × String)
unfolding clean is_path_within_root trash_of
check_source os storage source h = do
  require (is_path_within_root storage.mount_path source) 400 "PATH_OUT_OF_RANGE"
  require (not (str_eq (clean source) (clean storage.mount_path))) 400 "ROOT_OPERATION_FORBIDDEN"
  require (not (is_path_within_root (trash_of storage.mount_path) source)) 400
      "TRASH_OPERATION_FORBIDDEN"
  info ← need_file (os.stat h source) "FILE_NOT_FOUND" "STAT_FILE_FAILED"
  done (storage, source)

unfoldable pub find_source : Os → Storage → String → History → Outcome (Storage × String)
unfolding decode_file_id clean check_source
find_source os storage file_id h = do
  decoded ← need (decode_file_id os file_id) 400 "INVALID_FILE_ID"
  check_source os storage (clean decoded) h

unfoldable pub resolve_file_operation_source :
    Os → Storages → String → String → History → Outcome (Storage × String)
unfolding trim_space find_source
resolve_file_operation_source os storages storage_id file_id h = do
  require (not (is_empty (trim_space file_id))) 400 "FILE_ID_REQUIRED"
  storage ← need (storages (trim_space storage_id)) 404 "STORAGE_NOT_FOUND"
  find_source os storage (trim_space file_id) h

unfoldable pub resolve_operation_parent : Os → Storage → String → History → Outcome String
unfolding trim_space decode_file_id clean is_path_within_root trash_of
resolve_operation_parent os storage parent_id h = do
  require (not (is_empty (trim_space parent_id))) 400 "PARENT_ID_REQUIRED"
  decoded ← need (decode_file_id os (trim_space parent_id)) 400 "INVALID_PARENT_ID"
  let parent = clean decoded
  require (is_path_within_root storage.mount_path parent) 400 "PARENT_OUT_OF_RANGE"
  require (not (is_path_within_root (trash_of storage.mount_path) parent)) 400
      "TRASH_TARGET_FORBIDDEN"
  info ← need_file (os.stat h parent) "PARENT_NOT_FOUND" "STAT_PARENT_FAILED"
  require info.is_dir 400 "PARENT_NOT_FOLDER"
  done parent

unfoldable pub valid_file_name : String → Bool
unfolding base
valid_file_name name =
    not (str_eq name "")
    && not (str_eq name ".")
    && not (str_eq name "..")
    && str_eq name (base name)

unfoldable pub validate_operation_target_base : String → String → String → Result (Unit {0})
unfolding clean is_path_within_root trash_of
validate_operation_target_base root source target =
    let target = clean target in
    if not (is_path_within_root root target)
    then err "target path is outside the storage root"
    else if str_eq (clean source) target
    then err "source and target are the same"
    else if is_path_within_root (trash_of root) target
    then err "target path cannot be inside trash"
    else ok tt

-- The target is not there; any other answer of os.Stat is an error.
abbrev pub absent : Stat → Result (Unit {0})
absent (found info) = err "target already exists"
absent (unreadable e) = if is_not_exist e then ok tt else err "failed to check target"

unfoldable pub validate_operation_target :
    Os → String → String → String → History → Result (Unit {0})
unfolding validate_operation_target_base clean
validate_operation_target os root source target h =
    elim (validate_operation_target_base root source target) [
      | err e ↦ err e
      | ok valid ↦ absent (os.stat h (clean target))
    ]

pub data Policy : Type 0 where
  error overwrite rename : Policy

-- The policy as one of the three words, or the answer for another.
unfoldable pub normalize_conflict_policy : Os → String → Outcome Policy
unfolding trim_space to_lower
normalize_conflict_policy os policy =
    let policy = trim_space (to_lower os.wide policy) in
    if is_empty policy || str_eq policy "error"
    then done error
    else if str_eq policy "overwrite"
    then done overwrite
    else if str_eq policy "rename"
    then done rename
    else refused 400 "INVALID_CONFLICT_POLICY"

-- `fmt.Sprintf("%s (%d)%s", base, i, ext)` in the folder.
unfoldable pub candidate : String → String → String → ℕ → String
unfolding join decimal
candidate dir base ext i =
    join dir (String.◌++◌ base (String.◌++◌ " (" (String.◌++◌ (decimal i) (String.◌++◌ ")" ext))))

-- The loop of nextAvailablePath: `fuel` candidates are left, the next one is number `i`.
unfoldable pub next_candidate : Os → History → String → String → String → ℕ → ℕ → Result String
unfolding candidate
next_candidate os h dir base ext zero i = err "failed to generate available target name"
next_candidate os h dir base ext (suc fuel) i = elim (os.stat h (candidate dir base ext i)) [
  | found info ↦ next_candidate os h dir base ext fuel (suc i)
  | unreadable e ↦
      if is_not_exist e then ok (candidate dir base ext i) else err "failed to check target"
]

unfoldable pub next_available_path : Os → String → String → History → Result String
unfolding dir base ext trim_suffix next_candidate
next_available_path os source target h = elim (os.stat h source) [
  | unreadable e ↦ err "failed to read source"
  | found info ↦
      let name = base target in
      let ext = if info.is_dir then "" else ext name in
      let base = if info.is_dir then name else trim_suffix ext name in
      next_candidate os h (dir target) base ext 10000 1
]

abbrev not_overwriting : Result String → Result (String × Bool)
not_overwriting (err e) = err e
not_overwriting (ok next) = ok (next, false)

-- What is done with a target, by what os.Stat says of it.
unfoldable pub settle_conflict :
    Os → String → String → Policy → Stat → History → Result (String × Bool)
unfolding next_available_path
settle_conflict os source target policy (unreadable e) h =
    if is_not_exist e then ok (target, false) else err "failed to check target"
settle_conflict os source target overwrite (found info) h = ok (target, true)
settle_conflict os source target rename (found info) h =
    not_overwriting (next_available_path os source target h)
settle_conflict os source target error (found info) h = err "target already exists"

-- The path and whether what stands there is removed first.
unfoldable pub resolve_conflict_target :
    Os → String → String → String → Policy → History → Result (String × Bool)
unfolding validate_operation_target_base clean settle_conflict
resolve_conflict_target os root source target policy h =
    elim (validate_operation_target_base root source target) [
      | err e ↦ err e
      | ok valid ↦ settle_conflict os source (clean target) policy (os.stat h (clean target)) h
    ]
