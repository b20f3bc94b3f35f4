-- ===== src/Files/Operations/Confined.antt =====
-- internal/files/operations.go: where the calls of the operations go.
use yesnas_server.Prelude.{String}
use yesnas_server.Files.Disk.{
  Os, Call, rename, sudo_mv, sudo_cp, sudo_cp_file, remove, remove_all, sudo_rm, sudo_rm_all, mkdir,
  mkdir_all, sudo_mkdir, sudo_mkdir_all, History,
}
use yesnas_server.Files.Targets.Inside.{IsInside}
use yesnas_server.Files.Operations.Calls.{Adds, Adds-move_path, Adds-copy_path}
use yesnas_server.Files.Operations.{move_path, copy_path}

-- The paths of a call lie in the storage, and not in its trash.
unfoldable pub IsConfined : String → Call → Type 0
unfolding IsInside
IsConfined root (rename a b) = IsInside root a × IsInside root b
IsConfined root (sudo_mv a b) = IsInside root a × IsInside root b
IsConfined root (sudo_cp a b) = IsInside root a × IsInside root b
IsConfined root (sudo_cp_file a b) = IsInside root a × IsInside root b
IsConfined root (remove a) = IsInside root a
IsConfined root (remove_all a) = IsInside root a
IsConfined root (mkdir a) = IsInside root a
IsConfined root (mkdir_all a) = IsInside root a
IsConfined root (sudo_rm a) = IsInside root a
IsConfined root (sudo_rm_all a) = IsInside root a
IsConfined root (sudo_mkdir a) = IsInside root a
IsConfined root (sudo_mkdir_all a) = IsInside root a

pub move_path-IsConfined :
    (os : Os) (root source target : String) (h : History)
    → IsInside root source
    → IsInside root target
    → Adds (IsConfined root) h (move_path os source target h).1
unfolding IsConfined
move_path-IsConfined os root source target h a b =
    Adds-move_path (IsConfined root) os source target h (a, b) (a, b)

pub copy_path-IsConfined :
    (os : Os) (root source target : String) (h : History)
    → IsInside root source
    → IsInside root target
    → Adds (IsConfined root) h (copy_path os source target h).1
unfolding IsConfined
copy_path-IsConfined os root source target h a b =
    Adds-copy_path (IsConfined root) os source target h (a, b)
