-- ===== src/Files/Targets/Inside.antt =====
-- internal/files/operations.go: which paths the checks of the operations let through.
use yesnas_server.Prelude.{
  String, Bool, true, false, some, ◌≡◌, refl, ap, sym, ◌∙◌, ◌≢◌, not, inl, inr, arith, Bool-cases,
  str_eq, if◌then◌else◌,
}
use mathlib.Core.Path.{subst}
use yesnas_server.Prelude.Result.{ok, err, Result-cases}
use yesnas_server.Prelude.Text.{trim_space, is_empty}
use yesnas_server.Prelude.FilePath.{clean, is_abs, rel}
use yesnas_server.Prelude.FilePath.Clean.{resolved-clean, clean-clean}
use yesnas_server.Prelude.FilePath.Relative.{is_abs-clean-relative}
use yesnas_server.Prelude.FilePath.Rel.{IsBelow}
use yesnas_server.Files.Disk.{
  Os, History, Storage, Storages, Outcome, done, refused, require, need, need-done, Info, Stat,
  found, unreadable, require-done, ◌>>=◌, ◌>>◌,
}
use yesnas_server.Files.Paths.{
  decode_file_id, stays_below, is_path_within_root, is_path_within_root-IsBelow,
}
use yesnas_server.Files.Targets.{
  trash_of, need_file, check_source, find_source, resolve_file_operation_source,
  validate_operation_target_base, resolve_conflict_target, Policy, error, overwrite, rename,
  settle_conflict,
}

-- The path lies at or below the root and not in its trash.
unfoldable pub IsInside : String → String → Type 0
IsInside root path = IsBelow root path × (is_path_within_root (trash_of root) path ≡ false)

not-true : (b : Bool) → not b ≡ true → b ≡ false
not-true b h = ground (arith, h)

source_guards :
    (within same trash : Bool) (o : Outcome Info) (v w : Storage × String)
    → (do
      require within 400 "PATH_OUT_OF_RANGE"
      require (not same) 400 "ROOT_OPERATION_FORBIDDEN"
      require (not trash) 400 "TRASH_OPERATION_FORBIDDEN"
      info ← o
      done v)
      ≡ done w
    → (within ≡ true) × (same ≡ false) × (trash ≡ false) × (v ≡ w)
source_guards true false false (done info) v w e = (refl, refl, refl, ground (arith, e))
source_guards true false false (refused s c) v w e = absurd (ground (arith, e))
source_guards true false true o v w e = absurd (ground (arith, e))
source_guards true true trash o v w e = absurd (ground (arith, e))
source_guards false same trash o v w e = absurd (ground (arith, e))

check_source-IsInside :
    (os : Os) (storage : Storage) (source : String) (h : History) (v : Storage × String)
    → check_source os storage source h ≡ done v
    → is_abs storage.mount_path ≡ true
    → (v.0 ≡ storage) × IsInside storage.mount_path v.1
unfolding check_source IsInside
check_source-IsInside os storage source h v e abs =
    let (within, strict, outside, same) =
      source_guards (is_path_within_root storage.mount_path source)
        (str_eq (clean source) (clean storage.mount_path))
        (is_path_within_root (trash_of storage.mount_path) source)
        (need_file (os.stat h source) "FILE_NOT_FOUND" "STAT_FILE_FAILED") (storage, source) v e in
    subst (λ z. (z.0 ≡ storage) × IsInside storage.mount_path z.1) same
      (refl, (is_path_within_root-IsBelow storage.mount_path source abs within, outside))

-- The file that an operation is about lies in the storage, and not in its trash.
pub resolve_file_operation_source-IsInside :
    (os : Os) (storages : Storages) (storage_id file_id : String) (h : History) (storage : Storage)
    (v : Storage × String)
    → storages (trim_space storage_id) ≡ some storage
    → is_abs storage.mount_path ≡ true
    → resolve_file_operation_source os storages storage_id file_id h ≡ done v
    → (v.0 ≡ storage) × IsInside storage.mount_path v.1
unfolding resolve_file_operation_source find_source
resolve_file_operation_source-IsInside os storages storage_id file_id h storage v known abs e =
    let (given, e1) =
      require-done (not (is_empty (trim_space file_id))) 400 "FILE_ID_REQUIRED"
        (need (storages (trim_space storage_id)) 404 "STORAGE_NOT_FOUND" >>= λ st.
          find_source os st (trim_space file_id) h)
        v e in
    let e2 =
      subst
        (λ o.
          (need o 404 "STORAGE_NOT_FOUND" >>= λ st. find_source os st (trim_space file_id) h)
          ≡ done v)
        known e1 in
    let (decoded, is_decoded, e3) =
      need-done (decode_file_id os (trim_space file_id)) 400 "INVALID_FILE_ID"
        (λ decoded. check_source os storage (clean decoded) h) v e2 in
    check_source-IsInside os storage (clean decoded) h v e3 abs

base_guards :
    (within same trash : Bool) (u : Unit {0}) (a b c : String)
    → (if not within then err a else if same then err b else if trash then err c else ok tt) ≡ ok u
    → (within ≡ true) × (trash ≡ false)
base_guards true false false u a b c e = (refl, refl)
base_guards true false true u a b c e = absurd (ground (arith, e))
base_guards true true trash u a b c e = absurd (ground (arith, e))
base_guards false same trash u a b c e = absurd (ground (arith, e))

-- A target that the checks accept lies in the storage once it is cleaned, and not in its trash.
pub validate_operation_target_base-IsInside :
    (root source target : String) (u : Unit {0})
    → is_abs root ≡ true
    → validate_operation_target_base root source target ≡ ok u
    → IsInside root (clean target)
unfolding validate_operation_target_base IsInside
validate_operation_target_base-IsInside root source target u abs e =
    let (within, outside) =
      base_guards (is_path_within_root root (clean target)) (str_eq (clean source) (clean target))
        (is_path_within_root (trash_of root) (clean target)) u
        "target path is outside the storage root" "source and target are the same"
        "target path cannot be inside trash" e in
    (is_path_within_root-IsBelow root (clean target) abs within, outside)

is_abs-of-clean : (path : String) → is_abs (clean path) ≡ true → is_abs path ≡ true
is_abs-of-clean path h = elim (Bool-cases (is_abs path)) [
  | inl e ↦ e
  | inr e ↦ absurd (ground (arith, h, is_abs-clean-relative path e))
]

within-clean :
    (root path : String)
    → is_abs path ≡ true
    → is_path_within_root root (clean path) ≡ is_path_within_root root path
unfolding is_path_within_root
within-clean root path h = ap (λ p. stays_below (rel (clean root) p)) (clean-clean path h)

-- What holds of the cleaned path holds of the path.
pub IsInside-clean :
    (root path : String) → is_abs root ≡ true → IsInside root (clean path) → IsInside root path
unfolding IsInside IsBelow
IsInside-clean root path abs inside =
    let h = is_abs-of-clean path inside.0.0 in
    (
      (h, (inside.0.1.0, sym (resolved-clean path h) ∙ inside.0.1.1)),
      sym (within-clean (trash_of root) path h) ∙ inside.1,
    )

settle_conflict-same :
    (os : Os) (source target : String) (policy : Policy) (stat : Stat) (h : History)
    (v : String × Bool)
    → policy ≢ rename
    → settle_conflict os source target policy stat h ≡ ok v
    → target ≡ v.0
unfolding settle_conflict
settle_conflict-same os source target policy (unreadable e') h v kept e = ground (arith, e)
settle_conflict-same os source target overwrite (found info) h v kept e = ground (arith, e)
settle_conflict-same os source target error (found info) h v kept e = absurd (ground (arith, e))
settle_conflict-same os source target rename (found info) h v kept e = absurd (kept refl)

-- The target of resolveConflictTarget, unless it is a new name.
pub resolve_conflict_target-IsInside :
    (os : Os) (root source target : String) (policy : Policy) (h : History) (v : String × Bool)
    → is_abs root ≡ true
    → policy ≢ rename
    → resolve_conflict_target os root source target policy h ≡ ok v
    → IsInside root v.0
unfolding resolve_conflict_target
resolve_conflict_target-IsInside os root source target policy h v abs kept e =
    elim (Result-cases (validate_operation_target_base root source target)) [
      | inl (m, bad) ↦ absurd (ground (arith, bad, e))
      | inr (u, valid) ↦
          let e' =
            subst
              (λ o.
                elim o [
                  | err m ↦ err m
                  | ok valid ↦
                      settle_conflict os source (clean target) policy (os.stat h (clean target)) h
                ]
                ≡ ok v)
              valid e in
          subst (IsInside root)
            (settle_conflict-same os source (clean target) policy (os.stat h (clean target)) h v
              kept e')
            (validate_operation_target_base-IsInside root source target u abs valid)
    ]
