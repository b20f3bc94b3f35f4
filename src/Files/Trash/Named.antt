-- ===== src/Files/Trash/Named.antt =====
-- internal/files/trash.go: which file a request of HandleDelete names.
use mathlib.Core.Path.{subst}
use mathlib.Core.Option
use yesnas_server.Prelude.{
  ℕ, String, Bool, true, false, some, ◌≡◌, refl, inl, inr, ◌∙◌, not, sym, arith, Bool-cases,
  Option-cases,
}
use yesnas_server.Prelude.Text.{is_empty}
use yesnas_server.Prelude.FilePath.{rel, clean, join}
use yesnas_server.Files.Disk.{
  Os, Info, Stat, found, unreadable, History, Storage, Storages, done, refused, require-done,
  need-done, bind-done, done-injective,
}
use yesnas_server.Files.Paths.{decode_file_id, is_path_within_root}
use yesnas_server.Files.Targets.{need_file, trash_of}
use yesnas_server.Files.Trash.{plan_delete}

-- The file that a request names: at a path of the storage, outside of its trash.
pub record Named (os : Os) (storages : Storages) (storage_id file_id : String) (h : History)
    (storage : Storage) (source : String) (info : Info) (original : String) : Type 0 where
  pub stored : storages storage_id ≡ some storage
  pub decoded : Option.map clean (os.decode file_id) ≡ some source
  pub below : is_path_within_root storage.mount_path source ≡ true
  pub outside : is_path_within_root (join storage.mount_path ".trash") source ≡ false
  pub there : os.stat h source ≡ found info
  pub related : rel storage.mount_path source ≡ some original

need_file-done :
    (s : Stat) (missing failed : String) (info : Info)
    → need_file s missing failed ≡ done info
    → s ≡ found info
need_file-done (found i) missing failed info e = ground (arith, e)
need_file-done (unreadable error) missing failed info e = absurd (ground (arith, e))

decoded-clean : (os : Os) (id : String) → decode_file_id os id ≡ Option.map clean (os.decode id)
unfolding decode_file_id
decoded-clean os id = elim (Option-cases (os.decode id)) [
  | inl e ↦ rw (e, decode_file_id) refl
  | inr (path, e) ↦ rw (e, decode_file_id) refl
]

not-true : (b : Bool) → not b ≡ true → b ≡ false
not-true b e = ground arith

pub plan_delete-Named :
    (os : Os) (storages : Storages) (storage_id file_id : String) (h : History) (storage : Storage)
    (source : String) (info : Info) (original : String)
    → plan_delete os storages storage_id file_id h ≡ done (storage, source, info, original)
    → Named os storages storage_id file_id h storage source info original
unfolding plan_delete trash_of
plan_delete-Named os storages storage_id file_id h storage source info original e =
    let (_, e1) = require-done (not (is_empty file_id)) 400 "FILE_ID_REQUIRED" _ _ e in
    let (st, stored, e2) = need-done (storages storage_id) 404 "STORAGE_NOT_FOUND" _ _ e1 in
    let (src, decoded, e3) = need-done (decode_file_id os file_id) 400 "INVALID_FILE_ID" _ _ e2 in
    let (below, e4) =
      require-done (is_path_within_root st.mount_path src) 400 "PATH_OUT_OF_RANGE" _ _ e3 in
    let (outside, e5) =
      require-done (not (is_path_within_root (trash_of st.mount_path) src)) 400 "ALREADY_IN_TRASH" _
        _ e4 in
    let (i, there, e6) =
      bind-done (need_file (os.stat h src) "FILE_NOT_FOUND" "STAT_FILE_FAILED") _ _ e5 in
    let (o, related, e7) = need-done (rel st.mount_path src) 500 "REL_PATH_FAILED" _ _ e6 in
    let same = done-injective (st, src, i, o) (storage, source, info, original) e7 in
    subst
      (λ (v : Storage × String × Info × String).
        Named os storages storage_id file_id h v.0 v.1 v.2 v.3)
      same
      (record {
        stored = stored;
        decoded = sym (decoded-clean os file_id) ∙ decoded;
        below = below;
        outside = not-true (is_path_within_root (trash_of st.mount_path) src) outside;
        there = need_file-done (os.stat h src) "FILE_NOT_FOUND" "STAT_FILE_FAILED" i there;
        related = related;
      })

-- The request names no such file.
abbrev pub IsUnnamed : Os → Storages → String → String → History → Type 0
IsUnnamed os storages storage_id file_id h =
    (storage : Storage) (source : String) (info : Info) (original : String)
    → Named os storages storage_id file_id h storage source info original
    → is_empty file_id ≡ true

plan_delete-done :
    (os : Os) (storages : Storages) (storage_id file_id : String) (h : History) (storage : Storage)
    (source : String) (info : Info) (original : String)
    → Named os storages storage_id file_id h storage source info original
    → is_empty file_id ≡ false
    → plan_delete os storages storage_id file_id h ≡ done (storage, source, info, original)
unfolding plan_delete trash_of
plan_delete-done os storages storage_id file_id h storage source info original n e =
    rw
      (
        e,
        n.stored,
        decoded-clean os file_id ∙ n.decoded,
        n.below,
        n.outside,
        n.there,
        n.related,
        plan_delete,
      )
      refl

pub plan_delete-IsUnnamed :
    (os : Os) (storages : Storages) (storage_id file_id : String) (h : History) (status : ℕ)
    (code : String)
    → plan_delete os storages storage_id file_id h ≡ refused status code
    → IsUnnamed os storages storage_id file_id h
plan_delete-IsUnnamed os storages storage_id file_id h status code e storage source info original
      n =
    elim (Bool-cases (is_empty file_id)) [
      | inl empty ↦ empty
      | inr given ↦ absurd (
          cc (
            plan_delete-done os storages storage_id file_id h storage source info original n given))
    ]
