-- ===== src/Files/Uploads/Persist.antt =====
-- internal/files/uploads.go: createFolderAll, removeFileWithFallback and persistUploadedFile, the
-- calls by which a complete upload reaches its target.
use yesnas_server.Prelude.{
  String, Option, none, some, List, [], ◌∷◌, ◌++◌, ◌≡◌, ◌⊎◌, refl, ap, sym, ◌∙◌, not, if◌then◌else◌,
  inl, inr, arith, Bool-cases, Option-cases,
}
use mathlib.Core.Path.{subst}
use mathlib.Core.List.{append-nil, append_assoc}
use yesnas_server.Files.Disk.{
  Os, OsError, Call, rename, sudo_mv, sudo_cp_file, remove, sudo_rm, mkdir_all, sudo_mkdir_all,
  History, perform, is_permission, is_not_exist, is_cross_device_rename,
}

unfoldable pub create_folder_all : Os → String → History → Option OsError × History
unfolding perform
create_folder_all os target h =
    let (made, h1) = perform os (mkdir_all target) h in
    elim made [
      | none ↦ (none, h1)
      | some e ↦
          if not (is_permission e) then (some e, h1) else perform os (sudo_mkdir_all target) h1
    ]

unfoldable pub remove_file_with_fallback : Os → String → History → Option OsError × History
unfolding perform
remove_file_with_fallback os path h =
    let (removed, h1) = perform os (remove path) h in
    elim removed [
      | none ↦ (none, h1)
      | some e ↦ if not (is_permission e) then (some e, h1) else perform os (sudo_rm path) h1
    ]

-- The error of a removal, but for a file that was not there.
abbrev pub unless_missing : Option OsError × History → Option OsError × History
unless_missing (none, h) = (none, h)
unless_missing (some e, h) = (if is_not_exist e then none else some e, h)

-- The copy that persistUploadedFile falls back to.
unfoldable pub copy_uploaded_file : Os → String → String → History → Option OsError × History
unfolding perform remove_file_with_fallback
copy_uploaded_file os source target h =
    let (copied, h1) = perform os (sudo_cp_file source target) h in
    elim copied [
      | none ↦ unless_missing (remove_file_with_fallback os source h1)
      | some e ↦ (some e, h1)
    ]

unfoldable pub persist_uploaded_file : Os → String → String → History → Option OsError × History
unfolding perform is_cross_device_rename copy_uploaded_file
persist_uploaded_file os source target h =
    let (renamed, h1) = perform os (rename source target) h in
    let (moved, h2) = perform os (sudo_mv source target) h1 in
    elim renamed [
      | none ↦ (none, h1)
      | some e ↦
          if is_cross_device_rename os e
          then copy_uploaded_file os source target h1
          else if is_permission e
          then elim moved [ none ↦ (none, h2) | some e' ↦ copy_uploaded_file os source target h2 ]
          else (some e, h1)
    ]

-- A call that gives the target the content of the source succeeded, and others may follow it.
unfoldable pub IsPlaced : Os → String → String → History → Type 0
IsPlaced os source target h =
    (call : Call) × (before : History) × (after : List Call) × (h ≡ before ++ call ∷ [] ++ after)
    × (os.result before call ≡ none)
    × ((call ≡ rename source target)
        ⊎ ((call ≡ sudo_mv source target) ⊎ (call ≡ sudo_cp_file source target)))

removal_calls :
    (os : Os) (path : String) (h : History)
    → (after : List Call) × ((remove_file_with_fallback os path h).1 ≡ h ++ after)
unfolding remove_file_with_fallback perform
removal_calls os path h = elim (Option-cases (os.result h (remove path))) [
  | inl e ↦ (remove path ∷ [], rw e refl)
  | inr (error, e) ↦ elim (Bool-cases (is_permission error)) [
    | inr stop ↦ (remove path ∷ [], rw (e, stop) refl)
    | inl go ↦ (
      remove path ∷ sudo_rm path ∷ [],
      rw (e, go) (append_assoc h (remove path ∷ []) (sudo_rm path ∷ [])),
    )
  ]
]

unless_missing-calls : (r : Option OsError × History) → (unless_missing r).1 ≡ r.1
unless_missing-calls (none, h) = refl
unless_missing-calls (some e, h) = refl

copy_uploaded_file-IsPlaced :
    (os : Os) (source target : String) (h : History)
    → (copy_uploaded_file os source target h).0 ≡ none
    → IsPlaced os source target (copy_uploaded_file os source target h).1
unfolding copy_uploaded_file perform IsPlaced
copy_uploaded_file-IsPlaced os source target h e =
    elim (Option-cases (os.result h (sudo_cp_file source target))) [
      | inr (error, failed) ↦ absurd (ground (arith, failed, e))
      | inl copied ↦
          let h1 = h ++ sudo_cp_file source target ∷ [] in
          let (after, calls) = removal_calls os source h1 in
          rw (copied, copy_uploaded_file)
            (
              sudo_cp_file source target,
              h,
              after,
              unless_missing-calls (remove_file_with_fallback os source h1) ∙ calls,
              copied,
              inr (inr refl),
            )
    ]

copied_as :
    (os : Os) (source target : String) (h : History) (answer : Option OsError × History)
    → answer ≡ copy_uploaded_file os source target h
    → answer.0 ≡ none
    → IsPlaced os source target answer.1
copied_as os source target h answer run e =
    subst (λ a. IsPlaced os source target a.1) (sym run)
      (copy_uploaded_file-IsPlaced os source target h (sym (ap (λ a. a.0) run) ∙ e))

-- When persistUploadedFile returns no error, a rename, a move or a copy of the received file to its
-- target succeeded.
pub persist_uploaded_file-IsPlaced :
    (os : Os) (source target : String) (h : History)
    → (persist_uploaded_file os source target h).0 ≡ none
    → IsPlaced os source target (persist_uploaded_file os source target h).1
unfolding persist_uploaded_file perform IsPlaced
persist_uploaded_file-IsPlaced os source target h e =
    let h1 = h ++ rename source target ∷ [] in
    elim (Option-cases (os.result h (rename source target))) [
      | inl renamed ↦
          rw (renamed, persist_uploaded_file)
            (rename source target, h, [], sym (append-nil h1), renamed, inl refl)
      | inr (error, failed) ↦ elim (Bool-cases (is_cross_device_rename os error)) [
        | inl cross ↦
            let run : persist_uploaded_file os source target h
                ≡ copy_uploaded_file os source target h1 =
              rw (failed, persist_uploaded_file, cross) refl in
            copied_as os source target h1 (persist_uploaded_file os source target h) run e
        | inr near ↦ elim (Bool-cases (is_permission error)) [
          | inr stop ↦ absurd (ground (arith, failed, near, stop, e))
          | inl go ↦ elim (Option-cases (os.result h1 (sudo_mv source target))) [
            | inl moved ↦
                rw (failed, persist_uploaded_file, near, go, moved)
                  (
                    sudo_mv source target,
                    h1,
                    [],
                    sym (append-nil (h1 ++ sudo_mv source target ∷ [])),
                    moved,
                    inr (inl refl),
                  )
            | inr (error', refused) ↦
                let run : persist_uploaded_file os source target h
                    ≡ copy_uploaded_file os source target (h1 ++ sudo_mv source target ∷ []) =
                  rw (failed, persist_uploaded_file, near, go, refused) refl in
                copied_as os source target (h1 ++ sudo_mv source target ∷ [])
                  (persist_uploaded_file os source target h) run e
          ]
        ]
      ]
    ]
