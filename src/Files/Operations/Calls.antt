-- ===== src/Files/Operations/Calls.antt =====
-- internal/files/operations.go: the calls that an operation adds to those made before.
use yesnas_server.Prelude.{
  String, Bool, true, false, Option, none, some, List, [], ◌∷◌, ◌++◌, ◌≡◌, refl, ap, sym, ◌∙◌, ◌&&◌,
  not, if◌then◌else◌, inl, inr, Bool-cases, Option-cases, All, All-append,
}
use mathlib.Core.List.{append-nil, append_assoc}
use yesnas_server.Files.Disk.{
  Os, OsError, Call, rename, sudo_mv, sudo_cp, remove_all, sudo_rm_all, History, perform,
  is_permission, is_cross_device_rename,
}
use yesnas_server.Files.Operations.{
  move_path, copy_path, remove_path, answer_operation, carry_out, after_overwrite, Transfer,
}

-- The second history is the first and calls that all satisfy the predicate.
unfoldable pub Adds : (Call → Type 0) → History → History → Type 0
Adds P h h' = (calls : List Call) × (h' ≡ h ++ calls) × All P calls

module _ (P : Call → Type 0) where
  pub Adds-nothing : (h : History) → Adds P h h
  unfolding Adds
  Adds-nothing h = ([], sym (append-nil h), tt)

  pub Adds-trans : (h h1 h2 : History) → Adds P h h1 → Adds P h1 h2 → Adds P h h2
  unfolding Adds
  Adds-trans h h1 h2 (calls, e, p) (calls', e', p') = (
    calls ++ calls',
    e' ∙ ap (λ k. k ++ calls') e ∙ append_assoc h calls calls',
    All-append P calls calls' p p',
  )

  pub Adds-perform : (os : Os) (call : Call) (h : History) → P call → Adds P h (perform os call h).1
  unfolding Adds perform
  Adds-perform os call h p = (call ∷ [], refl, (p, tt))

  pub Adds-move_path :
      (os : Os) (source target : String) (h : History)
      → P (rename source target)
      → P (sudo_mv source target)
      → Adds P h (move_path os source target h).1
  unfolding move_path perform
  Adds-move_path os source target h p q =
      let first = Adds-perform os (rename source target) h p in
      elim (Option-cases (os.result h (rename source target))) [
        | inl e ↦ rw e first
        | inr (error, e) ↦
            elim (Bool-cases (not (is_permission error) && not (is_cross_device_rename os error))) [
              | inl stop ↦ rw (e, stop) first
              | inr go ↦
                  rw (e, go)
                    (Adds-trans h (h ++ rename source target ∷ [])
                      (h ++ rename source target ∷ [] ++ sudo_mv source target ∷ []) first
                      (Adds-perform os (sudo_mv source target) (h ++ rename source target ∷ []) q))
            ]
      ]

  pub Adds-copy_path :
      (os : Os) (source target : String) (h : History)
      → P (sudo_cp source target)
      → Adds P h (copy_path os source target h).1
  unfolding copy_path
  Adds-copy_path os source target h p = Adds-perform os (sudo_cp source target) h p

  pub Adds-remove_path :
      (os : Os) (target : String) (h : History)
      → P (remove_all target)
      → P (sudo_rm_all target)
      → Adds P h (remove_path os target h).1
  unfolding remove_path perform
  Adds-remove_path os target h p q =
      let first = Adds-perform os (remove_all target) h p in
      elim (Option-cases (os.result h (remove_all target))) [
        | inl e ↦ rw e first
        | inr (error, e) ↦ elim (Bool-cases (is_permission error)) [
          | inl go ↦
              rw (e, go)
                (Adds-trans h (h ++ remove_all target ∷ [])
                  (h ++ remove_all target ∷ [] ++ sudo_rm_all target ∷ []) first
                  (Adds-perform os (sudo_rm_all target) (h ++ remove_all target ∷ []) q))
          | inr stop ↦ rw (e, stop) first
        ]
      ]

  pub Adds-answer_operation :
      (os : Os) (root target code : String) (h : History) (r : Option OsError × History)
      → Adds P h r.1
      → Adds P h (answer_operation os root target code r).1
  unfolding answer_operation
  Adds-answer_operation os root target code h (none, h1) a = a
  Adds-answer_operation os root target code h (some e, h1) a = a

  Adds-after_overwrite :
      (os : Os) (transfer : Os → String → String → History → Option OsError × History)
      (failed : String) (t : Transfer) (h : History) (r : Option OsError × History)
      → Adds P h r.1
      → ((h1 : History) → Adds P h1 (transfer os t.source t.target h1).1)
      → Adds P h (after_overwrite os transfer failed t r).1
  unfolding after_overwrite
  Adds-after_overwrite os transfer failed t h (some e, h1) a moves = a
  Adds-after_overwrite os transfer failed t h (none, h1) a moves =
      Adds-answer_operation os t.root t.target failed h (transfer os t.source t.target h1)
        (Adds-trans h h1 (transfer os t.source t.target h1).1 a (moves h1))

  Adds-cleared :
      (os : Os) (b : Bool) (target : String) (h : History)
      → P (remove_all target)
      → P (sudo_rm_all target)
      → Adds P h (if b then remove_path os target h else (none, h)).1
  Adds-cleared os true target h p q = Adds-remove_path os target h p q
  Adds-cleared os false target h p q = Adds-nothing h

  pub Adds-carry_out :
      (os : Os) (transfer : Os → String → String → History → Option OsError × History)
      (failed : String) (t : Transfer) (h : History)
      → P (remove_all t.target)
      → P (sudo_rm_all t.target)
      → ((h1 : History) → Adds P h1 (transfer os t.source t.target h1).1)
      → Adds P h (carry_out os transfer failed t h).1
  unfolding carry_out
  Adds-carry_out os transfer failed t h p q moves =
      Adds-after_overwrite os transfer failed t h
        (if t.should_overwrite then remove_path os t.target h else (none, h))
        (Adds-cleared os t.should_overwrite t.target h p q) moves
