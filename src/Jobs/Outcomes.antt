-- ===== src/Jobs/Outcomes.antt =====
-- How a run of runCloudSyncJob ends in the jobs table: internal/jobs/jobs.go.
use mathlib.Core.Path.{subst}
use yesnas_server.Prelude.{
  ℕ, ◌≡◌, refl, sym, String, Bool, true, false, Option, none, some, List, ◌&&◌, ◌||◌, str_eq_refl,
  arith, Bool-cases, Option-cases, inl, inr,
}
use yesnas_server.Prelude.Text.{trim_space}
use yesnas_server.Prelude.Table.{update_where, first_where_holds}
use yesnas_server.Jobs.Model.{
  Status, pending, running, paused, success, failed, cancelled, unknown, status_eq, StopReason,
  pause, cancel, delete, CloudSyncPayload, Job,
}
use yesnas_server.Jobs.Statements.{
  has_id, has_status, get_raw, paused_row, update_paused, cancelled_row, update_cancelled,
  failed_row, update_failure, success_row, update_success, delete_job,
}
use yesnas_server.Jobs.World.{
  World, Env, Stmt, read_status, write_paused, write_cancelled, write_deleted, write_failure,
  write_success, seconds, attempt, unregister_running_job, current_job_status,
  cleanup_cloud_sync_local_payload,
}
use yesnas_server.Jobs.Worker.{
  fail_job, RunResult, finished, context_cancelled, run_failed, stop_cloud_sync, fail_cloud_sync,
  complete_cloud_sync, finish_cloud_sync,
}
use yesnas_server.Jobs.Steps.Lookup.{find, find-update_where, find-delete_job}

-- A row that is gone or does not run.
abbrev pub Stopped : Option Job → Type 0
Stopped none = Unit {0}
Stopped (some j) = has_status running j ≡ false

update_where-Stopped :
    (k : String) (p : Job → Bool) (f : Job → Job) (t : List Job)
    → ((j : Job) → (f j).id ≡ j.id)
    → ((j : Job) → has_status running (f j) ≡ false)
    → ((j : Job) → has_id k j ≡ true → p j ≡ false → has_status running j ≡ false)
    → Stopped (find k (update_where p f t))
update_where-Stopped k p f t keep stops rest = elim (Option-cases (find k t)) [
  | inl e ↦ rw (find-update_where k p f t keep) (rw e tt)
  | inr (j, e) ↦ rw (find-update_where k p f t keep) (
      rw e (elim (Bool-cases (p j)) [
        | inl hit ↦ rw hit (stops j)
        | inr miss ↦ rw miss (rest j (first_where_holds (has_id k) t j e) miss)
      ]))
]

missed : (a b : Bool) → a ≡ true → (a && b) ≡ false → b ≡ false
missed a b h e = ground (arith, h, e)

neither : (a b c : Bool) → a ≡ true → (a && (b || c)) ≡ false → c ≡ false
neither a b c h e = ground (arith, h, e)

module _ (id : String) (seconds_now : ℕ) (t : List Job) where
  update_paused-Stopped : (m : String) → Stopped (find id (update_paused id m seconds_now t))
  unfolding update_paused paused_row
  update_paused-Stopped m =
      update_where-Stopped id _ (paused_row m seconds_now) t (λ j. refl) (λ j. refl)
        (λ j. neither (has_id id j) (has_status pending j) (has_status running j))

  update_cancelled-Stopped : (m : String) → Stopped (find id (update_cancelled id m seconds_now t))
  unfolding update_cancelled cancelled_row
  update_cancelled-Stopped m =
      update_where-Stopped id (has_id id) (cancelled_row m seconds_now) t (λ j. refl) (λ j. refl)
        (λ j h e. absurd (ground (arith, h, e)))

  update_failure-Stopped : (m n : String) → Stopped (find id (update_failure id m n seconds_now t))
  unfolding update_failure failed_row
  update_failure-Stopped m n =
      update_where-Stopped id _ (failed_row m n seconds_now) t (λ j. refl) (λ j. refl)
        (λ j. missed (has_id id j) (has_status running j))

  update_success-Stopped : (r m : String) → Stopped (find id (update_success id r m seconds_now t))
  unfolding update_success success_row
  update_success-Stopped r m =
      update_where-Stopped id _ (success_row r m seconds_now) t (λ j. refl) (λ j. refl)
        (λ j. missed (has_id id j) (has_status running j))

  delete_job-Stopped : trim_space id ≡ id → Stopped (find id (delete_job id t))
  delete_job-Stopped trimmed = rw (find-delete_job id id t) (rw trimmed (rw (str_eq_refl id) tt))

attempt-jobs :
    (env : Env) (stmt : Stmt) (f : List Job → List Job) (w : World)
    → env.db_ok stmt ≡ true
    → (attempt env stmt f w).jobs ≡ f w.jobs
unfolding attempt
attempt-jobs env stmt f w h = rw (h, attempt) refl

cleanup-jobs :
    (payload : CloudSyncPayload) (w : World)
    → (cleanup_cloud_sync_local_payload payload w).jobs ≡ w.jobs
unfolding cleanup_cloud_sync_local_payload
cleanup-jobs payload w = ground arith

module _ (env : Env) (item : Job) (payload : CloudSyncPayload)
    (db : (stmt : Stmt) → env.db_ok stmt ≡ true) where
  fail_job-Stopped :
      (m n : String) (w : World) → Stopped (find item.id (fail_job env item.id m n w).jobs)
  unfolding fail_job
  fail_job-Stopped m n w =
      subst (λ t. Stopped (find item.id t))
        (sym (
          attempt-jobs env write_failure (update_failure item.id m n (seconds env)) w
            (db write_failure)))
        (update_failure-Stopped item.id (seconds env) w.jobs m n)

  stop_cloud_sync-Stopped :
      (reason : Option StopReason) (w : World)
      → trim_space item.id ≡ item.id
      → Stopped (find item.id (stop_cloud_sync env item payload reason w).jobs)
  unfolding stop_cloud_sync
  stop_cloud_sync-Stopped (some pause) w trimmed =
      rw (attempt-jobs env write_paused _ w (db write_paused))
        (update_paused-Stopped item.id (seconds env) w.jobs _)
  stop_cloud_sync-Stopped (some cancel) w trimmed =
      rw (attempt-jobs env write_cancelled _ _ (db write_cancelled))
        (update_cancelled-Stopped item.id (seconds env) _ "Job cancelled")
  stop_cloud_sync-Stopped (some delete) w trimmed =
      rw (attempt-jobs env write_deleted _ _ (db write_deleted))
        (delete_job-Stopped item.id (seconds env) _ trimmed)
  stop_cloud_sync-Stopped none w trimmed = fail_job-Stopped _ _ w

  fail_cloud_sync-Stopped :
      (s : Status) (w : World)
      → (s ≡ paused → Stopped (find item.id w.jobs))
      → (s ≡ cancelled → Stopped (find item.id w.jobs))
      → Stopped (find item.id (fail_cloud_sync env item payload s w).jobs)
  unfolding fail_cloud_sync
  fail_cloud_sync-Stopped paused w held dropped = held refl
  fail_cloud_sync-Stopped cancelled w held dropped = rw (cleanup-jobs payload w) (dropped refl)
  fail_cloud_sync-Stopped pending w held dropped =
      rw (cleanup-jobs payload _) (fail_job-Stopped _ _ w)
  fail_cloud_sync-Stopped running w held dropped =
      rw (cleanup-jobs payload _) (fail_job-Stopped _ _ w)
  fail_cloud_sync-Stopped success w held dropped =
      rw (cleanup-jobs payload _) (fail_job-Stopped _ _ w)
  fail_cloud_sync-Stopped failed w held dropped =
      rw (cleanup-jobs payload _) (fail_job-Stopped _ _ w)
  fail_cloud_sync-Stopped unknown w held dropped =
      rw (cleanup-jobs payload _) (fail_job-Stopped _ _ w)

  complete_cloud_sync-Stopped :
      (s : Status) (w : World)
      → (status_eq s running ≡ false → Stopped (find item.id w.jobs))
      → Stopped (find item.id (complete_cloud_sync env item payload s w).jobs)
  unfolding complete_cloud_sync
  complete_cloud_sync-Stopped running w idle =
      rw (attempt-jobs env write_success _ _ (db write_success))
        (update_success-Stopped item.id (seconds env) _ _ _)
  complete_cloud_sync-Stopped cancelled w idle = rw (cleanup-jobs payload w) (idle refl)
  complete_cloud_sync-Stopped pending w idle = idle refl
  complete_cloud_sync-Stopped paused w idle = idle refl
  complete_cloud_sync-Stopped success w idle = idle refl
  complete_cloud_sync-Stopped failed w idle = idle refl
  complete_cloud_sync-Stopped unknown w idle = idle refl

  -- The status that the run reads is that of its row.
  current_job_status-Stopped :
      (w : World)
      → trim_space item.id ≡ item.id
      → status_eq (current_job_status env item.id w) running ≡ false
      → Stopped (find item.id w.jobs)
  unfolding current_job_status get_raw
  current_job_status-Stopped w trimmed h = elim (Option-cases (find item.id w.jobs)) [
    | inl e ↦ rw e tt
    | inr (j, e) ↦ rw e (rw (db read_status, trimmed, e) at h)
  ]

  -- A run of a synchronisation that has ended, however the upload ended, whatever stop was asked for
  -- and whatever the row says by then, leaves its job gone or in a status other than running: while
  -- the database answers, and for an identifier without white space around it.
  pub finish_cloud_sync-Stopped :
      (result : RunResult) (w : World)
      → trim_space item.id ≡ item.id
      → Stopped (find item.id (finish_cloud_sync env item payload result w).jobs)
  unfolding finish_cloud_sync unregister_running_job
  finish_cloud_sync-Stopped context_cancelled w trimmed =
      stop_cloud_sync-Stopped (w.stop_reason item.id) (unregister_running_job item.id w).1 trimmed
  finish_cloud_sync-Stopped run_failed w trimmed =
      let w' = (unregister_running_job item.id w).1 in
      fail_cloud_sync-Stopped (current_job_status env item.id w') w'
        (λ held. current_job_status-Stopped w' trimmed (rw held refl))
        (λ dropped. current_job_status-Stopped w' trimmed (rw dropped refl))
  finish_cloud_sync-Stopped finished w trimmed =
      let w' = (unregister_running_job item.id w).1 in
      complete_cloud_sync-Stopped (current_job_status env item.id w') w'
        (current_job_status-Stopped w' trimmed)
