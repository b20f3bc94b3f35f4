-- ===== src/Jobs/Steps/Runs.antt =====
-- Every operation of the worker of internal/jobs/jobs.go on the jobs table is a sequence of its
-- statements.
use mathlib.Core.Path.{subst}
use yesnas_server.Prelude.{
  sym, String, Option, none, some, List, arith, Bool-cases, Option-cases, inl, inr,
}
use yesnas_server.Jobs.Model.{
  Status, running, paused, cancelled, cloud_sync, StopReason, pause, cancel, delete,
  CloudSyncPayload, Job, paused_status_message, success_status_message, decode_cloud_sync,
}
use yesnas_server.Jobs.Statements.{update_failure, update_claimed, oldest_pending}
use yesnas_server.Jobs.World.{
  World, Env, Stmt, seconds, attempt, cleanup_cloud_sync_local_payload, register_running_job,
  unregister_running_job, write_paused, write_cancelled, write_deleted, write_progress,
  write_failure, write_success,
}
use yesnas_server.Jobs.Worker.{
  claim_next_pending_job, fail_job, resolve_cloud_sync_storage, begin_cloud_sync, start_cloud_sync,
  stop_cloud_sync, fail_cloud_sync, complete_cloud_sync, finish_cloud_sync, RunResult, finished,
  context_cancelled, run_failed,
}
use yesnas_server.Jobs.Steps.{
  Step, claims, progresses, pauses, cancels, fails, succeeds, deletes, Reach, here,
}
use yesnas_server.Jobs.Steps.Operations.{
  Reach-either, either_Reach, Reach-from, cleanup_payload_jobs,
}

module _ (Fresh : String → Type 0) where
  pub attempt-Reach :
      (env : Env) (stmt : Stmt) (f : List Job → List Job) (w : World)
      → Step Fresh w.jobs (f w.jobs)
      → Reach Fresh w.jobs (attempt env stmt f w).jobs
  unfolding attempt
  attempt-Reach env stmt f w s = Reach-either Fresh {u = f w.jobs} (ground arith) s

  pub fail_job-Reach :
      (env : Env) (id m n : String) (w : World) → Reach Fresh w.jobs (fail_job env id m n w).jobs
  unfolding fail_job
  fail_job-Reach env id m n w =
      attempt-Reach env write_failure (update_failure id m n (seconds env)) w
        (fails id m n (seconds env))

  -- The removal of cached files does not touch the table.
  cleaned-Reach :
      {t : List Job} (payload : CloudSyncPayload) (w : World)
      → Reach Fresh t w.jobs
      → Reach Fresh t (cleanup_cloud_sync_local_payload payload w).jobs
  cleaned-Reach {t} payload w r =
      subst (Reach Fresh t) (sym (cleanup_payload_jobs Fresh payload w)) r

  pub claim-Reach :
      (env : Env) (w : World) → Reach Fresh w.jobs (claim_next_pending_job env w).1.jobs
  unfolding claim_next_pending_job
  claim-Reach env w = elim (Option-cases (oldest_pending w.jobs)) [
    | inl e ↦ either_Reach Fresh {u = w.jobs} (ground arith) here
    | inr (item, e) ↦
        Reach-either Fresh {u = update_claimed item.id item.type (seconds env) w.jobs}
          (ground arith) (claims item.id item.type (seconds env))
  ]

  pub registered-Reach :
      {t : List Job} (id : String) (w : World)
      → Reach Fresh t w.jobs
      → Reach Fresh t (register_running_job id w).jobs
  unfolding register_running_job
  registered-Reach id w r = r

  begin_cloud_sync-Reach :
      (env : Env) (item : Job) (payload : CloudSyncPayload) (w : World)
      → Reach Fresh w.jobs (begin_cloud_sync env item payload w).1.jobs
  unfolding begin_cloud_sync
  begin_cloud_sync-Reach env item payload w =
      elim (Bool-cases (resolve_cloud_sync_storage env item.storage_pool_id w.pools)) [
        | inr e ↦ rw e (cleaned-Reach payload _ (fail_job-Reach env item.id _ _ w))
        | inl e ↦ rw e (elim (Bool-cases (env.open_ok payload.local_path)) [
          | inr o ↦ rw o (cleaned-Reach payload _ (fail_job-Reach env item.id _ _ w))
          | inl o ↦ rw o (
              registered-Reach item.id _ (
                attempt-Reach env write_progress _ w
                  (progresses item.id 25 "Uploading to Google Drive" (seconds env) (omega arith))))
        ])
      ]

  pub start_cloud_sync-Reach :
      (env : Env) (item : Job) (w : World) → Reach Fresh w.jobs (start_cloud_sync env item w).1.jobs
  unfolding start_cloud_sync
  start_cloud_sync-Reach env item w = elim (Option-cases (decode_cloud_sync item.payload)) [
    | inl e ↦ rw (e, start_cloud_sync) (fail_job-Reach env item.id _ _ w)
    | inr (payload, e) ↦ rw (e, start_cloud_sync) (begin_cloud_sync-Reach env item payload w)
  ]

  stop_cloud_sync-Reach :
      (env : Env) (item : Job) (payload : CloudSyncPayload) (r : Option StopReason) (w : World)
      → Reach Fresh w.jobs (stop_cloud_sync env item payload r w).jobs
  unfolding stop_cloud_sync
  stop_cloud_sync-Reach env item payload none w = fail_job-Reach env item.id _ _ w
  stop_cloud_sync-Reach env item payload (some pause) w =
      attempt-Reach env write_paused _ w
        (pauses item.id (paused_status_message cloud_sync) (seconds env))
  stop_cloud_sync-Reach env item payload (some cancel) w =
      Reach-from Fresh (cleanup_payload_jobs Fresh payload w) (
        attempt-Reach env write_cancelled _ (cleanup_cloud_sync_local_payload payload w)
          (cancels item.id "Job cancelled" (seconds env)))
  stop_cloud_sync-Reach env item payload (some delete) w =
      Reach-from Fresh (cleanup_payload_jobs Fresh payload w) (
        attempt-Reach env write_deleted _ (cleanup_cloud_sync_local_payload payload w)
          (deletes item.id))

  fail_cloud_sync-Reach :
      (env : Env) (item : Job) (payload : CloudSyncPayload) (s : Status) (w : World)
      → Reach Fresh w.jobs (fail_cloud_sync env item payload s w).jobs
  unfolding fail_cloud_sync
  fail_cloud_sync-Reach env item payload paused w = here
  fail_cloud_sync-Reach env item payload cancelled w = cleaned-Reach payload w here
  fail_cloud_sync-Reach env item payload _ w =
      cleaned-Reach payload _ (fail_job-Reach env item.id _ _ w)

  complete_cloud_sync-Reach :
      (env : Env) (item : Job) (payload : CloudSyncPayload) (s : Status) (w : World)
      → Reach Fresh w.jobs (complete_cloud_sync env item payload s w).jobs
  unfolding complete_cloud_sync
  complete_cloud_sync-Reach env item payload running w =
      Reach-from Fresh (cleanup_payload_jobs Fresh payload w) (
        attempt-Reach env write_success _ (cleanup_cloud_sync_local_payload payload w)
          (succeeds item.id env.encoded (success_status_message cloud_sync) (seconds env)))
  complete_cloud_sync-Reach env item payload cancelled w = cleaned-Reach payload w here
  complete_cloud_sync-Reach env item payload _ w = here

  pub finish_cloud_sync-Reach :
      (env : Env) (item : Job) (payload : CloudSyncPayload) (result : RunResult) (w : World)
      → Reach Fresh w.jobs (finish_cloud_sync env item payload result w).jobs
  unfolding finish_cloud_sync unregister_running_job
  finish_cloud_sync-Reach env item payload finished w =
      complete_cloud_sync-Reach env item payload _ _
  finish_cloud_sync-Reach env item payload context_cancelled w =
      stop_cloud_sync-Reach env item payload _ _
  finish_cloud_sync-Reach env item payload run_failed w = fail_cloud_sync-Reach env item payload _ _
