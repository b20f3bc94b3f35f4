-- ===== src/Jobs/Steps/SnapshotRuns.antt =====
-- The operations of internal/jobs/jobs.go on automatic snapshots, and of the worker as a whole, on
-- the jobs table: sequences of its statements.
use Prim.Native.Char.{Char}
use yesnas_server.Prelude.{
  ◌≡◌, refl, String, Option, none, some, not, ◌||◌, arith, Bool-cases, Option-cases, inl, inr,
}
use yesnas_server.Prelude.Text.{trim_space, is_empty}
use yesnas_server.Pools.Schedule.Calendar.{Zone}
use yesnas_server.Pools.Store.{StoragePool}
use yesnas_server.Jobs.Model.{
  Status, running, JobType, cloud_sync, auto_snapshot, unsupported, StopReason, pause, cancel,
  delete, CloudSyncPayload, Job, paused_status_message, success_status_message,
  decode_auto_snapshot,
}
use yesnas_server.Jobs.Statements.{insert_job}
use yesnas_server.Jobs.World.{
  World, Env, seconds, unregister_running_job, write_paused, write_cancelled, write_deleted,
  write_progress, write_success, write_schedule,
}
use yesnas_server.Jobs.Worker.{
  start_cloud_sync, RunResult, finished, context_cancelled, run_failed, claim_next_pending_job,
}
use yesnas_server.Jobs.Snapshots.{
  cloud_sync_job, enqueue_cloud_sync, auto_snapshot_job, enqueue_auto_snapshot_job, queue_pool,
  enqueue_due_pool, begin_auto_snapshot, fetch_pool, start_decoded_snapshot, start_auto_snapshot,
  stop_auto_snapshot, complete_auto_snapshot, finish_auto_snapshot,
}
use yesnas_server.Jobs.Process.{
  sync_activity, snapshot_activity, start_claimed, start_job, process_one_pending_job,
}
use yesnas_server.Jobs.Steps.{
  inserts, progresses, pauses, cancels, succeeds, deletes, Reach, here, IsNew,
}
use yesnas_server.Jobs.Steps.Operations.{Reach-trans, Reach-either, either_Reach}
use yesnas_server.Jobs.Steps.Runs.{
  attempt-Reach, registered-Reach, fail_job-Reach, claim-Reach, start_cloud_sync-Reach,
}
use yesnas_server.Jobs.Steps.Lookup.{find}

cloud_sync_job-IsNew :
    (env : Env) (pool : String) (p : CloudSyncPayload) → IsNew (cloud_sync_job env pool p)
unfolding cloud_sync_job
cloud_sync_job-IsNew env pool p = record { waiting = refl; unfinished = refl; unstarted = refl }

auto_snapshot_job-IsNew : (env : Env) (pool : StoragePool) → IsNew (auto_snapshot_job env pool)
unfolding auto_snapshot_job
auto_snapshot_job-IsNew env pool = record { waiting = refl; unfinished = refl; unstarted = refl }

module _ (Fresh : String → Type 0) where
  pub enqueue_cloud_sync-Reach :
      (env : Env) (pool : String) (p : CloudSyncPayload) (w : World)
      → Fresh env.fresh_id
      → find env.fresh_id w.jobs ≡ none
      → Reach Fresh w.jobs (enqueue_cloud_sync env pool p w).1.jobs
  unfolding enqueue_cloud_sync cloud_sync_job
  enqueue_cloud_sync-Reach env pool p w f absent =
      Reach-either Fresh {u = insert_job (cloud_sync_job env pool p) w.jobs} (ground arith)
        (inserts (cloud_sync_job env pool p) (cloud_sync_job-IsNew env pool p) f absent)

  enqueue_auto_snapshot_job-Reach :
      (env : Env) (pool : StoragePool) (w : World)
      → Fresh env.fresh_id
      → find env.fresh_id w.jobs ≡ none
      → Reach Fresh w.jobs (enqueue_auto_snapshot_job env pool w).jobs
  unfolding enqueue_auto_snapshot_job auto_snapshot_job
  enqueue_auto_snapshot_job-Reach env pool w f absent =
      Reach-either Fresh {u = insert_job (auto_snapshot_job env pool) w.jobs} (ground arith)
        (inserts (auto_snapshot_job env pool) (auto_snapshot_job-IsNew env pool) f absent)

  pub enqueue_due_pool-Reach :
      (wide : Char → Char) (z : Zone) (env : Env) (pool : StoragePool) (w : World)
      → Fresh env.fresh_id
      → find env.fresh_id w.jobs ≡ none
      → Reach Fresh w.jobs (enqueue_due_pool wide z env pool w).jobs
  unfolding enqueue_due_pool queue_pool enqueue_auto_snapshot_job
  enqueue_due_pool-Reach wide z env pool w f absent =
      either_Reach Fresh {u = (enqueue_auto_snapshot_job env pool w).jobs} (ground arith)
        (enqueue_auto_snapshot_job-Reach env pool w f absent)

  begin_auto_snapshot-Reach :
      (env : Env) (item : Job) (pool : StoragePool) (w : World)
      → Reach Fresh w.jobs (begin_auto_snapshot env item pool w).1.jobs
  unfolding begin_auto_snapshot
  begin_auto_snapshot-Reach env item pool w =
      elim (Bool-cases
        (not pool.auto_snapshot_enabled || is_empty (trim_space pool.auto_snapshot_schedule))) [
          | inl e ↦ rw e (fail_job-Reach Fresh env item.id _ _ _)
          | inr e ↦ rw e (
              registered-Reach Fresh item.id _ (
                attempt-Reach Fresh env write_progress _ w (
                  progresses item.id 25 "Creating automatic snapshot" (seconds env) (omega arith))))
        ]

  pub start_auto_snapshot-Reach :
      (env : Env) (item : Job) (w : World)
      → Reach Fresh w.jobs (start_auto_snapshot env item w).1.jobs
  unfolding start_auto_snapshot start_decoded_snapshot
  start_auto_snapshot-Reach env item w = elim (Option-cases (decode_auto_snapshot item.payload)) [
    | inl e ↦ rw (e, start_auto_snapshot) (fail_job-Reach Fresh env item.id _ _ _)
    | inr (payload, e) ↦
        rw (e, start_auto_snapshot)
          (elim (Option-cases (fetch_pool env payload.pool_id w)) [
            | inl n ↦ rw (n, start_decoded_snapshot) (fail_job-Reach Fresh env item.id _ _ _)
            | inr (pool, n) ↦
                rw (n, start_decoded_snapshot) (begin_auto_snapshot-Reach env item pool w)
          ])
  ]

  stop_auto_snapshot-Reach :
      (env : Env) (item : Job) (r : Option StopReason) (w : World)
      → Reach Fresh w.jobs (stop_auto_snapshot env item r w).jobs
  unfolding stop_auto_snapshot
  stop_auto_snapshot-Reach env item none w = fail_job-Reach Fresh env item.id _ _ w
  stop_auto_snapshot-Reach env item (some pause) w =
      attempt-Reach Fresh env write_paused _ w
        (pauses item.id (paused_status_message auto_snapshot) (seconds env))
  stop_auto_snapshot-Reach env item (some cancel) w =
      attempt-Reach Fresh env write_cancelled _ w (cancels item.id "Job cancelled" (seconds env))
  stop_auto_snapshot-Reach env item (some delete) w =
      attempt-Reach Fresh env write_deleted _ w (deletes item.id)

  complete_auto_snapshot-Reach :
      (wide : Char → Char) (z : Zone) (env : Env) (item : Job) (pool : StoragePool) (s : Status)
      (w : World)
      → Reach Fresh w.jobs (complete_auto_snapshot wide z env item pool s w).jobs
  unfolding complete_auto_snapshot
  complete_auto_snapshot-Reach wide z env item pool running w =
      elim (Bool-cases (env.db_ok write_schedule)) [
        | inl e ↦ rw e (
            attempt-Reach Fresh env write_success _ _
              (succeeds item.id env.encoded (success_status_message auto_snapshot) (seconds env)))
        | inr e ↦ rw e (fail_job-Reach Fresh env item.id _ _ _)
      ]
  complete_auto_snapshot-Reach wide z env item pool _ w = here

  pub finish_auto_snapshot-Reach :
      (wide : Char → Char) (z : Zone) (env : Env) (item : Job) (pool : StoragePool)
      (result : RunResult) (w : World)
      → Reach Fresh w.jobs (finish_auto_snapshot wide z env item pool result w).jobs
  unfolding finish_auto_snapshot unregister_running_job
  finish_auto_snapshot-Reach wide z env item pool finished w =
      complete_auto_snapshot-Reach wide z env item pool _ _
  finish_auto_snapshot-Reach wide z env item pool context_cancelled w =
      stop_auto_snapshot-Reach env item _ _
  finish_auto_snapshot-Reach wide z env item pool run_failed w =
      fail_job-Reach Fresh env item.id _ _ _

  start_job-Reach :
      (type : JobType) (env : Env) (item : Job) (w : World)
      → Reach Fresh w.jobs (start_job type env item w).1.jobs
  unfolding start_job
  start_job-Reach cloud_sync env item w =
      sync-Reach item (start_cloud_sync env item w) (start_cloud_sync-Reach Fresh env item w)
    where
      sync-Reach :
          (i : Job) (r : Option CloudSyncPayload × World)
          → Reach Fresh w.jobs r.1.jobs
          → Reach Fresh w.jobs (sync_activity i r).1.jobs
      sync-Reach i (none, v) h = h
      sync-Reach i (some p, v) h = h
  start_job-Reach auto_snapshot env item w =
      snap-Reach item (start_auto_snapshot env item w) (start_auto_snapshot-Reach env item w)
    where
      snap-Reach :
          (i : Job) (r : Option StoragePool × World)
          → Reach Fresh w.jobs r.1.jobs
          → Reach Fresh w.jobs (snapshot_activity i r).1.jobs
      snap-Reach i (none, v) h = h
      snap-Reach i (some p, v) h = h
  start_job-Reach unsupported env item w = fail_job-Reach Fresh env item.id _ _ w

  pub process_one_pending_job-Reach :
      (env : Env) (w : World) → Reach Fresh w.jobs (process_one_pending_job env w).1.jobs
  unfolding process_one_pending_job
  process_one_pending_job-Reach env w =
      started (claim_next_pending_job env w) (claim-Reach Fresh env w)
    where
      started :
          (r : Option Job × World)
          → Reach Fresh w.jobs r.1.jobs
          → Reach Fresh w.jobs (start_claimed env r).1.jobs
      started (none, v) h = h
      started (some item, v) h = Reach-trans Fresh h (start_job-Reach item.type env item v)
