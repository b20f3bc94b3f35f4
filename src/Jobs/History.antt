-- ===== src/Jobs/History.antt =====
-- Histories of the server's jobs: any order of the handlers' and the worker's operations of
-- internal/jobs/jobs.go, each with the environment that it meets.
use Prim.Native.Char.{Char}
use yesnas_server.Prelude.{◌≡◌, String, true, none, arith}
use yesnas_server.Pools.Schedule.Calendar.{Zone}
use yesnas_server.Pools.Store.{StoragePool}
use yesnas_server.Jobs.Model.{Status, CloudSyncPayload, Job}
use yesnas_server.Jobs.Statements.{update_heartbeat}
use yesnas_server.Jobs.World.{World, Env, Stmt, seconds, mark_stale_running_jobs}
use yesnas_server.Jobs.Handlers.{
  get_job, handle_get, handle_pause, handle_resume, handle_cancel, handle_delete,
}
use yesnas_server.Jobs.Worker.{RunResult, finish_cloud_sync, heartbeat}
use yesnas_server.Jobs.Snapshots.{enqueue_cloud_sync, enqueue_due_pool, finish_auto_snapshot}
use yesnas_server.Jobs.Process.{process_one_pending_job}
use yesnas_server.Jobs.Steps.{Reach, here, beats}
use yesnas_server.Jobs.Steps.Lookup.{find}
use yesnas_server.Jobs.Steps.Rows.{TableOk, Reach-TableOk, is_final}
use yesnas_server.Jobs.Steps.Lifecycle.{Ended, final_stays}
use yesnas_server.Jobs.Steps.Operations.{
  Reach-trans, mark_stale_running_jobs-Reach, handle_pause-Reach, handle_resume-Reach,
  handle_cancel-Reach, handle_delete-Reach,
}
use yesnas_server.Jobs.Steps.Runs.{attempt-Reach, finish_cloud_sync-Reach}
use yesnas_server.Jobs.Steps.SnapshotRuns.{
  enqueue_cloud_sync-Reach, enqueue_due_pool-Reach, finish_auto_snapshot-Reach,
  process_one_pending_job-Reach,
}

-- `Fresh` are the identifiers that the generator may still give out.
module _ (wide : Char → Char) (z : Zone) (Fresh : String → Type 0) where
  pub data Act : World → World → Type 0 where
    on_get : {w : World} (env : Env) (id : String) → Act w (handle_get env id w).1
    on_pause : {w : World} (env : Env) (id : String) → Act w (handle_pause env id w).1
    on_resume : {w : World} (env : Env) (id : String) → Act w (handle_resume env id w).1
    on_cancel : {w : World} (env : Env) (id : String) → Act w (handle_cancel env id w).1
    on_delete : {w : World} (env : Env) (id : String) → Act w (handle_delete env id w).1
    on_sweep : {w : World} (env : Env) → Act w (mark_stale_running_jobs env w)
    on_upload :
        {w : World} (env : Env) (pool : String) (p : CloudSyncPayload)
        → Fresh env.fresh_id
        → find env.fresh_id w.jobs ≡ none
        → Act w (enqueue_cloud_sync env pool p w).1
    on_due :
        {w : World} (env : Env) (pool : StoragePool)
        → Fresh env.fresh_id
        → find env.fresh_id w.jobs ≡ none
        → Act w (enqueue_due_pool wide z env pool w)
    on_work : {w : World} (env : Env) → Act w (process_one_pending_job env w).1
    on_beat : {w : World} (env : Env) (id : String) → Act w (heartbeat env id w)
    on_synced :
        {w : World} (env : Env) (item : Job) (p : CloudSyncPayload) (r : RunResult)
        → Act w (finish_cloud_sync env item p r w)
    on_snapshot :
        {w : World} (env : Env) (item : Job) (pool : StoragePool) (r : RunResult)
        → Act w (finish_auto_snapshot wide z env item pool r w)

  pub data History (w : World) : World → Type 0 where
    begin : History w w
    then : {u v : World} → History w u → Act u v → History w v

  handle_get_jobs :
      (env : Env) (id : String) (w : World)
      → (handle_get env id w).1.jobs ≡ (mark_stale_running_jobs env w).jobs
  unfolding handle_get get_job
  handle_get_jobs env id w = ground arith

  heartbeat-Reach :
      (env : Env) (id : String) (w : World) → Reach Fresh w.jobs (heartbeat env id w).jobs
  unfolding heartbeat
  heartbeat-Reach env id w =
      attempt-Reach Fresh env Stmt.write_progress (update_heartbeat id (seconds env)) w
        (beats id (seconds env))

  Act-Reach : {w v : World} → Act w v → Reach Fresh w.jobs v.jobs
  Act-Reach (on_get {w} env id) =
      rw (handle_get_jobs env id w) (mark_stale_running_jobs-Reach Fresh env w)
  Act-Reach (on_pause {w} env id) = handle_pause-Reach Fresh env id w
  Act-Reach (on_resume {w} env id) = handle_resume-Reach Fresh env id w
  Act-Reach (on_cancel {w} env id) = handle_cancel-Reach Fresh env id w
  Act-Reach (on_delete {w} env id) = handle_delete-Reach Fresh env id w
  Act-Reach (on_sweep {w} env) = mark_stale_running_jobs-Reach Fresh env w
  Act-Reach (on_upload {w} env pool p f a) = enqueue_cloud_sync-Reach Fresh env pool p w f a
  Act-Reach (on_due {w} env pool f a) = enqueue_due_pool-Reach Fresh wide z env pool w f a
  Act-Reach (on_work {w} env) = process_one_pending_job-Reach Fresh env w
  Act-Reach (on_beat {w} env id) = heartbeat-Reach env id w
  Act-Reach (on_synced {w} env item p r) = finish_cloud_sync-Reach Fresh env item p r w
  Act-Reach (on_snapshot {w} env item pool r) =
      finish_auto_snapshot-Reach Fresh wide z env item pool r w

  -- Whatever the handlers and the worker do, in any order and whichever statements of theirs fail,
  -- the table is one that a sequence of the statements makes.
  History-Reach : {w v : World} → History w v → Reach Fresh w.jobs v.jobs
  History-Reach begin = here
  History-Reach (then h a) = Reach-trans Fresh (History-Reach h) (Act-Reach a)

  -- From a consistent table every history of operations, in any order and whichever of their
  -- statements fail, leads to a consistent table: no two rows have one id, an open job has no time
  -- of its end, a job that succeeded, failed or was cancelled has one, a running job has the time
  -- of its start, and the progress is at most 100.
  pub History-TableOk : {w v : World} → TableOk w.jobs → History w v → TableOk v.jobs
  History-TableOk ok h = Reach-TableOk Fresh ok (History-Reach h)

  -- Along every history of operations a job that succeeded, failed or was cancelled, and whose id
  -- is not given out again, is later gone, has the same status, or was turned into a cancelled one:
  -- it never waits, runs or pauses again.
  pub History-Ended :
      (k : String) (s : Status) {w v : World}
      → ¬ Fresh k
      → is_final s ≡ true
      → Ended s (find k w.jobs)
      → History w v
      → Ended s (find k v.jobs)
  History-Ended k s old f e h = final_stays Fresh k old s f (History-Reach h) e
