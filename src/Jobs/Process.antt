-- ===== src/Jobs/Process.antt =====
-- internal/jobs/jobs.go: processOnePendingJob and the body of the worker's loop.
use Prim.Native.Char.{Char}
use yesnas_server.Prelude.{Bool, Option, none, some}
use yesnas_server.Pools.Schedule.Calendar.{Zone}
use yesnas_server.Pools.Store.{StoragePool}
use yesnas_server.Jobs.Model.{
  JobType, cloud_sync, auto_snapshot, unsupported, CloudSyncPayload, Job,
}
use yesnas_server.Jobs.World.{World, Env, mark_stale_running_jobs}
use yesnas_server.Jobs.Worker.{claim_next_pending_job, fail_job, start_cloud_sync}
use yesnas_server.Jobs.Snapshots.{start_auto_snapshot, enqueue_due_auto_snapshot_jobs}

-- What the worker is doing when a step of it ends.
pub data Activity : Type 0 where
  idle : Activity
  syncing : Job → CloudSyncPayload → Activity
  snapshotting : Job → StoragePool → Activity

abbrev pub sync_activity : Job → Option CloudSyncPayload × World → Activity × World
sync_activity item (none, w) = (idle, w)
sync_activity item (some payload, w) = (syncing item payload, w)

abbrev pub snapshot_activity : Job → Option StoragePool × World → Activity × World
snapshot_activity item (none, w) = (idle, w)
snapshot_activity item (some pool, w) = (snapshotting item pool, w)

-- The switch on the job's type.
unfoldable pub start_job : JobType → Env → Job → World → Activity × World
start_job cloud_sync env item w = sync_activity item (start_cloud_sync env item w)
start_job auto_snapshot env item w = snapshot_activity item (start_auto_snapshot env item w)
start_job unsupported env item w =
    (idle, fail_job env item.id "Unsupported job type" "Job failed" w)

abbrev pub start_claimed : Env → Option Job × World → Activity × World
start_claimed env (none, w) = (idle, w)
start_claimed env (some item, w) = start_job item.type env item w

unfoldable pub process_one_pending_job : Env → World → Activity × World
process_one_pending_job env w = start_claimed env (claim_next_pending_job env w)

-- One round of the worker, up to the upload or the snapshot that it begins.
unfoldable pub worker_round :
    (Char → Char) → Zone → Env → Bool → (StoragePool → Env) → World → Activity × World
worker_round wide z env listed pool_env w =
    process_one_pending_job env
      (enqueue_due_auto_snapshot_jobs wide z listed pool_env (mark_stale_running_jobs env w))
