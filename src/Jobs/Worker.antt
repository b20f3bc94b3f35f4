-- ===== src/Jobs/Worker.antt =====
-- internal/jobs/jobs.go: claiming a job, and the run of a cloud sync. A run is two steps, before
-- and after the upload, since other operations go on while it lasts.
use Prim.Native.String
use yesnas_server.Prelude.{
  String, Bool, true, false, Option, none, some, List, ◌&&◌, not, ◌==◌, if◌then◌else◌,
}
use yesnas_server.Prelude.Text.{trim_space, is_empty}
use yesnas_server.Prelude.Table.{count_where}
use yesnas_server.Pools.Store.{StoragePool}
use yesnas_server.Pools.Store
use yesnas_server.Jobs.Model.{
  Status, pending, running, paused, cancelled, cloud_sync, StopReason, pause, cancel, delete,
  CloudSyncPayload, decode_cloud_sync, Job, paused_status_message, failure_status_message,
  success_status_message,
}
use yesnas_server.Jobs.Statements.{
  has_id, has_status, claimed_row, update_claimed, oldest_pending, update_progress, update_paused,
  update_cancelled, update_failure, update_success, update_heartbeat, delete_job,
}
use yesnas_server.Jobs.World.{
  World, Env, read_pending, write_claimed, write_paused, write_cancelled, write_deleted,
  write_progress, write_failure, write_success, seconds, attempt, register_running_job,
  unregister_running_job, cleanup_cloud_sync_local_payload, current_job_status,
}

-- claimNextPendingJob: the row as it was read, with the fields that the claim sets.
unfoldable pub claim_next_pending_job : Env → World → Option Job × World
claim_next_pending_job env w =
    if not (env.db_ok read_pending) then (none, w) else elim (oldest_pending w.jobs) [
      | none ↦ (none, w)
      | some item ↦
          if not (env.db_ok write_claimed)
          then (none, w)
          else let rows = count_where (λ j. has_id item.id j && has_status pending j) w.jobs in
            let w' = record w { jobs = update_claimed item.id item.type (seconds env) w.jobs } in
            if rows == 0 then (none, w') else (some (claimed_row item.type (seconds env) item), w')
    ]

unfoldable pub fail_job : Env → String → String → String → World → World
fail_job env id message status_message =
    attempt env write_failure (update_failure id message status_message (seconds env))

abbrev pooled_storage : Env → Option StoragePool → Bool
pooled_storage env none = false
pooled_storage env (some p) =
    not (is_empty (trim_space p.storage_id)) && env.storage_exists (trim_space p.storage_id)

-- resolveCloudSyncStorage: whether it finds a storage.
unfoldable pub resolve_cloud_sync_storage : Env → String → List StoragePool → Bool
resolve_cloud_sync_storage env storage_pool_id pools =
    let id = trim_space storage_pool_id in
    if is_empty id
    then false
    else if env.storage_exists id
    then true
    else pooled_storage env (Store.get id pools)

-- runCloudSyncJob from the decoded payload up to the upload.
unfoldable pub begin_cloud_sync :
    Env → Job → CloudSyncPayload → World → Option CloudSyncPayload × World
begin_cloud_sync env item payload w =
    if not (resolve_cloud_sync_storage env item.storage_pool_id w.pools)
    then (
      none,
      cleanup_cloud_sync_local_payload payload
          (fail_job env item.id "Cloud storage not found" (failure_status_message cloud_sync) w),
    )
    else if not (env.open_ok payload.local_path)
    then (
      none,
      cleanup_cloud_sync_local_payload payload (
          fail_job env item.id (String.◌++◌ "Failed to open local cache file: " env.error_text)
            (failure_status_message cloud_sync) w),
    )
    else (
      some payload,
      register_running_job item.id (
          attempt env write_progress
            (update_progress item.id 25 "Uploading to Google Drive" (seconds env)) w),
    )

-- runCloudSyncJob up to the upload; `some` is the payload of an upload that has begun.
unfoldable pub start_cloud_sync : Env → Job → World → Option CloudSyncPayload × World
start_cloud_sync env item w = elim (decode_cloud_sync item.payload) [
  | none ↦ (
    none,
    fail_job env item.id (String.◌++◌ "Failed to decode sync job payload: " env.error_text)
        (failure_status_message cloud_sync) w,
  )
  | some payload ↦ begin_cloud_sync env item payload w
]

-- What the upload, or the creation of a snapshot, returns.
pub data RunResult : Type 0 where
  finished : RunResult
  context_cancelled : RunResult
  run_failed : RunResult

-- The switch on the reason, after the context of the run was cancelled.
unfoldable pub stop_cloud_sync : Env → Job → CloudSyncPayload → Option StopReason → World → World
stop_cloud_sync env item payload (some pause) w =
    attempt env write_paused
      (update_paused item.id (paused_status_message cloud_sync) (seconds env)) w
stop_cloud_sync env item payload (some cancel) w =
    attempt env write_cancelled (update_cancelled item.id "Job cancelled" (seconds env))
      (cleanup_cloud_sync_local_payload payload w)
stop_cloud_sync env item payload (some delete) w =
    attempt env write_deleted (delete_job item.id) (cleanup_cloud_sync_local_payload payload w)
stop_cloud_sync env item payload none w =
    fail_job env item.id "Sync job was interrupted" (failure_status_message cloud_sync) w

-- The upload failed and the context was not cancelled: by the status that the row has now.
unfoldable pub fail_cloud_sync : Env → Job → CloudSyncPayload → Status → World → World
fail_cloud_sync env item payload paused w = w
fail_cloud_sync env item payload cancelled w = cleanup_cloud_sync_local_payload payload w
fail_cloud_sync env item payload _ w = cleanup_cloud_sync_local_payload payload (
    fail_job env item.id (String.◌++◌ "Failed to upload to Google Drive: " env.error_text)
      (failure_status_message cloud_sync) w)

-- The upload went through: by the status that the row has now.
unfoldable pub complete_cloud_sync : Env → Job → CloudSyncPayload → Status → World → World
complete_cloud_sync env item payload running w =
    attempt env write_success
      (update_success item.id env.encoded (success_status_message cloud_sync) (seconds env))
      (cleanup_cloud_sync_local_payload payload w)
complete_cloud_sync env item payload cancelled w = cleanup_cloud_sync_local_payload payload w
complete_cloud_sync env item payload _ w = w

-- runCloudSyncJob from the end of the upload.
unfoldable pub finish_cloud_sync : Env → Job → CloudSyncPayload → RunResult → World → World
finish_cloud_sync env item payload result w =
    let (reason, w') = unregister_running_job item.id w in
    let status = current_job_status env item.id w' in
    elim result [
      | context_cancelled ↦ stop_cloud_sync env item payload reason w'
      | run_failed ↦ fail_cloud_sync env item payload status w'
      | finished ↦ complete_cloud_sync env item payload status w'
    ]

-- One beat of startJobHeartbeat; an error is only logged.
unfoldable pub heartbeat : Env → String → World → World
heartbeat env id = attempt env write_progress (update_heartbeat id (seconds env))
