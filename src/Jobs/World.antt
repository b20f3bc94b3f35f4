-- ===== src/Jobs/World.antt =====
-- internal/jobs/jobs.go: the state that the handlers and the worker share, the registry of running
-- jobs, the removal of cached files and the pass over stale jobs.
use Prim.Native.String
use yesnas_server.Prelude.{
  ℕ, ◌+◌, ◌*◌, ◌/◌, String, Bool, true, false, Option, none, some, List, [], ◌∷◌, ◌++◌, ◌&&◌, ◌||◌,
  not, str_eq, ltb, ◌==◌, if◌then◌else◌,
}
use yesnas_server.Prelude.Text.{trim_space, is_empty}
use yesnas_server.Prelude.Table.{select_where, count_where}
use yesnas_server.Pools.Store.{StoragePool}
use yesnas_server.Jobs.Model.{
  Status, running, unknown, cloud_sync, type_eq, StopReason, CloudSyncPayload, decode_cloud_sync,
  is_blank, parse_job_time, Job, nanoseconds, running_job_stale_after, failure_status_message,
}
use yesnas_server.Jobs.Statements.{get_raw, has_id, has_status, update_stale}

-- What the operations ask of the operating system about the file cache.
pub data Effect : Type 0 where
  remove_file : String → Effect  -- os.Remove(path)
  remove_parent : String → Effect  -- os.Remove(filepath.Dir(path))

-- A record of the audit log: the event, whether it tells of a success, and the job.
pub data Audit : Type 0 where
  audited : String → Bool → String → Audit

-- The tables, the registry (a map from the id of a job is a function), whether the context of a
-- job's run was cancelled, and what was asked of the operating system and the log so far.
pub record World : Type 0 where
  pub jobs : List Job
  pub pools : List StoragePool
  pub registered : String → Bool
  pub stop_reason : String → Option StopReason
  pub signalled : String → Bool
  pub effects : List Effect
  pub audits : List Audit

-- The statements that an operation runs, by the place where it runs them.
pub data Stmt : Type 0 where
  read_job reread_job read_status read_running read_pending : Stmt
  write_paused write_resumed write_cancelled write_deleted write_claimed : Stmt
  write_progress write_failure write_success write_schedule : Stmt
  read_pools read_active write_queued insert_snapshot insert_sync : Stmt

pub data StatResult : Type 0 where
  exists missing stat_failed : StatResult

-- What an operation meets while it runs: the time, which statements reach the database, the file
-- system, the other tables, and the text of an error in hand.
pub record Env : Type 0 where
  pub now : ℕ
  pub db_ok : Stmt → Bool
  pub stale_ok : String → Bool
  pub stat : String → StatResult
  pub open_ok : String → Bool
  pub storage_exists : String → Bool
  pub fresh_id : String
  pub encoded : String
  pub error_text : String

abbrev pub seconds : Env → ℕ
seconds env = env.now / nanoseconds

abbrev pub put_at {ℓ} : {A : Type ℓ} → String → A → (String → A) → String → A
put_at k v f j = if str_eq j k then v else f j

-- `_ = update...(...)`: an error of the database is passed over.
unfoldable pub attempt : Env → Stmt → (List Job → List Job) → World → World
attempt env stmt f w = if env.db_ok stmt then record w { jobs = f w.jobs } else w

unfoldable pub register_running_job : String → World → World
register_running_job id w = record w {
  registered = put_at id true w.registered;
  stop_reason = put_at id none w.stop_reason;
  signalled = put_at id false w.signalled;
}

-- The function that registerRunningJob returns.
unfoldable pub unregister_running_job : String → World → Option StopReason × World
unregister_running_job id w = (
  w.stop_reason id,
  record w {
    registered = put_at id false w.registered;
    stop_reason = put_at id none w.stop_reason;
  },
)

unfoldable pub request_running_job_stop : String → StopReason → World → Bool × World
request_running_job_stop id reason w =
    if w.registered id
    then (
      true,
      record w {
        stop_reason = put_at id (some reason) w.stop_reason;
        signalled = put_at id true w.signalled;
      },
    )
    else (false, w)

unfoldable pub cleanup_cloud_sync_local_payload : CloudSyncPayload → World → World
cleanup_cloud_sync_local_payload payload w =
    let path = trim_space payload.local_path in
    if is_empty path
    then w
    else record w { effects = w.effects ++ remove_file path ∷ remove_parent path ∷ [] }

abbrev cleanup_decoded : Option CloudSyncPayload → World → World
cleanup_decoded none w = w
cleanup_decoded (some payload) w = cleanup_cloud_sync_local_payload payload w

unfoldable pub cleanup_job_payload : Job → World → World
unfolding cleanup_cloud_sync_local_payload
cleanup_job_payload item w =
    if not (type_eq item.type cloud_sync) || is_blank item.payload
    then w
    else cleanup_decoded (decode_cloud_sync item.payload) w

abbrev check_cache : Env → Option CloudSyncPayload → Option String
check_cache env none = some (String.◌++◌ "failed to decode job payload: " env.error_text)
check_cache env (some payload) =
    let path = trim_space payload.local_path in
    if is_empty path then some "local cache file path is missing" else elim (env.stat path) [
      | exists ↦ none
      | missing ↦ some "local cache file is missing; please upload the file again"
      | stat_failed ↦ some (String.◌++◌ "failed to check local cache file: " env.error_text)
    ]

-- ensureJobLocalCacheAvailable: `none` is a nil error.
unfoldable pub ensure_job_local_cache_available : Env → Job → Option String
ensure_job_local_cache_available env item =
    if not (type_eq item.type cloud_sync) || is_blank item.payload
    then none
    else check_cache env (decode_cloud_sync item.payload)

-- currentJobStatus; the empty status of the source is `unknown`.
abbrev status_of : Option Job → Status
status_of none = unknown
status_of (some j) = j.status

unfoldable pub current_job_status : Env → String → World → Status
current_job_status env id w =
    if env.db_ok read_status then status_of (get_raw id w.jobs) else unknown

-- `!updatedAt.After(cutoff)` for a readable time: the job was not updated for five minutes.
unfoldable pub is_overdue : ℕ → Option ℕ → Bool
is_overdue now none = false
is_overdue now (some updated) = not (ltb now ((updated + running_job_stale_after) * nanoseconds))

abbrev pub stale_message : String
stale_message =
    "Job heartbeat timed out; the backend has not updated this job for more than 5m0s. The job may have stopped or the service may have restarted."

-- One row of the loop of markStaleRunningJobs; the row was read before the loop began.
unfoldable pub mark_stale_job : Env → Job → World → World
unfolding is_overdue cleanup_cloud_sync_local_payload
mark_stale_job env item w =
    if not (is_overdue env.now (parse_job_time item.updated_at))
    then w
    else if not (env.stale_ok item.id)
    then w
    else let rows = count_where (λ j. has_id item.id j && has_status running j) w.jobs in
      let w' = record w {
        jobs =
            update_stale item.id stale_message (failure_status_message item.type) (seconds env)
              w.jobs;
      } in
      if rows == 0
      then w'
      else if type_eq item.type cloud_sync
      then cleanup_decoded (decode_cloud_sync item.payload) w'
      else w'

unfoldable pub mark_stale_jobs : Env → List Job → World → World
unfolding mark_stale_job
mark_stale_jobs env [] w = w
mark_stale_jobs env (item ∷ items) w = mark_stale_jobs env items (mark_stale_job env item w)

unfoldable pub mark_stale_running_jobs : Env → World → World
unfolding mark_stale_jobs
mark_stale_running_jobs env w =
    if env.db_ok read_running
    then mark_stale_jobs env (select_where (has_status running) w.jobs) w
    else w
