-- ===== src/Jobs/Snapshots.antt =====
-- internal/jobs/jobs.go: automatic snapshots, from the schedule of a pool to the job and its run.
use Prim.Native.Char.{Char}
use Prim.Native.String
use yesnas_server.Prelude.{
  ℕ, zero, suc, String, Bool, true, false, Option, none, some, List, [], ◌∷◌, ◌&&◌, ◌||◌, not, ltb,
  if◌then◌else◌,
}
use yesnas_server.Prelude.Text.{trim_space, is_empty}
use yesnas_server.Pools.Schedule.Calendar.{Zone, next_auto_snapshot_time}
use yesnas_server.Pools.Store.{
  StoragePool, update_auto_snapshot_queued, update_auto_snapshot_success,
}
use yesnas_server.Pools.Store
use yesnas_server.Jobs.Model.{
  Status, pending, running, cloud_sync, auto_snapshot, StopReason, pause, cancel, delete,
  AutoSnapshotPayload, CloudSyncPayload, decode_auto_snapshot, snapshot_object, cloud_object, Job,
  at, paused_status_message, failure_status_message, success_status_message,
}
use yesnas_server.Jobs.Statements.{
  insert_job, has_pending_or_running_auto_snapshot_job, update_progress, update_paused,
  update_cancelled, update_success, delete_job,
}
use yesnas_server.Jobs.World.{
  World, Env, write_paused, write_cancelled, write_deleted, write_progress, write_success,
  write_schedule, read_pools, read_active, write_queued, insert_snapshot, insert_sync, seconds,
  attempt, register_running_job, unregister_running_job, current_job_status,
}
use yesnas_server.Jobs.Worker.{fail_job, RunResult, finished, context_cancelled, run_failed}
use yesnas_server.Jobs.Handlers.{log}

-- EnqueueCloudSync: the row that it inserts.
unfoldable pub cloud_sync_job : Env → String → CloudSyncPayload → Job
cloud_sync_job env storage_pool_id payload = record {
  id = env.fresh_id;
  type = cloud_sync;
  status = pending;
  title = "Sync to Google Drive";
  storage_pool_id = storage_pool_id;
  resource_type = "file";
  resource_id = payload.target_path;
  progress = 0;
  message = "Waiting to sync";
  error_message = "";
  payload = cloud_object payload;
  result = "";
  created_at = seconds env;
  updated_at = at (seconds env);
  started_at = none;
  finished_at = none;
}

unfoldable pub enqueue_cloud_sync : Env → String → CloudSyncPayload → World → Option Job × World
enqueue_cloud_sync env storage_pool_id payload w =
    let item = cloud_sync_job env storage_pool_id payload in
    if env.db_ok insert_sync
    then (some item, record w { jobs = insert_job item w.jobs })
    else (none, w)

unfoldable pub auto_snapshot_job : Env → StoragePool → Job
auto_snapshot_job env pool = record {
  id = env.fresh_id;
  type = auto_snapshot;
  status = pending;
  title = "Automatic snapshot";
  storage_pool_id = pool.id;
  resource_type = "storage_pool";
  resource_id = pool.id;
  progress = 0;
  message = "Waiting to create automatic snapshot";
  error_message = "";
  payload = snapshot_object (record { pool_id = pool.id; schedule = pool.auto_snapshot_schedule });
  result = "";
  created_at = seconds env;
  updated_at = at (seconds env);
  started_at = none;
  finished_at = none;
}

unfoldable pub enqueue_auto_snapshot_job : Env → StoragePool → World → World
enqueue_auto_snapshot_job env pool w =
    if env.db_ok insert_snapshot
    then log "auto_snapshot_scheduled" true pool.id
        (record w { jobs = insert_job (auto_snapshot_job env pool) w.jobs })
    else w

-- `none` is nil or Go's zero time, the year 1, which is no instant here.
abbrev pub base_time : Option ℕ → ℕ → ℕ
base_time none now = now
base_time (some t) now = t

-- The loop of nextAutoSnapshotAfter; `none` is fuel that ran out.
unfoldable pub advance : (Char → Char) → Zone → ℕ → String → ℕ → ℕ → Option ℕ
advance wide z zero schedule now next = none
advance wide z (suc fuel) schedule now next =
    let rest = advance wide z fuel schedule now (next_auto_snapshot_time wide z next schedule) in
    if not (ltb now next) then rest else some next

-- Each round moves the time forward, so that now + 1 rounds are enough.
unfoldable pub next_auto_snapshot_after : (Char → Char) → Zone → Option ℕ → String → ℕ → Option ℕ
next_auto_snapshot_after wide z last schedule now =
    advance wide z (suc now) schedule now
      (next_auto_snapshot_time wide z (base_time last now) schedule)

-- Whether the scheduler passes over a pool: off, no schedule, no next run, or not yet due.
unfoldable pub is_due : ℕ → StoragePool → Bool
is_due now pool =
    not (not pool.auto_snapshot_enabled || is_empty (trim_space pool.auto_snapshot_schedule))
    && elim pool.next_auto_snapshot_at [ none ↦ false | some next ↦ not (ltb now next) ]

-- One pool of the loop of enqueueDueAutoSnapshotJobs, once it is due and has no active job.
unfoldable pub queue_pool : (Char → Char) → Zone → Env → StoragePool → World → World
queue_pool wide z env pool w =
    elim (next_auto_snapshot_after wide z pool.next_auto_snapshot_at pool.auto_snapshot_schedule
      env.now) [
        | none ↦ w
        | some next ↦
            if not (env.db_ok write_queued)
            then w
            else enqueue_auto_snapshot_job env pool
                (record w { pools = update_auto_snapshot_queued pool.id next env.now w.pools })
      ]

unfoldable pub enqueue_due_pool : (Char → Char) → Zone → Env → StoragePool → World → World
enqueue_due_pool wide z env pool w =
    if not (is_due env.now pool)
    then w
    else if not (env.db_ok read_active)
    then w
    else if has_pending_or_running_auto_snapshot_job pool.id w.jobs
    then w
    else queue_pool wide z env pool w

-- The rows were read before the loop; each pool's job gets the identifier of its environment.
unfoldable pub enqueue_due_pools :
    (Char → Char) → Zone → (StoragePool → Env) → List StoragePool → World → World
enqueue_due_pools wide z env [] w = w
enqueue_due_pools wide z env (pool ∷ pools) w =
    enqueue_due_pools wide z env pools (enqueue_due_pool wide z (env pool) pool w)

unfoldable pub enqueue_due_auto_snapshot_jobs :
    (Char → Char) → Zone → Bool → (StoragePool → Env) → World → World
enqueue_due_auto_snapshot_jobs wide z listed env w =
    if listed then enqueue_due_pools wide z env w.pools w else w

-- runAutoSnapshotJob from the pool that it found up to CreateSnapshot.
unfoldable pub begin_auto_snapshot : Env → Job → StoragePool → World → Option StoragePool × World
begin_auto_snapshot env item pool w =
    if not pool.auto_snapshot_enabled || is_empty (trim_space pool.auto_snapshot_schedule)
    then (
      none,
      fail_job env item.id "Automatic snapshot is disabled for this storage pool"
          (failure_status_message auto_snapshot) (log "auto_snapshot_failed" false pool.id w),
    )
    else (
      some pool,
      register_running_job item.id (
          attempt env write_progress
            (update_progress item.id 25 "Creating automatic snapshot" (seconds env)) w),
    )

abbrev pub fetch_pool : Env → String → World → Option StoragePool
fetch_pool env id w = if env.db_ok read_pools then Store.get (trim_space id) w.pools else none

unfoldable pub start_decoded_snapshot :
    Env → Job → AutoSnapshotPayload → World → Option StoragePool × World
start_decoded_snapshot env item payload w = elim (fetch_pool env payload.pool_id w) [
  | none ↦ (
    none,
    fail_job env item.id "Storage pool not found" (failure_status_message auto_snapshot)
        (log "auto_snapshot_failed" false payload.pool_id w),
  )
  | some pool ↦ begin_auto_snapshot env item pool w
]

-- runAutoSnapshotJob up to CreateSnapshot; `some` is the pool whose snapshot is being made.
unfoldable pub start_auto_snapshot : Env → Job → World → Option StoragePool × World
start_auto_snapshot env item w = elim (decode_auto_snapshot item.payload) [
  | none ↦ (
    none,
    fail_job env item.id (String.◌++◌ "Failed to decode auto snapshot payload: " env.error_text)
        (failure_status_message auto_snapshot) (log "auto_snapshot_failed" false item.id w),
  )
  | some payload ↦ start_decoded_snapshot env item payload w
]

unfoldable pub stop_auto_snapshot : Env → Job → Option StopReason → World → World
stop_auto_snapshot env item (some pause) w =
    attempt env write_paused
      (update_paused item.id (paused_status_message auto_snapshot) (seconds env)) w
stop_auto_snapshot env item (some cancel) w =
    attempt env write_cancelled (update_cancelled item.id "Job cancelled" (seconds env)) w
stop_auto_snapshot env item (some delete) w = attempt env write_deleted (delete_job item.id) w
stop_auto_snapshot env item none w =
    fail_job env item.id "Automatic snapshot was interrupted" (failure_status_message auto_snapshot)
      w

-- The snapshot was made: by the status that the row has now.
unfoldable pub complete_auto_snapshot :
    (Char → Char) → Zone → Env → Job → StoragePool → Status → World → World
complete_auto_snapshot wide z env item pool running w =
    let next = next_auto_snapshot_time wide z env.now pool.auto_snapshot_schedule in
    if not (env.db_ok write_schedule)
    then fail_job env item.id
        (String.◌++◌ "Snapshot created but failed to update auto snapshot schedule: "
          env.error_text)
        (failure_status_message auto_snapshot) (log "auto_snapshot_failed" false pool.id w)
    else attempt env write_success
        (update_success item.id env.encoded (success_status_message auto_snapshot) (seconds env))
        (log "auto_snapshot_completed" true pool.id
          (record w { pools = update_auto_snapshot_success pool.id env.now next env.now w.pools }))
complete_auto_snapshot wide z env item pool _ w = w

-- runAutoSnapshotJob from the end of CreateSnapshot.
unfoldable pub finish_auto_snapshot :
    (Char → Char) → Zone → Env → Job → StoragePool → RunResult → World → World
finish_auto_snapshot wide z env item pool result w =
    let (reason, w') = unregister_running_job item.id w in
    let status = current_job_status env item.id w' in
    elim result [
      | context_cancelled ↦ stop_auto_snapshot env item reason w'
      | run_failed ↦
          fail_job env item.id (String.◌++◌ "Failed to create automatic snapshot: " env.error_text)
            (failure_status_message auto_snapshot) (log "auto_snapshot_failed" false pool.id w')
      | finished ↦ complete_auto_snapshot wide z env item pool status w'
    ]
