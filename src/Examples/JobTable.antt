-- ===== src/Examples/JobTable.antt =====
-- The jobs of internal/jobs/jobs.go at concrete inputs.
use Prim.Native.Char.{Char}
use yesnas_server.Prelude.{
  ◌≤◌, ◌≡◌, ◌≢◌, refl, String, true, false, none, some, [], ◌∷◌, str_eq, inl, arith,
}
use yesnas_server.Prelude.Table.{first_where, count_where, update_where}
use yesnas_server.Pools.Schedule.Calendar.{utc}
use yesnas_server.Pools.Store.{StoragePool}
use yesnas_server.Jobs.Model.{CloudSyncPayload, pending, success, cloud_sync, blank, at, Job}
use yesnas_server.Jobs.Statements.{
  claimed_row, update_cancelled, oldest_pending, update_claimed, get_raw,
}
use yesnas_server.Jobs.World.{World, Env, exists}
use yesnas_server.Jobs.Handlers.{handle_pause, handle_cancel}
use yesnas_server.Jobs.Worker.{claim_next_pending_job, finish_cloud_sync, run_failed}
use yesnas_server.Jobs.Outcomes.{Stopped, finish_cloud_sync-Stopped}
use yesnas_server.Prelude.Text.{trim_space}
use yesnas_server.Jobs.Snapshots.{enqueue_due_auto_snapshot_jobs}
use yesnas_server.Jobs.Steps.{cancels}
use yesnas_server.Jobs.Steps.Lookup.{find}
use yesnas_server.Jobs.Steps.Rows.{RowOk, TableOk}
use yesnas_server.Jobs.Steps.Lifecycle.{Moved, Ended, Step-Moved}
use yesnas_server.Jobs.History.{begin, then, on_pause, on_cancel, History-TableOk, History-Ended}
use yesnas_server.Jobs.Claim.{
  IsOldest, claim_next_pending_job-IsOldest, claim_next_pending_job_finds,
}
use yesnas_server.Jobs.Scheduling.{active, enqueue_due_auto_snapshot_jobs-active}

abbrev ascii : Char → Char
ascii c = c

abbrev waiting : Job
waiting = record {
  id = "a";
  type = cloud_sync;
  status = pending;
  title = "Sync to Google Drive";
  storage_pool_id = "p1";
  resource_type = "file";
  resource_id = "/photos/a.jpg";
  progress = 0;
  message = "Waiting to sync";
  error_message = "";
  payload = blank;
  result = "";
  created_at = 10;
  updated_at = at 10;
  started_at = none;
  finished_at = none;
}

abbrev done : Job
done = record waiting {
  id = "b";
  status = success;
  progress = 100;
  created_at = 5;
  started_at = some 6;
  finished_at = some 7;
}

abbrev due_pool : StoragePool
due_pool = record {
  id = "p1";
  storage_id = "s1";
  name = "tank";
  filesystem = "btrfs";
  raid_level = "raid1";
  mount_path = "/mnt/tank";
  data_path = "/mnt/tank/data";
  auto_snapshot_enabled = true;
  auto_snapshot_schedule = "4";
  last_auto_snapshot_at = none;
  next_auto_snapshot_at = some 5;
  updated_at = none;
}

abbrev world : World
world = record {
  jobs = waiting ∷ done ∷ [];
  pools = due_pool ∷ [];
  registered = λ _. false;
  stop_reason = λ _. none;
  signalled = λ _. false;
  effects = [];
  audits = [];
}

abbrev env : Env
env = record {
  now = 20000000000;
  db_ok = λ _. true;
  stale_ok = λ _. true;
  stat = λ _. exists;
  open_ok = λ _. true;
  storage_exists = λ _. true;
  fresh_id = "new";
  encoded = "";
  error_text = "";
}

abbrev IsFresh : String → Type 0
IsFresh k = str_eq k "new" ≡ true

waiting-RowOk : RowOk waiting
waiting-RowOk = record {
  open_unfinished = λ _. refl;
  final_finished = λ f. absurd (ground arith);
  running_started = λ r. absurd (ground arith);
  percent = omega arith;
}

done-RowOk : RowOk done
done-RowOk = record {
  open_unfinished = λ o. absurd (ground arith);
  final_finished = λ f. (7, refl);
  running_started = λ r. (6, refl);
  percent = omega arith;
}

world-TableOk : TableOk world.jobs
unfolding first_where
world-TableOk = record { rows = (waiting-RowOk, (done-RowOk, tt)); distinct = (refl, (refl, tt)) }

History-TableOk_example : TableOk (handle_cancel env "a" (handle_pause env "a" world).1).1.jobs
History-TableOk_example =
    History-TableOk ascii utc IsFresh world-TableOk
      (then (then begin (on_pause env "a")) (on_cancel env "a"))

History-Ended_example : Ended success (find "b" (handle_pause env "b" world).1.jobs)
unfolding first_where
History-Ended_example =
    History-Ended ascii utc IsFresh "b" success (λ f. ground (arith, f)) refl (inl refl)
      (then begin (on_pause env "b"))

Step-Moved_example : Moved pending (find "a" (update_cancelled "a" "Job cancelled" 20 world.jobs))
unfolding first_where
Step-Moved_example =
    Step-Moved IsFresh "a" (cancels {t = world.jobs} "a" "Job cancelled" 20) waiting refl

abbrev taken : World
taken = record world { jobs = claimed_row cloud_sync 20 waiting ∷ done ∷ [] }

claimed : claim_next_pending_job env world ≡ (some (claimed_row cloud_sync 20 waiting), taken)
unfolding claim_next_pending_job oldest_pending update_claimed count_where update_where get_raw
    first_where
claimed = refl

claim_next_pending_job-IsOldest_example :
    (j : Job) × IsOldest world.jobs j
    × (find j.id world.jobs ≡ some j)
    × (claimed_row cloud_sync 20 waiting ≡ claimed_row j.type 20 j)
    × (find j.id taken.jobs ≡ some (claimed_row cloud_sync 20 waiting))
    × ((k : String) → k ≢ j.id → find k taken.jobs ≡ find k world.jobs)
claim_next_pending_job-IsOldest_example =
    claim_next_pending_job-IsOldest env world taken (claimed_row cloud_sync 20 waiting)
      world-TableOk claimed

claim_next_pending_job_finds_example :
    (item : Job) × ((claim_next_pending_job env world).0 ≡ some item)
unfolding first_where
claim_next_pending_job_finds_example =
    claim_next_pending_job_finds env world "a" waiting refl refl world-TableOk refl refl

enqueue_due_auto_snapshot_jobs-active_example :
    active "p1" (enqueue_due_auto_snapshot_jobs ascii utc true (λ _. env) world).jobs ≤ 1
unfolding count_where
enqueue_due_auto_snapshot_jobs-active_example =
    enqueue_due_auto_snapshot_jobs-active ascii utc true (λ _. env) "p1" world (omega arith)

abbrev sync_payload : CloudSyncPayload
sync_payload = record {
  local_path = "/tmp/a";
  target_path = "/photos/a.jpg";
  content_type = "image/jpeg";
  file_name = "a.jpg";
}

finish_cloud_sync-Stopped_example : Stopped (
    find "a"
      (finish_cloud_sync env
        (claimed_row cloud_sync 20 waiting)
        sync_payload
        run_failed
        taken).jobs)
unfolding trim_space claimed_row
finish_cloud_sync-Stopped_example =
    finish_cloud_sync-Stopped env (claimed_row cloud_sync 20 waiting) sync_payload (λ _. refl)
      run_failed taken refl
