-- ===== src/Jobs/Statements.antt =====
-- internal/jobs/jobs.go: the SQL statements on the jobs table, each an atomic step.
-- `seconds` is the time that the statement stores.
use yesnas_server.Prelude.{
  ℕ, String, Bool, Option, none, some, List, [], ◌∷◌, ◌++◌, ◌&&◌, ◌||◌, str_eq, ltb, if◌then◌else◌,
}
use yesnas_server.Prelude.Table.{first_where, update_where, delete_where, count_where}
use yesnas_server.Prelude.Text.{trim_space}
use yesnas_server.Jobs.Model.{
  Status, pending, running, paused, success, failed, cancelled, status_eq, JobType, auto_snapshot,
  type_eq, at, Job, pending_status_message, running_message_for_type,
}

abbrev pub has_id : String → Job → Bool
has_id id j = str_eq j.id id

abbrev pub has_status : Status → Job → Bool
has_status s j = status_eq j.status s

-- The SELECT of getRaw.
unfoldable pub get_raw : String → List Job → Option Job
unfolding trim_space
get_raw id t = first_where (has_id (trim_space id)) t

-- INSERT INTO jobs.
unfoldable pub insert_job : Job → List Job → List Job
insert_job j t = t ++ j ∷ []

unfoldable pub progressed : ℕ → String → ℕ → Job → Job
progressed p message seconds j = record j {
  progress = p;
  message = message;
  updated_at = at seconds;
}

unfoldable pub update_progress : String → ℕ → String → ℕ → List Job → List Job
unfolding progressed
update_progress id p message seconds = update_where (has_id id) (progressed p message seconds)

unfoldable pub beaten : ℕ → Job → Job
beaten seconds j = record j { updated_at = at seconds }

unfoldable pub update_heartbeat : String → ℕ → List Job → List Job
unfolding beaten
update_heartbeat id seconds =
    update_where (λ j. has_id id j && has_status running j) (beaten seconds)

unfoldable pub paused_row : String → ℕ → Job → Job
paused_row message seconds j = record j {
  status = paused;
  message = message;
  error_message = "";
  updated_at = at seconds;
}

unfoldable pub update_paused : String → String → ℕ → List Job → List Job
unfolding paused_row
update_paused id message seconds =
    update_where (λ j. has_id id j && (has_status pending j || has_status running j))
      (paused_row message seconds)

unfoldable pub resumed_row : JobType → ℕ → Job → Job
resumed_row type seconds j = record j {
  status = pending;
  progress = 0;
  message = pending_status_message type;
  error_message = "";
  finished_at = none;
  updated_at = at seconds;
}

unfoldable pub update_resume : String → JobType → ℕ → List Job → List Job
unfolding resumed_row
update_resume id type seconds =
    update_where (λ j. has_id id j && has_status paused j) (resumed_row type seconds)

unfoldable pub cancelled_row : String → ℕ → Job → Job
cancelled_row message seconds j = record j {
  status = cancelled;
  progress = 100;
  message = message;
  error_message = "";
  finished_at = some seconds;
  updated_at = at seconds;
}

unfoldable pub update_cancelled : String → String → ℕ → List Job → List Job
unfolding cancelled_row
update_cancelled id message seconds = update_where (has_id id) (cancelled_row message seconds)

unfoldable pub failed_row : String → String → ℕ → Job → Job
failed_row message status_message seconds j = record j {
  status = failed;
  progress = 100;
  message = status_message;
  error_message = message;
  finished_at = some seconds;
  updated_at = at seconds;
}

unfoldable pub update_failure : String → String → String → ℕ → List Job → List Job
unfolding failed_row
update_failure id message status_message seconds =
    update_where (λ j. has_id id j && has_status running j)
      (failed_row message status_message seconds)

unfoldable pub success_row : String → String → ℕ → Job → Job
success_row result status_message seconds j = record j {
  status = success;
  progress = 100;
  message = status_message;
  result = result;
  error_message = "";
  finished_at = some seconds;
  updated_at = at seconds;
}

unfoldable pub update_success : String → String → String → ℕ → List Job → List Job
unfolding success_row
update_success id result status_message seconds =
    update_where (λ j. has_id id j && has_status running j)
      (success_row result status_message seconds)

unfoldable pub delete_job : String → List Job → List Job
unfolding trim_space
delete_job id = delete_where (has_id (trim_space id))

-- The UPDATE of claimNextPendingJob.
unfoldable pub claimed_row : JobType → ℕ → Job → Job
claimed_row type seconds j = record j {
  status = running;
  progress = 5;
  message = running_message_for_type type;
  started_at = some seconds;
  updated_at = at seconds;
}

unfoldable pub update_claimed : String → JobType → ℕ → List Job → List Job
unfolding claimed_row
update_claimed id type seconds =
    update_where (λ j. has_id id j && has_status pending j) (claimed_row type seconds)

-- The UPDATE of markStaleRunningJobs; it leaves the progress.
unfoldable pub stale_row : String → String → ℕ → Job → Job
stale_row message status_message seconds j = record j {
  status = failed;
  message = status_message;
  error_message = message;
  finished_at = some seconds;
  updated_at = at seconds;
}

unfoldable pub update_stale : String → String → String → ℕ → List Job → List Job
unfolding stale_row
update_stale id message status_message seconds =
    update_where (λ j. has_id id j && has_status running j)
      (stale_row message status_message seconds)

-- ORDER BY created_at ASC LIMIT 1 over the pending rows: the earliest, the first row on a tie.
unfoldable pub earlier : Job → Option Job → Job
earlier j none = j
earlier j (some k) = if ltb k.created_at j.created_at then k else j

unfoldable pub oldest_pending : List Job → Option Job
unfolding earlier
oldest_pending [] = none
oldest_pending (j ∷ t) =
    let rest = oldest_pending t in if has_status pending j then some (earlier j rest) else rest

-- hasPendingOrRunningAutoSnapshotJob, when the query succeeds.
abbrev pub is_active_snapshot : String → Job → Bool
is_active_snapshot pool_id j =
    type_eq j.type auto_snapshot
    && str_eq j.resource_id pool_id
    && (has_status pending j || has_status running j)

unfoldable pub has_pending_or_running_auto_snapshot_job : String → List Job → Bool
has_pending_or_running_auto_snapshot_job pool_id t =
    ltb 0 (count_where (is_active_snapshot pool_id) t)
