-- ===== src/Jobs/Handlers.antt =====
-- internal/jobs/jobs.go: Get and the HTTP handlers that pause, resume, cancel and delete a job.
use yesnas_server.Prelude.{
  ℕ, String, Bool, true, false, Option, none, some, [], ◌∷◌, ◌++◌, not, if◌then◌else◌,
}
use yesnas_server.Jobs.Model.{
  Status, pending, running, paused, cancelled, status_eq, pause, cancel, delete, Job,
  paused_status_message,
}
use yesnas_server.Jobs.Statements.{
  get_raw, update_paused, update_resume, update_cancelled, delete_job,
}
use yesnas_server.Jobs.Legacy.{normalize_job_for_response}
use yesnas_server.Jobs.World.{
  World, Env, Stmt, read_job, reread_job, write_paused, write_resumed, write_cancelled,
  write_deleted, audited, seconds, request_running_job_stop, cleanup_job_payload,
  ensure_job_local_cache_available, mark_stale_running_jobs,
}

pub data Response : Type 0 where
  job_body : Job → Response
  deleted_body : String → Response
  api_error : ℕ → String → Response

abbrev pub fetch : Env → Stmt → String → World → Option Job
fetch env stmt id w = if env.db_ok stmt then get_raw id w.jobs else none

abbrev pub log : String → Bool → String → World → World
log event ok id w = record w { audits = w.audits ++ audited event ok id ∷ [] }

-- Get: the pass over stale jobs, then the row with its texts normalised.
unfoldable pub get_job : Env → String → World → Option Job × World
get_job env id w =
    let w' = mark_stale_running_jobs env w in
    (
      elim (fetch env reread_job id w') [
        | none ↦ none
        | some j ↦ some (normalize_job_for_response j)
      ],
      w',
    )

-- The end of a handler that succeeded: read the job again, log, answer.
unfoldable pub answer : Env → String → String → World → Response × World
answer env event id w =
    let (found, w') = get_job env id w in
    elim found [
      | none ↦ (api_error 404 "JOB_NOT_FOUND", w')
      | some j ↦ (job_body j, log event true j.id w')
    ]

unfoldable pub handle_get : Env → String → World → Response × World
handle_get env path_id w =
    let (found, w') = get_job env path_id w in
    elim found [ none ↦ (api_error 404 "JOB_NOT_FOUND", w') | some j ↦ (job_body j, w') ]

-- updatePaused and what HandlePause does with its error.
unfoldable pub store_paused : Env → Job → World → Response × World
store_paused env item w =
    if env.db_ok write_paused
    then answer env "job_paused" item.id (record w {
      jobs = update_paused item.id (paused_status_message item.type) (seconds env) w.jobs;
    })
    else (api_error 500 "JOB_PAUSE_FAILED", log "job_pause_failed" false item.id w)

unfoldable pub pause_item : Status → Env → Job → World → Response × World
pause_item pending env item w = store_paused env item w
pause_item running env item w = store_paused env item (request_running_job_stop item.id pause w).1
pause_item paused env item w = answer env "job_paused" item.id w
pause_item _ env item w = (api_error 409 "JOB_NOT_PAUSABLE", w)

unfoldable pub handle_pause : Env → String → World → Response × World
handle_pause env path_id w = elim (fetch env read_job path_id w) [
  | none ↦ (api_error 404 "JOB_NOT_FOUND", w)
  | some item ↦ pause_item item.status env item w
]

unfoldable pub resume_item : Env → Job → World → Response × World
resume_item env item w =
    if not (status_eq item.status paused)
    then (api_error 409 "JOB_NOT_RESUMABLE", w)
    else elim (ensure_job_local_cache_available env item) [
      | some reason ↦ (api_error 409 "JOB_CACHE_MISSING", w)
      | none ↦
          if env.db_ok write_resumed
          then answer env "job_resumed" item.id
              (record w { jobs = update_resume item.id item.type (seconds env) w.jobs })
          else (api_error 500 "JOB_RESUME_FAILED", log "job_resume_failed" false item.id w)
    ]

unfoldable pub handle_resume : Env → String → World → Response × World
handle_resume env path_id w = elim (fetch env read_job path_id w) [
  | none ↦ (api_error 404 "JOB_NOT_FOUND", w)
  | some item ↦ resume_item env item w
]

unfoldable pub store_cancelled : Env → Job → World → Response × World
store_cancelled env item w =
    if env.db_ok write_cancelled
    then answer env "job_cancelled" item.id
        (record w { jobs = update_cancelled item.id "Job cancelled" (seconds env) w.jobs })
    else (api_error 500 "JOB_CANCEL_FAILED", log "job_cancel_failed" false item.id w)

unfoldable pub cancel_item : Status → Env → Job → World → Response × World
cancel_item pending env item w = store_cancelled env item (cleanup_job_payload item w)
cancel_item paused env item w = store_cancelled env item (cleanup_job_payload item w)
cancel_item running env item w =
    store_cancelled env item
      (cleanup_job_payload item (request_running_job_stop item.id cancel w).1)
cancel_item cancelled env item w = answer env "job_cancelled" item.id w
cancel_item _ env item w = (api_error 409 "JOB_NOT_CANCELLABLE", w)

unfoldable pub handle_cancel : Env → String → World → Response × World
handle_cancel env path_id w = elim (fetch env read_job path_id w) [
  | none ↦ (api_error 404 "JOB_NOT_FOUND", w)
  | some item ↦ cancel_item item.status env item w
]

-- A running job whose run is registered cleans up after itself.
unfoldable pub release_deleted : Job → World → World
release_deleted item w =
    if status_eq item.status running
    then (let (stopped, w') = request_running_job_stop item.id delete w in
        if not stopped then cleanup_job_payload item w' else w')
    else cleanup_job_payload item w

unfoldable pub delete_item : Env → Job → World → Response × World
delete_item env item w =
    let w' = release_deleted item w in
    if env.db_ok write_deleted
    then (
      deleted_body item.id,
      log "job_deleted" true item.id (record w' { jobs = delete_job item.id w'.jobs }),
    )
    else (api_error 500 "JOB_DELETE_FAILED", log "job_delete_failed" false item.id w')

unfoldable pub handle_delete : Env → String → World → Response × World
handle_delete env path_id w = elim (fetch env read_job path_id w) [
  | none ↦ (api_error 404 "JOB_NOT_FOUND", w)
  | some item ↦ delete_item env item w
]
