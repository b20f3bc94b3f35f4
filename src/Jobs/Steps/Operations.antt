-- ===== src/Jobs/Steps/Operations.antt =====
-- Every operation of internal/jobs/jobs.go on the jobs table is a sequence of its statements.
use mathlib.Core.Path.{subst}
use yesnas_server.Prelude.{
  ◌≡◌, ◌⊎◌, ◌∙◌, sym, String, List, [], ◌∷◌, arith, Bool-cases, Option-cases, inl, inr,
}
use yesnas_server.Prelude.Table.{select_where}
use yesnas_server.Jobs.Model.{
  Status, pending, running, paused, cancelled, StopReason, pause, cancel, delete, CloudSyncPayload,
  Job, failure_status_message, paused_status_message,
}
use yesnas_server.Jobs.Statements.{has_status, update_resume, delete_job, update_stale}
use yesnas_server.Jobs.World.{
  World, Env, Stmt, seconds, stale_message, mark_stale_job, mark_stale_jobs,
  mark_stale_running_jobs, request_running_job_stop, cleanup_cloud_sync_local_payload,
  cleanup_job_payload, write_paused, write_cancelled,
}
use yesnas_server.Jobs.Handlers.{
  answer, get_job, store_paused, pause_item, handle_pause, resume_item, handle_resume,
  store_cancelled, cancel_item, handle_cancel, release_deleted, delete_item, handle_delete, fetch,
}
use yesnas_server.Jobs.Steps.{Step, pauses, resumes, cancels, stales, deletes, Reach, here, next}

module _ (Fresh : String → Type 0) where
  pub Reach-trans : {t u v : List Job} → Reach Fresh t u → Reach Fresh u v → Reach Fresh t v
  Reach-trans r here = r
  Reach-trans r (next q s) = next (Reach-trans r q) s

  pub either_Reach : {t u v : List Job} → (v ≡ t) ⊎ (v ≡ u) → Reach Fresh t u → Reach Fresh t v
  either_Reach {t} (inl e) r = subst (Reach Fresh t) (sym e) here
  either_Reach {t} (inr e) r = subst (Reach Fresh t) (sym e) r

  pub Reach-from : {t u v : List Job} → t ≡ u → Reach Fresh t v → Reach Fresh u v
  Reach-from {v = v} e r = subst (λ a. Reach Fresh a v) e r

  -- A table that is the old one, or what one statement makes of it.
  pub Reach-either : {t u v : List Job} → (v ≡ t) ⊎ (v ≡ u) → Step Fresh t u → Reach Fresh t v
  Reach-either {t} (inl e) s = subst (Reach Fresh t) (sym e) here
  Reach-either {t} (inr e) s = subst (Reach Fresh t) (sym e) (next here s)

  mark_stale_job-Reach :
      (env : Env) (item : Job) (w : World) → Reach Fresh w.jobs (mark_stale_job env item w).jobs
  unfolding mark_stale_job
  mark_stale_job-Reach env item w =
      Reach-either
        {u = update_stale item.id stale_message (failure_status_message item.type) (seconds env)
          w.jobs}
        (ground arith)
        (stales item.id stale_message (failure_status_message item.type) (seconds env))

  mark_stale_jobs-Reach :
      (env : Env) (items : List Job) (w : World)
      → Reach Fresh w.jobs (mark_stale_jobs env items w).jobs
  unfolding mark_stale_jobs
  mark_stale_jobs-Reach env [] w = here
  mark_stale_jobs-Reach env (item ∷ items) w =
      Reach-trans (mark_stale_job-Reach env item w)
        (mark_stale_jobs-Reach env items (mark_stale_job env item w))

  pub mark_stale_running_jobs-Reach :
      (env : Env) (w : World) → Reach Fresh w.jobs (mark_stale_running_jobs env w).jobs
  unfolding mark_stale_running_jobs
  mark_stale_running_jobs-Reach env w = elim (Bool-cases (env.db_ok Stmt.read_running)) [
    | inl e ↦ rw e (mark_stale_jobs-Reach env (select_where (has_status running) w.jobs) w)
    | inr e ↦ rw e here
  ]

  answer_jobs :
      (env : Env) (event id : String) (w : World)
      → (answer env event id w).1.jobs ≡ (mark_stale_running_jobs env w).jobs
  unfolding answer get_job
  answer_jobs env event id w = ground arith

  answer-Reach :
      (env : Env) (event id : String) (w : World)
      → Reach Fresh w.jobs (answer env event id w).1.jobs
  answer-Reach env event id w =
      rw (answer_jobs env event id w) (mark_stale_running_jobs-Reach env w)

  request_stop_jobs :
      (id : String) (reason : StopReason) (w : World)
      → (request_running_job_stop id reason w).1.jobs ≡ w.jobs
  unfolding request_running_job_stop
  request_stop_jobs id reason w = ground arith

  pub cleanup_payload_jobs :
      (payload : CloudSyncPayload) (w : World)
      → (cleanup_cloud_sync_local_payload payload w).jobs ≡ w.jobs
  unfolding cleanup_cloud_sync_local_payload
  cleanup_payload_jobs payload w = ground arith

  cleanup_job_jobs : (item : Job) (w : World) → (cleanup_job_payload item w).jobs ≡ w.jobs
  unfolding cleanup_job_payload
  cleanup_job_jobs item w = ground arith

  store_paused-Reach :
      (env : Env) (item : Job) (w : World) → Reach Fresh w.jobs (store_paused env item w).1.jobs
  unfolding store_paused
  store_paused-Reach env item w = elim (Bool-cases (env.db_ok write_paused)) [
    | inl e ↦ rw e (
        Reach-trans (next here (pauses item.id (paused_status_message item.type) (seconds env)))
          (answer-Reach env "job_paused" item.id _))
    | inr e ↦ rw e here
  ]

  pause_item-Reach :
      (s : Status) (env : Env) (item : Job) (w : World)
      → Reach Fresh w.jobs (pause_item s env item w).1.jobs
  unfolding pause_item
  pause_item-Reach pending env item w = store_paused-Reach env item w
  pause_item-Reach running env item w =
      Reach-from (request_stop_jobs item.id pause w)
        (store_paused-Reach env item (request_running_job_stop item.id pause w).1)
  pause_item-Reach paused env item w = answer-Reach env "job_paused" item.id w
  pause_item-Reach _ env item w = here

  pub handle_pause-Reach :
      (env : Env) (id : String) (w : World) → Reach Fresh w.jobs (handle_pause env id w).1.jobs
  unfolding handle_pause
  handle_pause-Reach env id w = elim (Option-cases (fetch env Stmt.read_job id w)) [
    | inl e ↦ rw (e, handle_pause) here
    | inr (item, e) ↦ rw (e, handle_pause) (pause_item-Reach item.status env item w)
  ]

  resume_item-Reach :
      (env : Env) (item : Job) (w : World) → Reach Fresh w.jobs (resume_item env item w).1.jobs
  unfolding resume_item
  resume_item-Reach env item w =
      let w' : World = record w { jobs = update_resume item.id item.type (seconds env) w.jobs } in
      let r =
        Reach-trans (next here (resumes item.id item.type (seconds env)))
          (answer-Reach env "job_resumed" item.id w') in
      either_Reach (ground arith) r

  pub handle_resume-Reach :
      (env : Env) (id : String) (w : World) → Reach Fresh w.jobs (handle_resume env id w).1.jobs
  unfolding handle_resume
  handle_resume-Reach env id w = elim (Option-cases (fetch env Stmt.read_job id w)) [
    | inl e ↦ rw (e, handle_resume) here
    | inr (item, e) ↦ rw (e, handle_resume) (resume_item-Reach env item w)
  ]

  store_cancelled-Reach :
      (env : Env) (item : Job) (w : World) → Reach Fresh w.jobs (store_cancelled env item w).1.jobs
  unfolding store_cancelled
  store_cancelled-Reach env item w = elim (Bool-cases (env.db_ok write_cancelled)) [
    | inl e ↦ rw e (
        Reach-trans (next here (cancels item.id "Job cancelled" (seconds env)))
          (answer-Reach env "job_cancelled" item.id _))
    | inr e ↦ rw e here
  ]

  cancel_item-Reach :
      (s : Status) (env : Env) (item : Job) (w : World)
      → Reach Fresh w.jobs (cancel_item s env item w).1.jobs
  unfolding cancel_item
  cancel_item-Reach pending env item w =
      Reach-from (cleanup_job_jobs item w)
        (store_cancelled-Reach env item (cleanup_job_payload item w))
  cancel_item-Reach paused env item w =
      Reach-from (cleanup_job_jobs item w)
        (store_cancelled-Reach env item (cleanup_job_payload item w))
  cancel_item-Reach running env item w =
      let w' = (request_running_job_stop item.id cancel w).1 in
      Reach-from (cleanup_job_jobs item w' ∙ request_stop_jobs item.id cancel w)
        (store_cancelled-Reach env item (cleanup_job_payload item w'))
  cancel_item-Reach cancelled env item w = answer-Reach env "job_cancelled" item.id w
  cancel_item-Reach _ env item w = here

  pub handle_cancel-Reach :
      (env : Env) (id : String) (w : World) → Reach Fresh w.jobs (handle_cancel env id w).1.jobs
  unfolding handle_cancel
  handle_cancel-Reach env id w = elim (Option-cases (fetch env Stmt.read_job id w)) [
    | inl e ↦ rw (e, handle_cancel) here
    | inr (item, e) ↦ rw (e, handle_cancel) (cancel_item-Reach item.status env item w)
  ]

  release_deleted_jobs : (item : Job) (w : World) → (release_deleted item w).jobs ≡ w.jobs
  unfolding release_deleted
  release_deleted_jobs item w = ground (
    arith,
    request_stop_jobs item.id delete w,
    cleanup_job_jobs item w,
    cleanup_job_jobs item (request_running_job_stop item.id delete w).1,
  )

  delete_item-Reach :
      (env : Env) (item : Job) (w : World) → Reach Fresh w.jobs (delete_item env item w).1.jobs
  unfolding delete_item
  delete_item-Reach env item w = Reach-from (release_deleted_jobs item w) (
      Reach-either {u = delete_job item.id (release_deleted item w).jobs} (ground arith)
        (deletes item.id))

  pub handle_delete-Reach :
      (env : Env) (id : String) (w : World) → Reach Fresh w.jobs (handle_delete env id w).1.jobs
  unfolding handle_delete
  handle_delete-Reach env id w = elim (Option-cases (fetch env Stmt.read_job id w)) [
    | inl e ↦ rw (e, handle_delete) here
    | inr (item, e) ↦ rw (e, handle_delete) (delete_item-Reach env item w)
  ]
