-- ===== src/Jobs/Steps.antt =====
-- The statements of internal/jobs/jobs.go as steps of the jobs table. Operations of several
-- goroutines interleave at their statements, so what holds along Reach holds of every
-- interleaving.
pub mod Lookup
pub mod Rows
pub mod Lifecycle
pub mod Operations
pub mod Runs
pub mod SnapshotRuns
use yesnas_server.Prelude.{ℕ, ◌≤◌, ◌≡◌, String, Option, none, List}
use yesnas_server.Prelude.Table.{first_where}
use yesnas_server.Jobs.Model.{JobType, Job, pending}
use yesnas_server.Jobs.Statements.{
  has_id, insert_job, update_progress, update_heartbeat, update_paused, update_resume,
  update_cancelled, update_failure, update_success, delete_job, update_claimed, update_stale,
}

-- A row as EnqueueCloudSync and enqueueAutoSnapshotJob make it.
pub record IsNew (j : Job) : Type 0 where
  pub waiting : j.status ≡ pending
  pub unfinished : j.finished_at ≡ none
  pub unstarted : j.progress ≡ 0

-- `Fresh` are the identifiers that the generator may still give out.
module _ (Fresh : String → Type 0) where
  pub data Step : List Job → List Job → Type 0 where
    inserts :
        {t : List Job} (j : Job)
        → IsNew j
        → Fresh j.id
        → first_where (has_id j.id) t ≡ none
        → Step t (insert_job j t)
    claims :
        {t : List Job} (id : String) (type : JobType) (s : ℕ) → Step t (update_claimed id type s t)
    progresses :
        {t : List Job} (id : String) (p : ℕ) (m : String) (s : ℕ)
        → p ≤ 100
        → Step t (update_progress id p m s t)
    beats : {t : List Job} (id : String) (s : ℕ) → Step t (update_heartbeat id s t)
    pauses : {t : List Job} (id m : String) (s : ℕ) → Step t (update_paused id m s t)
    resumes :
        {t : List Job} (id : String) (type : JobType) (s : ℕ) → Step t (update_resume id type s t)
    cancels : {t : List Job} (id m : String) (s : ℕ) → Step t (update_cancelled id m s t)
    fails : {t : List Job} (id m n : String) (s : ℕ) → Step t (update_failure id m n s t)
    succeeds : {t : List Job} (id r m : String) (s : ℕ) → Step t (update_success id r m s t)
    stales : {t : List Job} (id m n : String) (s : ℕ) → Step t (update_stale id m n s t)
    deletes : {t : List Job} (id : String) → Step t (delete_job id t)

  pub data Reach (t : List Job) : List Job → Type 0 where
    here : Reach t t
    next : {u v : List Job} → Reach t u → Step u v → Reach t v
