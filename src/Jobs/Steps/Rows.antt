-- ===== src/Jobs/Steps/Rows.antt =====
-- What holds of every row of the jobs table, whatever goroutines interleave: internal/jobs/jobs.go.
use yesnas_server.Prelude.{
  ℕ, ◌≤◌, ◌≡◌, refl, String, Bool, true, false, none, some, List, [], ◌∷◌, ◌∙◌, str_eq, str_eq_iff,
  if◌then◌else◌, arith, All, All-append, Bool-cases, inl, inr,
}
use yesnas_server.Prelude.Table.{
  first_where, update_where, delete_where, All-update_where, All-delete_where,
}
use yesnas_server.Jobs.Model.{
  Status, pending, running, paused, success, failed, cancelled, JobType, Job,
}
use yesnas_server.Jobs.Statements.{
  insert_job, progressed, update_progress, beaten, update_heartbeat, paused_row, update_paused,
  resumed_row, update_resume, cancelled_row, update_cancelled, failed_row, update_failure,
  success_row, update_success, delete_job, claimed_row, update_claimed, stale_row, update_stale,
}
use yesnas_server.Jobs.Steps.{
  Step, inserts, claims, progresses, beats, pauses, resumes, cancels, fails, succeeds, stales,
  deletes, Reach, here, next, IsNew,
}
use yesnas_server.Jobs.Steps.Lookup.{
  find, find-update_where, find-insert_job-none, find-delete_none,
}

-- Whether a status is the end of a job's life.
abbrev pub is_final : Status → Bool
is_final success = true
is_final failed = true
is_final cancelled = true
is_final _ = false

abbrev pub is_open : Status → Bool
is_open pending = true
is_open running = true
is_open paused = true
is_open _ = false

-- A job is stamped as finished exactly when it is, a running job was started, and the progress is
-- a percentage.
pub record RowOk (j : Job) : Type 0 where
  pub open_unfinished : is_open j.status ≡ true → j.finished_at ≡ none
  pub final_finished : is_final j.status ≡ true → (s : ℕ) × (j.finished_at ≡ some s)
  pub running_started : j.status ≡ running → (s : ℕ) × (j.started_at ≡ some s)
  pub percent : j.progress ≤ 100

IsNew-RowOk : (j : Job) → IsNew j → RowOk j
IsNew-RowOk j n = record {
  open_unfinished = λ _. n.unfinished;
  final_finished = λ f. absurd (ground arith);
  running_started = λ r. absurd (ground arith);
  percent = ground arith;
}

claimed-RowOk :
    (type : JobType) (s : ℕ) (j : Job) → j.status ≡ pending → RowOk j → RowOk (claimed_row type s j)
unfolding claimed_row
claimed-RowOk type s j p r = record {
  open_unfinished = λ o. r.open_unfinished (rw p refl);
  final_finished = λ f. absurd (ground arith);
  running_started = λ _. (s, refl);
  percent = omega arith;
}

progressed-RowOk :
    (p : ℕ) (m : String) (s : ℕ) (j : Job) → p ≤ 100 → RowOk j → RowOk (progressed p m s j)
unfolding progressed
progressed-RowOk p m s j h r = record {
  open_unfinished = r.open_unfinished;
  final_finished = r.final_finished;
  running_started = r.running_started;
  percent = h;
}

beaten-RowOk : (s : ℕ) (j : Job) → RowOk j → RowOk (beaten s j)
unfolding beaten
beaten-RowOk s j r = record {
  open_unfinished = r.open_unfinished;
  final_finished = r.final_finished;
  running_started = r.running_started;
  percent = r.percent;
}

paused-RowOk :
    (m : String) (s : ℕ) (j : Job) → is_open j.status ≡ true → RowOk j → RowOk (paused_row m s j)
unfolding paused_row
paused-RowOk m s j o r = record {
  open_unfinished = λ _. r.open_unfinished o;
  final_finished = λ f. absurd (ground arith);
  running_started = λ e. absurd (ground arith);
  percent = r.percent;
}

resumed-RowOk : (type : JobType) (s : ℕ) (j : Job) → RowOk (resumed_row type s j)
unfolding resumed_row
resumed-RowOk type s j = record {
  open_unfinished = λ _. refl;
  final_finished = λ f. absurd (ground arith);
  running_started = λ e. absurd (ground arith);
  percent = omega arith;
}

cancelled-RowOk : (m : String) (s : ℕ) (j : Job) → RowOk (cancelled_row m s j)
unfolding cancelled_row
cancelled-RowOk m s j = record {
  open_unfinished = λ o. absurd (ground arith);
  final_finished = λ _. (s, refl);
  running_started = λ e. absurd (ground arith);
  percent = omega arith;
}

failed-RowOk : (m n : String) (s : ℕ) (j : Job) → RowOk (failed_row m n s j)
unfolding failed_row
failed-RowOk m n s j = record {
  open_unfinished = λ o. absurd (ground arith);
  final_finished = λ _. (s, refl);
  running_started = λ e. absurd (ground arith);
  percent = omega arith;
}

success-RowOk : (r m : String) (s : ℕ) (j : Job) → RowOk (success_row r m s j)
unfolding success_row
success-RowOk r m s j = record {
  open_unfinished = λ o. absurd (ground arith);
  final_finished = λ _. (s, refl);
  running_started = λ e. absurd (ground arith);
  percent = omega arith;
}

stale-RowOk : (m n : String) (s : ℕ) (j : Job) → RowOk j → RowOk (stale_row m n s j)
unfolding stale_row
stale-RowOk m n s j r = record {
  open_unfinished = λ o. absurd (ground arith);
  final_finished = λ _. (s, refl);
  running_started = λ e. absurd (ground arith);
  percent = r.percent;
}

-- No two rows have one id.
abbrev pub DistinctIds : List Job → Type 0
DistinctIds [] = Unit {0}
DistinctIds (j ∷ t) = (find j.id t ≡ none) × DistinctIds t

update_where-DistinctIds :
    (p : Job → Bool) (f : Job → Job) (t : List Job)
    → ((j : Job) → (f j).id ≡ j.id)
    → DistinctIds t
    → DistinctIds (update_where p f t)
unfolding update_where
update_where-DistinctIds p f [] keep d = tt
update_where-DistinctIds p f (j ∷ t) keep d = (
  ground (arith, keep j, find-update_where j.id p f t keep),
  update_where-DistinctIds p f t keep d.1,
)

delete_where-DistinctIds :
    (p : Job → Bool) (t : List Job) → DistinctIds t → DistinctIds (delete_where p t)
unfolding delete_where
delete_where-DistinctIds p [] d = tt
delete_where-DistinctIds p (j ∷ t) d = elim (Bool-cases (p j)) [
  | inl e ↦ rw e (delete_where-DistinctIds p t d.1)
  | inr e ↦ rw e (find-delete_none j.id p t d.0, delete_where-DistinctIds p t d.1)
]

insert_job-DistinctIds :
    (new : Job) (t : List Job)
    → find new.id t ≡ none
    → DistinctIds t
    → DistinctIds (insert_job new t)
unfolding insert_job first_where
insert_job-DistinctIds new [] n d = (refl, tt)
insert_job-DistinctIds new (j ∷ t) n d =
    (find-insert_job-none j.id new t d.0 ∙ not_new, insert_job-DistinctIds new t (ground arith) d.1)
  where
    not_new : (if str_eq new.id j.id then some new else none) ≡ none
    not_new = ground (arith, str_eq_iff new.id j.id, str_eq_iff j.id new.id)

pub record TableOk (t : List Job) : Type 0 where
  pub rows : All RowOk t
  pub distinct : DistinctIds t

updated-TableOk :
    (p : Job → Bool) (f : Job → Job) (t : List Job)
    → ((j : Job) → (f j).id ≡ j.id)
    → ((j : Job) → p j ≡ true → RowOk j → RowOk (f j))
    → TableOk t
    → TableOk (update_where p f t)
updated-TableOk p f t keep ok h = record {
  rows = All-update_where RowOk p f t ok h.rows;
  distinct = update_where-DistinctIds p f t keep h.distinct;
}

insert_job-rows : (j : Job) (t : List Job) → RowOk j → All RowOk t → All RowOk (insert_job j t)
unfolding insert_job
insert_job-rows j t r h = All-append RowOk t (j ∷ []) h (r, tt)

module _ (Fresh : String → Type 0) where
  -- Every statement keeps the ids of the rows apart and each row consistent: an open job has no
  -- time of its end, a job that succeeded, failed or was cancelled has one, a running job has the
  -- time of its start, and the progress is at most 100.
  pub Step-TableOk : {t u : List Job} → Step Fresh t u → TableOk t → TableOk u
  unfolding update_progress update_heartbeat update_paused update_resume update_cancelled
      update_failure update_success delete_job update_claimed update_stale
  Step-TableOk (inserts {t} j n f e) h = record {
    rows = insert_job-rows j t (IsNew-RowOk j n) h.rows;
    distinct = insert_job-DistinctIds j t e h.distinct;
  }
  Step-TableOk (claims {t} id type s) h =
      updated-TableOk _ (claimed_row type s) t (λ j. refl)
        (λ j p. claimed-RowOk type s j (ground arith)) h
  Step-TableOk (progresses {t} id p m s b) h =
      updated-TableOk _ (progressed p m s) t (λ j. refl) (λ j _. progressed-RowOk p m s j b) h
  Step-TableOk (beats {t} id s) h =
      updated-TableOk _ (beaten s) t (λ j. refl) (λ j _. beaten-RowOk s j) h
  Step-TableOk (pauses {t} id m s) h =
      updated-TableOk _ (paused_row m s) t (λ j. refl) (λ j p. paused-RowOk m s j (ground arith)) h
  Step-TableOk (resumes {t} id type s) h =
      updated-TableOk _ (resumed_row type s) t (λ j. refl) (λ j _ _. resumed-RowOk type s j) h
  Step-TableOk (cancels {t} id m s) h =
      updated-TableOk _ (cancelled_row m s) t (λ j. refl) (λ j _ _. cancelled-RowOk m s j) h
  Step-TableOk (fails {t} id m n s) h =
      updated-TableOk _ (failed_row m n s) t (λ j. refl) (λ j _ _. failed-RowOk m n s j) h
  Step-TableOk (succeeds {t} id r m s) h =
      updated-TableOk _ (success_row r m s) t (λ j. refl) (λ j _ _. success-RowOk r m s j) h
  Step-TableOk (stales {t} id m n s) h =
      updated-TableOk _ (stale_row m n s) t (λ j. refl) (λ j _. stale-RowOk m n s j) h
  Step-TableOk (deletes {t} id) h = record {
    rows = All-delete_where RowOk _ t h.rows;
    distinct = delete_where-DistinctIds _ t h.distinct;
  }

  -- So every table that any interleaving of statements makes from a consistent one is consistent.
  pub Reach-TableOk : {t u : List Job} → TableOk t → Reach Fresh t u → TableOk u
  Reach-TableOk h here = h
  Reach-TableOk h (next r s) = Step-TableOk s (Reach-TableOk h r)
