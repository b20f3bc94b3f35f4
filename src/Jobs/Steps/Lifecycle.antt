-- ===== src/Jobs/Steps/Lifecycle.antt =====
-- The life of a job: how its status may change, whatever goroutines interleave:
-- internal/jobs/jobs.go.
use mathlib.Core.Path.{subst}
use yesnas_server.Prelude.{
  ◌≡◌, ◌⊎◌, refl, ◌∙◌, String, Bool, true, Option, none, some, List, ◌&&◌, ◌||◌, str_eq, str_eq_iff,
  arith, Bool-cases, Option-cases, inl, inr,
}
use yesnas_server.Prelude.Table.{update_where}
use yesnas_server.Prelude.Text.{trim_space}
use yesnas_server.Jobs.Model.{
  Status, pending, running, paused, success, failed, cancelled, status_eq, Job,
}
use yesnas_server.Jobs.Statements.{
  has_id, has_status, progressed, update_progress, beaten, update_heartbeat, paused_row,
  update_paused, resumed_row, update_resume, cancelled_row, update_cancelled, failed_row,
  update_failure, success_row, update_success, claimed_row, update_claimed, stale_row, update_stale,
}
use yesnas_server.Jobs.Steps.{
  Step, inserts, claims, progresses, beats, pauses, resumes, cancels, fails, succeeds, stales,
  deletes, Reach, here, next,
}
use yesnas_server.Jobs.Steps.Lookup.{
  find, find-update_where, find-insert_job, find-insert_job-none, find-delete_job,
}
use yesnas_server.Jobs.Steps.Rows.{is_final}

-- The edges of the life of a job. A cancellation is not guarded by the status.
pub data Move : Status → Status → Type 0 where
  stay : {s : Status} → Move s s
  start : Move pending running
  hold_back : Move pending paused
  hold : Move running paused
  release : Move paused pending
  finish : Move running success
  break : Move running failed
  abandon : {s : Status} → Move s cancelled

-- After a step a job's row is gone, or its status took one edge.
abbrev pub Moved : Status → Option Job → Type 0
Moved s none = Unit {0}
Moved s (some j) = Move s j.status

Moved-update :
    (k : String) (p : Job → Bool) (f : Job → Job) (t : List Job) (j : Job)
    → ((x : Job) → (f x).id ≡ x.id)
    → ((x : Job) → p x ≡ true → Move x.status (f x).status)
    → find k t ≡ some j
    → Moved j.status (find k (update_where p f t))
Moved-update k p f t j keep moves h =
    rw (find-update_where k p f t keep, h)
      (elim (Bool-cases (p j)) [ inl e ↦ rw e (moves j e) | inr e ↦ rw e stay ])

-- What a test of the status in a WHERE clause says.
pending_of : (s : Status) → status_eq s pending ≡ true → s ≡ pending
pending_of s h = ground arith

running_of : (s : Status) → status_eq s running ≡ true → s ≡ running
running_of s h = ground arith

paused_of : (s : Status) → status_eq s paused ≡ true → s ≡ paused
paused_of s h = ground arith

hold_open : (s : Status) → (status_eq s pending || status_eq s running) ≡ true → Move s paused
hold_open pending h = hold_back
hold_open running h = hold
hold_open _ h = cc

second : (a b : Bool) → (a && b) ≡ true → b ≡ true
second a b h = ground arith

module _ (Fresh : String → Type 0) (k : String) where
  -- Whatever statement runs, the row of a job is gone afterwards or its status took one edge.
  pub Step-Moved :
      {t u : List Job} → Step Fresh t u → (j : Job) → find k t ≡ some j → Moved j.status (find k u)
  unfolding update_progress update_heartbeat update_paused update_resume update_cancelled
      update_failure update_success update_claimed update_stale
  Step-Moved (inserts {t} new n f e) j h = rw (find-insert_job k new t j h) stay
  Step-Moved (claims {t} id type s) j h =
      Moved-update k _ (claimed_row type s) t j (λ x. refl)
        (λ x p. rw (pending_of x.status (second (has_id id x) (has_status pending x) p)) start) h
  Step-Moved (progresses {t} id p m s b) j h =
      Moved-update k _ (progressed p m s) t j (λ x. refl) (λ x _. stay) h
  Step-Moved (beats {t} id s) j h = Moved-update k _ (beaten s) t j (λ x. refl) (λ x _. stay) h
  Step-Moved (pauses {t} id m s) j h =
      Moved-update k _ (paused_row m s) t j (λ x. refl)
        (λ x p.
          hold_open x.status
            (second (has_id id x) (has_status pending x || has_status running x) p))
        h
  Step-Moved (resumes {t} id type s) j h =
      Moved-update k _ (resumed_row type s) t j (λ x. refl)
        (λ x p. rw (paused_of x.status (second (has_id id x) (has_status paused x) p)) release) h
  Step-Moved (cancels {t} id m s) j h =
      Moved-update k _ (cancelled_row m s) t j (λ x. refl) (λ x _. abandon) h
  Step-Moved (fails {t} id m n s) j h =
      Moved-update k _ (failed_row m n s) t j (λ x. refl)
        (λ x p. rw (running_of x.status (second (has_id id x) (has_status running x) p)) break) h
  Step-Moved (succeeds {t} id r m s) j h =
      Moved-update k _ (success_row r m s) t j (λ x. refl)
        (λ x p. rw (running_of x.status (second (has_id id x) (has_status running x) p)) finish) h
  Step-Moved (stales {t} id m n s) j h =
      Moved-update k _ (stale_row m n s) t j (λ x. refl)
        (λ x p. rw (running_of x.status (second (has_id id x) (has_status running x) p)) break) h
  Step-Moved (deletes {t} id) j h = elim (Bool-cases (str_eq (trim_space id) k)) [
    | inl e ↦ rw (find-delete_job k id t) (rw e tt)
    | inr e ↦ rw (find-delete_job k id t) (rw (e, h) stay)
  ]

  update-gone :
      (p : Job → Bool) (f : Job → Job) (t : List Job)
      → ((x : Job) → (f x).id ≡ x.id)
      → find k t ≡ none
      → find k (update_where p f t) ≡ none
  update-gone p f t keep h = rw (find-update_where k p f t keep, h) refl

  -- An id that the generator will not give out again does not come back.
  Step-gone : {t u : List Job} → ¬ Fresh k → Step Fresh t u → find k t ≡ none → find k u ≡ none
  unfolding update_progress update_heartbeat update_paused update_resume update_cancelled
      update_failure update_success update_claimed update_stale
  Step-gone old (inserts {t} new n f e) h = elim (Bool-cases (str_eq new.id k)) [
    | inl same ↦ absurd (old (subst Fresh ((str_eq_iff new.id k).0 same) f))
    | inr other ↦ rw (find-insert_job-none k new t h) (rw other refl)
  ]
  Step-gone old (claims {t} id type s) h = update-gone _ (claimed_row type s) t (λ x. refl) h
  Step-gone old (progresses {t} id p m s b) h = update-gone _ (progressed p m s) t (λ x. refl) h
  Step-gone old (beats {t} id s) h = update-gone _ (beaten s) t (λ x. refl) h
  Step-gone old (pauses {t} id m s) h = update-gone _ (paused_row m s) t (λ x. refl) h
  Step-gone old (resumes {t} id type s) h = update-gone _ (resumed_row type s) t (λ x. refl) h
  Step-gone old (cancels {t} id m s) h = update-gone _ (cancelled_row m s) t (λ x. refl) h
  Step-gone old (fails {t} id m n s) h = update-gone _ (failed_row m n s) t (λ x. refl) h
  Step-gone old (succeeds {t} id r m s) h = update-gone _ (success_row r m s) t (λ x. refl) h
  Step-gone old (stales {t} id m n s) h = update-gone _ (stale_row m n s) t (λ x. refl) h
  Step-gone old (deletes {t} id) h = rw (find-delete_job k id t) (ground arith)

-- A job that ended with a status, seen later: gone, as it was, or cancelled.
abbrev pub Ended : Status → Option Job → Type 0
Ended s none = Unit {0}
Ended s (some j) = (j.status ≡ s) ⊎ (j.status ≡ cancelled)

Move-final : {a b : Status} → Move a b → is_final a ≡ true → (b ≡ a) ⊎ (b ≡ cancelled)
Move-final stay h = inl refl
Move-final start h = absurd (ground arith)
Move-final hold_back h = absurd (ground arith)
Move-final hold h = absurd (ground arith)
Move-final release h = absurd (ground arith)
Move-final finish h = absurd (ground arith)
Move-final break h = absurd (ground arith)
Move-final abandon h = inr refl

module _ (Fresh : String → Type 0) (k : String) (old : ¬ Fresh k) (s : Status)
    (f : is_final s ≡ true) where
  Moved-Ended : (a : Status) (o : Option Job) → (a ≡ s) ⊎ (a ≡ cancelled) → Moved a o → Ended s o
  Moved-Ended a none e m = tt
  Moved-Ended a (some j) (inl e) m = elim (Move-final m (rw e f)) [
    | inl same ↦ inl (same ∙ e)
    | inr dropped ↦ inr dropped
  ]
  Moved-Ended a (some j) (inr e) m = elim (Move-final m (rw e refl)) [
    | inl same ↦ inr (same ∙ e)
    | inr dropped ↦ inr dropped
  ]

  Step-Ended : {t u : List Job} → Step Fresh t u → Ended s (find k t) → Ended s (find k u)
  Step-Ended {t} {u} st e = elim (Option-cases (find k t)) [
    | inl gone ↦ rw (Step-gone Fresh k old st gone) tt
    | inr (j, found) ↦
        Moved-Ended j.status (find k u) (rw found at e) (Step-Moved Fresh k st j found)
  ]

  -- A job that succeeded, failed or was cancelled never waits, runs or pauses again, whatever
  -- statements follow: its row is gone, has the same status, or was turned into a cancelled one.
  -- Ids that the generator gave out once are not given out again.
  pub final_stays : {t u : List Job} → Reach Fresh t u → Ended s (find k t) → Ended s (find k u)
  final_stays here e = e
  final_stays (next r st) e = Step-Ended st (final_stays r e)
