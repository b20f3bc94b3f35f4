-- ===== src/Jobs/Claim.antt =====
-- Which job the worker takes next: internal/jobs/jobs.go, claimNextPendingJob.
use mathlib.Core.Option
use yesnas_server.Prelude.{
  ℕ, ◌≤◌, ◌≡◌, ◌≢◌, refl, ◌∙◌, sym, ap, String, true, Option, none, some, List, [], ◌∷◌, ◌&&◌,
  str_eq_refl, str_eq_iff, if◌then◌else◌, arith, All, Bool-cases, Option-cases, inl, inr,
}
use yesnas_server.Prelude.Table.{first_where, first_where_holds, count_where-pos}
use yesnas_server.Jobs.Model.{pending, JobType, Job}
use yesnas_server.Jobs.Statements.{
  has_id, has_status, oldest_pending, earlier, update_claimed, claimed_row,
}
use yesnas_server.Jobs.World.{World, Env, Stmt, seconds}
use yesnas_server.Jobs.Worker.{claim_next_pending_job}
use yesnas_server.Jobs.Steps.Lookup.{find, find-update_where}
use yesnas_server.Jobs.Steps.Rows.{DistinctIds, TableOk}

-- A row of the table that waits, and none that waits is older.
pub record IsOldest (t : List Job) (j : Job) : Type 0 where
  pub waits : j.status ≡ pending
  pub oldest : All (λ x. x.status ≡ pending → j.created_at ≤ x.created_at) t

All-weaken :
    (i j : Job) (t : List Job)
    → i.created_at ≤ j.created_at
    → All (λ x. x.status ≡ pending → j.created_at ≤ x.created_at) t
    → All (λ x. x.status ≡ pending → i.created_at ≤ x.created_at) t
All-weaken i j [] h a = tt
All-weaken i j (x ∷ t) h a = (λ p. omega (arith, a.0 p), All-weaken i j t h a.1)

none_waits :
    (j : Job) (t : List Job)
    → oldest_pending t ≡ none
    → All (λ x. x.status ≡ pending → j.created_at ≤ x.created_at) t
unfolding oldest_pending
none_waits j [] h = tt
none_waits j (x ∷ t) h = (λ p. absurd (ground arith), none_waits j t (ground arith))

oldest_pending-IsOldest : (t : List Job) (j : Job) → oldest_pending t ≡ some j → IsOldest t j
unfolding oldest_pending
oldest_pending-IsOldest [] j h = absurd (ground arith)
oldest_pending-IsOldest (x ∷ t) j h = elim (Option-cases (oldest_pending t)) [
  | inl e ↦ record { waits = ground arith; oldest = (λ p. ground arith, none_waits j t e) }
  | inr (k, e) ↦
      let rest = oldest_pending-IsOldest t k e in
      record {
        waits = ground (arith, rest.waits);
        oldest = (λ p. ground arith, All-weaken j k t (ground arith) rest.oldest);
      }
]

oldest_pending-find :
    (t : List Job) (j : Job) → DistinctIds t → oldest_pending t ≡ some j → find j.id t ≡ some j
unfolding oldest_pending first_where
oldest_pending-find [] j d h = absurd (ground arith)
oldest_pending-find (x ∷ t) j d h = elim (Option-cases (oldest_pending t)) [
  | inl e ↦ ground (arith, str_eq_refl x.id)
  | inr (k, e) ↦
      ground (arith, str_eq_refl x.id, str_eq_iff x.id k.id, oldest_pending-find t k d.1 e)
]

claimed_found :
    (t : List Job) (j : Job) (s : ℕ)
    → find j.id t ≡ some j
    → j.status ≡ pending
    → find j.id (update_claimed j.id j.type s t) ≡ some (claimed_row j.type s j)
unfolding update_claimed
claimed_found t j s h p =
    rw
      (
        find-update_where j.id (λ x. has_id j.id x && has_status pending x) (claimed_row j.type s) t
            (λ x. refl),
        h,
      )
      (ground (arith, str_eq_refl j.id))

other_kept :
    (t : List Job) (k id : String) (type : JobType) (s : ℕ)
    → k ≢ id
    → find k (update_claimed id type s t) ≡ find k t
unfolding update_claimed
other_kept t k id type s ne =
    find-update_where k (λ x. has_id id x && has_status pending x) (claimed_row type s) t
      (λ x. refl)
    ∙ same (find k t) refl
  where
    same :
        (o : Option Job)
        → find k t ≡ o
        → Option.map
            (λ x. if has_id id x && has_status pending x then claimed_row type s x else x)
            o
          ≡ o
    same none e = refl
    same (some x) e =
        ground (arith, first_where_holds (has_id k) t x e, str_eq_iff x.id k, str_eq_iff x.id id)

claim_inv :
    (env : Env) (w w' : World) (item : Job)
    → claim_next_pending_job env w ≡ (some item, w')
    → (j : Job) × (oldest_pending w.jobs ≡ some j)
      × (item ≡ claimed_row j.type (seconds env) j)
      × (w'.jobs ≡ update_claimed j.id j.type (seconds env) w.jobs)
unfolding claim_next_pending_job
claim_inv env w w' item h = elim (Option-cases (oldest_pending w.jobs)) [
  | inl e ↦ absurd (ground arith)
  | inr (j, e) ↦ (j, e, ground arith, ground arith)
]

-- In a consistent table a claim takes a waiting job that no waiting job is older than. The job it returns is the row that
-- the table then holds: running, at 5 percent, with the time of its start. No other job changes.
pub claim_next_pending_job-IsOldest :
    (env : Env) (w w' : World) (item : Job)
    → TableOk w.jobs
    → claim_next_pending_job env w ≡ (some item, w')
    → (j : Job) × IsOldest w.jobs j
      × (find j.id w.jobs ≡ some j)
      × (item ≡ claimed_row j.type (seconds env) j)
      × (find j.id w'.jobs ≡ some item)
      × ((k : String) → k ≢ j.id → find k w'.jobs ≡ find k w.jobs)
claim_next_pending_job-IsOldest env w w' item ok h =
    let (j, e, shape, after) = claim_inv env w w' item h in
    let oldest = oldest_pending-IsOldest w.jobs j e in
    let found = oldest_pending-find w.jobs j ok.distinct e in
    (
      j,
      oldest,
      found,
      shape,
      ap (find j.id) after
          ∙ claimed_found w.jobs j (seconds env) found oldest.waits
          ∙ ap some (sym shape),
      λ k ne. ap (find k) after ∙ other_kept w.jobs k j.id j.type (seconds env) ne,
    )

waiting_seen :
    (t : List Job) (k : String) (x : Job)
    → find k t ≡ some x
    → x.status ≡ pending
    → (j : Job) × (oldest_pending t ≡ some j)
unfolding oldest_pending first_where
waiting_seen [] k x h p = absurd (ground arith)
waiting_seen (y ∷ t) k x h p = elim (Option-cases (oldest_pending t)) [
  | inr (j, e) ↦ elim (Bool-cases (has_status pending y)) [
    | inl b ↦ (earlier y (some j), rw (e, b) refl)
    | inr b ↦ (j, rw (e, b) refl)
  ]
  | inl e ↦ elim (Bool-cases (has_status pending y)) [
    | inl b ↦ (y, rw (e, b) refl)
    | inr b ↦ let (j, found) = waiting_seen t k x (ground arith) p in absurd (ground arith)
  ]
]

-- While the database answers and the table is consistent, a claim finds a job whenever one waits.
pub claim_next_pending_job_finds :
    (env : Env) (w : World) (k : String) (x : Job)
    → env.db_ok Stmt.read_pending ≡ true
    → env.db_ok Stmt.write_claimed ≡ true
    → TableOk w.jobs
    → find k w.jobs ≡ some x
    → x.status ≡ pending
    → (item : Job) × ((claim_next_pending_job env w).0 ≡ some item)
unfolding claim_next_pending_job
claim_next_pending_job_finds env w k x r c ok h p =
    let (j, e) = waiting_seen w.jobs k x h p in
    let oldest = oldest_pending-IsOldest w.jobs j e in
    let found = oldest_pending-find w.jobs j ok.distinct e in
    (
      claimed_row j.type (seconds env) j,
      rw (e, claim_next_pending_job)
          (ground (
            arith,
            count_where-pos (has_id j.id) (λ i. has_id j.id i && has_status pending i) w.jobs j
                found (ground (arith, oldest.waits, str_eq_refl j.id)),
          )),
    )
