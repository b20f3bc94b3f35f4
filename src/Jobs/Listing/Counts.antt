-- ===== src/Jobs/Listing/Counts.antt =====
-- The counts of a listing and its filter by status: internal/jobs/jobs.go, ListJobs, getJobCounts.
use Prim.Native.Char.{Char}
use Prim.Native.String
use yesnas_server.Prelude.{
  ℕ, suc, ◌≡◌, refl, ap, sym, ◌∙◌, String, Bool, true, Option, none, some, List, [], ◌∷◌, ◌&&◌,
  ◌||◌, length, str_eq, if◌then◌else◌, arith, Bool-cases, inl, inr,
}
use yesnas_server.Prelude.Text.{trim_space, to_lower, is_empty}
use yesnas_server.Prelude.Table.{count_where}
use yesnas_server.Jobs.Model.{Status, pending, running, paused, success, failed, cancelled, Job}
use yesnas_server.Jobs.Statements.{has_status}
use yesnas_server.Jobs.World.{World, Env, mark_stale_running_jobs}
use yesnas_server.Jobs.Listing.{
  JobListQuery, JobListCounts, JobListResponse, Reads, normalize_list_status, matches,
  get_job_counts, list_response, list_jobs,
}

-- The count that stands beside a status in the answer; a text that is none of the six asks for all.
abbrev pub rows_named : String → JobListCounts → ℕ
rows_named text counts =
    if str_eq text "pending"
    then counts.pending_rows
    else if str_eq text "running"
    then counts.running_rows
    else if str_eq text "paused"
    then counts.paused_rows
    else if str_eq text "success"
    then counts.success_rows
    else if str_eq text "failed"
    then counts.failed_rows
    else if str_eq text "cancelled"
    then counts.cancelled_rows
    else counts.all

count_where-same :
    (p q : Job → Bool) (t : List Job) → ((j : Job) → p j ≡ q j) → count_where p t ≡ count_where q t
unfolding count_where
count_where-same p q [] same = refl
count_where-same p q (j ∷ t) same = ground (arith, same j, count_where-same p q t same)

count_where-all : (t : List Job) → count_where (λ _. true) t ≡ length t
unfolding count_where
count_where-all [] = refl
count_where-all (j ∷ t) = ap suc (count_where-all t)

abbrev status_test : Option Status → Job → Bool
status_test none j = true
status_test (some s) j = has_status s j

unsought :
    (o : Option Status) (liked : Bool) (j : Job)
    → (elim o [ none ↦ true | some s ↦ has_status s j ] && (true || liked)) ≡ status_test o j
unsought none liked j = refl
unsought (some s) liked j = ground arith

-- Without a search the filter of the rows is the test of the status.
matches-status :
    (wide : Char → Char) (like : String → Job → Bool) (query : JobListQuery) (j : Job)
    → is_empty (trim_space query.search) ≡ true
    → matches wide like query j ≡ status_test (normalize_list_status wide query.status) j
unfolding matches
matches-status wide like query j none_sought = rw none_sought (
    unsought (normalize_list_status wide query.status)
      (like (String.◌++◌ "%" (String.◌++◌ (trim_space query.search) "%")) j) j)

counted :
    (wide : Char → Char) (status : String) (t : List Job)
    → count_where (status_test (normalize_list_status wide status)) t
      ≡ rows_named (to_lower wide (trim_space status)) (get_job_counts t)
unfolding normalize_list_status get_job_counts
counted wide status t = by_text (to_lower wide (trim_space status))
  where
    by_text :
        (text : String)
        → count_where
            (status_test (
              if str_eq text "pending"
              then some pending
              else if str_eq text "running"
              then some running
              else if str_eq text "paused"
              then some paused
              else if str_eq text "success"
              then some success
              else if str_eq text "failed"
              then some failed
              else if str_eq text "cancelled"
              then some cancelled
              else none))
            t
          ≡ rows_named text (get_job_counts t)
    by_text text = elim (Bool-cases (str_eq text "pending")) [
      | inl e ↦ rw e refl
      | inr e ↦ rw e (elim (Bool-cases (str_eq text "running")) [
        | inl e ↦ rw e refl
        | inr e ↦ rw e (elim (Bool-cases (str_eq text "paused")) [
          | inl e ↦ rw e refl
          | inr e ↦ rw e (elim (Bool-cases (str_eq text "success")) [
            | inl e ↦ rw e refl
            | inr e ↦ rw e (elim (Bool-cases (str_eq text "failed")) [
              | inl e ↦ rw e refl
              | inr e ↦ rw e (elim (Bool-cases (str_eq text "cancelled")) [
                | inl e ↦ rw e refl
                | inr e ↦ rw e (count_where-all t)
              ])
            ])
          ])
        ])
      ])
    ]

list_jobs-response :
    (wide : Char → Char) (like : String → Job → Bool) (env : Env) (reads : Reads)
    (query : JobListQuery) (w : World) (r : JobListResponse)
    → (list_jobs wide like env reads query w).0 ≡ some r
    → r ≡ list_response wide like query (mark_stale_running_jobs env w)
unfolding list_jobs
list_jobs-response wide like env reads query w r h =
    elim (Bool-cases (reads.total_ok && reads.rows_ok && reads.pools_ok && reads.counts_ok)) [
      | inl e ↦ ground (arith, e, h)
      | inr e ↦ absurd (ground (arith, e, h))
    ]

-- An answer of ListJobs without a search announces as many rows as the count in the same answer
-- that stands beside the status that the query names, or as the count of all where it names none.
pub list_jobs-total :
    (wide : Char → Char) (like : String → Job → Bool) (env : Env) (reads : Reads)
    (query : JobListQuery) (w : World) (r : JobListResponse)
    → (list_jobs wide like env reads query w).0 ≡ some r
    → is_empty (trim_space query.search) ≡ true
    → r.pagination.total ≡ rows_named (to_lower wide (trim_space query.status)) r.counts
unfolding list_response
list_jobs-total wide like env reads query w r h none_sought =
    let swept = mark_stale_running_jobs env w in
    let shape = list_jobs-response wide like env reads query w r h in
    ap (λ x. x.pagination.total) shape
    ∙ count_where-same (matches wide like query)
        (status_test (normalize_list_status wide query.status)) swept.jobs
        (λ j. matches-status wide like query j none_sought)
    ∙ counted wide query.status swept.jobs
    ∙ ap (λ x. rows_named (to_lower wide (trim_space query.status)) x.counts) (sym shape)
