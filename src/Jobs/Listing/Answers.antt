-- ===== src/Jobs/Listing/Answers.antt =====
-- The answers of a listing, page after page: internal/jobs/jobs.go, ListJobs.
use Prim.Native.Char.{Char}
use mathlib.Core.List.{map-append}
use yesnas_server.Prelude.{
  ℕ, zero, suc, ◌+◌, ◌<◌, ◌≤◌, ◌≡◌, refl, ap, sym, ◌∙◌, String, Bool, true, Option, none, some,
  List, [], ◌∷◌, ◌++◌, length, take, drop, map, ◌&&◌, arith, Bool-cases, inl, inr,
}
use yesnas_server.Prelude.Table.{select_where, length-update_where}
use yesnas_server.Jobs.Model.{Job, running, failure_status_message}
use yesnas_server.Jobs.Statements.{update_stale, stale_row, has_id, has_status}
use yesnas_server.Jobs.World.{
  World, Env, seconds, stale_message, cleanup_cloud_sync_local_payload, mark_stale_running_jobs,
  mark_stale_jobs, mark_stale_job, read_running,
}
use yesnas_server.Jobs.Listing.{
  JobListQuery, JobListItem, JobListResponse, Reads, matches, selected, newest_first, page_size_of,
  page_of, build_job_list_item, build_job_list_items, load_storage_pool_name_map, list_response,
  list_jobs, page_rows, offset_of,
}
use yesnas_server.Jobs.Listing.Order.{IsOrdered, newest_first-IsOrdered}
use yesnas_server.Jobs.Listing.Pages.{first_pages, total_pages-first_pages, count_where-length}

length-take : (n : ℕ) (t : List Job) → length (take n t) ≤ n
length-take zero t = omega arith
length-take (suc n) [] = omega arith
length-take (suc n) (j ∷ t) = omega (arith, length-take n t)

length-build_job_list_items :
    (names : String → String) (t : List Job) → length (build_job_list_items names t) ≡ length t
unfolding build_job_list_items
length-build_job_list_items names [] = refl
length-build_job_list_items names (j ∷ t) = ap suc (length-build_job_list_items names t)

length-page_items :
    (names : String → String) (page size : ℕ) (t : List Job)
    → length (build_job_list_items names (page_rows page size t)) ≤ size
unfolding page_rows
length-page_items names page size t =
    let rows = drop (offset_of page size) t in
    omega (arith, length-build_job_list_items names (take size rows), length-take size rows)

length-mark_stale_job :
    (env : Env) (item : Job) (w : World) → length (mark_stale_job env item w).jobs ≡ length w.jobs
unfolding mark_stale_job update_stale cleanup_cloud_sync_local_payload
length-mark_stale_job env item w = ground (
  arith,
  length-update_where (λ j. has_id item.id j && has_status running j)
      (stale_row stale_message (failure_status_message item.type) (seconds env)) w.jobs,
)

build_job_list_items-map :
    (names : String → String) (t : List Job)
    → build_job_list_items names t ≡ map (build_job_list_item names) t
unfolding build_job_list_items
build_job_list_items-map names [] = refl
build_job_list_items-map names (j ∷ t) =
    ap (λ xs. build_job_list_item names j ∷ xs) (build_job_list_items-map names t)

length-mark_stale_jobs :
    (env : Env) (items : List Job) (w : World)
    → length (mark_stale_jobs env items w).jobs ≡ length w.jobs
unfolding mark_stale_jobs
length-mark_stale_jobs env [] w = refl
length-mark_stale_jobs env (item ∷ items) w =
    length-mark_stale_jobs env items (mark_stale_job env item w) ∙ length-mark_stale_job env item w

length-mark_stale_running_jobs :
    (env : Env) (w : World) → length (mark_stale_running_jobs env w).jobs ≡ length w.jobs
unfolding mark_stale_running_jobs
length-mark_stale_running_jobs env w = elim (Bool-cases (env.db_ok read_running)) [
  | inl e ↦ rw e (length-mark_stale_jobs env (select_where (has_status running) w.jobs) w)
  | inr e ↦ rw e refl
]

abbrev every_query : Reads
every_query = record { total_ok = true; rows_ok = true; pools_ok = true; counts_ok = true }

module _ (wide : Char → Char) (like : String → Job → Bool) (env : Env) (query : JobListQuery)
    (w : World) where
  -- The answer to the request for a page.
  abbrev pub answer : ℕ → Option JobListResponse
  answer n = (list_jobs wide like env every_query (record query { page = n }) w).0

  abbrev items_of : Option JobListResponse → List JobListItem
  items_of none = []
  items_of (some r) = r.items

  -- The items of the answers to the pages 1 to n, one after the other.
  unfoldable pub collected : ℕ → List JobListItem
  collected zero = []
  collected (suc n) = collected n ++ items_of (answer (suc n))

  -- The rows that the answers are about: those that match, after the sweep for dead jobs.
  abbrev pub matching : List Job
  matching = select_where (matches wide like query) (mark_stale_running_jobs env w).jobs

  abbrev pub item_of : Job → JobListItem
  item_of = build_job_list_item (load_storage_pool_name_map (mark_stale_running_jobs env w).pools)

  answered :
      (n : ℕ)
      → answer (suc n)
        ≡ some (
            list_response wide like (record query { page = suc n }) (mark_stale_running_jobs env w))
  unfolding list_jobs
  answered n = refl

  page_given : (n : ℕ) → page_of (record query { page = suc n }) ≡ suc n
  unfolding page_of
  page_given n = ground arith

  answer-items :
      (n : ℕ)
      → items_of (answer (suc n))
        ≡ map item_of (page_rows (suc n) (page_size_of query) (newest_first matching))
  unfolding list_jobs list_response selected page_size_of matches
  answer-items n =
      build_job_list_items-map (load_storage_pool_name_map (mark_stale_running_jobs env w).pools) (
        page_rows (page_of (record query { page = suc n })) (page_size_of query)
          (newest_first matching))
      ∙ ap (λ k. map item_of (page_rows k (page_size_of query) (newest_first matching)))
          (page_given n)

  collected_lem :
      (n : ℕ)
      → collected n ≡ map item_of (first_pages n (page_size_of query) (newest_first matching))
  unfolding collected first_pages
  collected_lem zero = refl
  collected_lem (suc n) =
      ap (λ xs. xs ++ items_of (answer (suc n))) (collected_lem n)
      ∙ ap (λ xs. map item_of (first_pages n (page_size_of query) (newest_first matching)) ++ xs)
          (answer-items n)
      ∙ sym (
          map-append item_of (first_pages n (page_size_of query) (newest_first matching))
            (page_rows (suc n) (page_size_of query) (newest_first matching)))

  -- The answer to the request for a page, as part of the whole listing.
  pub record IsPage (n : ℕ) (r : JobListResponse) : Type 0 where
    pub given : answer n ≡ some r
    pub page : r.pagination.page ≡ n
    pub items : length r.items ≤ r.pagination.page_size
    pub total : r.pagination.total ≡ length matching
    pub rows : List Job
    pub ordered : IsOrdered matching rows
    pub complete : collected r.pagination.total_pages ≡ map item_of rows

  -- While its queries succeed, ListJobs answers the request for any page. The answer has the number
  -- of the page and no more items than it announces for a page; its total is the number of rows
  -- that match the query; and the items of the answers to the pages from the first to the last
  -- that it announces, one after the other, are those of the rows that match: no row is missing,
  -- none comes more often than in the table, and none is followed by a newer one. The pages are
  -- asked for in the same state of the database, with fewer than 2 ^ 63 - 200 jobs.
  pub list_jobs-IsPage :
      length w.jobs + 200 < 0x8000000000000000 → (n : ℕ) → (r : JobListResponse) × IsPage (suc n) r
  unfolding list_response selected matches page_size_of
  list_jobs-IsPage few n =
      let swept = mark_stale_running_jobs env w in
      let fewer : length swept.jobs + 200 < 0x8000000000000000 =
        omega (arith, length-mark_stale_running_jobs env w) in
      let r = list_response wide like (record query { page = suc n }) swept in
      (
        r,
        record {
          given = answered n;
          page = page_given n;
          items =
              length-page_items (load_storage_pool_name_map swept.pools)
                (page_of (record query { page = suc n })) (page_size_of query)
                (newest_first matching);
          total = sym (count_where-length (matches wide like query) swept.jobs);
          rows = newest_first matching;
          ordered = newest_first-IsOrdered matching;
          complete =
              collected_lem r.pagination.total_pages
              ∙ ap (map item_of) (total_pages-first_pages wide like query swept.jobs fewer);
        },
      )
