-- ===== src/Jobs/Listing.antt =====
-- internal/jobs/jobs.go: ListJobs and what it is made of, the counts, the names of the pools and the
-- scheduled tasks. SQLite's LIKE is a parameter: whether one of the five columns of a row that the
-- search reads is like the pattern.
pub mod Pages
pub mod Order
pub mod Answers
pub mod Counts
pub mod Requests
use Prim.Native.Char.{Char, code}
use Prim.Native.String
use yesnas_server.Prelude.{
  ℕ, ◌+◌, ◌-◌, ◌*◌, ◌/◌, ◌%◌, String, Bool, true, false, Option, none, some, List, [], ◌∷◌, ◌++◌,
  ◌&&◌, ◌||◌, not, str_eq, ltb, leb, ◌==◌, if◌then◌else◌, length, take, drop, map,
}
use yesnas_server.Prelude.Text.{trim_space, to_lower, is_empty}
use yesnas_server.Prelude.Table.{select_where, count_where}
use yesnas_server.Pools.Store.{StoragePool}
use yesnas_server.Jobs.Model.{
  Status, pending, running, paused, success, failed, cancelled, JobType, auto_snapshot, type_eq,
  Job, decode_auto_snapshot,
}
use yesnas_server.Jobs.Statements.{has_status}
use yesnas_server.Jobs.Legacy.{normalize_job_for_response}
use yesnas_server.Jobs.World.{World, Env, put_at, mark_stale_running_jobs}

-- A page or a size that is not positive is 0 here.
pub record JobListQuery : Type 0 where
  pub page : ℕ
  pub page_size : ℕ
  pub status : String
  pub search : String

pub record JobListItem : Type 0 where
  pub job : Job
  pub storage_pool_name : String
  pub schedule : String

pub record JobListCounts : Type 0 where
  pub all : ℕ
  pub pending_rows : ℕ
  pub running_rows : ℕ
  pub paused_rows : ℕ
  pub success_rows : ℕ
  pub failed_rows : ℕ
  pub cancelled_rows : ℕ

pub record JobListPagination : Type 0 where
  pub page : ℕ
  pub page_size : ℕ
  pub total : ℕ
  pub total_pages : ℕ

pub record JobListResponse : Type 0 where
  pub items : List JobListItem
  pub pagination : JobListPagination
  pub counts : JobListCounts

-- Which queries of a listing succeed.
pub record Reads : Type 0 where
  pub total_ok : Bool
  pub rows_ok : Bool
  pub pools_ok : Bool
  pub counts_ok : Bool

-- `none` is the empty text: no filter.
unfoldable pub normalize_list_status : (Char → Char) → String → Option Status
normalize_list_status wide value =
    let text = to_lower wide (trim_space value) in
    if str_eq text "pending"
    then some pending
    else if str_eq text "running"
    then some running
    else if str_eq text "paused"
    then some paused
    else if str_eq text "success"
    then some success
    else if str_eq text "failed"
    then some failed
    else if str_eq text "cancelled"
    then some cancelled
    else none

-- The WHERE of the two queries.
unfoldable pub matches : (Char → Char) → (String → Job → Bool) → JobListQuery → Job → Bool
matches wide like query j =
    elim (normalize_list_status wide query.status) [ none ↦ true | some s ↦ has_status s j ]
    && (is_empty (trim_space query.search)
        || like (String.◌++◌ "%" (String.◌++◌ (trim_space query.search) "%")) j)

-- ORDER BY created_at DESC, in the order of the rows on a tie.
unfoldable pub insert_newest : Job → List Job → List Job
insert_newest j [] = j ∷ []
insert_newest j (k ∷ t) =
    let rest = insert_newest j t in if ltb j.created_at k.created_at then k ∷ rest else j ∷ k ∷ t

unfoldable pub newest_first : List Job → List Job
unfolding insert_newest
newest_first [] = []
newest_first (j ∷ t) = insert_newest j (newest_first t)

unfoldable pub page_of : JobListQuery → ℕ
page_of query = if query.page == 0 then 1 else query.page

unfoldable pub page_size_of : JobListQuery → ℕ
page_size_of query =
    let size = if query.page_size == 0 then 20 else query.page_size in
    if ltb 100 size then 100 else size

-- (page - 1) * pageSize as a 64-bit int; SQLite reads a negative OFFSET as 0.
unfoldable pub offset_of : ℕ → ℕ → ℕ
offset_of page size =
    let wrapped = ((page - 1) * size) % 0x10000000000000000 in
    if ltb wrapped 0x8000000000000000 then wrapped else 0

unfoldable pub page_rows : ℕ → ℕ → List Job → List Job
page_rows page size rows = take size (drop (offset_of page size) rows)

unfoldable pub total_pages : ℕ → ℕ → ℕ
total_pages total size = if ltb 0 total then (total + size - 1) / size else 0

unfoldable pub add_pool_names : List StoragePool → (String → String) → String → String
add_pool_names [] names = names
add_pool_names (pool ∷ pools) names =
    let names' = put_at pool.id pool.name names in
    add_pool_names pools (
      if is_empty (trim_space pool.storage_id)
      then names'
      else put_at pool.storage_id pool.name names')

unfoldable pub load_storage_pool_name_map : List StoragePool → String → String
unfolding add_pool_names
load_storage_pool_name_map pools = add_pool_names pools (λ _. "")

unfoldable pub resolve_job_storage_pool_name : (String → String) → Job → String
resolve_job_storage_pool_name names j =
    let by_pool = trim_space (names (trim_space j.storage_pool_id)) in
    if not (is_empty by_pool) then by_pool else trim_space (names (trim_space j.resource_id))

-- The pool of an automatic snapshot, from its payload when the row names none.
abbrev with_payload : Job → JobListItem
with_payload j =
    if not (type_eq j.type auto_snapshot)
    then record { job = j; storage_pool_name = ""; schedule = "" }
    else elim (decode_auto_snapshot j.payload) [
      | none ↦ record { job = j; storage_pool_name = ""; schedule = "" }
      | some payload ↦ record {
        job =
            (if is_empty j.storage_pool_id
              then record j { storage_pool_id = payload.pool_id }
              else j);
        storage_pool_name = "";
        schedule = payload.schedule;
      }
    ]

unfoldable pub build_job_list_item : (String → String) → Job → JobListItem
build_job_list_item names row =
    let item = with_payload (normalize_job_for_response row) in
    record item { storage_pool_name = resolve_job_storage_pool_name names item.job }

unfoldable pub build_job_list_items : (String → String) → List Job → List JobListItem
unfolding build_job_list_item
build_job_list_items names [] = []
build_job_list_items names (j ∷ t) = build_job_list_item names j ∷ build_job_list_items names t

unfoldable pub get_job_counts : List Job → JobListCounts
get_job_counts t = record {
  all = length t;
  pending_rows = count_where (has_status pending) t;
  running_rows = count_where (has_status running) t;
  paused_rows = count_where (has_status paused) t;
  success_rows = count_where (has_status success) t;
  failed_rows = count_where (has_status failed) t;
  cancelled_rows = count_where (has_status cancelled) t;
}

-- The rows that a listing selects, the newest first.
unfoldable pub selected : (Char → Char) → (String → Job → Bool) → JobListQuery → List Job → List Job
selected wide like query t = newest_first (select_where (matches wide like query) t)

unfoldable pub list_response :
    (Char → Char) → (String → Job → Bool) → JobListQuery → World → JobListResponse
list_response wide like query w =
    let size = page_size_of query in
    let total = count_where (matches wide like query) w.jobs in
    record {
      items =
          build_job_list_items (load_storage_pool_name_map w.pools)
            (page_rows (page_of query) size (selected wide like query w.jobs));
      pagination = record {
        page = page_of query;
        page_size = size;
        total = total;
        total_pages = total_pages total size;
      };
      counts = get_job_counts w.jobs;
    }

unfoldable pub list_jobs :
    (Char → Char)
    → (String → Job → Bool)
    → Env
    → Reads
    → JobListQuery
    → World
    → Option JobListResponse × World
list_jobs wide like env reads query w =
    let swept = mark_stale_running_jobs env w in
    if reads.total_ok && reads.rows_ok && reads.pools_ok && reads.counts_ok
    then (some (list_response wide like query swept), swept)
    else (none, swept)

-- List: the newest rows, with their texts normalised.
unfoldable pub list : Env → ℕ → World → List Job × World
list env limit w =
    let swept = mark_stale_running_jobs env w in
    (
      map normalize_job_for_response
          (take (if limit == 0 then 50 else limit) (newest_first swept.jobs)),
      swept,
    )
