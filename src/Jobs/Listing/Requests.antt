-- ===== src/Jobs/Listing/Requests.antt =====
-- internal/jobs/jobs.go: HandleList with its numbers from the query, and the scheduled tasks.
use Prim.Native.Char.{Char, code}
use Prim.Native.String
use mathlib.Core.Option
use yesnas_server.Prelude.{
  ℕ, ◌+◌, ◌-◌, ◌*◌, ◌≡◌, refl, String, Bool, true, Option, none, some, List, [], ◌∷◌, ◌&&◌, ◌||◌,
  not, ltb, leb, ◌==◌, if◌then◌else◌,
}
use yesnas_server.Prelude.Text.{trim_space, is_empty}
use yesnas_server.Pools.Store.{StoragePool}
use yesnas_server.Jobs.Model.{Job}
use yesnas_server.Jobs.World.{World, Env}
use yesnas_server.Jobs.Listing.{JobListQuery, JobListResponse, Reads, list_jobs}

-- The digits at the head of a text, read on from a value; what follows them is passed over.
unfoldable pub leading_digits : ℕ → String → ℕ
leading_digits acc String.[] = acc
leading_digits acc (String.◌∷◌ c s) =
    let rest = leading_digits (10 * acc + (code c - 48)) s in
    if leb 48 (code c) && leb (code c) 57 then rest else acc

-- A text without a digit at its head counts as 0, which the caller refuses like Sscanf's error.
unfoldable pub scanned : String → ℕ
unfolding leading_digits
scanned String.[] = 0
scanned (String.◌∷◌ c s) =
    if code c == 43
    then leading_digits 0 s
    else if code c == 45
    then 0
    else leading_digits 0 (String.◌∷◌ c s)

-- parsePositiveInt of a text without white space in front, for a 64-bit int.
unfoldable pub parse_positive_int : String → ℕ → ℕ
unfolding scanned
parse_positive_int raw fallback =
    let value = scanned raw in
    if is_empty raw
    then fallback
    else if value == 0 || not (ltb value 0x8000000000000000)
    then fallback
    else value

-- The parameters of the query as texts.
pub record ListRequest : Type 0 where
  pub page : String
  pub page_size : String
  pub limit : String
  pub status : String
  pub q : String

unfoldable pub list_query : ListRequest → JobListQuery
list_query r =
    let size = parse_positive_int (trim_space r.page_size) 20 in
    record {
      page = parse_positive_int (trim_space r.page) 1;
      page_size =
          (if is_empty (trim_space r.limit)
            then size
            else parse_positive_int (trim_space r.limit) size);
      status = r.status;
      search = r.q;
    }

-- HandleList; `none` is the answer 500 JOBS_LIST_FAILED.
unfoldable pub handle_list :
    (Char → Char)
    → (String → Job → Bool)
    → Env
    → Reads
    → ListRequest
    → World
    → Option JobListResponse × World
handle_list wide like env reads r w = list_jobs wide like env reads (list_query r) w

pub record ScheduledTask : Type 0 where
  pub id : String
  pub type : String
  pub action : String
  pub status : String
  pub enabled : Bool
  pub schedule : String
  pub next_run_at : Option String
  pub last_run_at : Option String
  pub storage_pool_id : String
  pub storage_pool_name : String
  pub resource_type : String
  pub resource_id : String

abbrev pub scheduled_task : (ℕ → String) → StoragePool → ScheduledTask
scheduled_task format_time pool = record {
  id = String.◌++◌ "auto_snapshot:" pool.id;
  type = "auto_snapshot";
  action = "snapshot";
  status = "scheduled";
  enabled = true;
  schedule = pool.auto_snapshot_schedule;
  next_run_at = Option.map format_time pool.next_auto_snapshot_at;
  last_run_at = Option.map format_time pool.last_auto_snapshot_at;
  storage_pool_id = pool.id;
  storage_pool_name = pool.name;
  resource_type = "storage_pool";
  resource_id = pool.id;
}

-- The pools of ListScheduledTasks once they are read; `format_time` writes RFC 3339.
unfoldable pub scheduled_tasks : (ℕ → String) → List StoragePool → List ScheduledTask
scheduled_tasks format_time [] = []
scheduled_tasks format_time (pool ∷ pools) =
    let rest = scheduled_tasks format_time pools in
    if not pool.auto_snapshot_enabled || is_empty (trim_space pool.auto_snapshot_schedule)
    then rest
    else scheduled_task format_time pool ∷ rest

unfoldable pub list_scheduled_tasks :
    (ℕ → String) → Bool → List StoragePool → Option (List ScheduledTask)
list_scheduled_tasks format_time listed pools =
    if listed then some (scheduled_tasks format_time pools) else none

scan_test : parse_positive_int "12abc" 20 ≡ 12
unfolding parse_positive_int
scan_test = refl

negative_test : parse_positive_int "-3" 20 ≡ 20
unfolding parse_positive_int
negative_test = refl
