-- ===== src/Examples/Listings.antt =====
-- A listing of internal/jobs/jobs.go at a concrete query.
use Prim.Native.Char.{Char}
use yesnas_server.Prelude.{◌≡◌, refl, String, Bool, true, false, none, some, [], ◌∷◌, arith}
use yesnas_server.Prelude.Text.{trim_space, to_lower}
use yesnas_server.Prelude.Table.{count_where, select_where}
use yesnas_server.Jobs.Model.{success, running, cloud_sync, blank, at, Job}
use yesnas_server.Jobs.World.{World, Env, StatResult, mark_stale_running_jobs}
use yesnas_server.Jobs.Listing.{
  JobListQuery, JobListResponse, matches, normalize_list_status, list_response, list_jobs,
}
use yesnas_server.Jobs.Listing.Answers.{IsPage, list_jobs-IsPage}
use yesnas_server.Jobs.Listing.Counts.{list_jobs-total}

abbrev old : Job
old = record {
  id = "a";
  type = cloud_sync;
  status = success;
  title = "Sync to Google Drive";
  storage_pool_id = "p1";
  resource_type = "file";
  resource_id = "/photos/a.jpg";
  progress = 100;
  message = "Sync completed";
  error_message = "";
  payload = blank;
  result = "";
  created_at = 10;
  updated_at = at 12;
  started_at = some 11;
  finished_at = some 12;
}

abbrev recent : Job
recent = record old {
  id = "b";
  status = running;
  progress = 25;
  created_at = 20;
  finished_at = none;
}

abbrev everything : JobListQuery
everything = record { page = 1; page_size = 1; status = "all"; search = "" }

abbrev like_any : String → Job → Bool
like_any pattern j = true

abbrev ascii : Char → Char
ascii c = c

abbrev reached : Env
reached = record {
  now = 30000000000;
  db_ok = λ _. true;
  stale_ok = λ _. true;
  stat = λ _. StatResult.exists;
  open_ok = λ _. true;
  storage_exists = λ _. true;
  fresh_id = "n";
  encoded = "";
  error_text = "";
}

abbrev world : World
world = record {
  jobs = old ∷ recent ∷ [];
  pools = [];
  registered = λ _. false;
  stop_reason = λ _. none;
  signalled = λ _. false;
  effects = [];
  audits = [];
}

-- The second page of one row.
list_jobs-IsPage_example :
    (r : JobListResponse) × IsPage ascii like_any reached everything world 2 r
list_jobs-IsPage_example = list_jobs-IsPage ascii like_any reached everything world (omega arith) 1

abbrev successes : JobListQuery
successes = record everything { status = " Success " }

list_jobs-total_example :
    (list_response ascii like_any successes world).pagination.total
    ≡ (list_response ascii like_any successes world).counts.success_rows
unfolding list_jobs mark_stale_running_jobs trim_space to_lower list_response select_where
list_jobs-total_example =
    list_jobs-total ascii like_any reached
      (record { total_ok = true; rows_ok = true; pools_ok = true; counts_ok = true }) successes
      world (list_response ascii like_any successes world) refl refl

-- One of the two jobs succeeded.
list_response_test : (list_response ascii like_any successes world).pagination.total ≡ 1
unfolding list_response count_where matches normalize_list_status trim_space to_lower
list_response_test = refl
