-- ===== src/Jobs/Model.antt =====
-- internal/jobs/jobs.go: the job record, its states and kinds, the payloads and the messages.
use yesnas_server.Prelude.{ℕ, String, Bool, true, false, Option, none, some}

-- The `status` column; `unknown` is any text that is none of the constants.
pub data Status : Type 0 where
  pending running paused success failed cancelled unknown : Status

-- The `type` column; `unsupported` is any text that is none of the constants.
pub data JobType : Type 0 where
  cloud_sync auto_snapshot unsupported : JobType

pub data StopReason : Type 0 where
  pause cancel delete : StopReason

abbrev pub status_eq : Status → Status → Bool
status_eq pending pending = true
status_eq running running = true
status_eq paused paused = true
status_eq success success = true
status_eq failed failed = true
status_eq cancelled cancelled = true
status_eq unknown unknown = true
status_eq _ _ = false

abbrev pub type_eq : JobType → JobType → Bool
type_eq cloud_sync cloud_sync = true
type_eq auto_snapshot auto_snapshot = true
type_eq unsupported unsupported = true
type_eq _ _ = false

pub record CloudSyncPayload : Type 0 where
  pub local_path : String
  pub target_path : String
  pub content_type : String
  pub file_name : String

pub record AutoSnapshotPayload : Type 0 where
  pub pool_id : String
  pub schedule : String

-- The `payload_json` column by what it holds: white space only, text that is no JSON object, or
-- the object of one of the two payload types.
pub data PayloadJson : Type 0 where
  blank garbled : PayloadJson
  cloud_object : CloudSyncPayload → PayloadJson
  snapshot_object : AutoSnapshotPayload → PayloadJson

-- json.Unmarshal into a CloudSyncPayload: fields of the other object are unknown and passed over.
abbrev pub decode_cloud_sync : PayloadJson → Option CloudSyncPayload
decode_cloud_sync (cloud_object p) = some p
decode_cloud_sync (snapshot_object p) =
    some (record { local_path = ""; target_path = ""; content_type = ""; file_name = "" })
decode_cloud_sync _ = none

abbrev pub decode_auto_snapshot : PayloadJson → Option AutoSnapshotPayload
decode_auto_snapshot (snapshot_object p) = some p
decode_auto_snapshot (cloud_object p) = some (record { pool_id = ""; schedule = "" })
decode_auto_snapshot _ = none

abbrev pub is_blank : PayloadJson → Bool
is_blank blank = true
is_blank _ = false

-- A timestamp column: the second that its text names, or text that no layout reads.
pub data Stamp : Type 0 where
  at : ℕ → Stamp
  unreadable : Stamp

abbrev pub parse_job_time : Stamp → Option ℕ
parse_job_time (at seconds) = some seconds
parse_job_time unreadable = none

pub record Job : Type 0 where
  pub id : String
  pub type : JobType
  pub status : Status
  pub title : String
  pub storage_pool_id : String
  pub resource_type : String
  pub resource_id : String
  pub progress : ℕ
  pub message : String
  pub error_message : String
  pub payload : PayloadJson
  pub result : String
  pub created_at : ℕ
  pub updated_at : Stamp
  pub started_at : Option ℕ
  pub finished_at : Option ℕ

-- Times are in seconds. `now` is a time with nanoseconds, and Format(RFC3339) keeps the second.
abbrev pub nanoseconds : ℕ
nanoseconds = 1000000000

abbrev pub running_job_stale_after : ℕ
running_job_stale_after = 300

abbrev pub pending_status_message : JobType → String
pending_status_message auto_snapshot = "Waiting to create automatic snapshot"
pending_status_message _ = "Waiting to sync"

abbrev pub running_message_for_type : JobType → String
running_message_for_type auto_snapshot = "Creating automatic snapshot"
running_message_for_type _ = "Syncing to cloud storage"

abbrev pub paused_status_message : JobType → String
paused_status_message auto_snapshot = "Automatic snapshot paused"
paused_status_message _ = "Sync job paused"

abbrev pub success_status_message : JobType → String
success_status_message auto_snapshot = "Automatic snapshot completed"
success_status_message _ = "Sync completed"

abbrev pub failure_status_message : JobType → String
failure_status_message auto_snapshot = "Automatic snapshot failed"
failure_status_message _ = "Sync failed"
