-- ===== src/Lib.antt =====
-- yesnas-server: background jobs, storage pools, sessions, file operations and uploads.
--
-- The server keeps its state in an SQLite database and in a map of running jobs. HTTP handlers
-- change the rows of the jobs; one worker goroutine enqueues the automatic snapshots that are due,
-- claims the oldest waiting job and runs it. A table is the list of its rows, a statement is a
-- function on that list (Prelude.Table), and an operation is a function from the state to an answer
-- and a state. What the database, the disk and the clock do is an argument of the operation: an
-- environment tells for each statement whether it reaches the database. Go's strings and filepath
-- packages are defined in Prelude.Text and Prelude.FilePath, with Unicode's tables as parameters.
--
-- Jobs (internal/jobs/jobs.go)
--   Jobs.Model: Job, Status, Type, the payloads and the messages by type.
--   Jobs.Statements: the SQL statements, updateProgress to updateSuccess, the claim, the count.
--   Jobs.World: the tables with the registry of running jobs; registerRunningJob,
--     requestRunningJobStop, the removal of cached files, markStaleRunningJobs.
--   Jobs.Handlers: Get and HandleGet, HandlePause, HandleResume, HandleCancel, HandleDelete.
--   Jobs.Worker, Jobs.Snapshots, Jobs.Process: claimNextPendingJob, runCloudSyncJob,
--     enqueueDueAutoSnapshotJobs, runAutoSnapshotJob, processOnePendingJob. A run is split where it
--     waits for the upload or for the snapshot, since handlers act in between.
--   Jobs.Legacy: normalizeLegacyJobText.
--   Jobs.Listing and its children: ListJobs, its counts, buildJobListItems, HandleList and
--     ListScheduledTasks; the pages, the order, the counts and the answers of a listing.
--   Jobs.Steps and its children: the statements as a step relation, the invariant of the rows, the
--     state machine of a job, and that every operation is a sequence of the steps.
--   Jobs.History, Jobs.Claim, Jobs.Scheduling, Jobs.Outcomes: what holds of histories, claims, the
--     scheduler and the end of a run.
--
-- Pools (internal/storagepool)
--   Pools.Schedule and its children: normalizeWeeklySchedule and NextAutoSnapshotTime of create.go.
--     The time zone is a parameter; where a theorem needs it, days and months begin at 0:00.
--   Pools.Raid and its children: the checks of CreatePool. Pools.Store: the records. Pools.Update: UpdatePool.
--
-- Auth (internal/auth/auth.go, internal/users/store.go, internal/users/password.go)
--   Auth.Password: hashPassword and verifyPassword. Auth.Sessions: CreateSession, LookupSession,
--     RevokeSession, ExtractToken, Authenticate. Auth.Handlers: Middleware, HandleLogin, HandleLogout.
--   Auth.Access, Auth.Login, Auth.Credentials: what holds of them. SHA-256, HMAC, base64, RFC 3339 and SplitHostPort
--     are parameters.
--
-- Files (internal/files)
--   Files.Disk: the calls of the operating system, whose results may depend on the history of the
--     calls before them, and the answers of the handlers. Files.Paths: paths.go. Files.Targets:
--     the source, the folder and the target of an operation, conflict policies and free names.
--   Files.Operations and its children: HandleRename, HandleMove, HandleCopy and where their calls
--     go. Files.Folders and its child: HandleConflictCheck, HandleCreateFolder. Files.Trash and its
--     children: HandleDelete and the records of the trash. Files.Pages: paginate.
--   Files.Uploads and its children (uploads.go): the records, received bytes, delivered files and
--     locks of the resumable uploads; Parsing, Create, Handlers and Finalize hold the code, Log and
--     its children the log of bytes that a patch appends to. A request is one step of the store,
--     with the failures of the operating system as an argument; Persist has the calls by which a
--     complete file reaches its target.
--   Prelude.FilePath and its children: Clean, Join, Rel, Base, Dir and Ext, and what Clean and Rel
--     say of the elements of absolute paths.
--
-- Examples: the same definitions at concrete inputs.
--
-- Fuel and bounds: the loop of nextAutoSnapshotAfter runs on fuel now + 1, and each round moves the
-- time forward, so it ends; the scan of NextAutoSnapshotTime goes over eight days, as the source's.
-- Seconds and nanoseconds are natural numbers. The loop of nextAvailablePath runs 10000 times, as
-- the source's. Offsets of uploads are natural numbers, since a file has fewer than 2 ^ 63 bytes.
--
-- Not modelled: the pools' disks and commands, listings and transcoding of files, two requests to
-- one upload that overlap, the fall-backs to sudo while an upload's files are opened, sharing, the
-- audit log, Docker, the system monitor, the cloud storage client and the HTTP encoding of bodies;
-- they are effects on the machine or other components. The texts of log lines are left out.
pub mod Prelude
pub mod Pools
pub mod Jobs
pub mod Auth
pub mod Files
pub mod Examples
