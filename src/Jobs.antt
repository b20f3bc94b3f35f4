-- ===== src/Jobs.antt =====
-- internal/jobs: the background jobs of the server.
pub mod Model
pub mod Statements
pub mod World
pub mod Legacy
pub mod Handlers
pub mod Worker
pub mod Snapshots
pub mod Process
pub mod Steps
pub mod History
pub mod Claim
pub mod Scheduling
pub mod Outcomes
pub mod Listing
