-- ===== src/Api.antt =====
-- labos/api/app.py: the endpoints.
pub mod Responses
pub mod Listings
pub mod Snapshots
pub mod App
pub mod Labs
pub mod Runs
pub mod Approvals
pub mod Leases
pub mod Exports
pub mod SchedulerJobs
