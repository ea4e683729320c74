-- ===== src/Tests.antt =====
-- Runs of the model on concrete inputs.
mod Fixtures
mod Scenarios
mod Policies
mod Runtimes
mod Hosts
mod Listings
mod Snapshots
mod Gates
mod Decisions
