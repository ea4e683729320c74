-- ===== src/System.antt =====
-- The control plane as a whole: requests in any order, and what holds after each of them.
pub mod Sound
pub mod Rules
pub mod Handlers
pub mod Requests
pub mod Invariant
pub mod Quiet
pub mod Atomic
