-- ===== src/Workers.antt =====
-- labos/workers: the scheduler and the reconciler.
pub mod Scheduler
pub mod Reconciler
