-- ===== src/Runtimes.antt =====
-- labos/runtimes: what a runtime adapter takes and answers, and the one over docker.
pub mod Base
pub mod Act
pub mod Client
pub mod Numerals
pub mod Docker
pub mod Probe
