-- ===== src/Policy.antt =====
-- labos/core/policy_models.py, labos/core/policy_engine.py and labos/config/profiles/base.py.
pub mod Models
pub mod Profiles
pub mod PosixPaths
pub mod Values
pub mod HostMounts
pub mod Engine
pub mod WellFormed
