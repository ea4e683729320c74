-- ===== src/Core.antt =====
-- labos/core: the lifecycle enumerations and the transition tables, and the event writer.
pub mod Entities
pub mod Enums
pub mod StateMachine
pub mod Events
