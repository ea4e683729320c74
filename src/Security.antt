-- ===== src/Security.antt =====
-- labos/security: secret leases and the export gate.
pub mod SecretBroker
pub mod ExportGate
