-- ===== src/Config.antt =====
-- internal/config/config.go
pub mod Environment
pub mod Parts
pub mod Settings
pub mod Load
pub mod Valid
pub mod Loaded
pub mod Dsn
