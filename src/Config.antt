-- ===== src/Config.antt =====
-- src/config: the settings.
pub mod Settings
pub mod Production
