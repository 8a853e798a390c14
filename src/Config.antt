-- ===== src/Config.antt =====
-- app/config.py and app/config_validation.py.
pub mod Settings
pub mod Validation
