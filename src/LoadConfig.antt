-- ===== src/LoadConfig.antt =====
-- load_config.h and load_config.cc: the descriptors out of the printer's JSON configuration.
pub mod Fields
pub mod Lists
pub mod Loaded
