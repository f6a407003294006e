-- ===== src/Escl.antt =====
-- `EsclManager` of escl_manager.h and escl_manager.cc.
pub mod Config
pub mod Uuid
pub mod Manager
pub mod Xml
pub mod Service
