-- ===== src/Ipp.antt =====
-- IPP over USB: ipp_util.h, ipp_util.cc, cups_constants.h and ipp_manager.cc.
pub mod Tag
pub mod Header
pub mod Parse
pub mod Attribute
pub mod Manager
