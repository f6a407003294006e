-- ===== src/Printer.antt =====
-- `UsbPrinter` of usb_printer.h and usb_printer.cc.
pub mod Interface
pub mod Bulk
pub mod Setup
pub mod Control
pub mod Data
pub mod Dispatch
pub mod Exchange
