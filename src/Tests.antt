-- ===== src/Tests.antt =====
-- Runs of the program's functions on concrete input, and the theorems at such input.
mod Data
mod Usb
mod Http
mod Ipp
mod Sizes
mod Jobs
mod Link
mod Config
mod Scan
mod Start
mod Exchange
