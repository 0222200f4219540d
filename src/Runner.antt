-- ===== src/Runner.antt =====
-- The package `runner`: cluster virtual machines in build and run mode.
pub mod Config
pub mod Host
pub mod Modes
pub mod Network
pub mod Qemu
pub mod Processes
pub mod Stream
pub mod Streamer
