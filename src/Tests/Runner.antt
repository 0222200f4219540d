-- ===== src/Tests/Runner.antt =====
-- Tests of the models of the package `runner`.
pub mod Modes
mod Network
mod Processes
mod Qemu
mod Stream
mod Streamer
