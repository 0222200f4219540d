-- ===== src/Cmd.antt =====
-- The programs under `vmtest/cmd`.
pub mod Launcher
pub mod Ending
pub mod TestRunner
