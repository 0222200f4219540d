-- ===== src/Orchestrator.antt =====
-- `orchestrator/main.go`: starting the windows of a tmux session and running one machine in front.
pub mod Jobs
pub mod Tmux
pub mod Main
