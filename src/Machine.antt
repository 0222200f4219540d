-- ===== src/Machine.antt =====
-- `machine/machine.go`: the test primitives on a booted virtual machine.
pub mod Quote
pub mod Mac
pub mod Env
pub mod Guest
pub mod Retry
pub mod Exec
pub mod Poll
pub mod Wait
pub mod Http
pub mod Journal
pub mod Query
pub mod Boot
pub mod Dump
