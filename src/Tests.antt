-- ===== src/Tests.antt =====
-- Tests of the models at fixed inputs, and one application of each general property.
mod Machine
mod Runner
mod Orchestrator
mod Cmd
mod Ending
