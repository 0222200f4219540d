-- ===== src/Tests/Machine.antt =====
-- Tests of the models of `machine/machine.go`.
mod Wait
mod Env
mod Names
mod Diagnosis
