-- ===== src/Lib.antt =====
-- A verification library for the Go code of rules_vmtest, which boots virtual machines under QEMU for
-- Bazel tests and for clusters.
--
-- The program has four parts. The package `machine` (machine/machine.go) is what a Go test uses: it
-- makes the options of a machine from environment variables that the Bazel rules set, boots the machine
-- through the package `vm`, and runs commands, polls and reads logs through an agent in the guest. The
-- package `runner` builds and runs the machines of a cluster: it checks the network of the host, starts a
-- TPM emulator and QEMU, prints their output behind a tag, and cleans up. The launcher
-- (vmtest/cmd/main.go) turns build-time variables into the configuration of a runner, and the test
-- runner (vmtest/cmd/testrunner/main.go) turns flags into the options of a machine. The orchestrator
-- (orchestrator/main.go) starts launchers in the windows of a tmux session.
--
-- Which file models what:
--   Base and its children: Boolean tests, lists, texts, Go's `int` and results that can fail.
--   Strings, Strconv, Filepath, Bufio: the functions of Go's library that the code calls, with their laws.
--   Machine/Quote: `shellQuote` and the command of `dumpDmesg`, with a reader of POSIX shell words.
--   Machine/Mac: `macFromTap`.
--   Machine/Env: `buildVMOptsFromEnv`; an option of `vm` is the call that makes it.
--   Machine/Guest: the agent in the guest, the clock and the world they act on, as a record.
--   Machine/Retry: `RetryOption` and `applyRetryOpts`.
--   Machine/Exec: `Execute`, `ExecuteWithTimeout`, `Succeed`, `Fail`.
--   Machine/Poll: the loop that the `WaitFor…` methods share.
--   Machine/Wait: `WaitUntilSucceeds`, `WaitUntilOutput`, `WaitForUnit`, `WaitForOpenPort`,
--     `WaitForClosedPort` and `WaitForFile`.
--   Machine/Boot: `New` with its options and its clean-up, and `Shutdown`; `vm` is the record `Vmm`.
--   Machine/Query: the single calls, among them `FindProcesses`, `NetworkLinks`, `FileSize` and `Time`.
--   Machine/Dump: `DumpOnFailure` with its options.
--   Machine/Http: `HTTPGet` and `WaitForHTTP`. Machine/Journal: `JournalLines` and `WaitForLog`.
--   Runner/Config: runner/config.go, `RunnerConfig` and `NewRunner` of runner/runner.go.
--   Runner/Qemu: `buildQEMUArgs` of runner/qemu.go, with a reader of options and their values.
--   Runner/Network: runner/network.go.
--   Runner/Processes: `ProcessManager` of runner/process_manager.go.
--   Runner/Stream: the goroutine of `AttachTagged` of runner/process_manager.go.
--   Runner/Streamer: the rest of `OutputStreamer`: its wait groups as steps of the caller and of the
--     goroutines, `AttachFilter` and `MatchSync`.
--   Runner/Host: `setupTPMState` and `setupRunArtifacts` of runner/runner.go, `isNewer` of runner/utils.go.
--   Runner/Modes: `Run`, `runBuildMode` and `runRunMode` of runner/runner.go, and runner/tpm.go.
--   Cmd/Launcher: `main` of vmtest/cmd/main.go up to the configuration.
--   Cmd/Ending: the end of `main` of vmtest/cmd/main.go, with the signals that it handles and the others.
--   Cmd/TestRunner: vmtest/cmd/testrunner/main.go: the options, and how the test ends.
--   Orchestrator/Jobs: the jobs of orchestrator/main.go. Orchestrator/Tmux: its session and `--run`.
--   Orchestrator/Main: `main` of orchestrator/main.go as a whole.
--   Tests: the models at fixed inputs.
--
-- How the code becomes definitions. A text is a list of code points, and the stream of a process a list
-- of bytes. Go's `int` is an integer whose range is checked where a text is read; durations are
-- nanoseconds, natural numbers. Code that reads or changes the world takes it and gives it back; what
-- the guest, the package `vm`, the host, tmux and `ip` do is a parameter (`Guest`, `Vmm`, `Host`,
-- `System`, `Ip`, `Locate`), and so are regular expressions and the filter for escape sequences. A call
-- of `t.Fatalf` or `os.Exit` is an error value or an exit code. Messages that are only printed are left
-- out. Where goroutines and signals run beside the program (Runner/Streamer, Cmd/Ending) its steps are a
-- relation, in which they can fall in any order.
--
-- Loops over lists are structural. The polling loops and the inner loop of the streamer take fuel: a
-- polling method needs a round for each pause that fits between its start and its deadline, and one
-- more, and the streamer one for each byte and one more; the theorems say that this is enough.
--
-- Not modelled: the package `vm`, which is not in the repository, and the methods `QMP` and `Serial`, which
-- hand out what it made; how flags are parsed, which Go's library does; what the context of the test
-- runner does to the calls of `vm`; the Starlark rules and the scripts.
pub mod Base
pub mod Strings
pub mod Strconv
pub mod Bufio
pub mod Cmd
pub mod Filepath
pub mod Machine
pub mod Orchestrator
pub mod Runner
mod Tests
