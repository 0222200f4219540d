-- ===== src/Tests/Runner/Processes.antt =====
-- A system with one PID file, whose process ends at once.
use mathlib.Core.List.{flatten}
use rules_vmtest.Base.{
  ◌≡◌, refl, true, false, [], ◌∷◌, ◌++◌, List, Option, none, some, Text, text, same, same_refl,
  if◌then◌else◌, Bool-cases, inl, inr,
}
use rules_vmtest.Runner.Processes.{
  Action, cancel_context, kill_pid, pause, remove_file, signal_process, kill_process, wait_process,
  System, ProcessManager, new_process_manager, add_process, add_pid_file, State, cleanup_all,
  cleanup_pid_files,
}
use rules_vmtest.Runner.Processes.Segments.{
  performed, Adds, Segments, IsFileCleanup, IsProcessCleanup, cleanup_all-Segments,
}
use rules_vmtest.Runner.Processes.Twice.{Removes, removals, cleanup_pid_files_twice}

-- The contents of the files.
abbrev Files : Type 0
Files = Text → Option Text

abbrev without : Text → Files → Files
without path files = λ other. if same other path then none else files other

abbrev change : Action → Files → Files
change (remove_file path) files = without path files
change cancel_context files = files
change (kill_pid pid s) files = files
change (pause d) files = files
change (signal_process c) files = files
change (kill_process c) files = files
change (wait_process c) files = files

abbrev system : System
system = record {
  World = Files;
  perform = change;
  read_file = λ path files. files path;
  has_process = λ c files. true;
  has_exited = λ c files. false;
}

abbrev one_file : Files
one_file path = if same path (text "swtpm.pid") then some (text "42\n") else none

abbrev start : State system
start = (one_file, [])

abbrev manager : ProcessManager
manager = add_process 0 (add_pid_file (text "swtpm.pid") new_process_manager)

cleanup_all-Segments_example :
    (files commands : List (List Action)) × Segments system
      (IsFileCleanup system)
      manager.pid_files
      one_file
      files
    × Segments system
        (IsProcessCleanup system)
        manager.processes
        (performed system (flatten files) one_file)
        commands
    × Adds system start
        (cancel_context ∷ (flatten files ++ flatten commands))
        (cleanup_all system manager start)
cleanup_all-Segments_example = cleanup_all-Segments system manager start

removed : (path : Text) (files : Files) → without path files path ≡ none
removed path files = rw (same_refl path) refl

without-none :
    (path other : Text) (files : Files) → files path ≡ none → without other files path ≡ none
without-none path other files h = elim (Bool-cases (same path other)) [
  | inl e ↦ rw e refl
  | inr e ↦ rw e h
]

stays : (path : Text) (a : Action) (files : Files) → files path ≡ none → change a files path ≡ none
stays path (remove_file other) files h = without-none path other files h
stays path cancel_context files h = h
stays path (kill_pid pid s) files h = h
stays path (pause d) files h = h
stays path (signal_process c) files h = h
stays path (kill_process c) files h = h
stays path (wait_process c) files h = h

system-Removes : Removes system
system-Removes = record { gone = removed; stays_gone = stays }

cleanup_pid_files_twice_example :
    let paths = text "swtpm.pid" ∷ text "none.pid" ∷ [] in
    let s' = cleanup_pid_files system paths start in
    (cleanup_pid_files system paths s').1 ≡ s'.1 ++ removals paths
cleanup_pid_files_twice_example =
    cleanup_pid_files_twice system system-Removes (text "swtpm.pid" ∷ text "none.pid" ∷ []) start
