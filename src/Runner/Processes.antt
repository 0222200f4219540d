-- ===== src/Runner/Processes.antt =====
-- `ProcessManager` of `runner/process_manager.go`. What it does to the system is a sequence of actions; the
-- system answers how a file reads and what has become of a process, and is a parameter. The manager's
-- mutex is held over each whole operation, so operations do not interleave.
pub mod Segments
pub mod Twice
use rules_vmtest.Base.{
  ℕ, ◌*◌, ◌^◌, Bool, true, [], ◌∷◌, ◌++◌, List, Option, none, some, ℤ, Text, if◌then◌else◌,
}
use rules_vmtest.Strings.{trim_space}
use rules_vmtest.Strconv.{atoi}

pub data Signal : Type 0 where
  sigterm sigkill : Signal

-- A started command, by its place in the order of starts.
abbrev pub Command : Type 0
Command = ℕ

pub data Action : Type 0 where
  cancel_context : Action
  kill_pid : ℤ → Signal → Action
  pause : ℕ → Action
  remove_file : Text → Action
  signal_process : Command → Action
  kill_process : Command → Action
  wait_process : Command → Action

-- `read_file` fails where `os.ReadFile` does; `has_process` and `has_exited` say whether the fields
-- `Process` and `ProcessState` of the command are set.
pub record System : Type 1 where
  pub World : Type 0
  pub perform : Action → World → World
  pub read_file : Text → World → Option Text
  pub has_process : Command → World → Bool
  pub has_exited : Command → World → Bool

pub record ProcessManager : Type 0 where
  pub processes : List Command
  pub pid_files : List Text

abbrev pub new_process_manager : ProcessManager
new_process_manager = record { processes = []; pid_files = [] }

unfoldable pub add_process : Command → ProcessManager → ProcessManager
add_process cmd pm = record pm { processes = pm.processes ++ (cmd ∷ []) }

unfoldable pub add_pid_file : Text → ProcessManager → ProcessManager
add_pid_file path pm = record pm { pid_files = pm.pid_files ++ (path ∷ []) }

abbrev pub half_second : ℕ
half_second = 5 * 10 ^ 8

module _ (S : System) where
  -- The system and the actions so far.
  abbrev pub State : Type 0
  State = S.World × List Action

  abbrev pub act : Action → State → State
  act a (w, log) = (S.perform a w, log ++ (a ∷ []))

  abbrev stop_pid : Option ℤ → State → State
  stop_pid none s = s
  stop_pid (some pid) s =
      act (kill_pid pid sigkill) (act (pause half_second) (act (kill_pid pid sigterm) s))

  abbrev stop_content : Option Text → State → State
  stop_content none s = s
  stop_content (some content) s = stop_pid (atoi (trim_space content)) s

  -- `cleanupPIDFile`
  unfoldable pub cleanup_pid_file : Text → State → State
  cleanup_pid_file path s = act (remove_file path) (stop_content (S.read_file path s.0) s)

  unfoldable pub cleanup_pid_files : List Text → State → State
  unfolding cleanup_pid_file
  cleanup_pid_files [] s = s
  cleanup_pid_files (path ∷ paths) s = cleanup_pid_files paths (cleanup_pid_file path s)

  abbrev kill_late : Command → State → State
  kill_late cmd s = if S.has_exited cmd s.0 then s else act (kill_process cmd) s

  -- The body of the loop over the commands.
  unfoldable pub cleanup_process : Command → State → State
  cleanup_process cmd s =
      if S.has_process cmd s.0
      then act (wait_process cmd)
          (kill_late cmd (act (pause half_second) (act (signal_process cmd) s)))
      else s

  unfoldable pub cleanup_processes : List Command → State → State
  unfolding cleanup_process
  cleanup_processes [] s = s
  cleanup_processes (cmd ∷ cmds) s = cleanup_processes cmds (cleanup_process cmd s)

  -- `CleanupAll`
  unfoldable pub cleanup_all : ProcessManager → State → State
  unfolding cleanup_pid_files cleanup_processes
  cleanup_all pm s =
      cleanup_processes pm.processes (cleanup_pid_files pm.pid_files (act cancel_context s))
