-- ===== src/Orchestrator/Main.antt =====
-- `main` of `orchestrator/main.go` as a whole: its checks, the jobs, the windows, and either the command
-- of `--run` or the terminal.
pub mod Windows
pub mod Setup
pub mod Closing
use rules_vmtest.Base.{
  Bool, true, not, [], ◌∷◌, ◌++◌, List, Option, none, some, ℤ, pos, Text, text, is_empty,
  if◌then◌else◌, Result, ok, err,
}
use rules_vmtest.Orchestrator.Jobs.{
  Job, Jobs, JobError, Locate, base_name, all_jobs, jobs_to_ensure,
}
use rules_vmtest.Orchestrator.Tmux.{System, State, WindowError, run_tmux, set_up, run_mode}

-- The flags, as they are parsed.
pub record Flags : Type 0 where
  pub session : Text
  pub attach : Bool
  pub run : Text

-- The flags where none is given.
abbrev pub default_flags : Flags
default_flags = record { session = text "molnett"; attach = true; run = [] }

module _ (S : System) where
  -- `attach`
  unfoldable pub attach : Text → State S → Bool × State S
  attach session s = run_tmux S (text "attach-session" ∷ text "-t" ∷ session ∷ []) s

  -- The primary window is selected, whether or not that succeeds, and the terminal handed over.
  unfoldable pub attach_mode : Text → Text → State S → ℤ × State S
  unfolding attach
  attach_mode session window s =
      let selected =
        run_tmux S (text "select-window" ∷ text "-t" ∷ (session ++ (text ":" ++ window)) ∷ []) s in
      let attached = attach session selected.1 in
      ((if attached.0 then pos 0 else pos 1), attached.1)

  abbrev pub last_part_of :
      Locate
      → Text
      → Flags
      → Jobs
      → List Job
      → Result WindowError (Unit {0}) × State S
      → ℤ × State S
  last_part_of locate primary flags all ensured (err e, s) = (pos 1, s)
  last_part_of locate primary flags all ensured (ok u, s) =
      if not (is_empty flags.run)
      then run_mode S locate flags.session flags.run all ensured s
      else if flags.attach
      then attach_mode flags.session (base_name primary) s
      else (pos 0, s)

  abbrev pub with_jobs : Locate → Text → Flags → Result JobError Jobs → State S → ℤ × State S
  with_jobs locate primary flags (err e) s = (pos 1, s)
  with_jobs locate primary flags (ok all) s =
      let ensured = jobs_to_ensure flags.run all.ensure in
      last_part_of locate primary flags all ensured (set_up S flags.session ensured s)

  abbrev pub with_runfiles : Option Locate → Text → Text → Flags → State S → ℤ × State S
  with_runfiles none dependencies primary flags s = (pos 1, s)
  with_runfiles (some locate) dependencies primary flags s =
      with_jobs locate primary flags (all_jobs locate dependencies primary) s

  -- The exit code of `main` and the state behind it.
  unfoldable pub orchestrate : Option Locate → Text → Text → Flags → State S → ℤ × State S
  unfolding attach_mode
  orchestrate runfiles dependencies primary flags s =
      if is_empty primary then (pos 1, s) else with_runfiles runfiles dependencies primary flags s
