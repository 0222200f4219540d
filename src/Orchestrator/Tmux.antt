-- ===== src/Orchestrator/Tmux.antt =====
-- `TmuxSession` and `main` of `orchestrator/main.go`. What is run, commands and pauses, is a sequence of
-- steps; what a command prints and how it ends is the system's, a parameter. Printed messages are left
-- out.
pub mod Ensure
pub mod Kills
use rules_vmtest.Base.{
  ℕ, ◌*◌, ◌^◌, Bool, true, false, not, ◌&&◌, [], ◌∷◌, ◌++◌, List, Option, none, some, ℤ, pos, Text,
  text, same, is_empty, any, if◌then◌else◌, Result, ok, err,
}
use rules_vmtest.Strings.{split, trim_space, fields}
use rules_vmtest.Orchestrator.Jobs.{Job, Jobs, JobError, Locate, run_command}

pub data Step : Type 0 where
  tmux : List Text → Step
  foreground : List Text → Step
  sleep : ℕ → Step

-- How a command ends: with success, with a status, or it cannot be started.
pub data Ending : Type 0 where
  success : Ending
  exit_error : ℤ → Ending
  no_start : Ending

-- `output` is what `Output` gives, `none` where it fails; `runfiles_env` is `runfiles.Env()` and
-- `workspace` the variable `BUILD_WORKSPACE_DIRECTORY`.
pub record System : Type 1 where
  pub World : Type 0
  pub perform : Step → World → World
  pub succeeds : List Text → World → Bool
  pub output : List Text → World → Option Text
  pub ending : List Text → World → Ending
  pub runfiles_env : Option (List Text)
  pub workspace : Text

pub data WindowError : Type 0 where
  no_runfiles_env tmux_failed exited_at_once : WindowError

abbrev pub tenth_second : ℕ
tenth_second = 10 ^ 8

abbrev pub env_args : List Text → List Text
env_args [] = []
env_args (v ∷ vs) = text "-e" ∷ v ∷ env_args vs

abbrev pub workspace_args : Text → List Text
workspace_args dir =
    if is_empty dir then [] else text "-e" ∷ (text "BUILD_WORKSPACE_DIRECTORY=" ++ dir) ∷ []

abbrev pub non_empty : List Text → List Text
non_empty [] = []
non_empty (line ∷ lines) = if is_empty line then non_empty lines else line ∷ non_empty lines

-- The names of the windows in what tmux prints, one to a line.
abbrev pub window_names : Option Text → List Text
window_names none = []
window_names (some out) = non_empty (split b'\n' (trim_space out))

-- `contains`
abbrev pub contains_window : List Text → Text → Bool
contains_window windows name = any (λ w. same w name) windows

module _ (S : System) where
  -- The system and the steps so far.
  abbrev pub State : Type 0
  State = S.World × List Step

  abbrev pub do_step : Step → State → State
  do_step step (w, log) = (S.perform step w, log ++ (step ∷ []))

  -- A command of tmux, and whether it succeeds.
  abbrev pub run_tmux : List Text → State → Bool × State
  run_tmux args s = (S.succeeds args s.0, do_step (tmux args) s)

  abbrev pub list_args : Text → List Text
  list_args session =
      text "list-windows" ∷ text "-t" ∷ session ∷ text "-F" ∷ text "#{window_name}" ∷ []

  -- `listWindows`
  unfoldable pub list_windows : Text → State → List Text × State
  list_windows session s =
      (window_names (S.output (list_args session) s.0), do_step (tmux (list_args session)) s)

  -- `hasWindow`
  unfoldable pub has_window : Text → Text → State → Bool × State
  unfolding list_windows
  has_window session name s =
      let listed = list_windows session s in (contains_window listed.0 name, listed.1)

  abbrev pub check_window : Text → Text → Bool → State → Result WindowError (Unit {0}) × State
  check_window session name false s = (err tmux_failed, s)
  check_window session name true s =
      let checked = has_window session name (do_step (sleep tenth_second) s) in
      ((if checked.0 then ok tt else err exited_at_once), checked.1)

  -- The arguments with the environment and the command behind them.
  abbrev pub window_args : List Text → List Text → Job → List Text
  window_args args env job =
      args ++ (env_args env ++ (workspace_args S.workspace ++ (job.command ∷ [])))

  abbrev pub start_with :
      Option (List Text) → List Text → Text → Job → State → Result WindowError (Unit {0}) × State
  start_with none args session job s = (err no_runfiles_env, s)
  start_with (some env) args session job s =
      let ran = run_tmux (window_args args env job) s in check_window session job.id ran.0 ran.1

  -- What `create` and `createWindow` share: tmux is run, and then it is checked that the window is
  -- still there.
  unfoldable pub start_window :
      List Text → Text → Job → State → Result WindowError (Unit {0}) × State
  unfolding has_window
  start_window args session job s = start_with S.runfiles_env args session job s

  abbrev pub new_window_args : Text → Job → List Text
  new_window_args session job = text "new-window" ∷ text "-t" ∷ session ∷ text "-n" ∷ job.id ∷ []

  -- `create`
  unfoldable pub create : Text → Job → State → Result WindowError (Unit {0}) × State
  unfolding start_window
  create session job s =
      start_window (text "new-session" ∷ text "-d" ∷ text "-s" ∷ session ∷ text "-n" ∷ job.id ∷ [])
        session job s

  -- `createWindow`
  unfoldable pub create_window : Text → Job → State → Result WindowError (Unit {0}) × State
  unfolding start_window
  create_window session job s = start_window (new_window_args session job) session job s

  -- The loop that creates the further windows of a new session; an error is only reported.
  unfoldable pub create_windows : Text → List Job → State → State
  unfolding create_window
  create_windows session [] s = s
  create_windows session (job ∷ jobs) s =
      create_windows session jobs (create_window session job s).1

  -- A window that is listed is left alone.
  unfoldable pub ensure_window : Text → List Text → Job → State → State
  unfolding create_window
  ensure_window session existing job s =
      if contains_window existing job.id then s else (create_window session job s).1

  -- The loop over a session that exists.
  unfoldable pub ensure_windows : Text → List Text → List Job → State → State
  unfolding ensure_window
  ensure_windows session existing [] s = s
  ensure_windows session existing (job ∷ jobs) s =
      ensure_windows session existing jobs (ensure_window session existing job s)

  -- A session that cannot be created is fatal.
  abbrev pub after_create :
      Text
      → List Job
      → Result WindowError (Unit {0}) × State
      → Result WindowError (Unit {0}) × State
  after_create session jobs (ok u, s) = (ok u, create_windows session jobs s)
  after_create session jobs (err e, s) = (err e, s)

  abbrev pub set_up_existing : Text → List Job → State → State
  set_up_existing session jobs s =
      let listed = list_windows session s in ensure_windows session listed.0 jobs listed.1

  abbrev pub set_up_new : Text → List Job → State → Result WindowError (Unit {0}) × State
  set_up_new session [] s = (ok tt, s)
  set_up_new session (job ∷ jobs) s = after_create session jobs (create session job s)

  -- The part of `main` that makes the windows.
  unfoldable pub set_up : Text → List Job → State → Result WindowError (Unit {0}) × State
  unfolding list_windows ensure_windows create create_windows
  set_up session jobs s =
      let exists = run_tmux (text "has-session" ∷ text "-t" ∷ session ∷ []) s in
      if exists.0
      then (ok tt, set_up_existing session jobs exists.1)
      else set_up_new session jobs exists.1

  -- `killWindow`
  abbrev pub kill_step : Text → Job → Step
  kill_step session job =
      tmux (text "kill-window" ∷ text "-t" ∷ (session ++ (text ":" ++ job.id)) ∷ [])

  unfoldable pub kill_windows : Text → List Job → State → State
  kill_windows session [] s = s
  kill_windows session (job ∷ jobs) s =
      kill_windows session jobs (do_step (kill_step session job) s)

  abbrev pub exit_code : Ending → ℤ
  exit_code success = pos 0
  exit_code (exit_error n) = n
  exit_code no_start = pos 127

  -- `runForeground`
  unfoldable pub run_foreground : List Text → State → ℤ × State
  run_foreground [] s = (pos 1, s)
  run_foreground (word ∷ words) s =
      (exit_code (S.ending (word ∷ words) s.0), do_step (foreground (word ∷ words)) s)

  abbrev pub run_then_kill : Text → List Job → Result JobError Text → State → ℤ × State
  run_then_kill session jobs (err e) s = (pos 1, s)
  run_then_kill session jobs (ok command) s =
      let ran = run_foreground (fields command) s in (ran.0, kill_windows session jobs ran.1)

  -- The part of `main` for `--run`, with its exit code.
  unfoldable pub run_mode : Locate → Text → Text → Jobs → List Job → State → ℤ × State
  unfolding run_command run_foreground kill_windows
  run_mode locate session run all ensured s =
      run_then_kill session ensured (run_command locate run all.paths) s
