-- ===== src/Cmd/Ending.antt =====
-- The end of `main` in `vmtest/cmd/main.go`: the program, the goroutine that calls `Run`, and the signals,
-- as steps in any order. A signal that is not handled ends the program: in the direct mode, and before
-- `signal.Notify` is called, each that can end a program, and afterwards all but two of them.
pub mod Exits
use rules_vmtest.Base.{
  Bool, true, false, ◌&&◌, Option, none, some, ℕ, ◌≡◌, Text, text, same, if◌then◌else◌, Result, ok,
  err,
}
use rules_vmtest.Runner.Config.{Platform, RunnerConfig, new_runner}
use rules_vmtest.Runner.Host.{Host, World, RunError}
use rules_vmtest.Runner.Modes.{Ended, run}

-- The signals that end a program which does not handle them.
pub data Signal : Type 0 where
  sigint sigterm sighup sigquit sigkill : Signal

-- The arguments of `signal.Notify`.
abbrev pub is_notified : Signal → Bool
is_notified sigint = true
is_notified sigterm = true
is_notified sighup = false
is_notified sigquit = false
is_notified sigkill = false

-- Where the program stands: before its two branches, in the call of `Run`, in the `select`, behind a
-- signal at `<-done`, at its end with an exit code, or ended by a signal.
pub data Phase : Type 0 where
  prepares calls_run selects awaits_done : Phase
  exited : ℕ → Phase
  ended_by_signal : Signal → Phase

abbrev pub is_direct : RunnerConfig → Bool
is_direct c = same c.mode (text "run") && same c.output_mode (text "direct")

-- Whether `Run` has been called, and can return.
abbrev pub runs : Phase → Bool
runs prepares = false
runs calls_run = true
runs selects = true
runs awaits_done = true
runs (exited code) = false
runs (ended_by_signal g) = false

-- Whether a signal does not end the program; one that is over it cannot end.
abbrev pub handles : Phase → Signal → Bool
handles prepares g = false
handles calls_run g = false
handles selects g = is_notified g
handles awaits_done g = is_notified g
handles (exited code) g = true
handles (ended_by_signal h) g = true

-- The exit code that the result of `Run` gives.
abbrev pub result_code : {A : Type 0} → Result RunError A → ℕ
result_code (ok a) = 0
result_code (err e) = 1

module _ (H : Host) (abs : Text → Option Text) (p : Platform) (c : RunnerConfig) where
  -- `begun` says whether `Run` has been called; `result` is what `Run` has returned, if it has; `signal` says that one of the two that are handled
  -- waits to be received; and
  -- `cancelled` says whether the context of the run is.
  pub record State : Type 0 where
    pub phase : Phase
    pub begun : Bool
    pub result : Option (Ended H)
    pub signal : Bool
    pub cancelled : Bool

  abbrev pub start : State
  start = record {
    phase = prepares;
    begun = false;
    result = none;
    signal = false;
    cancelled = false;
  }

  -- `Run` can meet any world: how it goes, and what a cancelled context does to it, is the world's.
  pub data Step (s : State) : State → Type 0 where
    branches :
        s.phase ≡ prepares
        → Step s (record s { phase = if is_direct c then calls_run else selects; begun = true })
    run_returns :
        (w : World H)
        → runs s.phase ≡ true
        → s.result ≡ none
        → Step s (record s { result = some (run H abs p (new_runner p c) w) })
    signal_kills :
        (g : Signal) → handles s.phase g ≡ false → Step s (record s { phase = ended_by_signal g })
    signal_comes : s.phase ≡ selects → Step s (record s { signal = true })
    direct_ends :
        (r : Ended H)
        → s.phase ≡ calls_run
        → s.result ≡ some r
        → Step s (record s { phase = exited (result_code r.0) })
    select_done :
        (r : Ended H)
        → s.phase ≡ selects
        → s.result ≡ some r
        → Step s (record s { phase = exited (result_code r.0) })
    select_signal :
        s.phase ≡ selects
        → s.signal ≡ true
        → Step s (record s { phase = awaits_done; signal = false; cancelled = true })
    done_behind_signal :
        (r : Ended H)
        → s.phase ≡ awaits_done
        → s.result ≡ some r
        → Step s (record s { phase = exited 0 })

  pub data Reach : State → Type 0 where
    here : Reach start
    next : {s t : State} → Reach s → Step s t → Reach t
