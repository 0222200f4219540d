-- ===== src/Runner/Modes/Cleaned.antt =====
-- Every TPM emulator that is started is cleaned up.
use mathlib.Core.List.{flatten}
use rules_vmtest.Base.{
  ◌≡◌, refl, ◌⊎◌, inl, inr, Bool, true, false, [], ◌∷◌, ◌++◌, List, Option, none, some, Text, All,
  All-map, Result, ok, err, Bool-cases,
}
use rules_vmtest.Runner.Config.{Platform, RunnerConfig}
use rules_vmtest.Runner.Processes.{
  Action, remove_file, cancel_context, System, State, ProcessManager, cleanup_all, add_pid_file,
  add_process,
}
use rules_vmtest.Runner.Processes.Segments.{
  performed, Segments, IsFileCleanup, cleanup_all-Segments,
}
use rules_vmtest.Runner.Host.{
  QemuEnd, no_pipe, no_start, exit_zero, exit_nonzero, wait_failed, timed_out, cancelled, Host,
  World, Ran, RunError,
}
use rules_vmtest.Runner.Modes.{
  RunState, Ended, with_emulator, after_setup, set_up_build, set_up_run, end_build, run_build_mode,
  end_tagged, end_direct, run_run_mode, clean_up, run_mode, in_work_dir, run_in, checked_run,
  is_build, is_tagged, check_firmware, bridge_checked, work_path, run,
}

-- `a` is one of the actions.
abbrev pub Occurs : Action → List Action → Type 0
Occurs a [] = ⊥
Occurs a (b ∷ bs) = (b ≡ a) ⊎ Occurs a bs

Occurs-append_left : (a : Action) (xs ys : List Action) → Occurs a xs → Occurs a (xs ++ ys)
Occurs-append_left a [] ys h = absurd h
Occurs-append_left a (x ∷ xs) ys (inl e) = inl e
Occurs-append_left a (x ∷ xs) ys (inr h) = inr (Occurs-append_left a xs ys h)

Occurs-append_right : (a : Action) (xs ys : List Action) → Occurs a ys → Occurs a (xs ++ ys)
Occurs-append_right a [] ys h = h
Occurs-append_right a (x ∷ xs) ys h = inr (Occurs-append_right a xs ys h)

module _ (S : System) where
  file_removed :
      (path : Text) (w : S.World) (acts : List Action)
      → IsFileCleanup S path w acts
      → Occurs (remove_file path) acts
  file_removed path w acts (inl (unheld, e)) = rw e (inl refl)
  file_removed path w acts (inr (pid, holds, e)) = rw e (inr (inr (inr (inl refl))))

  files_removed :
      (paths : List Text) (w : S.World) (files : List (List Action))
      → Segments S (IsFileCleanup S) paths w files
      → All (λ path. Occurs (remove_file path) (flatten files)) paths
  unfolding flatten
  files_removed [] w files h = tt
  files_removed (path ∷ paths) w [] h = absurd h
  files_removed (path ∷ paths) w (acts ∷ files) (shape, shapes) = (
    Occurs-append_left (remove_file path) acts (flatten files) (file_removed path w acts shape),
    All-map (λ x h. Occurs-append_right (remove_file x) acts (flatten files) h) paths
        (files_removed paths (performed S acts w) files shapes),
  )

  cleanup_all-removes :
      (pm : ProcessManager) (s : State S)
      → All (λ path. Occurs (remove_file path) (cleanup_all S pm s).1) pm.pid_files
  cleanup_all-removes pm s =
      let (files, commands, shapes, _, eq) = cleanup_all-Segments S pm s in
      rw eq (
        All-map
          (λ x h.
            Occurs-append_right (remove_file x) s.1
              (cancel_context ∷ (flatten files ++ flatten commands))
              (inr (Occurs-append_left (remove_file x) (flatten files) (flatten commands) h)))
          pm.pid_files (files_removed pm.pid_files (S.perform cancel_context s.0) files shapes))

module _ (H : Host) where
  -- The process manager knows the PID files of the emulators that have been started.
  abbrev pub Tracked : RunState H → Type 0
  Tracked st = st.emulators ≡ st.manager.pid_files

  end_build-Tracked :
      (pid : Text) (e : QemuEnd) (st : RunState H)
      → Tracked st
      → Tracked (end_build H pid (e, st)).1
  unfolding end_build
  end_build-Tracked pid no_pipe st h = h
  end_build-Tracked pid no_start st h = h
  end_build-Tracked pid exit_zero st h = h
  end_build-Tracked pid exit_nonzero st h = h
  end_build-Tracked pid wait_failed st h = h
  end_build-Tracked pid timed_out st h = h
  end_build-Tracked pid cancelled st h = h

  end_tagged-Tracked :
      (e : QemuEnd) (st : RunState H) → Tracked st → Tracked (end_tagged H (e, st)).1
  unfolding end_tagged add_process
  end_tagged-Tracked no_pipe st h = h
  end_tagged-Tracked no_start st h = h
  end_tagged-Tracked exit_zero st h = h
  end_tagged-Tracked exit_nonzero st h = h
  end_tagged-Tracked wait_failed st h = h
  end_tagged-Tracked timed_out st h = h
  end_tagged-Tracked cancelled st h = h

  end_direct-Tracked :
      (pid : Text) (e : QemuEnd) (st : RunState H)
      → Tracked st
      → Tracked (end_direct H pid (e, st)).1
  unfolding end_direct add_process
  end_direct-Tracked pid no_pipe st h = h
  end_direct-Tracked pid no_start st h = h
  end_direct-Tracked pid exit_zero st h = h
  end_direct-Tracked pid exit_nonzero st h = h
  end_direct-Tracked pid wait_failed st h = h
  end_direct-Tracked pid timed_out st h = h
  end_direct-Tracked pid cancelled st h = h

  with_emulator-Tracked :
      (r : Option (Text × Text) × World H) (next : Text → Text → RunState H → Ended H)
      → ((socket pid : Text) (st : RunState H) → Tracked st → Tracked (next socket pid st).1)
      → Tracked (with_emulator H r next).1
  unfolding add_pid_file
  with_emulator-Tracked (none, w) next h = refl
  with_emulator-Tracked (some (socket, pid), w) next h = h socket pid _ refl

  after_setup-Tracked :
      (c : RunnerConfig) (work : Text) (r : Ran H Text)
      (next : Text → Text → Text → RunState H → Ended H)
      → ((tap socket pid : Text) (st : RunState H)
          → Tracked st
          → Tracked (next tap socket pid st).1)
      → Tracked (after_setup H c work r next).1
  after_setup-Tracked c work (err e, w) next h = refl
  after_setup-Tracked c work (ok tap, w) next h = with_emulator-Tracked _ (next tap) (h tap)

  run_build_mode-Tracked :
      (p : Platform) (c : RunnerConfig) (work : Text) (w : World H)
      → Tracked (run_build_mode H p c work w).1
  unfolding run_build_mode
  run_build_mode-Tracked p c work w =
      after_setup-Tracked c work (set_up_build H c work w) _
        (λ tap socket pid st h. end_build-Tracked pid _ _ h)

  run_run_mode-Tracked :
      (p : Platform) (c : RunnerConfig) (work : Text) (w : World H)
      → Tracked (run_run_mode H p c work w).1
  unfolding run_run_mode
  run_run_mode-Tracked p c work w =
      after_setup-Tracked c work (set_up_run H c work w) _ (λ tap socket pid st h.
        elim (Bool-cases (is_tagged H c)) [
          | inl e ↦ rw e (end_tagged-Tracked _ _ h)
          | inr e ↦ rw e (end_direct-Tracked pid _ _ h)
        ])

  run_mode-Tracked :
      (p : Platform) (c : RunnerConfig) (work : Text) (w : World H)
      → Tracked (run_mode H p c work w).1
  run_mode-Tracked p c work w = elim (Bool-cases (is_build H c)) [
    | inl e ↦ rw e (run_build_mode-Tracked p c work w)
    | inr e ↦ rw e (run_run_mode-Tracked p c work w)
  ]

  -- The PID file of every emulator that has been started is removed among the actions.
  abbrev pub Cleaned : RunState H → Type 0
  Cleaned st = All (λ pid. Occurs (remove_file pid) st.state.1) st.emulators

  clean_up-Cleaned :
      (c : RunnerConfig) (r : Result RunError (Unit {0})) (st : RunState H)
      → c.no_cleanup ≡ false
      → Tracked st
      → Cleaned (clean_up H c (r, st)).1
  clean_up-Cleaned c r st always h =
      rw (always, h) (cleanup_all-removes H.system st.manager st.state)

  run_in-Cleaned :
      (p : Platform) (c : RunnerConfig) (work : Option Text) (w : World H)
      → c.no_cleanup ≡ false
      → Cleaned (run_in H p c work w).1
  run_in-Cleaned p c none w always = tt
  run_in-Cleaned p c (some work) w always = made (H.mkdir_all work w)
    where
      made : (r : Bool × World H) → Cleaned (in_work_dir H p c work r).1
      made (true, w1) =
          clean_up-Cleaned c (run_mode H p c work w1).0 (run_mode H p c work w1).1 always
            (run_mode-Tracked p c work w1)
      made (false, w1) = tt

  checked_run-Cleaned :
      (r : Result RunError (Unit {0})) (next : World H → Ended H) (w : World H)
      → Cleaned (next w).1
      → Cleaned (checked_run H r next w).1
  checked_run-Cleaned (err e) next w h = tt
  checked_run-Cleaned (ok u) next w h = h

  -- Unless the clean-up is switched off, the PID file of every TPM emulator that `Run` starts has been
  -- removed when it returns, in build and in run mode, on every path: when QEMU cannot be started, when it
  -- fails, at the timeout, when the run is cancelled, and when all is well.
  pub run-Cleaned :
      (abs : Text → Option Text) (p : Platform) (c : RunnerConfig) (w : World H)
      → c.no_cleanup ≡ false
      → Cleaned (run H abs p c w).1
  unfolding run
  run-Cleaned abs p c w always =
      let inner = run_in H p c (work_path H abs c.work_dir) in
      let tools = check_firmware H c w (is_build H c) in
      checked_run-Cleaned (bridge_checked H c w) (checked_run H tools inner) w (
        checked_run-Cleaned tools inner w
          (run_in-Cleaned p c (work_path H abs c.work_dir) w always))
