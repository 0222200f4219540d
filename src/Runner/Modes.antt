-- ===== src/Runner/Modes.antt =====
-- `Run`, `runBuildMode` and `runRunMode` of `runner/runner.go`, with `startTPMWithDir` of
-- `runner/tpm.go`. QEMU is the one command that is started, the command 0. `filepath.Abs` is a
-- parameter.
pub mod Cleaned
use rules_vmtest.Base.{
  ℕ, Bool, true, false, ◌||◌, ◌&&◌, not, [], ◌∷◌, List, Option, none, some, Text, text, same,
  is_empty, if◌then◌else◌, Result, ok, err,
}
use rules_vmtest.Strings.{has_prefix}
use rules_vmtest.Filepath.{clean}
use rules_vmtest.Runner.Config.{Platform, RunnerConfig}
use rules_vmtest.Runner.Network.{check_bridge_setup, use_tap_device}
use rules_vmtest.Runner.Qemu.{Launch, build_qemu_args}
use rules_vmtest.Runner.Processes.{
  Action, pause, signal_process, System, State, act, ProcessManager, new_process_manager,
  add_process, add_pid_file, half_second, cleanup_pid_file, cleanup_all,
}
use rules_vmtest.Runner.Host.{
  QemuEnd, no_pipe, no_start, exit_zero, exit_nonzero, wait_failed, timed_out, cancelled, Host,
  World, Ran, RunError, network, ovmf_not_configured, ovmf_not_found, no_work_dir, not_made,
  not_copied, not_found, disk_not_created, tpm_not_started, qemu_ended, tpm_dir, disk_path,
  vars_path, disk_size, call, unless, finished, setup_tpm_state, setup_run_artifacts,
}

module _ (H : Host) where
  -- The system with the actions of the clean-up so far, the process manager, and the PID files of the
  -- TPM emulators that have been started.
  pub record RunState : Type 0 where
    pub state : State H.system
    pub manager : ProcessManager
    pub emulators : List Text

  abbrev pub Ended : Type 0
  Ended = Result RunError (Unit {0}) × RunState

  abbrev pub idle : World H → RunState
  idle w = record { state = (w, []); manager = new_process_manager; emulators = [] }

  abbrev pub launch : RunnerConfig → Text → Text → Text → Bool → Launch
  launch c work socket tap direct = record {
    ovmf_code = c.tool_paths.ovmf_code;
    vars_path = vars_path work;
    disk_path = disk_path work;
    iso_path = c.iso_path;
    tpm_socket = socket;
    boot_from_iso = not (is_empty c.iso_path);
    tap_name = tap;
    second_tap_name = c.second_tap_device;
    direct_mode = direct;
  }

  -- The PID file is handed to the process manager behind the start of the emulator.
  abbrev pub emulated : Text → World H → RunState
  emulated pid w = record {
    state = (w, []);
    manager = add_pid_file pid new_process_manager;
    emulators = pid ∷ [];
  }

  abbrev pub with_emulator :
      Option (Text × Text) × World H → (Text → Text → RunState → Ended) → Ended
  with_emulator (none, w) next = (err tpm_not_started, idle w)
  with_emulator (some (socket, pid), w) next = next socket pid (emulated pid w)

  -- What is done before the emulator is started, and the rest behind it.
  abbrev pub after_setup :
      RunnerConfig → Text → Ran H Text → (Text → Text → Text → RunState → Ended) → Ended
  after_setup c work (err e, w) next = (err e, idle w)
  after_setup c work (ok tap, w) next =
      with_emulator (H.start_tpm c.tool_paths.swtpm (tpm_dir work) w) (next tap)

  abbrev pub then_tap : Text → Ran H (Unit {0}) → Ran H Text
  then_tap tap (err e, w) = (err e, w)
  then_tap tap (ok u, w) = (ok tap, w)

  abbrev pub make_build : RunnerConfig → Text → World H → Ran H (Unit {0})
  make_build c work w = call H (not_made (clean work)) (H.mkdir_all (clean work) w) (λ w1.
      call H (not_copied c.tool_paths.ovmf_vars)
        (H.copy_file c.tool_paths.ovmf_vars (vars_path work) w1)
        (λ w2. unless H (not_found c.iso_path) (is_empty c.iso_path || H.exists c.iso_path w2) w2 (
          call H (not_made (clean work)) (H.mkdir_all (clean work) w2) (λ w3.
            call H disk_not_created
              (H.create_disk c.tool_paths.qemu_img (disk_path work) (disk_size c) w3)
              (setup_tpm_state H c work)))))

  abbrev pub on_tap : (Text → World H → Ran H Text) → RunnerConfig → World H → Ran H Text
  on_tap next c w = elim (use_tap_device (H.ip w) c) [
    | err e ↦ (err (network e), w)
    | ok tap ↦ next tap w
  ]

  unfoldable pub set_up_build : RunnerConfig → Text → World H → Ran H Text
  set_up_build c work w = on_tap (λ tap w1. then_tap tap (make_build c work w1)) c w

  unfoldable pub set_up_run : RunnerConfig → Text → World H → Ran H Text
  set_up_run c work w =
      on_tap
        (λ tap w1. then_tap tap (
          unless H (not_found (vars_path work)) (H.exists (vars_path work) w1) w1
            (setup_run_artifacts H c work (disk_path work) w1)))
        c w

  abbrev pub act_on : (State H.system → State H.system) → RunState → RunState
  act_on f st = record st { state = f st.state }

  -- QEMU is run, and how it ends with the world behind it.
  abbrev pub run_qemu : Platform → RunnerConfig → Launch → RunState → QemuEnd × RunState
  run_qemu p c l st =
      let ran = H.run_qemu c.tool_paths.qemu_system (build_qemu_args p c l) st.state.0 in
      (ran.0, record st { state = (ran.1, st.state.1) })

  -- The end of `runBuildMode`.
  unfoldable pub end_build : Text → QemuEnd × RunState → Ended
  end_build pid (exit_zero, st) = (ok tt, act_on (cleanup_pid_file H.system pid) st)
  end_build pid (timed_out, st) =
      (err (qemu_ended timed_out), act_on (act H.system (signal_process 0)) st)
  end_build pid (cancelled, st) =
      (err (qemu_ended cancelled), act_on (act H.system (signal_process 0)) st)
  end_build pid (no_pipe, st) = (err (qemu_ended no_pipe), st)
  end_build pid (no_start, st) = (err (qemu_ended no_start), st)
  end_build pid (exit_nonzero, st) = (err (qemu_ended exit_nonzero), st)
  end_build pid (wait_failed, st) = (err (qemu_ended wait_failed), st)

  -- `runBuildMode`
  unfoldable pub run_build_mode : Platform → RunnerConfig → Text → World H → Ended
  unfolding set_up_build end_build
  run_build_mode p c work w = after_setup c work (set_up_build c work w) (λ tap socket pid st.
      end_build pid (
        run_qemu p c (launch c work socket tap false)
          (act_on (act H.system (pause half_second)) st)))

  abbrev pub is_tagged : RunnerConfig → Bool
  is_tagged c = same c.output_mode (text "tagged")

  abbrev pub started : RunState → RunState
  started st = record st { manager = add_process 0 st.manager }

  -- The end of the tagged mode: how QEMU ends is not looked at.
  unfoldable pub end_tagged : QemuEnd × RunState → Ended
  end_tagged (no_pipe, st) = (err (qemu_ended no_pipe), st)
  end_tagged (no_start, st) = (err (qemu_ended no_start), st)
  end_tagged (exit_zero, st) = (ok tt, started st)
  end_tagged (exit_nonzero, st) = (ok tt, started st)
  end_tagged (wait_failed, st) = (ok tt, started st)
  end_tagged (timed_out, st) = (ok tt, started st)
  end_tagged (cancelled, st) = (ok tt, started st)

  -- The end of the direct mode, which makes no pipe.
  unfoldable pub end_direct : Text → QemuEnd × RunState → Ended
  end_direct pid (no_pipe, st) =
      (err (qemu_ended no_pipe), act_on (cleanup_pid_file H.system pid) st)
  end_direct pid (no_start, st) =
      (err (qemu_ended no_start), act_on (cleanup_pid_file H.system pid) st)
  end_direct pid (exit_zero, st) = (ok tt, started st)
  end_direct pid (exit_nonzero, st) = (err (qemu_ended exit_nonzero), started st)
  end_direct pid (wait_failed, st) = (err (qemu_ended wait_failed), started st)
  end_direct pid (timed_out, st) = (err (qemu_ended timed_out), started st)
  end_direct pid (cancelled, st) = (err (qemu_ended cancelled), started st)

  -- `runRunMode`
  unfoldable pub run_run_mode : Platform → RunnerConfig → Text → World H → Ended
  unfolding set_up_run end_tagged end_direct
  run_run_mode p c work w = after_setup c work (set_up_run c work w) (λ tap socket pid st.
      let ran = run_qemu p c (launch c work socket tap (not (is_tagged c))) st in
      if is_tagged c then end_tagged ran else end_direct pid ran)

  -- The checks of the firmware; the variables are only looked at in build mode.
  abbrev pub check_firmware : RunnerConfig → World H → Bool → Result RunError (Unit {0})
  check_firmware c w build =
      if is_empty c.tool_paths.ovmf_code
      then err ovmf_not_configured
      else if not (H.exists c.tool_paths.ovmf_code w)
      then err ovmf_not_found
      else if build && is_empty c.tool_paths.ovmf_vars
      then err ovmf_not_configured
      else if build && not (H.exists c.tool_paths.ovmf_vars w)
      then err ovmf_not_found
      else ok tt

  abbrev pub is_build : RunnerConfig → Bool
  is_build c = same c.mode (text "build")

  -- The deferred clean-up.
  abbrev pub clean_up : RunnerConfig → Ended → Ended
  clean_up c (result, st) =
      if c.no_cleanup then (result, st) else (result, act_on (cleanup_all H.system st.manager) st)

  abbrev pub run_mode : Platform → RunnerConfig → Text → World H → Ended
  run_mode p c work w = if is_build c then run_build_mode p c work w else run_run_mode p c work w

  abbrev pub work_path : (Text → Option Text) → Text → Option Text
  work_path abs dir = if has_prefix dir (text "/") then some dir else abs dir

  abbrev pub in_work_dir : Platform → RunnerConfig → Text → Bool × World H → Ended
  in_work_dir p c work (true, w) = clean_up c (run_mode p c work w)
  in_work_dir p c work (false, w) = (err (not_made work), idle w)

  abbrev pub run_in : Platform → RunnerConfig → Option Text → World H → Ended
  run_in p c none w = (err no_work_dir, idle w)
  run_in p c (some work) w = in_work_dir p c work (H.mkdir_all work w)

  abbrev pub checked_run : Result RunError (Unit {0}) → (World H → Ended) → World H → Ended
  checked_run (err e) next w = (err e, idle w)
  checked_run (ok u) next w = next w

  abbrev pub bridge_checked : RunnerConfig → World H → Result RunError (Unit {0})
  bridge_checked c w = elim (check_bridge_setup (H.ip w) c) [
    | err e ↦ err (network e)
    | ok u ↦ ok u
  ]

  -- `Run`
  unfoldable pub run : (Text → Option Text) → Platform → RunnerConfig → World H → Ended
  unfolding run_build_mode run_run_mode
  run abs p c w =
      checked_run (bridge_checked c w)
        (checked_run (check_firmware c w (is_build c)) (run_in p c (work_path abs c.work_dir))) w
