-- ===== src/Runner/Host.antt =====
-- The files of a run: `setupTPMState` and `setupRunArtifacts` of `runner/runner.go` and `isNewer` of
-- `runner/utils.go`. What the host's files are and do is a parameter, the package `vm` included.
pub mod Artifacts
use rules_vmtest.Base.{
  ℕ, Bool, true, false, ◌||◌, not, [], ◌∷◌, List, Option, none, some, ℤ, Text, text, is_empty,
  or_default, ltb, if◌then◌else◌, Result, ok, err,
}
use rules_vmtest.Filepath.{join_path}
use rules_vmtest.Runner.Config.{RunnerConfig}
use rules_vmtest.Runner.Network.{NetworkError, Ip}
use rules_vmtest.Runner.Processes.{System}

-- How QEMU ends that was started with its output read: before its start, by itself, after twenty
-- minutes, or because the run is cancelled.
pub data QemuEnd : Type 0 where
  no_pipe no_start exit_zero exit_nonzero wait_failed timed_out cancelled : QemuEnd

-- A call gives whether it succeeds; `start_tpm` gives the socket and the PID file.
pub record Host : Type 1 where
  pub system : System
  pub ip : System.World system → Ip
  pub exists : Text → System.World system → Bool
  pub mod_time : Text → System.World system → Option ℕ
  pub mkdir_all : Text → System.World system → Bool × System.World system
  pub copy_file : Text → Text → System.World system → Bool × System.World system
  pub copy_dir : Text → Text → System.World system → Bool × System.World system
  pub create_disk : Text → Text → Text → System.World system → Bool × System.World system
  pub init_tpm : Text → Text → System.World system → Bool × System.World system
  pub start_tpm : Text → Text → System.World system → Option (Text × Text) × System.World system
  pub run_qemu : Text → List Text → System.World system → QemuEnd × System.World system

pub data RunError : Type 0 where
  network : NetworkError → RunError
  ovmf_not_configured ovmf_not_found no_work_dir : RunError
  not_made not_copied not_found : Text → RunError
  disk_not_created tpm_not_initialized tpm_not_started : RunError
  qemu_ended : QemuEnd → RunError

abbrev pub tpm_dir : Text → Text
tpm_dir work = join_path (work ∷ text "tpm" ∷ [])

abbrev pub disk_path : Text → Text
disk_path work = join_path (work ∷ text "disk.img" ∷ [])

abbrev pub vars_path : Text → Text
vars_path work = join_path (work ∷ text "vars.fd" ∷ [])

abbrev pub state_file : Text → Text
state_file dir = join_path (dir ∷ text "tpm2-00.permall" ∷ [])

abbrev pub disk_size : RunnerConfig → Text
disk_size c = or_default c.disk_size (text "50G")

abbrev pub later : Option ℕ → Option ℕ → Bool
later none d = false
later (some s) none = true
later (some s) (some d) = ltb d s

module _ (H : Host) where
  abbrev pub World : Type 0
  World = System.World H.system

  abbrev pub Ran : Type 0 → Type 0
  Ran A = Result RunError A × World

  -- `if err := call; err != nil { return error }`
  abbrev pub call : {A : Type 0} → RunError → Bool × World → (World → Ran A) → Ran A
  call error (true, w) next = next w
  call error (false, w) next = (err error, w)

  -- `if !test { return error }`
  abbrev pub unless : {A : Type 0} → RunError → Bool → World → Ran A → Ran A
  unless error true w next = next
  unless error false w next = (err error, w)

  -- `isNewer`
  unfoldable pub is_newer : Text → Text → World → Bool
  is_newer src dst w = later (H.mod_time src w) (H.mod_time dst w)

  abbrev pub finished : World → Ran (Unit {0})
  finished w = (ok tt, w)

  abbrev pub make_pristine : RunnerConfig → World → Bool × World
  make_pristine c w =
      if H.exists (state_file c.tpm_pristine_path) w
      then (true, w)
      else H.init_tpm c.tool_paths.swtpm_setup c.tpm_pristine_path w

  -- `setupTPMState`
  unfoldable pub setup_tpm_state : RunnerConfig → Text → World → Ran (Unit {0})
  setup_tpm_state c work w =
      if is_empty c.tpm_pristine_path
      then call tpm_not_initialized (H.init_tpm c.tool_paths.swtpm_setup (tpm_dir work) w) finished
      else call tpm_not_initialized (make_pristine c w) (λ w1.
        call (not_made (tpm_dir work)) (H.mkdir_all (tpm_dir work) w1) (λ w2.
          call (not_copied c.tpm_pristine_path) (H.copy_dir c.tpm_pristine_path (tpm_dir work) w2)
            finished))

  -- The disk of a run: made if there is none, and copied if the source is newer.
  unfoldable pub setup_disk : RunnerConfig → Text → Text → World → Ran (Unit {0})
  unfolding is_newer
  setup_disk c src dst w =
      if not (H.exists src w)
      then (if not (H.exists dst w)
          then call disk_not_created (H.create_disk c.tool_paths.qemu_img dst (disk_size c) w)
              finished
          else finished w)
      else if not (H.exists dst w) || is_newer src dst w
      then call (not_copied src) (H.copy_file src dst w) finished
      else finished w

  abbrev pub check_artifacts : Text → Ran (Unit {0}) → Ran (Unit {0})
  check_artifacts work (err e, w) = (err e, w)
  check_artifacts work (ok u, w) =
      unless (not_found (vars_path work)) (H.exists (vars_path work) w) w (
        unless (not_found (state_file (tpm_dir work))) (H.exists (state_file (tpm_dir work)) w) w
          (finished w))

  -- `setupRunArtifacts`
  unfoldable pub setup_run_artifacts : RunnerConfig → Text → Text → World → Ran (Unit {0})
  unfolding setup_disk
  setup_run_artifacts c work src w =
      call (not_made work) (H.mkdir_all work w)
        (λ w1. check_artifacts work (setup_disk c src (disk_path work) w1))
