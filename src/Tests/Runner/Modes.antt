-- ===== src/Tests/Runner/Modes.antt =====
-- A run on a host where every call succeeds but QEMU fails.
use rules_vmtest.Base.{ℕ, ◌≡◌, refl, true, false, [], ◌∷◌, none, some, pos, text, same, err}
use rules_vmtest.Strings.{contains, has_prefix}
use rules_vmtest.Runner.Config.{Platform, RunnerConfig}
use rules_vmtest.Runner.Network.{check_bridge_setup, use_tap_device}
use rules_vmtest.Runner.Processes.{System}
use rules_vmtest.Runner.Host.{exit_nonzero, Host, setup_tpm_state, qemu_ended}
use rules_vmtest.Runner.Modes.{run, set_up_build, run_build_mode, end_build}
use rules_vmtest.Runner.Modes.Cleaned.{Cleaned, run-Cleaned}

abbrev pub system : System
system = record {
  World = ℕ;
  perform = λ a n. n;
  read_file = λ path n. some (text "42");
  has_process = λ c n. true;
  has_exited = λ c n. true;
}

abbrev pub host : Host
host = record {
  system = system;
  ip = λ n args. some (text "<UP>");
  exists = λ path n. true;
  mod_time = λ path n. some 5;
  mkdir_all = λ path n. (true, n);
  copy_file = λ src dst n. (true, n);
  copy_dir = λ src dst n. (true, n);
  create_disk = λ tool path size n. (true, n);
  init_tpm = λ tool dir n. (true, n);
  start_tpm = λ tool dir n. (some (text "/sock", text "/pid"), n);
  run_qemu = λ tool args n. (exit_nonzero, n);
}

abbrev pub platform : Platform
platform = record { goos = text "linux"; goarch = text "amd64" }

abbrev pub config : RunnerConfig
config = record {
  server_name = text "s";
  work_dir = text "/w";
  mode = text "build";
  tool_paths = record {
    qemu_system = text "qemu";
    qemu_img = text "qemu-img";
    ovmf_code = text "/code";
    ovmf_vars = text "/vars";
    swtpm = text "swtpm";
    swtpm_setup = text "swtpm_setup";
  };
  machine_type = [];
  tap_device = text "tap0";
  second_tap_device = [];
  mac_address = [];
  bridge_name = text "br0";
  disk_size = text "10G";
  memory = [];
  cpus = pos 0;
  tpm_pristine_path = [];
  iso_path = [];
  transit_network = record { ipv4 = []; ipv6 = [] };
  output_mode = text "direct";
  shutdown_mode = false;
  no_cleanup = false;
}

-- An emulator is started, and QEMU's failure is what the run reports.
emulator_started :
    let ended = run host (λ dir. none) platform config 0 in
    (ended.0 ≡ err (qemu_ended exit_nonzero)) × (ended.1.emulators ≡ text "/pid" ∷ [])
unfolding run check_bridge_setup use_tap_device contains has_prefix same text run_build_mode
    set_up_build setup_tpm_state end_build
emulator_started = (refl, refl)

run-Cleaned_example : Cleaned host (run host (λ dir. none) platform config 0).1
run-Cleaned_example = run-Cleaned host (λ dir. none) platform config 0 refl
