-- ===== src/Tests/Runner/Qemu.antt =====
-- A command line of QEMU.
use rules_vmtest.Base.{◌≡◌, refl, not, ◌&&◌, ◌∷◌, false, true, [], pos, text, same, is_empty}
use rules_vmtest.Runner.Config.{Platform, RunnerConfig, default_tool_paths, new_runner}
use rules_vmtest.Runner.Qemu.{Launch, default_machine_type, vars_drive, build_qemu_args}
use rules_vmtest.Strings.{split}
use rules_vmtest.Runner.Qemu.Values.{settings, HasNoCommas, IsLaunched}
use rules_vmtest.Runner.Qemu.Reading.{build_qemu_args-IsLaunched}

abbrev linux : Platform
linux = record { goos = text "linux"; goarch = text "amd64" }

-- The name of the machine looks like an option.
abbrev config : RunnerConfig
config = record {
  server_name = text "-drive";
  work_dir = text "/w";
  mode = text "build";
  tool_paths = default_tool_paths linux;
  machine_type = [];
  tap_device = text "mltt-tap0";
  second_tap_device = [];
  mac_address = [];
  bridge_name = [];
  disk_size = text "10G";
  memory = [];
  cpus = pos 0;
  tpm_pristine_path = [];
  iso_path = text "/i.iso";
  transit_network = record { ipv4 = []; ipv6 = [] };
  output_mode = text "direct";
  shutdown_mode = false;
  no_cleanup = false;
}

abbrev launch : Launch
launch = record {
  ovmf_code = text "/code";
  vars_path = text "/vars";
  disk_path = text "/disk";
  iso_path = text "/i.iso";
  tpm_socket = text "/sock";
  boot_from_iso = true;
  tap_name = text "mltt-tap0";
  second_tap_name = [];
  direct_mode = true;
}

linux_machine : default_machine_type linux ≡ text "q35,accel=kvm,smm=on"
unfolding default_machine_type text same
linux_machine = refl

bridge_default : (new_runner linux config).bridge_name ≡ text "mltt-br0"
unfolding new_runner text
bridge_default = refl

no_commas : HasNoCommas config launch
unfolding text
no_commas = assumption refl

build_qemu_args-IsLaunched_example :
    IsLaunched
      (is_empty launch.second_tap_name)
      (launch.boot_from_iso && not (is_empty launch.iso_path))
      launch.direct_mode
      linux
      config
      launch
      (build_qemu_args linux config launch)
build_qemu_args-IsLaunched_example = build_qemu_args-IsLaunched linux config launch no_commas

-- A comma in a path ends it for QEMU.
comma_cuts :
    settings (vars_drive (text "/a,b"))
    ≡ text "if=pflash" ∷ text "format=raw" ∷ text "unit=1" ∷ text "file=/a" ∷ text "b" ∷ []
unfolding text split
comma_cuts = refl
