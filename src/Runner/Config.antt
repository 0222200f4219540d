-- ===== src/Runner/Config.antt =====
-- `runner/config.go`, and the configuration and constructor of `runner/runner.go`.
use rules_vmtest.Base.{Bool, [], ℤ, Text, text, same, or_default, if◌then◌else◌}

-- `runtime.GOOS` and `runtime.GOARCH`
pub record Platform : Type 0 where
  pub goos : Text
  pub goarch : Text

pub record ToolPaths : Type 0 where
  pub qemu_system : Text
  pub qemu_img : Text
  pub ovmf_code : Text
  pub ovmf_vars : Text
  pub swtpm : Text
  pub swtpm_setup : Text

pub record TransitNetwork : Type 0 where
  pub ipv4 : Text
  pub ipv6 : Text

pub record RunnerConfig : Type 0 where
  pub server_name : Text
  pub work_dir : Text
  pub mode : Text
  pub tool_paths : ToolPaths
  pub machine_type : Text
  pub tap_device : Text
  pub second_tap_device : Text
  pub mac_address : Text
  pub bridge_name : Text
  pub disk_size : Text
  pub memory : Text
  pub cpus : ℤ
  pub tpm_pristine_path : Text
  pub iso_path : Text
  pub transit_network : TransitNetwork
  pub output_mode : Text
  pub shutdown_mode : Bool
  pub no_cleanup : Bool

unfoldable pub default_tool_paths : Platform → ToolPaths
default_tool_paths p = record {
  qemu_system =
      if same p.goarch (text "arm64")
      then text "qemu-system-aarch64"
      else text "qemu-system-x86_64";
  qemu_img = text "qemu-img";
  ovmf_code = [];
  ovmf_vars = [];
  swtpm = text "swtpm";
  swtpm_setup = text "swtpm_setup";
}

-- What `NewRunner` makes of the configuration that it is given.
unfoldable pub new_runner : Platform → RunnerConfig → RunnerConfig
new_runner p c = record c {
  bridge_name = or_default c.bridge_name (text "mltt-br0");
  tool_paths = record c.tool_paths {
    qemu_system = or_default c.tool_paths.qemu_system (default_tool_paths p).qemu_system;
    qemu_img = or_default c.tool_paths.qemu_img (text "qemu-img");
    swtpm = or_default c.tool_paths.swtpm (text "swtpm");
    swtpm_setup = or_default c.tool_paths.swtpm_setup (text "swtpm_setup");
  };
}
