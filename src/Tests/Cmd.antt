-- ===== src/Tests/Cmd.antt =====
-- Configurations and options at fixed inputs.
use rules_vmtest.Base.{◌≡◌, refl, true, [], ◌∷◌, some, pos, text, same, keep, ok, err}
use rules_vmtest.Strconv.{atoi}
use rules_vmtest.Strings.{split, join, has_prefix}
use rules_vmtest.Filepath.{clean, join_path}
use rules_vmtest.Runner.Config.{ToolPaths}
use rules_vmtest.Cmd.Launcher
use rules_vmtest.Cmd.Launcher.{
  BuildVars, Flags, Locate, require_all, locate_or, resolve_tools, configured, make_config, not_set,
}
use rules_vmtest.Cmd.Launcher.Configured.{IsConfigured, make_config-IsConfigured}
use rules_vmtest.Cmd.TestRunner
use rules_vmtest.Cmd.TestRunner.{start_opts, network_opt, disk_opts}
use rules_vmtest.Cmd.TestRunner.Choices.{Networks, Disks, is_network, is_disk, start_opts-Choices}

joined : join_path (text "/w/" ∷ [] ∷ text "../v//./a" ∷ []) ≡ text "/v/a"
unfolding join_path clean text split join has_prefix same
joined = refl

above_root : join_path (text "a" ∷ text "../.." ∷ []) ≡ text ".."
unfolding join_path clean text split join has_prefix same
above_root = refl

abbrev locate : Locate
locate path = some path

abbrev tools : ToolPaths
tools = record {
  qemu_system = [];
  qemu_img = [];
  ovmf_code = [];
  ovmf_vars = [];
  swtpm = text "swtpm";
  swtpm_setup = text "swtpm_setup";
}

abbrev vars : BuildVars
vars = record {
  server = text "s";
  tap = text "t";
  second_tap = [];
  mac = text "m";
  memory = text "2G";
  cpus = text "4";
  disk_size = text "10G";
  mode = text "run";
  tpm_pristine_path = [];
  iso_runfile = text "i";
  ovmf_code = text "code";
  ovmf_vars = text "vars";
  swtpm = [];
  swtpm_setup = [];
  bridge_name = [];
  transit_ipv4 = [];
  transit_ipv6 = [];
}

abbrev flags : Flags
flags = Launcher.default_flags

abbrev paths : ToolPaths
paths = record tools { ovmf_code = text "code"; ovmf_vars = text "vars" }

no_mac :
    make_config (some locate) tools (text "/w") flags (record vars { mac = [] })
    ≡ err (not_set "vmMac")
unfolding make_config require_all text
no_mac = refl

made :
    make_config (some locate) tools (text "/w") flags vars
    ≡ ok (configured vars flags (text "/w") (pos 4) paths [])
unfolding make_config require_all locate_or resolve_tools atoi same text
made = refl

make_config-IsConfigured_example :
    IsConfigured locate tools (text "/w") vars (configured vars flags (text "/w") (pos 4) paths [])
make_config-IsConfigured_example =
    make_config-IsConfigured locate tools (text "/w") flags vars
      (configured vars flags (text "/w") (pos 4) paths []) made

abbrev test_flags : TestRunner.Flags
test_flags = record TestRunner.default_flags {
  kernel = text "k";
  disk = text "d";
  disk_size = text "10G";
  tpm = true;
  network = text "none";
}

start_opts-Choices_example :
    Networks test_flags (keep is_network (start_opts test_flags))
    × Disks test_flags (keep is_disk (start_opts test_flags))
start_opts-Choices_example = start_opts-Choices test_flags
