-- ===== src/Cmd/Launcher.antt =====
-- `vmtest/cmd/main.go`, the part of `main` that checks the build-time variables and makes the
-- configuration of the runner. Where a runfile is found, the variable `BUILD_WORKSPACE_DIRECTORY` and the
-- parsed flags are parameters.
pub mod Configured
use rules_vmtest.Base.{
  Bool, false, ◌&&◌, not, [], ◌∷◌, ◌++◌, List, Option, none, some, ℤ, Text, text, String, same,
  is_empty, if◌then◌else◌, Result, ok, err, ◌>>=◌,
}
use rules_vmtest.Strconv.{atoi}
use rules_vmtest.Filepath.{join_path}
use rules_vmtest.Runner.Config.{ToolPaths, RunnerConfig}

pub record BuildVars : Type 0 where
  pub server : Text
  pub tap : Text
  pub second_tap : Text
  pub mac : Text
  pub memory : Text
  pub cpus : Text
  pub disk_size : Text
  pub mode : Text
  pub tpm_pristine_path : Text
  pub iso_runfile : Text
  pub ovmf_code : Text
  pub ovmf_vars : Text
  pub swtpm : Text
  pub swtpm_setup : Text
  pub bridge_name : Text
  pub transit_ipv4 : Text
  pub transit_ipv6 : Text

-- The flags, as they are parsed.
pub record Flags : Type 0 where
  pub output : Text
  pub shutdown_mode : Bool
  pub no_cleanup : Bool

-- The flags where none is given.
abbrev pub default_flags : Flags
default_flags = record { output = text "direct"; shutdown_mode = false; no_cleanup = false }

-- The messages with which `main` exits.
pub data LaunchError : Type 0 where
  not_set : String → LaunchError
  no_runfiles : LaunchError
  invalid_cpus : Text → LaunchError
  unresolved : Text → LaunchError

-- `Rlocation`
abbrev pub Locate : Type 0
Locate = Text → Option Text

-- `if value == "" { … os.Exit(1) }`, one after another.
unfoldable pub require_all : List (String × Text) → Result LaunchError (Unit {0})
require_all [] = ok tt
require_all ((name, value) ∷ rest) = if is_empty value then err (not_set name) else require_all rest

abbrev pub required : BuildVars → List (String × Text)
required v =
    ("vmServer", v.server)
    ∷ ("vmTap", v.tap)
    ∷ ("vmMac", v.mac)
    ∷ ("vmMemory", v.memory)
    ∷ ("vmCPUs", v.cpus)
    ∷ ("vmDiskSize", v.disk_size)
    ∷ []

abbrev pub need {ℓ} : {A : Type ℓ} → LaunchError → Option A → Result LaunchError A
need error none = err error
need error (some a) = ok a

-- A runfile's place, or the default where none is named.
unfoldable pub locate_or : Locate → Text → Text → Result LaunchError Text
locate_or locate path default =
    if is_empty path then ok default else need (unresolved path) (locate path)

unfoldable pub resolve_tools : Locate → BuildVars → ToolPaths → Result LaunchError ToolPaths
unfolding locate_or
resolve_tools locate v default = do
  code ← locate_or locate v.ovmf_code default.ovmf_code
  vars ← locate_or locate v.ovmf_vars default.ovmf_vars
  swtpm ← locate_or locate v.swtpm default.swtpm
  setup ← locate_or locate v.swtpm_setup default.swtpm_setup
  ok (record default { ovmf_code = code; ovmf_vars = vars; swtpm = swtpm; swtpm_setup = setup })

-- The ISO is only looked for in build mode.
abbrev pub iso_wanted : BuildVars → Text
iso_wanted v = if same v.mode (text "build") then v.iso_runfile else []

abbrev pub pristine_path : Text → Text → Text
pristine_path workspace path = if is_empty path then [] else join_path (workspace ∷ path ∷ [])

unfoldable pub configured : BuildVars → Flags → Text → ℤ → ToolPaths → Text → RunnerConfig
configured v flags workspace cpus tools iso = record {
  server_name = v.server;
  work_dir = join_path (workspace ∷ text ".vms" ∷ v.server ∷ []);
  mode = v.mode;
  tool_paths = tools;
  machine_type = [];
  tap_device = v.tap;
  second_tap_device = v.second_tap;
  mac_address = v.mac;
  bridge_name = v.bridge_name;
  disk_size = v.disk_size;
  memory = v.memory;
  cpus = cpus;
  tpm_pristine_path = pristine_path workspace v.tpm_pristine_path;
  iso_path = iso;
  transit_network = record { ipv4 = v.transit_ipv4; ipv6 = v.transit_ipv6 };
  output_mode = flags.output;
  shutdown_mode = flags.shutdown_mode;
  no_cleanup = flags.no_cleanup;
}

unfoldable pub make_config :
    Option Locate → ToolPaths → Text → Flags → BuildVars → Result LaunchError RunnerConfig
unfolding require_all resolve_tools configured
make_config runfiles default workspace flags v = do
  _ ← require_all (("vmMode", v.mode) ∷ [])
  locate ← need no_runfiles runfiles
  _ ← require_all (required v)
  cpus ← need (invalid_cpus v.cpus) (atoi v.cpus)
  _ ← require_all (("BUILD_WORKSPACE_DIRECTORY", workspace) ∷ [])
  tools ← resolve_tools locate v default
  iso ← locate_or locate (iso_wanted v) []
  ok (configured v flags workspace cpus tools iso)
