-- ===== src/Tests/Runner/Network.antt =====
-- The checks of the network on what `ip` prints.
use rules_vmtest.Base.{◌≡◌, refl, ◌↔◌, false, [], some, pos, Text, text, ok, err}
use rules_vmtest.Strings.{contains, has_prefix}
use rules_vmtest.Runner.Config.{RunnerConfig}
use rules_vmtest.Runner.Network.{Ip, bridge_not_up, check_bridge_setup, use_tap_device}
use rules_vmtest.Runner.Network.Ready.{TapReady, use_tap_device-TapReady}

abbrev config : RunnerConfig
config = record {
  server_name = text "s";
  work_dir = text "/w";
  mode = text "build";
  tool_paths = record {
    qemu_system = [];
    qemu_img = [];
    ovmf_code = [];
    ovmf_vars = [];
    swtpm = [];
    swtpm_setup = [];
  };
  machine_type = [];
  tap_device = text "tap0";
  second_tap_device = [];
  mac_address = [];
  bridge_name = text "br0";
  disk_size = text "10G";
  memory = [];
  cpus = pos 0;
  tpm_pristine_path = [];
  iso_path = [];
  transit_network = record { ipv4 = []; ipv6 = [] };
  output_mode = text "direct";
  shutdown_mode = false;
  no_cleanup = false;
}

-- Every device exists and shows this text.
abbrev shows : Text → Ip
shows out args = some out

up : check_bridge_setup (shows (text "5: br0: <BROADCAST,UP> mtu 1500")) config ≡ ok tt
unfolding check_bridge_setup contains has_prefix text
up = refl

down :
    check_bridge_setup (shows (text "5: br0: <BROADCAST> mtu 1500")) config
    ≡ err (bridge_not_up (text "br0"))
unfolding check_bridge_setup contains has_prefix text
down = refl

-- A device without the flag UP passes if UP stands elsewhere in the text.
up_in_name : check_bridge_setup (shows (text "5: brUP: <BROADCAST> mtu 1500")) config ≡ ok tt
unfolding check_bridge_setup contains has_prefix text
up_in_name = refl

use_tap_device-TapReady_example :
    (use_tap_device (shows (text "6: tap0:")) config ≡ ok (text "tap0"))
    ↔ ((text "tap0" ≡ config.tap_device) × TapReady (shows (text "6: tap0:")) config)
use_tap_device-TapReady_example =
    use_tap_device-TapReady (shows (text "6: tap0:")) config (text "tap0")
