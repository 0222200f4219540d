-- ===== src/Runner/Network.antt =====
-- `runner/network.go`: the checks of the bridge and of the tap devices. What `ip` prints is a parameter;
-- the check that succeeds gives the name of the tap device.
pub mod Ready
use rules_vmtest.Base.{
  Bool, true, false, ◌||◌, not, ◌&&◌, [], ◌∷◌, List, Option, none, some, Text, text, is_empty,
  if◌then◌else◌, Result, ok, err, ◌>>=◌,
}
use rules_vmtest.Strings.{contains}
use rules_vmtest.Runner.Config.{RunnerConfig}

pub data NetworkError : Type 0 where
  bridge_not_found bridge_not_up tap_not_found missing_ipv4 missing_ipv6 : Text → NetworkError
  no_tap_device : NetworkError
  second_tap_not_found : Text → NetworkError

-- `CombinedOutput` of `ip` with these arguments, `none` where it fails.
abbrev pub Ip : Type 0
Ip = List Text → Option Text

abbrev pub link_args : Text → List Text
link_args device = text "link" ∷ text "show" ∷ device ∷ []

abbrev pub addr_args : Text → List Text
addr_args device = text "addr" ∷ text "show" ∷ device ∷ []

abbrev pub printed : NetworkError → Option Text → Result NetworkError Text
printed error none = err error
printed error (some out) = ok out

-- `if !test { return error }`
abbrev pub ensure : NetworkError → Bool → Result NetworkError (Unit {0})
ensure error true = ok tt
ensure error false = err error

-- An address that is not configured is not looked for.
abbrev pub shows_address : Text → Text → Bool
shows_address address out = is_empty address || contains out address

unfoldable pub check_addresses : Ip → RunnerConfig → Result NetworkError (Unit {0})
check_addresses ip c = do
  out ← printed (tap_not_found c.second_tap_device) (ip (addr_args c.second_tap_device))
  _ ← ensure (missing_ipv4 c.second_tap_device) (shows_address c.transit_network.ipv4 out)
  ensure (missing_ipv6 c.second_tap_device) (shows_address c.transit_network.ipv6 out)

-- `checkBridgeSetup`
unfoldable pub check_bridge_setup : Ip → RunnerConfig → Result NetworkError (Unit {0})
unfolding check_addresses
check_bridge_setup ip c = do
  out ← printed (bridge_not_found c.bridge_name) (ip (link_args c.bridge_name))
  _ ← ensure (bridge_not_up c.bridge_name) (contains out (text "<") && contains out (text "UP"))
  if is_empty c.second_tap_device then ok tt else check_addresses ip c

abbrev pub check_second_tap : Ip → RunnerConfig → Result NetworkError Text
check_second_tap ip c =
    if is_empty c.second_tap_device
    then ok c.tap_device
    else printed (second_tap_not_found c.second_tap_device) (ip (link_args c.second_tap_device))
      >>= λ _. ok c.tap_device

-- `useTapDevice`
unfoldable pub use_tap_device : Ip → RunnerConfig → Result NetworkError Text
use_tap_device ip c = do
  _ ← ensure no_tap_device (not (is_empty c.tap_device))
  _ ← printed (tap_not_found c.tap_device) (ip (link_args c.tap_device))
  check_second_tap ip c
