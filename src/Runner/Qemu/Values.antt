-- ===== src/Runner/Qemu/Values.antt =====
-- The command line of QEMU as QEMU reads it: an option and its value, and `-nographic` alone.
use rules_vmtest.Base.{
  ◌≡◌, Bool, true, not, ◌&&◌, ◌==◌, [], ◌∷◌, ◌++◌, List, map, Text, text, same, is_empty, is_zero,
  pos, if◌then◌else◌,
}
use rules_vmtest.Strings.{split, contains}
use rules_vmtest.Strconv.{itoa}
use rules_vmtest.Runner.Config.{Platform, RunnerConfig}
use rules_vmtest.Runner.Qemu.{Launch}

-- The values that are given to an option, in order.
unfoldable pub values : Text → List Text → List Text
unfolding same
values flag [] = []
values flag (f ∷ []) = []
values flag (f ∷ v ∷ rest) =
    let after_switch = values flag (v ∷ rest) in
    let after_value = values flag rest in
    if same f (text "-nographic")
    then after_switch
    else if same f flag
    then v ∷ after_value
    else after_value

-- The options that take no value.
unfoldable pub switches : List Text → List Text
unfolding same
switches [] = []
switches (f ∷ []) = if same f (text "-nographic") then f ∷ [] else []
switches (f ∷ v ∷ rest) =
    let after_switch = switches (v ∷ rest) in
    let after_value = switches rest in
    if same f (text "-nographic") then f ∷ after_switch else after_value

-- A value as QEMU reads it: the parts between commas.
abbrev pub settings : Text → List Text
settings = split b','

-- The values of an option, each cut into its parts.
abbrev pub read : Text → List Text → List (List Text)
read flag args = map settings (values flag args)

abbrev pub no_comma : Text → Bool
no_comma [] = true
no_comma (c ∷ s) = not (c == b',') && no_comma s

-- The texts that stand beside others between commas.
pub record HasNoCommas (c : RunnerConfig) (l : Launch) : Type 0 where
  pub server_name : no_comma c.server_name ≡ true
  pub mac_address : no_comma c.mac_address ≡ true
  pub ovmf_code : no_comma l.ovmf_code ≡ true
  pub vars_path : no_comma l.vars_path ≡ true
  pub disk_path : no_comma l.disk_path ≡ true
  pub iso_path : no_comma l.iso_path ≡ true
  pub tpm_socket : no_comma l.tpm_socket ≡ true
  pub tap_name : no_comma l.tap_name ≡ true
  pub second_tap_name : no_comma l.second_tap_name ≡ true

abbrev pub machine_of : Platform → RunnerConfig → Text
machine_of p c =
    if not (is_empty c.machine_type)
    then c.machine_type
    else if same p.goos (text "darwin") && same p.goarch (text "arm64")
    then text "virt,accel=hvf"
    else if same p.goos (text "darwin")
    then text "q35,accel=hvf"
    else if same p.goarch (text "arm64")
    then text "virt,accel=kvm"
    else text "q35,accel=kvm,smm=on"

abbrev pub tap_settings : Text → Text → List Text
tap_settings id name =
    text "tap" ∷ id ∷ (text "ifname=" ++ name) ∷ text "script=no" ∷ text "downscript=no" ∷ []

abbrev pub disk_settings : Text → List Text
disk_settings path =
    (text "file=" ++ path) ∷ text "format=raw" ∷ text "if=none" ∷ text "id=disk" ∷ []

abbrev pub iso_settings : Text → List Text
iso_settings path =
    (text "file=" ++ path)
    ∷ text "format=raw"
    ∷ text "cache=none"
    ∷ text "media=cdrom"
    ∷ text "if=none"
    ∷ text "id=cd0"
    ∷ []

abbrev pub code_settings : Text → List Text
code_settings path =
    text "if=pflash"
    ∷ text "format=raw"
    ∷ text "unit=0"
    ∷ (text "file=" ++ path)
    ∷ text "readonly=on"
    ∷ []

abbrev pub vars_settings : Text → List Text
vars_settings path =
    text "if=pflash" ∷ text "format=raw" ∷ text "unit=1" ∷ (text "file=" ++ path) ∷ []

abbrev pub mac_settings : Text → List Text
mac_settings mac =
    text "virtio-net-pci"
    ∷ text "netdev=net0"
    ∷ (if is_empty mac then [] else (text "mac=" ++ mac) ∷ [])

abbrev pub second_device : List Text
second_device = text "virtio-net-pci" ∷ text "netdev=net1" ∷ text "addr=0x6" ∷ []

-- The devices of the disks, the disk with its place in the boot order.
abbrev pub disk_devices : Bool → List (List Text)
disk_devices iso =
    if iso
    then (text "virtio-scsi-pci" ∷ text "id=scsi0" ∷ text "addr=0x4" ∷ [])
      ∷ (text "scsi-cd" ∷ text "bus=scsi0.0" ∷ text "drive=cd0" ∷ text "bootindex=0" ∷ [])
      ∷ (text "virtio-blk-pci" ∷ text "drive=disk" ∷ text "addr=0x5" ∷ text "bootindex=1" ∷ [])
      ∷ []
    else (text "virtio-blk-pci" ∷ text "drive=disk" ∷ text "addr=0x5" ∷ text "bootindex=0" ∷ [])
      ∷ []

-- What a reader of the command line is to find.
pub record IsLaunched (one_net iso direct : Bool) (p : Platform) (c : RunnerConfig) (l : Launch)
    (args : List Text) : Type 0 where
  pub name : read (text "-name") args ≡ (c.server_name ∷ []) ∷ []
  pub machine : values (text "-machine") args ≡ machine_of p c ∷ []
  pub cpu :
      values (text "-cpu") args
      ≡ (if contains (machine_of p c) (text "accel=tcg") then text "max" else text "host") ∷ []
  pub memory : values (text "-m") args ≡ (if is_empty c.memory then text "6G" else c.memory) ∷ []
  pub processors :
      values (text "-smp") args ≡ (if is_zero c.cpus then itoa (pos 2) else itoa c.cpus) ∷ []
  pub netdevs :
      read (text "-netdev") args
      ≡ tap_settings (text "id=net0") l.tap_name
        ∷ (if one_net then [] else tap_settings (text "id=net1") l.second_tap_name ∷ [])
  pub chardevs :
      read (text "-chardev") args
      ≡ (text "socket" ∷ text "id=char0" ∷ (text "path=" ++ l.tpm_socket) ∷ []) ∷ []
  pub tpm :
      read (text "-tpmdev") args
      ≡ (text "emulator" ∷ text "id=tpm0" ∷ text "chardev=char0" ∷ []) ∷ []
  pub secure :
      read (text "-global") args
      ≡ (text "driver=cfi.pflash01" ∷ text "property=secure" ∷ text "value=on" ∷ []) ∷ []
  pub drives :
      read (text "-drive") args
      ≡ code_settings l.ovmf_code
        ∷ vars_settings l.vars_path
        ∷ ((if iso then iso_settings l.iso_path ∷ [] else []) ++ (disk_settings l.disk_path ∷ []))
  pub devices :
      read (text "-device") args
      ≡ (text "virtio-rng-pci" ∷ [])
        ∷ mac_settings c.mac_address
        ∷ ((if one_net then [] else second_device ∷ [])
            ++ ((text "tpm-tis" ∷ text "tpmdev=tpm0" ∷ []) ∷ disk_devices iso))
  pub console : switches args ≡ (if direct then text "-nographic" ∷ [] else [])
  pub serial : values (text "-serial") args ≡ (if direct then [] else text "stdio" ∷ [])
  pub display : values (text "-display") args ≡ (if direct then [] else text "none" ∷ [])
