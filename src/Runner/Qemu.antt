-- ===== src/Runner/Qemu.antt =====
-- `runner/qemu.go`: the command line of QEMU.
pub mod Values
pub mod Settings
pub mod Reading
use rules_vmtest.Base.{
  Bool, ◌&&◌, not, [], ◌∷◌, ◌++◌, List, ℤ, pos, is_zero, Text, text, same, is_empty, or_default,
  if◌then◌else◌,
}
use rules_vmtest.Strings.{contains}
use rules_vmtest.Strconv.{itoa}
use rules_vmtest.Runner.Config.{Platform, RunnerConfig}

unfoldable pub default_machine_type : Platform → Text
default_machine_type p =
    if same p.goos (text "darwin")
    then (if same p.goarch (text "arm64") then text "virt,accel=hvf" else text "q35,accel=hvf")
    else (if same p.goarch (text "arm64")
        then text "virt,accel=kvm"
        else text "q35,accel=kvm,smm=on")

-- The arguments of `buildQEMUArgs` beside the configuration.
pub record Launch : Type 0 where
  pub ovmf_code : Text
  pub vars_path : Text
  pub disk_path : Text
  pub iso_path : Text
  pub tpm_socket : Text
  pub boot_from_iso : Bool
  pub tap_name : Text
  pub second_tap_name : Text
  pub direct_mode : Bool

abbrev pub machine_type : Platform → RunnerConfig → Text
machine_type p c = or_default c.machine_type (default_machine_type p)

abbrev pub cpu_model : Text → Text
cpu_model machine = if contains machine (text "accel=tcg") then text "max" else text "host"

abbrev pub cpu_count : ℤ → ℤ
cpu_count n = if is_zero n then pos 2 else n

abbrev pub tap_netdev : Text → Text → Text
tap_netdev id name =
    text "tap,id=" ++ (id ++ (text ",ifname=" ++ (name ++ text ",script=no,downscript=no")))

abbrev pub net_device : Text → Text
net_device mac =
    if is_empty mac
    then text "virtio-net-pci,netdev=net0"
    else text "virtio-net-pci,netdev=net0,mac=" ++ mac

abbrev machine_args : Platform → RunnerConfig → List Text
machine_args p c =
    text "-name"
    ∷ c.server_name
    ∷ text "-machine"
    ∷ machine_type p c
    ∷ text "-cpu"
    ∷ cpu_model (machine_type p c)
    ∷ text "-m"
    ∷ or_default c.memory (text "6G")
    ∷ text "-smp"
    ∷ itoa (cpu_count c.cpus)
    ∷ text "-device"
    ∷ text "virtio-rng-pci"
    ∷ []

abbrev net_args : RunnerConfig → Launch → List Text
net_args c l =
    text "-netdev"
    ∷ tap_netdev (text "net0") l.tap_name
    ∷ text "-device"
    ∷ net_device c.mac_address
    ∷ []

abbrev second_net_args : Launch → List Text
second_net_args l =
    text "-netdev"
    ∷ tap_netdev (text "net1") l.second_tap_name
    ∷ text "-device"
    ∷ text "virtio-net-pci,netdev=net1,addr=0x6"
    ∷ []

abbrev pub code_drive : Text → Text
code_drive path = text "if=pflash,format=raw,unit=0,file=" ++ (path ++ text ",readonly=on")

abbrev pub vars_drive : Text → Text
vars_drive path = text "if=pflash,format=raw,unit=1,file=" ++ path

abbrev pub iso_drive : Text → Text
iso_drive path = text "file=" ++ (path ++ text ",format=raw,cache=none,media=cdrom,if=none,id=cd0")

abbrev pub disk_drive : Text → Text
disk_drive path = text "file=" ++ (path ++ text ",format=raw,if=none,id=disk")

abbrev pub tpm_chardev : Text → Text
tpm_chardev socket = text "socket,id=char0,path=" ++ socket

abbrev tpm_args : Launch → List Text
tpm_args l =
    text "-chardev"
    ∷ tpm_chardev l.tpm_socket
    ∷ text "-tpmdev"
    ∷ text "emulator,id=tpm0,chardev=char0"
    ∷ text "-device"
    ∷ text "tpm-tis,tpmdev=tpm0"
    ∷ []

abbrev firmware_args : Launch → List Text
firmware_args l =
    text "-global"
    ∷ text "driver=cfi.pflash01,property=secure,value=on"
    ∷ text "-drive"
    ∷ code_drive l.ovmf_code
    ∷ text "-drive"
    ∷ vars_drive l.vars_path
    ∷ []

abbrev iso_args : Launch → List Text
iso_args l =
    text "-device"
    ∷ text "virtio-scsi-pci,id=scsi0,addr=0x4"
    ∷ text "-drive"
    ∷ iso_drive l.iso_path
    ∷ text "-device"
    ∷ text "scsi-cd,bus=scsi0.0,drive=cd0,bootindex=0"
    ∷ text "-drive"
    ∷ disk_drive l.disk_path
    ∷ text "-device"
    ∷ text "virtio-blk-pci,drive=disk,addr=0x5,bootindex=1"
    ∷ []

abbrev disk_args : Launch → List Text
disk_args l =
    text "-drive"
    ∷ disk_drive l.disk_path
    ∷ text "-device"
    ∷ text "virtio-blk-pci,drive=disk,addr=0x5,bootindex=0"
    ∷ []

abbrev console_args : Bool → List Text
console_args direct =
    if direct
    then text "-nographic" ∷ []
    else text "-serial" ∷ text "stdio" ∷ text "-display" ∷ text "none" ∷ []

abbrev pub has_iso : Launch → Bool
has_iso l = l.boot_from_iso && not (is_empty l.iso_path)

-- The parts of the command line, by the three tests of `buildQEMUArgs`: whether there is one network
-- only, whether the ISO is booted, and the direct mode.
unfoldable pub assemble : Bool → Bool → Bool → Platform → RunnerConfig → Launch → List Text
assemble one_net iso direct p c l =
    machine_args p c
    ++ (net_args c l
        ++ ((if one_net then [] else second_net_args l)
            ++ (tpm_args l
                ++ (firmware_args l
                    ++ ((if iso then iso_args l else disk_args l) ++ console_args direct)))))

-- `buildQEMUArgs`
unfoldable pub build_qemu_args : Platform → RunnerConfig → Launch → List Text
unfolding assemble
build_qemu_args p c l = assemble (is_empty l.second_tap_name) (has_iso l) l.direct_mode p c l
