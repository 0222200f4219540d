-- ===== src/Runner/Qemu/Reading.antt =====
-- How QEMU reads the arguments of `buildQEMUArgs`.

use rules_vmtest.Base.{
  ℤ, ◌≡◌, refl, ap, ◌∙◌, Bool, true, false, not, ◌&&◌, [], ◌∷◌, ◌++◌, List, map, Text, text,
  is_empty, or_default, is_zero, pos, if◌then◌else◌, Bool-cases, inl, inr,
}
use rules_vmtest.Strings.{split}
use rules_vmtest.Strings.Laws.{split-of-Lacks}
use rules_vmtest.Strconv.{itoa}
use rules_vmtest.Runner.Config.{Platform, RunnerConfig}
use rules_vmtest.Runner.Qemu.{
  Launch, machine_type, cpu_model, cpu_count, tap_netdev, net_device, code_drive, vars_drive,
  iso_drive, disk_drive, tpm_chardev, has_iso, assemble, build_qemu_args,
}
use rules_vmtest.Runner.Qemu.Values.{
  values, switches, settings, HasNoCommas, tap_settings, disk_settings, iso_settings, code_settings,
  vars_settings, mac_settings, second_device, disk_devices, IsLaunched,
}
use rules_vmtest.Runner.Qemu.Settings.{
  no_comma-Lacks, code_drive-settings, vars_drive-settings, iso_drive-settings, disk_drive-settings,
  tpm_chardev-settings, first_netdev-settings, second_netdev-settings, net_device-settings,
  machine_type-of,
}

-- The values of the arguments, as they are.
record Placed (one_net iso direct : Bool) (p : Platform) (c : RunnerConfig) (l : Launch)
    (args : List Text) : Type 0 where
  name : values (text "-name") args ≡ c.server_name ∷ []
  machine : values (text "-machine") args ≡ machine_type p c ∷ []
  cpu : values (text "-cpu") args ≡ cpu_model (machine_type p c) ∷ []
  memory : values (text "-m") args ≡ or_default c.memory (text "6G") ∷ []
  processors : values (text "-smp") args ≡ itoa (cpu_count c.cpus) ∷ []
  netdevs :
      values (text "-netdev") args
      ≡ tap_netdev (text "net0") l.tap_name
        ∷ (if one_net then [] else tap_netdev (text "net1") l.second_tap_name ∷ [])
  chardevs : values (text "-chardev") args ≡ tpm_chardev l.tpm_socket ∷ []
  tpm : values (text "-tpmdev") args ≡ text "emulator,id=tpm0,chardev=char0" ∷ []
  secure : values (text "-global") args ≡ text "driver=cfi.pflash01,property=secure,value=on" ∷ []
  drives :
      values (text "-drive") args
      ≡ code_drive l.ovmf_code
        ∷ vars_drive l.vars_path
        ∷ ((if iso then iso_drive l.iso_path ∷ [] else []) ++ (disk_drive l.disk_path ∷ []))
  devices :
      values (text "-device") args
      ≡ text "virtio-rng-pci"
        ∷ net_device c.mac_address
        ∷ ((if one_net then [] else text "virtio-net-pci,netdev=net1,addr=0x6" ∷ [])
            ++ (text "tpm-tis,tpmdev=tpm0"
                ∷ (if iso
                    then text "virtio-scsi-pci,id=scsi0,addr=0x4"
                      ∷ text "scsi-cd,bus=scsi0.0,drive=cd0,bootindex=0"
                      ∷ text "virtio-blk-pci,drive=disk,addr=0x5,bootindex=1"
                      ∷ []
                    else text "virtio-blk-pci,drive=disk,addr=0x5,bootindex=0" ∷ [])))
  console : switches args ≡ (if direct then text "-nographic" ∷ [] else [])
  serial : values (text "-serial") args ≡ (if direct then [] else text "stdio" ∷ [])
  display : values (text "-display") args ≡ (if direct then [] else text "none" ∷ [])

assemble-Placed :
    (one_net iso direct : Bool) (p : Platform) (c : RunnerConfig) (l : Launch)
    → Placed one_net iso direct p c l (assemble one_net iso direct p c l)
unfolding assemble values switches text
assemble-Placed true true true p c l = assumption refl
assemble-Placed true true false p c l = assumption refl
assemble-Placed true false true p c l = assumption refl
assemble-Placed true false false p c l = assumption refl
assemble-Placed false true true p c l = assumption refl
assemble-Placed false true false p c l = assumption refl
assemble-Placed false false true p c l = assumption refl
assemble-Placed false false false p c l = assumption refl

read_netdevs :
    (one_net : Bool) (c : RunnerConfig) (l : Launch)
    → HasNoCommas c l
    → map settings (
        tap_netdev (text "net0") l.tap_name
        ∷ (if one_net then [] else tap_netdev (text "net1") l.second_tap_name ∷ []))
      ≡ tap_settings (text "id=net0") l.tap_name
        ∷ (if one_net then [] else tap_settings (text "id=net1") l.second_tap_name ∷ [])
read_netdevs true c l h = rw (first_netdev-settings l.tap_name h.tap_name) refl
read_netdevs false c l h =
    rw
      (
        first_netdev-settings l.tap_name h.tap_name,
        second_netdev-settings l.second_tap_name h.second_tap_name,
      )
      refl

read_drives :
    (iso : Bool) (c : RunnerConfig) (l : Launch)
    → HasNoCommas c l
    → map settings (
        code_drive l.ovmf_code
        ∷ vars_drive l.vars_path
        ∷ ((if iso then iso_drive l.iso_path ∷ [] else []) ++ (disk_drive l.disk_path ∷ [])))
      ≡ code_settings l.ovmf_code
        ∷ vars_settings l.vars_path
        ∷ ((if iso then iso_settings l.iso_path ∷ [] else []) ++ (disk_settings l.disk_path ∷ []))
read_drives true c l h =
    rw
      (
        code_drive-settings l.ovmf_code h.ovmf_code,
        vars_drive-settings l.vars_path h.vars_path,
        iso_drive-settings l.iso_path h.iso_path,
        disk_drive-settings l.disk_path h.disk_path,
      )
      refl
read_drives false c l h =
    rw
      (
        code_drive-settings l.ovmf_code h.ovmf_code,
        vars_drive-settings l.vars_path h.vars_path,
        disk_drive-settings l.disk_path h.disk_path,
      )
      refl

-- The devices but the first network device have fixed settings.
read_devices :
    (one_net iso : Bool) (device : Text) (parts : List Text)
    → settings device ≡ parts
    → map settings (
        text "virtio-rng-pci"
        ∷ device
        ∷ ((if one_net then [] else text "virtio-net-pci,netdev=net1,addr=0x6" ∷ [])
            ++ (text "tpm-tis,tpmdev=tpm0"
                ∷ (if iso
                    then text "virtio-scsi-pci,id=scsi0,addr=0x4"
                      ∷ text "scsi-cd,bus=scsi0.0,drive=cd0,bootindex=0"
                      ∷ text "virtio-blk-pci,drive=disk,addr=0x5,bootindex=1"
                      ∷ []
                    else text "virtio-blk-pci,drive=disk,addr=0x5,bootindex=0" ∷ []))))
      ≡ (text "virtio-rng-pci" ∷ [])
        ∷ parts
        ∷ ((if one_net then [] else second_device ∷ [])
            ++ ((text "tpm-tis" ∷ text "tpmdev=tpm0" ∷ []) ∷ disk_devices iso))
unfolding text split
read_devices true true device parts e = rw e refl
read_devices true false device parts e = rw e refl
read_devices false true device parts e = rw e refl
read_devices false false device parts e = rw e refl

Placed-IsLaunched :
    (one_net iso direct : Bool) (p : Platform) (c : RunnerConfig) (l : Launch) (args : List Text)
    → HasNoCommas c l
    → Placed one_net iso direct p c l args
    → IsLaunched one_net iso direct p c l args
unfolding text split
Placed-IsLaunched one_net iso direct p c l args h a = record {
  name =
      ap (map settings) a.name
      ∙ ap (λ t. t ∷ [])
          (split-of-Lacks b',' c.server_name (no_comma-Lacks c.server_name h.server_name));
  machine = a.machine ∙ ap (λ m. m ∷ []) (machine_type-of p c);
  cpu = a.cpu ∙ ap (λ m. cpu_model m ∷ []) (machine_type-of p c);
  memory = a.memory;
  processors = a.processors ∙ ap (λ t. t ∷ []) (count c.cpus);
  netdevs = ap (map settings) a.netdevs ∙ read_netdevs one_net c l h;
  chardevs =
      ap (map settings) a.chardevs
      ∙ ap (λ t. t ∷ []) (tpm_chardev-settings l.tpm_socket h.tpm_socket);
  tpm = ap (map settings) a.tpm;
  secure = ap (map settings) a.secure;
  drives = ap (map settings) a.drives ∙ read_drives iso c l h;
  devices =
      ap (map settings) a.devices
      ∙ read_devices one_net iso (net_device c.mac_address) (mac_settings c.mac_address)
          (net_device-settings c.mac_address h.mac_address);
  console = a.console;
  serial = a.serial;
  display = a.display;
}
  where
    count : (n : ℤ) → itoa (cpu_count n) ≡ (if is_zero n then itoa (pos 2) else itoa n)
    count n = elim (Bool-cases (is_zero n)) [ inl e ↦ rw e refl | inr e ↦ rw e refl ]

-- If no name, path or address holds a comma, and whatever else they are, also such that look like options,
-- QEMU reads the arguments as options with values, cut at the commas, thus: one name, machine, memory size
-- and processor count, the last three with their defaults, and the processor model that goes with the
-- machine; a network device for the tap device, and a second one if and only if there is a second tap
-- device; the TPM on its socket; the firmware's code read-only and its variables, and the disk, with the
-- ISO in front of it and first in the boot order if and only if it is booted and its path is set; and
-- either no window system and the terminal, in the direct mode, or no display and the serial line on
-- standard output.
pub build_qemu_args-IsLaunched :
    (p : Platform) (c : RunnerConfig) (l : Launch)
    → HasNoCommas c l
    → IsLaunched
        (is_empty l.second_tap_name)
        (l.boot_from_iso && not (is_empty l.iso_path))
        l.direct_mode
        p
        c
        l
        (build_qemu_args p c l)
unfolding build_qemu_args
build_qemu_args-IsLaunched p c l h =
    let one_net = is_empty l.second_tap_name in
    Placed-IsLaunched one_net (has_iso l) l.direct_mode p c l (build_qemu_args p c l) h
      (assemble-Placed one_net (has_iso l) l.direct_mode p c l)
