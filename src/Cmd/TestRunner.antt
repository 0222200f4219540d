-- ===== src/Cmd/TestRunner.antt =====
-- `vmtest/cmd/testrunner/main.go`: the options with which the machine is started, from the parsed flags.
pub mod Choices
pub mod Verdict
use rules_vmtest.Base.{
  Bool, false, ◌&&◌, not, [], ◌∷◌, ◌++◌, List, ℤ, pos, Text, text, same, is_empty, if◌then◌else◌,
}
use rules_vmtest.Machine.Env.{
  VmOption, chosen, with_memory, with_cpus, with_qemu_img, with_name, with_serial_capture,
  with_qemu_binary, with_machine_type, with_accel, with_work_dir, with_kernel_boot, with_uefi,
  with_iso, with_existing_disk, with_disk, with_tpm, with_no_network, with_user_net, with_9p_share,
}

pub record Flags : Type 0 where
  pub kernel : Text
  pub initrd : Text
  pub cmdline : Text
  pub iso : Text
  pub ovmf_code : Text
  pub ovmf_vars : Text
  pub disk : Text
  pub disk_size : Text
  pub memory : Text
  pub cpus : ℤ
  pub tpm : Bool
  pub swtpm : Text
  pub swtpm_setup : Text
  pub network : Text
  pub share_dir : Text
  pub qemu_bin : Text
  pub qemu_img : Text
  pub machine_type : Text
  pub accel : Text
  pub work_dir : Text

-- The flags where none is given.
abbrev pub default_flags : Flags
default_flags = record {
  kernel = [];
  initrd = [];
  cmdline = [];
  iso = [];
  ovmf_code = [];
  ovmf_vars = [];
  disk = [];
  disk_size = [];
  memory = text "2G";
  cpus = pos 2;
  tpm = false;
  swtpm = text "swtpm";
  swtpm_setup = text "swtpm_setup";
  network = text "user";
  share_dir = [];
  qemu_bin = [];
  qemu_img = text "qemu-img";
  machine_type = [];
  accel = [];
  work_dir = [];
}

abbrev pub base_opts : Flags → List VmOption
base_opts f =
    with_memory f.memory
    ∷ with_cpus f.cpus
    ∷ with_qemu_img f.qemu_img
    ∷ with_name (text "vmtest")
    ∷ with_serial_capture
    ∷ []

abbrev is_set : Text → Bool
is_set v = not (is_empty v)

-- The tests and options from the QEMU binary to the ISO.
abbrev pub boot_choices : Flags → List (Bool × VmOption)
boot_choices f =
    (is_set f.qemu_bin, with_qemu_binary f.qemu_bin)
    ∷ (is_set f.machine_type, with_machine_type f.machine_type)
    ∷ (is_set f.accel, with_accel f.accel)
    ∷ (is_set f.work_dir, with_work_dir f.work_dir)
    ∷ (is_set f.kernel, with_kernel_boot f.kernel f.initrd f.cmdline)
    ∷ (is_set f.ovmf_code && is_set f.ovmf_vars, with_uefi f.ovmf_code f.ovmf_vars)
    ∷ (is_set f.iso, with_iso f.iso)
    ∷ []

-- An existing disk takes the place of a new one.
unfoldable pub disk_opts : Flags → List VmOption
disk_opts f =
    if is_set f.disk
    then with_existing_disk f.disk ∷ []
    else if is_set f.disk_size
    then with_disk f.disk_size ∷ []
    else []

abbrev pub tpm_choices : Flags → List (Bool × VmOption)
tpm_choices f = (f.tpm, with_tpm f.swtpm f.swtpm_setup) ∷ []

unfoldable pub network_opt : Text → VmOption
network_opt mode = if same mode (text "none") then with_no_network else with_user_net

abbrev pub share_choices : Flags → List (Bool × VmOption)
share_choices f = (is_set f.share_dir, with_9p_share (text "vmtest") f.share_dir) ∷ []

unfoldable pub start_opts : Flags → List VmOption
unfolding disk_opts network_opt chosen
start_opts f =
    base_opts f
    ++ (chosen (boot_choices f)
        ++ (disk_opts f
            ++ (chosen (tpm_choices f)
                ++ ((network_opt f.network ∷ []) ++ chosen (share_choices f)))))
