-- ===== src/Machine/Env.antt =====
-- `buildVMOptsFromEnv` of `machine/machine.go`. The environment is the function `os.Getenv`, which is
-- empty at a variable that is not set. An option of the `vm` package is the call that makes it: what
-- the call does is not modelled.
pub mod Ports
pub mod Errors
use rules_vmtest.Base.{
  ℕ, Bool, true, false, not, ◌&&◌, [], ◌∷◌, ◌++◌, List, Option, none, some, ℤ, Text, text, String,
  is_empty, same, or_default, if◌then◌else◌, Result, ok, err, ◌>>=◌,
}
use rules_vmtest.Strings.{split, trim_space, to_lower}
use rules_vmtest.Strconv.{atoi}

-- The calls of the option functions of the package `vm`, with their arguments.
pub data VmOption : Type 0 where
  with_qemu_binary with_qemu_img with_machine_type with_accel : Text → VmOption
  with_kernel_boot : Text → Text → Text → VmOption
  with_uefi : Text → Text → VmOption
  with_iso with_existing_disk with_disk with_memory : Text → VmOption
  with_cpus : ℤ → VmOption
  with_tpm : Text → Text → VmOption
  with_no_network with_user_net : VmOption
  with_port_forward : ℤ → VmOption
  with_tap_device : Text → Text → VmOption
  with_mac_address : Text → VmOption
  with_agent with_serial_capture with_qmp : VmOption
  with_name with_work_dir : Text → VmOption
  with_9p_share : Text → Text → VmOption

-- `t.Fatalf` on a value that is no number.
pub data EnvError : Type 0 where
  invalid_cpus invalid_port : Text → EnvError

abbrev pub Env : Type 0
Env = String → Text

-- `if test { opts = append(opts, option) }`, one after another.
unfoldable pub chosen : List (Bool × VmOption) → List VmOption
chosen [] = []
chosen ((test, option) ∷ rest) = if test then option ∷ chosen rest else chosen rest

abbrev is_set : Text → Bool
is_set v = not (is_empty v)

-- The tests and options up to the memory: tools, boot, disks.
abbrev pub hardware_choices : Env → List (Bool × VmOption)
hardware_choices env =
    (is_set (env "VMTEST_QEMU"), with_qemu_binary (env "VMTEST_QEMU"))
    ∷ (is_set (env "VMTEST_QEMU_IMG"), with_qemu_img (env "VMTEST_QEMU_IMG"))
    ∷ (is_set (env "VMTEST_MACHINE_TYPE"), with_machine_type (env "VMTEST_MACHINE_TYPE"))
    ∷ (is_set (env "VMTEST_ACCEL"), with_accel (env "VMTEST_ACCEL"))
    ∷ (
      is_set (env "VMTEST_KERNEL"),
      with_kernel_boot (env "VMTEST_KERNEL") (env "VMTEST_INITRD") (env "VMTEST_CMDLINE"),
    )
    ∷ (
      is_set (env "VMTEST_OVMF_CODE") && is_set (env "VMTEST_OVMF_VARS"),
      with_uefi (env "VMTEST_OVMF_CODE") (env "VMTEST_OVMF_VARS"),
    )
    ∷ (is_set (env "VMTEST_ISO"), with_iso (env "VMTEST_ISO"))
    ∷ (is_set (env "VMTEST_DISK"), with_existing_disk (env "VMTEST_DISK"))
    ∷ (is_set (env "VMTEST_DISK_SIZE"), with_disk (env "VMTEST_DISK_SIZE"))
    ∷ (is_set (env "VMTEST_MEMORY"), with_memory (env "VMTEST_MEMORY"))
    ∷ []

unfoldable pub hardware_opts : Env → List VmOption
hardware_opts env = chosen (hardware_choices env)

abbrev read_cpus : Text → Option ℤ → Result EnvError (List VmOption)
read_cpus v none = err (invalid_cpus v)
read_cpus v (some n) = ok (with_cpus n ∷ [])

unfoldable pub cpu_opts : Env → Result EnvError (List VmOption)
cpu_opts env =
    if is_empty (env "VMTEST_CPUS")
    then ok []
    else read_cpus (env "VMTEST_CPUS") (atoi (env "VMTEST_CPUS"))

unfoldable pub tpm_opts : Env → List VmOption
unfolding chosen
tpm_opts env = chosen (
    (
      same (env "VMTEST_TPM") (text "true")
          && is_set (env "VMTEST_SWTPM")
          && is_set (env "VMTEST_SWTPM_SETUP"),
      with_tpm (env "VMTEST_SWTPM") (env "VMTEST_SWTPM_SETUP"),
    )
    ∷ [])

-- The `switch` on the network mode; `bridge` adds nothing.
unfoldable pub network_opts : Env → List VmOption
network_opts env =
    let mode = to_lower (env "VMTEST_NETWORK") in
    if same mode (text "none")
    then with_no_network ∷ []
    else if same mode (text "bridge")
    then []
    else with_user_net ∷ []

abbrev add_forward :
    Text → Option ℤ → Result EnvError (List VmOption) → Result EnvError (List VmOption)
add_forward p none rest = err (invalid_port p)
add_forward p (some port) rest = rest >>= λ opts. ok (with_port_forward port ∷ opts)

-- The loop over the parts of `VMTEST_PORT_FORWARDS`: the first part that is no number is fatal.
unfoldable pub forward_opts : List Text → Result EnvError (List VmOption)
forward_opts [] = ok []
forward_opts (p ∷ ps) = add_forward p (atoi (trim_space p)) (forward_opts ps)

unfoldable pub port_opts : Env → Result EnvError (List VmOption)
unfolding forward_opts
port_opts env =
    if is_empty (env "VMTEST_PORT_FORWARDS")
    then ok []
    else forward_opts (split b',' (env "VMTEST_PORT_FORWARDS"))

-- `buildVMOptsFromEnv`
unfoldable pub build_vm_opts : Env → Result EnvError (List VmOption)
build_vm_opts env = do
  cpus ← cpu_opts env
  ports ← port_opts env
  ok (hardware_opts env ++ (cpus ++ (tpm_opts env ++ (network_opts env ++ ports))))
