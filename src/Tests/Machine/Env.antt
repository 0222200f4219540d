-- ===== src/Tests/Machine/Env.antt =====
-- Options from an environment.
use rules_vmtest.Base.{
  ◌≡◌, ◌↔◌, refl, [], ◌∷◌, ◌++◌, List, pos, Text, text, same, All, keep, ok, err, arith, true,
  false, if◌then◌else◌,
}
use rules_vmtest.Strings.{split, trim_space, to_lower, join}
use rules_vmtest.Strconv.{atoi, decimal}
use rules_vmtest.Machine.Env.{
  Env, VmOption, invalid_port, with_memory, with_cpus, with_user_net, with_port_forward, cpu_opts,
  port_opts, network_opts, tpm_opts, hardware_opts, build_vm_opts,
}
use rules_vmtest.Machine.Env.Ports.{
  port_list, forward_all, is_forward, is_network, port_opts-port_list, build_vm_opts-order,
}
use rules_vmtest.Machine.Env.Errors.{
  Explains, CpusAreFine, PortsAreFine, build_vm_opts-err, build_vm_opts-ok_iff,
}
use package.text.Mathlib.Text.{◌==◌}

-- A virtual machine with two processors, and the forwards `ports`.
abbrev env_with : Text → Text → Env
env_with cpus ports name =
    if name == "VMTEST_CPUS"
    then cpus
    else if name == "VMTEST_MEMORY"
    then text "1G"
    else if name == "VMTEST_PORT_FORWARDS"
    then ports
    else []

abbrev served : Env
served = env_with (text "2") (port_list (8080 ∷ 50051 ∷ []))

served_opts :
    build_vm_opts served
    ≡ ok (
        with_memory (text "1G")
        ∷ with_cpus (pos 2)
        ∷ with_user_net
        ∷ with_port_forward (pos 8080)
        ∷ with_port_forward (pos 50051)
        ∷ [])
unfolding build_vm_opts hardware_opts cpu_opts tpm_opts network_opts port_opts text decimal split
    join atoi trim_space to_lower same
served_opts = refl

bad_port : build_vm_opts (env_with (text "2") (text "80,http")) ≡ err (invalid_port (text "http"))
unfolding build_vm_opts hardware_opts cpu_opts tpm_opts network_opts port_opts text split atoi
    trim_space to_lower same
bad_port = refl

port_opts-port_list_example : port_opts served ≡ ok (forward_all (8080 ∷ 50051 ∷ []))
port_opts-port_list_example = port_opts-port_list served 8080 (50051 ∷ []) (omega arith) refl

build_vm_opts-order_example :
    (front back : List VmOption) × (with_memory (text "1G")
        ∷ with_cpus (pos 2)
        ∷ with_user_net
        ∷ with_port_forward (pos 8080)
        ∷ with_port_forward (pos 50051)
        ∷ []
      ≡ front ++ back)
    × All (λ o. is_forward o ≡ false) front
    × All (λ o. is_forward o ≡ true) back
    × (keep is_network (
          with_memory (text "1G")
          ∷ with_cpus (pos 2)
          ∷ with_user_net
          ∷ with_port_forward (pos 8080)
          ∷ with_port_forward (pos 50051)
          ∷ [])
        ≡ network_opts served)
build_vm_opts-order_example = build_vm_opts-order served _ served_opts

build_vm_opts-err_example :
    Explains (env_with (text "2") (text "80,http")) (invalid_port (text "http"))
build_vm_opts-err_example =
    build_vm_opts-err (env_with (text "2") (text "80,http")) (invalid_port (text "http")) bad_port

build_vm_opts-ok_iff_example :
    ((opts : List VmOption) × (build_vm_opts served ≡ ok opts))
    ↔ (CpusAreFine (text "2") × PortsAreFine (port_list (8080 ∷ 50051 ∷ [])))
build_vm_opts-ok_iff_example = build_vm_opts-ok_iff served
