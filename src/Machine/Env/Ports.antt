-- ===== src/Machine/Env/Ports.antt =====
-- The port list of the environment: what the Bazel rules write is what `buildVMOptsFromEnv` reads,
-- and where the forwards stand among the options.
use rules_vmtest.Base.{
  ℕ, ◌≤◌, ◌≡◌, refl, Bool, true, false, [], ◌∷◌, ◌++◌, List, map, pos, arith, Text, All, All-append,
  keep, keep-append, is_empty, ok, Result-cases, ok_of_bind, Bool-cases, inl, inr, append_assoc,
  append-nil,
}
use rules_vmtest.Strings.{split, join, is_space}
use rules_vmtest.Strings.Laws.{Lacks, split-join}
use rules_vmtest.Strings.Words.{NoSpace, trim_space-of-NoSpace}
use rules_vmtest.Strconv.{max_int, decimal}
use rules_vmtest.Strconv.RoundTrip.{
  IsDigit, Lacks-of-IsDigit, decimal-IsDigit, decimal-ne-nil, atoi-decimal,
}
use rules_vmtest.Machine.Env.{
  VmOption, with_port_forward, with_no_network, with_user_net, Env, forward_opts, port_opts,
  cpu_opts, hardware_opts, hardware_choices, chosen, tpm_opts, network_opts, build_vm_opts,
}

-- The Bazel rules join the ports with commas.
abbrev pub port_list : List ℕ → Text
port_list ports = join (b',' ∷ []) (map decimal ports)

abbrev pub forward_all : List ℕ → List VmOption
forward_all [] = []
forward_all (n ∷ ports) = with_port_forward (pos n) ∷ forward_all ports

digit-is_space : (c : ℕ) → IsDigit c → is_space c ≡ false
unfolding is_space
digit-is_space c h = ground arith

NoSpace-of-IsDigit : (s : Text) → All IsDigit s → NoSpace s
NoSpace-of-IsDigit [] h = tt
NoSpace-of-IsDigit (c ∷ s) (hc, hs) = (digit-is_space c hc, NoSpace-of-IsDigit s hs)

Lacks-decimals : (ports : List ℕ) → All (Lacks b',') (map decimal ports)
Lacks-decimals [] = tt
Lacks-decimals (n ∷ ports) = (
  Lacks-of-IsDigit b',' (decimal n) (inl (omega arith)) (decimal-IsDigit n),
  Lacks-decimals ports,
)

forward_opts-decimals :
    (ports : List ℕ)
    → All (λ n. n ≤ max_int) ports
    → forward_opts (map decimal ports) ≡ ok (forward_all ports)
unfolding forward_opts
forward_opts-decimals [] h = refl
forward_opts-decimals (n ∷ ports) (hn, hs) = rw (
  trim_space-of-NoSpace (decimal n) (NoSpace-of-IsDigit _ (decimal-IsDigit n)),
  atoi-decimal n hn,
  forward_opts-decimals ports hs,
)

is_empty-port_list : (n : ℕ) (ports : List ℕ) → is_empty (port_list (n ∷ ports)) ≡ false
unfolding join
is_empty-port_list n [] = ground (arith, decimal-ne-nil n)
is_empty-port_list n (m ∷ ports) = ground (arith, decimal-ne-nil n)

split-port_list :
    (n : ℕ) (ports : List ℕ) → split b',' (port_list (n ∷ ports)) ≡ map decimal (n ∷ ports)
split-port_list n ports =
    let lacks = Lacks-decimals (n ∷ ports) in
    split-join b',' (decimal n) (map decimal ports) lacks.0 lacks.1

-- If `VMTEST_PORT_FORWARDS` is a non-empty list of ports as the Bazel rules write it, in decimal and
-- joined by commas, `buildVMOptsFromEnv` asks for exactly these forwards, in order, and finds no
-- error among them. A port is a number in the range of `int`.
pub port_opts-port_list :
    (env : Env) (n : ℕ) (ports : List ℕ)
    → All (λ m. m ≤ max_int) (n ∷ ports)
    → env "VMTEST_PORT_FORWARDS" ≡ port_list (n ∷ ports)
    → port_opts env ≡ ok (forward_all (n ∷ ports))
unfolding port_opts
port_opts-port_list env n ports h e =
    rw (e, is_empty-port_list n ports, split-port_list n ports)
      (forward_opts-decimals (n ∷ ports) h)

abbrev pub is_forward : VmOption → Bool
is_forward (with_port_forward n) = true
is_forward o = false

abbrev pub is_network : VmOption → Bool
is_network with_no_network = true
is_network with_user_net = true
is_network o = false

-- A list of options that forwards no port and chooses no network.
abbrev Quiet : List VmOption → Type 0
Quiet = All (λ o. (is_forward o ≡ false) × (is_network o ≡ false))

Quiet-chosen :
    (choices : List (Bool × VmOption))
    → All (λ (_, o). (is_forward o ≡ false) × (is_network o ≡ false)) choices
    → Quiet (chosen choices)
unfolding chosen
Quiet-chosen [] h = tt
Quiet-chosen ((test, o) ∷ choices) h = ground (arith, Quiet-chosen choices h.1)

Quiet-hardware : (env : Env) → Quiet (hardware_opts env)
unfolding hardware_opts
Quiet-hardware env = Quiet-chosen (hardware_choices env) (ground arith)

Quiet-tpm : (env : Env) → Quiet (tpm_opts env)
unfolding tpm_opts
Quiet-tpm env = ground arith

Quiet-cpus : (env : Env) (opts : List VmOption) → cpu_opts env ≡ ok opts → Quiet opts
unfolding cpu_opts
Quiet-cpus env opts h = ground arith

forward_opts-is_forward :
    (parts : List Text) (opts : List VmOption)
    → forward_opts parts ≡ ok opts
    → All (λ o. is_forward o ≡ true) opts
unfolding forward_opts
forward_opts-is_forward [] opts h = ground arith
forward_opts-is_forward (p ∷ parts) opts h = elim (Result-cases (forward_opts parts)) [
  | inl (rest, e) ↦ ground (arith, forward_opts-is_forward parts rest e)
  | inr (f, e) ↦ ground arith
]

keep-network-Quiet : (opts : List VmOption) → Quiet opts → keep is_network opts ≡ []
unfolding keep
keep-network-Quiet [] h = refl
keep-network-Quiet (o ∷ opts) h = ground (arith, keep-network-Quiet opts h.1)

keep-network-forwards :
    (opts : List VmOption) → All (λ o. is_forward o ≡ true) opts → keep is_network opts ≡ []
unfolding keep
keep-network-forwards [] h = refl
keep-network-forwards (with_port_forward n ∷ opts) h = keep-network-forwards opts h.1
keep-network-forwards (o ∷ opts) h = cc

keep-network_opts : (env : Env) → keep is_network (network_opts env) ≡ network_opts env
unfolding keep network_opts
keep-network_opts env = ground arith

network_opts-not-forward : (env : Env) → All (λ o. is_forward o ≡ false) (network_opts env)
unfolding network_opts
network_opts-not-forward env = ground arith

port_opts-is_forward :
    (env : Env) (opts : List VmOption)
    → port_opts env ≡ ok opts
    → All (λ o. is_forward o ≡ true) opts
unfolding port_opts
port_opts-is_forward env opts h = elim (Bool-cases (is_empty (env "VMTEST_PORT_FORWARDS"))) [
  | inl e ↦ ground arith
  | inr e ↦
      forward_opts-is_forward (split b',' (env "VMTEST_PORT_FORWARDS")) opts
        (rw (e, port_opts) at h)
]

abbrev front_opts : Env → List VmOption → List VmOption
front_opts env cpus = hardware_opts env ++ (cpus ++ (tpm_opts env ++ network_opts env))

not-forward-of-Quiet : (opts : List VmOption) → Quiet opts → All (λ o. is_forward o ≡ false) opts
not-forward-of-Quiet [] h = tt
not-forward-of-Quiet (o ∷ opts) ((f, _), h) = (f, not-forward-of-Quiet opts h)

front_opts-not-forward :
    (env : Env) (cpus : List VmOption)
    → Quiet cpus
    → All (λ o. is_forward o ≡ false) (front_opts env cpus)
front_opts-not-forward env cpus h = All-append _ _ _ (not-forward-of-Quiet _ (Quiet-hardware env)) (
    All-append _ _ _ (not-forward-of-Quiet cpus h)
      (All-append _ _ _ (not-forward-of-Quiet _ (Quiet-tpm env)) (network_opts-not-forward env)))

keep-network-front :
    (env : Env) (cpus : List VmOption)
    → Quiet cpus
    → keep is_network (front_opts env cpus) ≡ network_opts env
keep-network-front env cpus h =
    rw
      (
        keep-append,
        keep-network-Quiet _ (Quiet-hardware env),
        keep-append,
        keep-network-Quiet cpus h,
        keep-append,
        keep-network-Quiet _ (Quiet-tpm env),
      )
      (keep-network_opts env)

front-append :
    (env : Env) (cpus ports : List VmOption)
    → hardware_opts env ++ (cpus ++ (tpm_opts env ++ (network_opts env ++ ports)))
      ≡ front_opts env cpus ++ ports
front-append env cpus ports = simp append_assoc

-- Options that are accepted come as a front part with no port forward and a back part of port
-- forwards only, so every network mode stands in front of the forwards. The network modes among them
-- are those of the `switch`: one at most.
pub build_vm_opts-order :
    (env : Env) (opts : List VmOption)
    → build_vm_opts env ≡ ok opts
    → (front back : List VmOption) × (opts ≡ front ++ back)
      × All (λ o. is_forward o ≡ false) front
      × All (λ o. is_forward o ≡ true) back
      × (keep is_network opts ≡ network_opts env)
unfolding build_vm_opts
build_vm_opts-order env opts h =
    let (cpus, hc, h1) = ok_of_bind (cpu_opts env) _ h in
    let (ports, hp, h2) = ok_of_bind (port_opts env) _ h1 in
    let quiet = Quiet-cpus env cpus hc in
    let forwards = port_opts-is_forward env ports hp in
    let whole : opts ≡ front_opts env cpus ++ ports = cc (front-append env cpus ports) in
    (
      front_opts env cpus,
      ports,
      whole,
      front_opts-not-forward env cpus quiet,
      forwards,
      rw
          (
            whole,
            keep-append,
            keep-network-front env cpus quiet,
            keep-network-forwards ports forwards,
          )
          (append-nil _),
    )
