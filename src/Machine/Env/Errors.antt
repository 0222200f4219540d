-- ===== src/Machine/Env/Errors.antt =====
-- When `buildVMOptsFromEnv` stops the test, and on which value.
use mathlib.Core.List.{cons-ne-nil}
use rules_vmtest.Base.{
  ◌≡◌, ◌≢◌, ◌↔◌, ◌⊎◌, refl, ap, [], ◌∷◌, ◌++◌, List, some, none, ℤ, arith, Text, All, is_empty, ok,
  err, Result-cases, ok_of_bind, err_of_bind, Option-cases, inl, inr, true, false,
}
use rules_vmtest.Strings.{split, trim_space}
use rules_vmtest.Strconv.{atoi}
use rules_vmtest.Machine.Env.{
  VmOption, EnvError, invalid_cpus, invalid_port, Env, forward_opts, port_opts, cpu_opts,
  build_vm_opts, with_port_forward, with_cpus, hardware_opts, tpm_opts, network_opts,
}

-- A part of the port list that is a number, blanks around it allowed.
abbrev pub IsNumber : Text → Type 0
IsNumber p = (n : ℤ) × (atoi (trim_space p) ≡ some n)

-- What is wrong with the environment, by the error.
abbrev pub Explains : Env → EnvError → Type 0
Explains env (invalid_cpus v) = (v ≡ env "VMTEST_CPUS") × (v ≢ []) × (atoi v ≡ none)
Explains env (invalid_port p) =
    (before after : List Text) × (split b',' (env "VMTEST_PORT_FORWARDS") ≡ before ++ p ∷ after)
    × All IsNumber before
    × (atoi (trim_space p) ≡ none)

abbrev FirstBad : List Text → EnvError → Type 0
FirstBad parts (invalid_cpus v) = ⊥
FirstBad parts (invalid_port p) =
    (before after : List Text) × (parts ≡ before ++ p ∷ after)
    × All IsNumber before
    × (atoi (trim_space p) ≡ none)

FirstBad-cons :
    (p : Text) (parts : List Text) (e : EnvError)
    → IsNumber p
    → FirstBad parts e
    → FirstBad (p ∷ parts) e
FirstBad-cons p parts (invalid_cpus v) n b = b
FirstBad-cons p parts (invalid_port q) n (before, after, same_parts, numbers, bad) =
    (p ∷ before, after, ap (λ l. p ∷ l) same_parts, (n, numbers), bad)

first_error :
    (p : Text) (parts : List Text) (e : EnvError)
    → atoi (trim_space p) ≡ none
    → forward_opts (p ∷ parts) ≡ err e
    → invalid_port p ≡ e
unfolding forward_opts
first_error p parts e bad h = ground arith

later_error :
    (p : Text) (parts : List Text) (e : EnvError) (n : ℤ)
    → atoi (trim_space p) ≡ some n
    → forward_opts (p ∷ parts) ≡ err e
    → forward_opts parts ≡ err e
unfolding forward_opts
later_error p parts e n good h = elim (Result-cases (forward_opts parts)) [
  | inl (opts, r) ↦ ground arith
  | inr (f, r) ↦ ground arith
]

forward_opts-err :
    (parts : List Text) (e : EnvError) → forward_opts parts ≡ err e → FirstBad parts e
unfolding forward_opts
forward_opts-err [] e h = cc
forward_opts-err (p ∷ parts) e h = elim (Option-cases (atoi (trim_space p))) [
  | inl bad ↦ rw (← first_error p parts e bad h) ([], parts, refl, tt, bad)
  | inr (n, good) ↦
      FirstBad-cons p parts e (n, good) (forward_opts-err parts e (later_error p parts e n good h))
]

forward_opts-ok :
    (parts : List Text) (opts : List VmOption) → forward_opts parts ≡ ok opts → All IsNumber parts
unfolding forward_opts
forward_opts-ok [] opts h = tt
forward_opts-ok (p ∷ parts) opts h = elim (Option-cases (atoi (trim_space p))) [
  | inl bad ↦ absurd (ground arith)
  | inr (n, good) ↦ elim (Result-cases (forward_opts parts)) [
    | inl (rest, r) ↦ ((n, good), forward_opts-ok parts rest r)
    | inr (f, r) ↦ absurd (ground arith)
  ]
]

forward_opts_total :
    (parts : List Text)
    → All IsNumber parts
    → (opts : List VmOption) × (forward_opts parts ≡ ok opts)
unfolding forward_opts
forward_opts_total [] h = ([], refl)
forward_opts_total (p ∷ parts) ((n, good), h) =
    let (opts, r) = forward_opts_total parts h in (with_port_forward n ∷ opts, rw (good, r))

abbrev pub CpusAreFine : Text → Type 0
CpusAreFine v = (v ≡ []) ⊎ ((n : ℤ) × (atoi v ≡ some n))

abbrev pub PortsAreFine : Text → Type 0
PortsAreFine v = (v ≡ []) ⊎ All IsNumber (split b',' v)

empty_or_not : (v : Text) → ((v ≡ []) × (is_empty v ≡ true)) ⊎ ((v ≢ []) × (is_empty v ≡ false))
empty_or_not [] = inl (refl, refl)
empty_or_not (c ∷ v) = inr (cons-ne-nil c v, refl)

cpu_opts-err : (env : Env) (e : EnvError) → cpu_opts env ≡ err e → Explains env e
unfolding cpu_opts
cpu_opts-err env e h = elim (empty_or_not (env "VMTEST_CPUS")) [
  | inl (_, z) ↦ absurd (ground arith)
  | inr (v, z) ↦ elim (Option-cases (atoi (env "VMTEST_CPUS"))) [
    | inl bad ↦
        let reported : invalid_cpus (env "VMTEST_CPUS") ≡ e = ground arith in
        rw (← reported) (refl, v, bad)
    | inr (n, good) ↦ absurd (ground arith)
  ]
]

cpu_opts-ok :
    (env : Env) (opts : List VmOption) → cpu_opts env ≡ ok opts → CpusAreFine (env "VMTEST_CPUS")
unfolding cpu_opts
cpu_opts-ok env opts h = elim (empty_or_not (env "VMTEST_CPUS")) [
  | inl (v, z) ↦ inl v
  | inr (v, z) ↦ elim (Option-cases (atoi (env "VMTEST_CPUS"))) [
    | inl bad ↦ absurd (ground arith)
    | inr good ↦ inr good
  ]
]

cpu_opts_total :
    (env : Env)
    → CpusAreFine (env "VMTEST_CPUS")
    → (opts : List VmOption) × (cpu_opts env ≡ ok opts)
unfolding cpu_opts
cpu_opts_total env (inl e) = ([], rw e)
cpu_opts_total env (inr (n, good)) = elim (empty_or_not (env "VMTEST_CPUS")) [
  | inl (v, z) ↦ ([], rw z)
  | inr (v, z) ↦ (with_cpus n ∷ [], rw (z, good))
]

Explains-of-FirstBad :
    (env : Env) (e : EnvError)
    → FirstBad (split b',' (env "VMTEST_PORT_FORWARDS")) e
    → Explains env e
Explains-of-FirstBad env (invalid_cpus v) b = absurd b
Explains-of-FirstBad env (invalid_port p) b = b

port_opts-err : (env : Env) (e : EnvError) → port_opts env ≡ err e → Explains env e
unfolding port_opts
port_opts-err env e h = elim (empty_or_not (env "VMTEST_PORT_FORWARDS")) [
  | inl (_, z) ↦ absurd (ground arith)
  | inr (_, z) ↦ Explains-of-FirstBad env e (forward_opts-err _ e (rw (z, port_opts) at h))
]

port_opts-ok :
    (env : Env) (opts : List VmOption)
    → port_opts env ≡ ok opts
    → PortsAreFine (env "VMTEST_PORT_FORWARDS")
unfolding port_opts
port_opts-ok env opts h = elim (empty_or_not (env "VMTEST_PORT_FORWARDS")) [
  | inl (v, z) ↦ inl v
  | inr (v, z) ↦ inr (forward_opts-ok _ opts (rw (z, port_opts) at h))
]

port_opts_total :
    (env : Env)
    → PortsAreFine (env "VMTEST_PORT_FORWARDS")
    → (opts : List VmOption) × (port_opts env ≡ ok opts)
unfolding port_opts
port_opts_total env (inl e) = ([], rw e)
port_opts_total env (inr numbers) = elim (empty_or_not (env "VMTEST_PORT_FORWARDS")) [
  | inl (v, z) ↦ ([], rw z)
  | inr (v, z) ↦ let (opts, r) = forward_opts_total _ numbers in (opts, rw z r)
]

-- An environment is refused with `invalid_cpus` only for a processor count that is set and no
-- number, and with `invalid_port` only for the first part of the port list that is no number.
pub build_vm_opts-err : (env : Env) (e : EnvError) → build_vm_opts env ≡ err e → Explains env e
unfolding build_vm_opts
build_vm_opts-err env e h = elim (err_of_bind (cpu_opts env) _ h) [
  | inl c ↦ cpu_opts-err env e c
  | inr (cpus, c, h1) ↦ elim (err_of_bind (port_opts env) _ h1) [
    | inl p ↦ port_opts-err env e p
    | inr (ports, p, h2) ↦ absurd (cc)
  ]
]

-- An environment is accepted exactly when the processor count is not set or a number in the range of
-- `int`, and the port list is not set or all its parts are such numbers, blanks around them allowed.
pub build_vm_opts-ok_iff :
    (env : Env)
    → ((opts : List VmOption) × (build_vm_opts env ≡ ok opts))
      ↔ (CpusAreFine (env "VMTEST_CPUS") × PortsAreFine (env "VMTEST_PORT_FORWARDS"))
unfolding build_vm_opts
build_vm_opts-ok_iff env = (accepted, total)
  where
    accepted :
        (opts : List VmOption) × (build_vm_opts env ≡ ok opts)
        → CpusAreFine (env "VMTEST_CPUS") × PortsAreFine (env "VMTEST_PORT_FORWARDS")
    accepted (opts, h) =
        let (cpus, c, h1) = ok_of_bind (cpu_opts env) _ h in
        let (ports, p, h2) = ok_of_bind (port_opts env) _ h1 in
        (cpu_opts-ok env cpus c, port_opts-ok env ports p)

    total :
        CpusAreFine (env "VMTEST_CPUS") × PortsAreFine (env "VMTEST_PORT_FORWARDS")
        → (opts : List VmOption) × (build_vm_opts env ≡ ok opts)
    total (c, p) =
        let (cpus, hc) = cpu_opts_total env c in
        let (ports, hp) = port_opts_total env p in
        (hardware_opts env ++ (cpus ++ (tpm_opts env ++ (network_opts env ++ ports))), rw (hc, hp))
