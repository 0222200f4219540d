-- ===== src/Machine/Boot/Lifetime.antt =====
-- From the start of a virtual machine to its end.
use rules_vmtest.Base.{◌≡◌, Bool, [], ◌∷◌, ◌++◌, List, if◌then◌else◌, Result, ok, err}
use rules_vmtest.Machine.Env.{Env, EnvError, VmOption, build_vm_opts}
use rules_vmtest.Machine.Boot.{
  Act, started, on_line, connected, close_agent, kill, await_log, Vmm, BootError, no_agent, bad_env,
  not_started, Machine, Chosen, all_opts, Booted, end_test,
}

module _ (M : Vmm) where
  abbrev pub Acts : Type 0
  Acts = List (Act M.Vm M.Agent)

  abbrev pub Outcome : Type 0
  Outcome = Result (BootError M.Error) (Machine M)

  abbrev pub if_serial : Bool → Act M.Vm M.Agent → Acts
  if_serial serial a = if serial then a ∷ [] else []

  -- A virtual machine that has been started with the options of the environment, then those that are
  -- always set, then those of the caller; and what is read of its serial line.
  pub record Begun (env : Env) (chosen : Chosen M) (vm : M.Vm) (serial : Bool) (begin : Acts)
      : Type 0 where
    pub from_env : List VmOption
    pub extra : List VmOption
    pub env_read : build_vm_opts env ≡ ok from_env
    pub options_read : chosen.0 ≡ ok extra
    pub world : M.World
    pub starts : M.start (all_opts M from_env extra) chosen.1 ≡ (ok vm, world)
    pub has_line : M.has_serial vm world ≡ serial
    pub begins : begin ≡ started (all_opts M from_env extra) vm ∷ if_serial serial (on_line vm)

  -- Why no machine is started: an option fails, or the environment is refused, or the start fails.
  pub data Unstarted (env : Env) (chosen : Chosen M) (e : BootError M.Error) : Type 0 where
    option_fails : chosen.0 ≡ err e → Unstarted env chosen e
    env_fails :
        (extra : List VmOption) (cause : EnvError)
        → chosen.0 ≡ ok extra
        → build_vm_opts env ≡ err cause
        → e ≡ bad_env cause
        → Unstarted env chosen e
    start_fails :
        (from_env extra : List VmOption) (cause : M.Error) (world : M.World)
        → build_vm_opts env ≡ ok from_env
        → chosen.0 ≡ ok extra
        → M.start (all_opts M from_env extra) chosen.1 ≡ (err cause, world)
        → e ≡ not_started cause
        → Unstarted env chosen e

  -- What is done from a call of `New` to the end of the test: nothing, or a machine is started and, as
  -- its agent cannot be reached, killed; or the machine is used, and in the end the connection is closed,
  -- the machine is killed and the reader of its serial line is waited for, if there is one.
  pub data Life (env : Env) (chosen : Chosen M) (r : Outcome) (acts : Acts) : Type 0 where
    not_begun :
        (e : BootError M.Error)
        → Unstarted env chosen e
        → r ≡ err e
        → acts ≡ []
        → Life env chosen r acts
    unreachable :
        (vm : M.Vm) (serial : Bool) (begin : Acts) (e : M.Error)
        → Begun env chosen vm serial begin
        → r ≡ err (no_agent e)
        → acts ≡ begin ++ (kill vm ∷ [])
        → Life env chosen r acts
    whole :
        (vm : M.Vm) (serial : Bool) (begin : Acts) (agent : M.Agent)
        → Begun env chosen vm serial begin
        → r ≡ ok (record { vm = vm; agent = agent })
        → acts
          ≡ begin
            ++ (connected agent ∷ close_agent agent ∷ kill vm ∷ if_serial serial (await_log vm))
        → Life env chosen r acts

  -- The actions of a test, behind those that were there.
  abbrev pub Lives : Env → Chosen M → Acts → Booted M → Type 0
  Lives env chosen log b =
      (acts : Acts) × Life env chosen b.result acts × ((end_test M b).1 ≡ log ++ acts)
