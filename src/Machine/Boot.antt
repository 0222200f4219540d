-- ===== src/Machine/Boot.antt =====
-- `New` of `machine/machine.go` with its options, the clean-up that it registers, and `Shutdown`. The
-- package `vm` is a parameter; what is done to a machine is a sequence of actions.
pub mod Lifetime
use rules_vmtest.Base.{
  ℕ, ◌*◌, Bool, [], ◌∷◌, ◌++◌, List, Option, none, some, ℤ, Text, if◌then◌else◌, Result, ok, err,
}
use rules_vmtest.Machine.Retry.{second}
use rules_vmtest.Machine.Mac.{mac_from_tap}
use rules_vmtest.Machine.Env.{
  Env, EnvError, VmOption, build_vm_opts, with_user_net, with_port_forward, with_tap_device,
  with_mac_address, with_agent, with_serial_capture, with_qmp,
}

-- What is done to a virtual machine `V` and to a connection `A` to its agent; `started` and `connected`
-- are the calls that make them.
pub data Act (V A : Type 0) : Type 0 where
  started : List VmOption → V → Act V A
  on_line : V → Act V A
  connected : A → Act V A
  close_agent : A → Act V A
  kill : V → Act V A
  await_log : V → Act V A

-- `connect_agent` takes the time limit of its context.
pub record Vmm : Type 1 where
  pub World : Type 0
  pub Error : Type 0
  pub Vm : Type 0
  pub Agent : Type 0
  pub allocate_tap : Text → World → Result Error Text × World
  pub start : List VmOption → World → Result Error Vm × World
  pub has_serial : Vm → World → Bool
  pub connect_agent : Vm → ℕ → World → Result Error Agent × World
  pub perform : Act Vm Agent → World → World
  pub stop : Vm → World → Option Error × World

-- The calls of the option functions of `machine`; a bridge is given by its name.
pub data MachineOption : Type 0 where
  with_bridge : Text → MachineOption
  with_user_network : MachineOption
  with_vm_option : VmOption → MachineOption
  forward_port : ℤ → MachineOption

pub data BootError (E : Type 0) : Type 0 where
  no_tap : E → BootError E
  bad_env : EnvError → BootError E
  not_started : E → BootError E
  no_agent : E → BootError E
  not_stopped : E → BootError E

module _ (M : Vmm) where
  -- The world and the actions so far.
  abbrev pub State : Type 0
  State = M.World × List (Act M.Vm M.Agent)

  abbrev pub act : Act M.Vm M.Agent → State → State
  act a (w, log) = (M.perform a w, log ++ (a ∷ []))

  pub record Machine : Type 0 where
    pub vm : M.Vm
    pub agent : M.Agent

  abbrev pub Chosen : Type 0
  Chosen = Result (BootError M.Error) (List VmOption) × M.World

  -- The options that one machine option adds; `WithBridge` panics if there is no TAP device left.
  abbrev pub bridge_opts : Text → Result M.Error Text × M.World → Chosen
  bridge_opts bridge (err e, w) = (err (no_tap e), w)
  bridge_opts bridge (ok tap, w) =
      (ok (with_tap_device tap bridge ∷ with_mac_address (mac_from_tap tap) ∷ []), w)

  unfoldable pub option_opts : MachineOption → M.World → Chosen
  option_opts (with_bridge bridge) w = bridge_opts bridge (M.allocate_tap bridge w)
  option_opts with_user_network w = (ok (with_user_net ∷ []), w)
  option_opts (with_vm_option o) w = (ok (o ∷ []), w)
  option_opts (forward_port port) w = (ok (with_port_forward port ∷ []), w)

  abbrev pub in_front : List VmOption → Chosen → Chosen
  in_front opts (err e, w) = (err e, w)
  in_front opts (ok more, w) = (ok (opts ++ more), w)

  abbrev pub then_opts : Chosen → (M.World → Chosen) → Chosen
  then_opts (err e, w) next = (err e, w)
  then_opts (ok opts, w) next = in_front opts (next w)

  -- The loop over the options.
  unfoldable pub apply_options : List MachineOption → M.World → Chosen
  unfolding option_opts
  apply_options [] w = (ok [], w)
  apply_options (o ∷ opts) w = then_opts (option_opts o w) (apply_options opts)

  abbrev pub all_opts : List VmOption → List VmOption → List VmOption
  all_opts from_env extra = from_env ++ (with_agent ∷ with_serial_capture ∷ with_qmp ∷ extra)

  -- The end of `New`: its result, the state, and what the registered clean-up does, in order.
  pub record Booted : Type 0 where
    pub result : Result (BootError M.Error) Machine
    pub state : State
    pub cleanup : List (Act M.Vm M.Agent)

  abbrev pub failed : BootError M.Error → State → Booted
  failed e s = record { result = err e; state = s; cleanup = [] }

  abbrev pub log_serial : Bool → M.Vm → State → State
  log_serial serial vm s = if serial then act (on_line vm) s else s

  abbrev pub cleanup_of : Bool → M.Vm → M.Agent → List (Act M.Vm M.Agent)
  cleanup_of serial vm agent =
      close_agent agent ∷ kill vm ∷ (if serial then await_log vm ∷ [] else [])

  abbrev pub with_connection :
      Bool → M.Vm → List (Act M.Vm M.Agent) → Result M.Error M.Agent × M.World → Booted
  with_connection serial vm log (err e, w) = failed (no_agent e) (act (kill vm) (w, log))
  with_connection serial vm log (ok agent, w) = record {
    result = ok (record { vm = vm; agent = agent });
    state = act (connected agent) (w, log);
    cleanup = cleanup_of serial vm agent;
  }

  abbrev pub with_vm :
      List VmOption → List (Act M.Vm M.Agent) → Result M.Error M.Vm × M.World → Booted
  with_vm opts log (err e, w) = failed (not_started e) (w, log)
  with_vm opts log (ok vm, w) =
      let serial = M.has_serial vm w in
      let s = log_serial serial vm (act (started opts vm) (w, log)) in
      with_connection serial vm s.1 (M.connect_agent vm (120 * second) s.0)

  abbrev pub with_env : List VmOption → State → Result EnvError (List VmOption) → Booted
  with_env extra s (err e) = failed (bad_env e) s
  with_env extra s (ok from_env) =
      with_vm (all_opts from_env extra) s.1 (M.start (all_opts from_env extra) s.0)

  abbrev pub with_options : Env → List (Act M.Vm M.Agent) → Chosen → Booted
  with_options env log (err e, w) = failed e (w, log)
  with_options env log (ok extra, w) = with_env extra (w, log) (build_vm_opts env)

  -- `New`
  unfoldable pub new : Env → List MachineOption → State → Booted
  unfolding apply_options
  new env opts (w, log) = with_options env log (apply_options opts w)

  abbrev pub act_all : List (Act M.Vm M.Agent) → State → State
  act_all [] s = s
  act_all (a ∷ as_) s = act_all as_ (act a s)

  -- The end of the test, which runs the registered clean-up.
  unfoldable pub end_test : Booted → State
  end_test b = act_all b.cleanup b.state

  abbrev pub stopped : Option M.Error × M.World → Result (BootError M.Error) (Unit {0}) × M.World
  stopped (some e, w) = (err (not_stopped e), w)
  stopped (none, w) = (ok tt, w)

  -- `Shutdown`
  unfoldable pub shutdown : Machine → M.World → Result (BootError M.Error) (Unit {0}) × M.World
  shutdown m w = stopped (M.stop m.vm w)
