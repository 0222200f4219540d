-- ===== src/Cmd/TestRunner/Verdict.antt =====
-- The end of `main` in `vmtest/cmd/testrunner/main.go`: the machine, its serial line, and the exit code.
-- `os.Exit` runs no deferred call, so the deferred `Kill` is only run where `main` returns.
use rules_vmtest.Base.{
  ℕ, ◌≡◌, refl, ap, ◌⊎◌, inl, inr, Bool, true, false, [], ◌∷◌, ◌++◌, List, Option, none, some,
  append_assoc, Result, ok, err,
}
use rules_vmtest.Machine.Env.{VmOption}
use rules_vmtest.Machine.Boot.{Act, started, kill, Vmm, State, act}

-- `ScanForMarker`, which fails unless it finds the marker of a test that passes.
abbrev pub Scan : Vmm → Type 0
Scan M = M.Vm → M.World → Option M.Error × M.World

module _ (M : Vmm) (scan : Scan M) where
  abbrev pub with_verdict : M.Vm → List (Act M.Vm M.Agent) → Option M.Error × M.World → ℕ × State M
  with_verdict vm log (some e, w) = (1, (w, log))
  with_verdict vm log (none, w) = (0, act M (kill vm) (w, log))

  abbrev pub with_serial : M.Vm → Bool → State M → ℕ × State M
  with_serial vm false s = (1, s)
  with_serial vm true s = with_verdict vm s.1 (scan vm s.0)

  abbrev pub with_machine :
      List VmOption → List (Act M.Vm M.Agent) → Result M.Error M.Vm × M.World → ℕ × State M
  with_machine opts log (err e, w) = (1, (w, log))
  with_machine opts log (ok vm, w) =
      let s = act M (started opts vm) (w, log) in with_serial vm (M.has_serial vm s.0) s

  -- The exit code, and what has been done to the machine.
  unfoldable pub test_main : List VmOption → State M → ℕ × State M
  test_main opts s = with_machine opts s.1 (M.start opts s.0)

  -- The world in which a machine runs that has just been started.
  abbrev pub begun : List VmOption → M.Vm → M.World → M.World
  begun opts vm w = M.perform (started opts vm) w

  -- The marker of a test that passes is found on the serial line, if there is one.
  abbrev pub Passes : M.Vm → M.World → Type 0
  Passes vm w = (M.has_serial vm w ≡ true) × ((scan vm w).0 ≡ none)

  abbrev pub Fails : M.Vm → M.World → Type 0
  Fails vm w = (M.has_serial vm w ≡ false) ⊎ ((e : M.Error) × ((scan vm w).0 ≡ some e))

  -- How a test ends, by what the start gives: its exit code, and the actions behind the log `log`.
  abbrev pub Verdict :
      List VmOption → List (Act M.Vm M.Agent) → Result M.Error M.Vm × M.World → ℕ × State M → Type 0
  Verdict opts log (err e, w) r = (r.0 ≡ 1) × (r.1.1 ≡ log)
  Verdict opts log (ok vm, w) r =
      (Fails vm (begun opts vm w) × (r.0 ≡ 1) × (r.1.1 ≡ log ++ (started opts vm ∷ [])))
      ⊎ (Passes vm (begun opts vm w)
          × (r.0 ≡ 0)
          × (r.1.1 ≡ log ++ (started opts vm ∷ kill vm ∷ [])))

  Verdict-scan :
      (opts : List VmOption) (vm : M.Vm) (log : List (Act M.Vm M.Agent)) (w : M.World)
      (r : Option M.Error × M.World)
      → M.has_serial vm (begun opts vm w) ≡ true
      → scan vm (begun opts vm w) ≡ r
      → Verdict opts log (ok vm, w) (with_verdict vm (log ++ (started opts vm ∷ [])) r)
  Verdict-scan opts vm log w (some e, w') h q = inl (inr (e, ap (λ r. r.0) q), refl, refl)
  Verdict-scan opts vm log w (none, w') h q =
      inr ((h, ap (λ r. r.0) q), refl, append_assoc log (started opts vm ∷ []) (kill vm ∷ []))

  Verdict-serial :
      (opts : List VmOption) (vm : M.Vm) (log : List (Act M.Vm M.Agent)) (w : M.World)
      (serial : Bool)
      → M.has_serial vm (begun opts vm w) ≡ serial
      → Verdict opts log
          (ok vm, w)
          (with_serial vm serial (begun opts vm w, log ++ (started opts vm ∷ [])))
  Verdict-serial opts vm log w false h = inl (inl h, refl, refl)
  Verdict-serial opts vm log w true h =
      Verdict-scan opts vm log w (scan vm (begun opts vm w)) h refl

  Verdict-start :
      (opts : List VmOption) (log : List (Act M.Vm M.Agent)) (r : Result M.Error M.Vm × M.World)
      → Verdict opts log r (with_machine opts log r)
  Verdict-start opts log (err e, w) = (refl, refl)
  Verdict-start opts log (ok vm, w) = Verdict-serial opts vm log w _ refl

  -- If the machine cannot be started, the test runner exits with 1. A machine that it has started it
  -- kills, and exits with 0, exactly when the machine has a serial line on which the marker of a test
  -- that passes is found; else it exits with 1 and leaves the machine running.
  pub test_main-Verdict :
      (opts : List VmOption) (s : State M) → Verdict opts s.1 (M.start opts s.0) (test_main opts s)
  unfolding test_main
  test_main-Verdict opts s = Verdict-start opts s.1 (M.start opts s.0)
