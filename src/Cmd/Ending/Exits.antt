-- ===== src/Cmd/Ending/Exits.antt =====
-- What is done when the program has exited, and which signals can end it.
use mathlib.Core.Path.{subst}
use rules_vmtest.Base.{
  ◌≡◌, ◌≢◌, refl, sym, ◌∙◌, ◌⊎◌, inl, inr, Bool, true, false, Option, none, some, Bool-cases, ℕ,
  Text, text, same, same_iff, Result, ok, err, arith, if◌then◌else◌,
}
use rules_vmtest.Runner.Config.{Platform, RunnerConfig, new_runner}
use rules_vmtest.Runner.Host.{Host, World, RunError}
use rules_vmtest.Runner.Modes.{Ended, run}
use rules_vmtest.Runner.Modes.Cleaned.{Cleaned, run-Cleaned}
use rules_vmtest.Cmd.Ending.{
  Signal, sigint, sigterm, sighup, sigquit, sigkill, is_notified, handles, Phase, prepares,
  calls_run, selects, awaits_done, exited, ended_by_signal, is_direct, result_code, State, Step,
  branches, run_returns, signal_kills, signal_comes, direct_ends, select_done, select_signal,
  done_behind_signal, Reach, here, next,
}

module _ (H : Host) (abs : Text → Option Text) (p : Platform) (c : RunnerConfig) where
  -- What has been returned by `Run` was returned by it in some world.
  abbrev Returned : Option (Ended H) → Type 0
  Returned none = Unit {0}
  Returned (some r) = (w : World H) × (r ≡ run H abs p (new_runner p c) w)

  -- The exit code says whether there was an error; or it is 0 and the run was cancelled by a signal.
  abbrev pub ExitsWith : Result RunError (Unit {0}) → ℕ → Bool → Type 0
  ExitsWith result code cancelled =
      (((e : RunError) × (result ≡ err e) × (code ≡ 1)) ⊎ ((result ≡ ok tt) × (code ≡ 0)))
      ⊎ ((code ≡ 0) × (cancelled ≡ true))

  -- A signal has ended the program: none of the two that are handled, or in the direct mode, or before
  -- `Run` was called.
  abbrev pub EndedBy : Signal → Bool → Type 0
  EndedBy g begun =
      ((g ≢ sigint) × (g ≢ sigterm))
      ⊎ ((c.mode ≡ text "run") × (c.output_mode ≡ text "direct"))
      ⊎ (begun ≡ false)

  abbrev Direct : Type 0
  Direct = (c.mode ≡ text "run") × (c.output_mode ≡ text "direct")

  abbrev AtPhase : Phase → Option (Ended H) → Bool → Bool → Type 0
  AtPhase (exited code) result cancelled begun =
      (r : Ended H) × (result ≡ some r) × ExitsWith r.0 code cancelled
  AtPhase (ended_by_signal g) result cancelled begun = EndedBy g begun
  AtPhase prepares result cancelled begun = begun ≡ false
  AtPhase calls_run result cancelled begun = Direct
  AtPhase selects result cancelled begun = Unit {0}
  AtPhase awaits_done result cancelled begun = cancelled ≡ true

  record Inv (s : State H abs p c) : Type 0 where
    returned : Returned s.result
    at_phase : AtPhase s.phase s.result s.cancelled s.begun

  code_of_result :
      (r : Result RunError (Unit {0})) (cancelled : Bool) → ExitsWith r (result_code r) cancelled
  code_of_result (ok tt) cancelled = inl (inr (refl, refl))
  code_of_result (err e) cancelled = inl (inl (e, refl, refl))

  direct_modes : is_direct c ≡ true → Direct
  direct_modes h = elim (Bool-cases (same c.mode (text "run"))) [
    | inl e ↦
        ((same_iff c.mode (text "run")).0 e, (same_iff c.output_mode (text "direct")).0 (rw e at h))
    | inr e ↦ absurd (ground (arith, rw e at h))
  ]

  not_notified : (g : Signal) → is_notified g ≡ false → (g ≢ sigint) × (g ≢ sigterm)
  not_notified sigint e = cc
  not_notified sigterm e = cc
  not_notified sighup e = (λ q. cc, λ q. cc)
  not_notified sigquit e = (λ q. cc, λ q. cc)
  not_notified sigkill e = (λ q. cc, λ q. cc)

  -- Where an unhandled signal can come.
  signal-EndedBy :
      (phase : Phase) (g : Signal) (result : Option (Ended H)) (cancelled begun : Bool)
      → handles phase g ≡ false
      → AtPhase phase result cancelled begun
      → EndedBy g begun
  signal-EndedBy prepares g result cancelled begun h at = inr (inr at)
  signal-EndedBy calls_run g result cancelled begun h at = inr (inl at)
  signal-EndedBy selects g result cancelled begun h at = inl (not_notified g h)
  signal-EndedBy awaits_done g result cancelled begun h at = inl (not_notified g h)
  signal-EndedBy (exited code) g result cancelled begun h at = cc
  signal-EndedBy (ended_by_signal k) g result cancelled begun h at = cc

  -- A result does not move the program.
  AtPhase-result :
      (phase : Phase) (r : Ended H) (cancelled begun : Bool)
      → AtPhase phase none cancelled begun
      → AtPhase phase (some r) cancelled begun
  AtPhase-result (exited code) r cancelled begun (r', e, how) = cc
  AtPhase-result (ended_by_signal g) r cancelled begun h = h
  AtPhase-result prepares r cancelled begun h = h
  AtPhase-result calls_run r cancelled begun h = h
  AtPhase-result selects r cancelled begun h = h
  AtPhase-result awaits_done r cancelled begun h = h

  branches-AtPhase :
      (result : Option (Ended H)) (cancelled : Bool)
      → AtPhase (if is_direct c then calls_run else selects) result cancelled true
  branches-AtPhase result cancelled = elim (Bool-cases (is_direct c)) [
    | inl e ↦ rw e (direct_modes e)
    | inr e ↦ rw e tt
  ]

  Step-Inv : {s t : State H abs p c} → Step H abs p c s t → Inv s → Inv t
  Step-Inv {s} (branches e) i = record {
    returned = i.returned;
    at_phase = branches-AtPhase s.result s.cancelled;
  }
  Step-Inv {s} (run_returns w runs e) i = record {
    returned = (w, refl);
    at_phase =
        AtPhase-result s.phase _ s.cancelled s.begun
          (subst (λ o. AtPhase s.phase o s.cancelled s.begun) e i.at_phase);
  }
  Step-Inv {s} (signal_kills g h) i = record {
    returned = i.returned;
    at_phase = signal-EndedBy s.phase g s.result s.cancelled s.begun h i.at_phase;
  }
  Step-Inv {s} (signal_comes e) i = record { returned = i.returned; at_phase = i.at_phase }
  Step-Inv {s} (direct_ends r e q) i = record {
    returned = i.returned;
    at_phase = (r, q, code_of_result r.0 s.cancelled);
  }
  Step-Inv {s} (select_done r e q) i = record {
    returned = i.returned;
    at_phase = (r, q, code_of_result r.0 s.cancelled);
  }
  Step-Inv {s} (select_signal e q) i = record { returned = i.returned; at_phase = refl }
  Step-Inv {s} (done_behind_signal r e q) i = record {
    returned = i.returned;
    at_phase = (r, q, inr (refl, subst (λ f. AtPhase f s.result s.cancelled s.begun) e i.at_phase));
  }

  Reach-Inv : {s : State H abs p c} → Reach H abs p c s → Inv s
  Reach-Inv here = record { returned = tt; at_phase = refl }
  Reach-Inv (next r st) = Step-Inv st (Reach-Inv r)

  Returned-Cleaned :
      (o : Option (Ended H)) (r : Ended H)
      → Returned o
      → o ≡ some r
      → c.no_cleanup ≡ false
      → Cleaned H r.1
  unfolding new_runner
  Returned-Cleaned none r h e always = cc
  Returned-Cleaned (some r') r (w, eq) e always =
      let r_same : r' ≡ r = cc in
      subst (λ x. Cleaned H x.1) (sym eq ∙ r_same) (run-Cleaned H abs p (new_runner p c) w always)

  other_signals :
      (s : State H abs p c) (g : Signal)
      → s.phase ≡ selects
      → ((g ≡ sigint) ⊎ (g ≡ sigterm)) ⊎ Step H abs p c s (record s { phase = ended_by_signal g })
  other_signals s sigint e = inl (inl refl)
  other_signals s sigterm e = inl (inr refl)
  other_signals s sighup e = inr (signal_kills sighup (rw e refl))
  other_signals s sigquit e = inr (signal_kills sigquit (rw e refl))
  other_signals s sigkill e = inr (signal_kills sigkill (rw e refl))

  -- However signals and the end of the run fall: when the program has exited, `Run` has returned, and the
  -- exit code is 1 if its result is an error and 0 if not, or it is 0 and a signal has cancelled the run;
  -- and unless the clean-up is switched off, the PID file of every TPM emulator that was started has then
  -- been removed. SIGINT and SIGTERM end the program without that only in the direct mode, or before
  -- `Run` is called; SIGHUP, SIGQUIT and SIGKILL can also end it while it waits in the `select`.
  pub Reach-ExitWith :
      (s : State H abs p c)
      → Reach H abs p c s
      → ((code : ℕ)
          → s.phase ≡ exited code
          → (r : Ended H) × (s.result ≡ some r)
            × ExitsWith r.0 code s.cancelled
            × (c.no_cleanup ≡ false → Cleaned H r.1))
        × ((g : Signal) → s.phase ≡ ended_by_signal g → EndedBy g s.begun)
        × ((g : Signal)
            → s.phase ≡ selects
            → ((g ≡ sigint) ⊎ (g ≡ sigterm))
              ⊎ Step H abs p c s (record s { phase = ended_by_signal g }))
  Reach-ExitWith s reach = (
    exits,
    λ g e. subst (λ f. AtPhase f s.result s.cancelled s.begun) e i.at_phase,
    other_signals s,
  )
    where
      i : Inv s
      i = Reach-Inv reach

      exits :
          (code : ℕ)
          → s.phase ≡ exited code
          → (r : Ended H) × (s.result ≡ some r)
            × ExitsWith r.0 code s.cancelled
            × (c.no_cleanup ≡ false → Cleaned H r.1)
      exits code e =
          let (r, q, how) = subst (λ f. AtPhase f s.result s.cancelled s.begun) e i.at_phase in
          (r, q, how, Returned-Cleaned s.result r i.returned q)
