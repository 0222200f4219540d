-- ===== src/Machine/Wait/Sound.antt =====
-- What a polling method's end says of the guest. Each theorem also says that the method ends.
use rules_vmtest.Base.{
  ℕ, suc, ◌+◌, ◌*◌, ◌≤◌, ◌<◌, ◌≡◌, Bool, true, List, none, some, ℤ, pos, negsuc, ap, ok, err, arith,
  Text, is_zero,
}
use rules_vmtest.Machine.Guest.{Guest, IsTimely}
use rules_vmtest.Machine.Retry.{RetryOption, second, apply_retry_opts}
use rules_vmtest.Machine.Exec.{Failure, ExecResult, execute}
use rules_vmtest.Machine.Poll.{
  Polled, returned, aborted, expired, out_of_fuel, done, failed, settle,
}
use rules_vmtest.Machine.Poll.Runs.{Ends}
use rules_vmtest.Machine.Wait.{
  Outcome, command_round, command_attempt, wait_until_succeeds, wait_until_output, nothing_yet,
  command_timeout,
}
use rules_vmtest.Machine.Wait.Total.{IsEnough, wait-Ends}

is_zero-eq : (n : ℤ) → is_zero n ≡ true → n ≡ pos 0
is_zero-eq (pos n) h = ground arith
is_zero-eq (negsuc n) h = cc

attempt_done :
    {F E : Type 0} (match : Text → Bool) (r : ExecResult E) (out : Text)
    → command_attempt {F = F} match r ≡ done out
    → (r.error ≡ none) × (r.exit_code ≡ pos 0) × (r.stdout ≡ out) × (match out ≡ true)
attempt_done match r out h = ground (arith, is_zero-eq r.exit_code)

not_failed :
    {F E : Type 0} (match : Text → Bool) (r : ExecResult E) (f : F)
    → ¬ (command_attempt match r ≡ failed f)
not_failed match r f h = ground arith

module _ (G : Guest) where
  -- A command ran before the deadline, ended well and left `out`, which matches.
  pub record RanWell (deadline : ℕ) (cmd : Text) (match : Text → Bool) (out : Text) (v : G.World)
      : Type 0 where
    pub at : G.World
    pub early : G.now at < deadline
    pub last : (execute G cmd at).1 ≡ v
    pub no_error : (execute G cmd at).0.error ≡ none
    pub exit_zero : (execute G cmd at).0.exit_code ≡ pos 0
    pub output : (execute G cmd at).0.stdout ≡ out
    pub matches : match out ≡ true

  -- The end of a method that returns only after `Seen`, and reports otherwise that its time is over.
  abbrev pub TimedEnd : {A : Type 0} → ℕ → (A → G.World → Type 0) → Outcome G A → Type 0
  TimedEnd deadline Seen (some (ok a), v) = Seen a v
  TimedEnd deadline Seen (some (err f), v) = deadline ≤ G.now v
  TimedEnd deadline Seen (none, v) = ⊥

  round-RanWell :
      (deadline : ℕ) (cmd : Text) (match : Text → Bool) (w v : G.World) (out : Text)
      → G.now w < deadline
      → command_round G cmd match w ≡ (done out, v)
      → RanWell deadline cmd match out v
  round-RanWell deadline cmd match w v out early e =
      let (no_error, exit_zero, output, matches) =
        attempt_done match (execute G cmd w).0 out (ap (λ t. t.0) e) in
      record {
        at = w;
        early = early;
        last = ap (λ t. t.1) e;
        no_error = no_error;
        exit_zero = exit_zero;
        output = output;
        matches = matches;
      }

  command_end :
      (deadline interval : ℕ) (cmd : Text) (match : Text → Bool)
      (report : ExecResult G.Error → Failure G.Error)
      (p : Polled (Failure G.Error) (ExecResult G.Error) Text) (v : G.World)
      → Ends G deadline interval (command_round G cmd match) p v
      → TimedEnd deadline (RanWell deadline cmd match) (settle report p, v)
  command_end deadline interval cmd match report (returned out) v (w, early, e) =
      round-RanWell deadline cmd match w v out early e
  command_end deadline interval cmd match report (aborted f) v (w, early, e) =
      absurd (not_failed match (execute G cmd w).0 f (ap (λ t. t.0) e))
  command_end deadline interval cmd match report (expired l) v late = late
  command_end deadline interval cmd match report out_of_fuel v h = h

module _ (G : Guest) (timely : IsTimely G) where
  execute_later : (cmd : Text) (w : G.World) → G.now w ≤ G.now (execute G cmd w).1
  unfolding execute
  execute_later cmd w = timely.exec_later cmd (120 * second) w

  -- With positive pauses and enough fuel `WaitUntilOutput` ends: it returns the output of a run of
  -- the command that began before the deadline, was the last one, met no error, exited with 0 and
  -- matches; or it stops the test, and then the deadline has passed.
  pub wait_until_output_sound :
      (fuel : ℕ) (cmd : Text) (match : Text → Bool) (opts : List RetryOption) (w : G.World)
      → IsEnough fuel (apply_retry_opts opts)
      → let deadline = G.now w + (apply_retry_opts opts).timeout in
        TimedEnd G deadline
          (RanWell G deadline cmd match)
          (wait_until_output G (suc fuel) cmd match opts w)
  unfolding wait_until_output
  wait_until_output_sound fuel cmd match opts w enough =
      let rc = apply_retry_opts opts in
      let report = λ (r : ExecResult G.Error). command_timeout cmd rc.timeout r r.error in
      let (p, v, e, ends) =
        wait-Ends G timely fuel rc report nothing_yet (command_round G cmd match) enough
          (execute_later cmd) w in
      rw e (command_end G _ rc.interval cmd match report p v ends)

  -- With positive pauses and enough fuel `WaitUntilSucceeds` ends: it returns the output of a run of
  -- the command that began before the deadline, was the last one, met no error and exited with 0; or
  -- it stops the test, and then the deadline has passed.
  pub wait_until_succeeds_sound :
      (fuel : ℕ) (cmd : Text) (opts : List RetryOption) (w : G.World)
      → IsEnough fuel (apply_retry_opts opts)
      → let deadline = G.now w + (apply_retry_opts opts).timeout in
        TimedEnd G deadline
          (RanWell G deadline cmd (λ _. true))
          (wait_until_succeeds G (suc fuel) cmd opts w)
  unfolding wait_until_succeeds
  wait_until_succeeds_sound fuel cmd opts w enough =
      let rc = apply_retry_opts opts in
      let report = λ (r : ExecResult G.Error). command_timeout cmd rc.timeout r r.error in
      let (p, v, e, ends) =
        wait-Ends G timely fuel rc report nothing_yet (command_round G cmd (λ _. true)) enough
          (execute_later cmd) w in
      rw e (command_end G _ rc.interval cmd (λ _. true) report p v ends)
