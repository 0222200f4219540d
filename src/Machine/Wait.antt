-- ===== src/Machine/Wait.antt =====
-- The polling methods of `machine/machine.go`. Each takes the fuel of its loop first; a `none` says that
-- the fuel ran out. A message that a method prints when it times out is the last argument of `settle`.
pub mod Total
pub mod Sound
pub mod States
use rules_vmtest.Base.{
  ℕ, suc, ◌+◌, Bool, true, false, not, ◌&&◌, ◌||◌, [], ◌∷◌, List, Option, none, some, ℤ, pos,
  is_zero, Text, text, same, is_empty, if◌then◌else◌, Result, ok, err,
}
use rules_vmtest.Strings.{contains, trim_space}
use rules_vmtest.Strconv.{itoa}
use rules_vmtest.Machine.Guest.{Guest, UnitStatus, FileStat, HttpResponse}
use rules_vmtest.Machine.Retry.{RetryConfig, RetryOption, apply_retry_opts, default_retry}
use rules_vmtest.Machine.Exec.{
  ExecResult, Failure, timed_out, timed_out_error, timed_out_exit, unit_failed, panicked, execute,
}
use rules_vmtest.Machine.Poll.{Attempt, done, failed, again, poll, settle}

-- `lastStdout`, `lastStderr`, `lastExitCode` and `lastErr` before the first round.
abbrev pub nothing_yet : {E : Type 0} → ExecResult E
nothing_yet = record { stdout = []; stderr = []; exit_code = pos 0; error = none }

-- The report behind the loop of a command: the error of the last round comes first.
abbrev pub command_timeout : {E : Type 0} → Text → ℕ → ExecResult E → Option E → Failure E
command_timeout cmd timeout r (some e) = timed_out_error cmd timeout e
command_timeout cmd timeout r none = timed_out_exit cmd timeout r

abbrev pub is_none : {E : Type 0} → Option E → Bool
is_none none = true
is_none (some e) = false

-- The test at the end of a round that runs a command.
abbrev pub command_attempt :
    {F E : Type 0} → (Text → Bool) → ExecResult E → Attempt F (ExecResult E) Text
command_attempt match r =
    if is_none r.error && is_zero r.exit_code && match r.stdout then done r.stdout else again r

-- The reply of `UnitStatus` in a round of `WaitForUnit`.
abbrev pub unit_attempt :
    {E : Type 0} → Text → Result E UnitStatus → Attempt (Failure E) (Unit {0}) (Unit {0})
unit_attempt unit (err e) = again tt
unit_attempt unit (ok status) =
    if same status.active_state (text "active")
    then done tt
    else if same status.active_state (text "failed")
    then failed (unit_failed unit status.sub_state)
    else again tt

-- A round that returns if a test on the reply holds, and goes on otherwise and on an error.
abbrev pub test_attempt :
    {F E B A : Type 0} → (B → Bool) → (B → A) → Result E B → Attempt F (Unit {0}) A
test_attempt test value (err e) = again tt
test_attempt test value (ok b) = if test b then done (value b) else again tt

-- `OutputContains`
unfoldable pub output_contains : Text → Text → Bool
output_contains substr stdout = contains stdout substr

-- `OutputEquals`
unfoldable pub output_equals : Text → Text → Bool
output_equals exact stdout = same (trim_space stdout) exact

-- `OutputMatches`: `regexp.MustCompile` panics on a malformed pattern.
unfoldable pub output_matches :
    {E : Type 0} → (Text → Option (Text → Bool)) → Text → Result (Failure E) (Text → Bool)
output_matches regexp pattern = elim (regexp pattern) [
  | none ↦ err (panicked pattern)
  | some match ↦ ok match
]

module _ (G : Guest) where
  abbrev pub Outcome : Type 0 → Type 0
  Outcome A = Option (Result (Failure G.Error) A) × G.World

  abbrev pub Round : Type 0 → Type 0 → Type 0
  Round L A = G.World → Attempt (Failure G.Error) L A × G.World

  -- `rc`, the deadline and the loop, for a method with no variables across rounds but `L`.
  abbrev pub wait :
      {L A : Type 0} → ℕ → RetryConfig → (L → Failure G.Error) → L → Round L A → G.World → Outcome A
  wait fuel rc report start round w =
      let (p, v) = poll G (G.now w + rc.timeout) rc.interval round fuel start w in
      (settle report p, v)

  -- A round of `WaitUntilSucceeds` and of `WaitUntilOutput`.
  abbrev pub command_round : Text → (Text → Bool) → Round (ExecResult G.Error) Text
  command_round cmd match w = let (r, w') = execute G cmd w in (command_attempt match r, w')

  unfoldable pub wait_until_succeeds : ℕ → Text → List RetryOption → G.World → Outcome Text
  wait_until_succeeds fuel cmd opts w =
      let rc = apply_retry_opts opts in
      wait fuel rc (λ r. command_timeout cmd rc.timeout r r.error) nothing_yet
        (command_round cmd (λ _. true)) w

  unfoldable pub wait_until_output :
      ℕ → Text → (Text → Bool) → List RetryOption → G.World → Outcome Text
  wait_until_output fuel cmd match opts w =
      let rc = apply_retry_opts opts in
      wait fuel rc (λ r. command_timeout cmd rc.timeout r r.error) nothing_yet
        (command_round cmd match) w

  abbrev pub unit_round : Text → Round (Unit {0}) (Unit {0})
  unit_round unit w = let (reply, w') = G.unit_status unit w in (unit_attempt unit reply, w')

  unfoldable pub wait_for_unit : ℕ → Text → List RetryOption → G.World → Outcome (Unit {0})
  wait_for_unit fuel unit opts w =
      let rc = apply_retry_opts opts in
      wait fuel rc (λ _. timed_out unit rc.timeout) tt (unit_round unit) w

  abbrev pub port_round : Bool → ℤ → Round (Unit {0}) (Unit {0})
  port_round wanted port w =
      let (reply, w') = G.check_port port w in
      (test_attempt (λ open_now. if wanted then open_now else not open_now) (λ _. tt) reply, w')

  unfoldable pub wait_for_open_port : ℕ → ℤ → List RetryOption → G.World → Outcome (Unit {0})
  wait_for_open_port fuel port opts w =
      let rc = apply_retry_opts opts in
      wait fuel rc (λ _. timed_out (itoa port) rc.timeout) tt (port_round true port) w

  unfoldable pub wait_for_closed_port : ℕ → ℤ → List RetryOption → G.World → Outcome (Unit {0})
  wait_for_closed_port fuel port opts w =
      let rc = apply_retry_opts opts in
      wait fuel rc (λ _. timed_out (itoa port) rc.timeout) tt (port_round false port) w

  abbrev pub file_round : Text → Round (Unit {0}) (Unit {0})
  file_round path w =
      let (reply, w') = G.stat path w in (test_attempt (λ s. s.exists) (λ _. tt) reply, w')

  unfoldable pub wait_for_file : ℕ → Text → List RetryOption → G.World → Outcome (Unit {0})
  wait_for_file fuel path opts w =
      let rc = apply_retry_opts opts in
      wait fuel rc (λ _. timed_out path rc.timeout) tt (file_round path) w
