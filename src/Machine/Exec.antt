-- ===== src/Machine/Exec.antt =====
-- Running commands on the guest: `Execute`, `Succeed`, `Fail`, and the ways a method of
-- `machine/machine.go` can fail the test.
pub mod Outcomes
use rules_vmtest.Base.{
  ℕ, ◌*◌, not, [], Option, none, some, ℤ, negsuc, is_zero, Text, if◌then◌else◌, Result, ok, err,
}
use rules_vmtest.Machine.Guest.{Guest, ExecResponse}
use rules_vmtest.Machine.Retry.{second}

-- What `Execute` returns: stdout, stderr, the exit code and the error, if there is one.
pub record ExecResult (E : Type 0) : Type 0 where
  pub stdout : Text
  pub stderr : Text
  pub exit_code : ℤ
  pub error : Option E

-- The calls of `t.Fatalf`, with what they report.
pub data Failure (E : Type 0) : Type 0 where
  rpc_error : Text → E → Failure E
  bad_exit : Text → ExecResult E → Failure E
  unexpected_success : Text → Failure E
  timed_out : Text → ℕ → Failure E
  timed_out_error : Text → ℕ → E → Failure E
  timed_out_exit : Text → ℕ → ExecResult E → Failure E
  unit_failed : Text → Text → Failure E
  no_such_file : Text → Failure E
  call_failed : Text → E → Failure E
  panicked : Text → Failure E

module _ (G : Guest) where
  abbrev exec_result : Result G.Error ExecResponse → ExecResult G.Error
  exec_result (err e) = record { stdout = []; stderr = []; exit_code = negsuc 0; error = some e }
  exec_result (ok r) = record {
    stdout = r.stdout;
    stderr = r.stderr;
    exit_code = r.exit_code;
    error = none;
  }

  unfoldable pub execute_with_timeout : Text → ℕ → G.World → ExecResult G.Error × G.World
  execute_with_timeout cmd timeout w =
      let (reply, w') = G.exec cmd timeout w in (exec_result reply, w')

  unfoldable pub execute : Text → G.World → ExecResult G.Error × G.World
  unfolding execute_with_timeout
  execute cmd w = execute_with_timeout cmd (120 * second) w

  abbrev pub succeed_outcome :
      Text → ExecResult G.Error → Option G.Error → Result (Failure G.Error) Text
  succeed_outcome cmd r (some e) = err (rpc_error cmd e)
  succeed_outcome cmd r none =
      if not (is_zero r.exit_code) then err (bad_exit cmd r) else ok r.stdout

  unfoldable pub succeed : Text → G.World → Result (Failure G.Error) Text × G.World
  unfolding execute
  succeed cmd w = let (r, w') = execute cmd w in (succeed_outcome cmd r r.error, w')

  abbrev pub fail_outcome :
      Text → ExecResult G.Error → Option G.Error → Result (Failure G.Error) (Unit {0})
  fail_outcome cmd r (some e) = err (rpc_error cmd e)
  fail_outcome cmd r none = if is_zero r.exit_code then err (unexpected_success cmd) else ok tt

  unfoldable pub fail : Text → G.World → Result (Failure G.Error) (Unit {0}) × G.World
  unfolding execute
  fail cmd w = let (r, w') = execute cmd w in (fail_outcome cmd r r.error, w')
