-- ===== src/Machine/Exec/Outcomes.antt =====
-- `Succeed` and `Fail` on the same command.
use rules_vmtest.Base.{
  ◌≡◌, refl, ◌⊎◌, inl, inr, true, false, none, some, is_zero, Text, Bool-cases, Option-cases,
  Result, ok, err,
}
use rules_vmtest.Machine.Guest.{Guest}
use rules_vmtest.Machine.Exec.{
  ExecResult, Failure, rpc_error, bad_exit, unexpected_success, execute, succeed, succeed_outcome,
  fail, fail_outcome,
}

module _ (G : Guest) where
  -- How the two end on the reply to a command.
  abbrev pub Opposite :
      Text
      → ExecResult G.Error
      → Result (Failure G.Error) Text
      → Result (Failure G.Error) (Unit {0})
      → Type 0
  Opposite cmd r s f =
      ((e : G.Error) × (r.error ≡ some e)
        × (s ≡ err (rpc_error cmd e))
        × (f ≡ err (rpc_error cmd e)))
      ⊎ ((r.error ≡ none)
          × (is_zero r.exit_code ≡ true)
          × (s ≡ ok r.stdout)
          × (f ≡ err (unexpected_success cmd)))
      ⊎ ((r.error ≡ none)
          × (is_zero r.exit_code ≡ false)
          × (s ≡ err (bad_exit cmd r))
          × (f ≡ ok tt))

  outcomes-Opposite :
      (cmd : Text) (r : ExecResult G.Error)
      → Opposite cmd r (succeed_outcome G cmd r r.error) (fail_outcome G cmd r r.error)
  outcomes-Opposite cmd r = elim (Option-cases r.error) [
    | inr (e, eq) ↦ inl (e, eq, rw eq refl, rw eq refl)
    | inl eq ↦ elim (Bool-cases (is_zero r.exit_code)) [
      | inl z ↦ inr (inl (eq, z, rw (eq, z) refl, rw (eq, z) refl))
      | inr z ↦ inr (inr (eq, z, rw (eq, z) refl, rw (eq, z) refl))
    ]
  ]

  -- From the same world `Succeed` and `Fail` run the same command once and leave the same world behind. If
  -- the call fails, both stop the test with its error. Else, if the exit code is 0, `Succeed` returns the
  -- output and `Fail` stops the test; and if not, `Succeed` stops the test with the reply and `Fail` returns.
  pub succeed-Opposite :
      (cmd : Text) (w : G.World)
      → Opposite cmd (execute G cmd w).0 (succeed G cmd w).0 (fail G cmd w).0
        × ((succeed G cmd w).1 ≡ (execute G cmd w).1)
        × ((fail G cmd w).1 ≡ (execute G cmd w).1)
  unfolding succeed fail
  succeed-Opposite cmd w = (outcomes-Opposite cmd (execute G cmd w).0, refl, refl)
