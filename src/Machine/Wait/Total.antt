-- ===== src/Machine/Wait/Total.antt =====
-- With a positive pause and fuel for the rounds that fit before the deadline, a polling method ends,
-- and its end is that of a run of its loop.
use rules_vmtest.Base.{ℕ, suc, ◌+◌, ◌*◌, ◌≤◌, ◌<◌, ◌≡◌, refl, arith}
use rules_vmtest.Machine.Guest.{Guest, IsTimely}
use rules_vmtest.Machine.Retry.{RetryConfig}
use rules_vmtest.Machine.Exec.{Failure}
use rules_vmtest.Machine.Poll.{Polled, poll, settle}
use rules_vmtest.Machine.Poll.Runs.{Ends, Run-Ends, poll_total}
use rules_vmtest.Machine.Wait.{Round, wait}

-- Pauses are positive, and the rounds before the time runs out are at most the fuel.
pub record IsEnough (fuel : ℕ) (rc : RetryConfig) : Type 0 where
  pub pauses : 0 < rc.interval
  pub suffices : rc.timeout ≤ fuel * rc.interval

module _ (G : Guest) (timely : IsTimely G) where
  pub wait-Ends :
      {L A : Type 0} (fuel : ℕ) (rc : RetryConfig) (report : L → Failure G.Error) (start : L)
      (round : Round G L A)
      → IsEnough fuel rc
      → ((w : G.World) → G.now w ≤ G.now (round w).1)
      → (w : G.World)
      → (p : Polled (Failure G.Error) L A) × (v : G.World) × (wait G
            (suc fuel)
            rc
            report
            start
            round
            w
          ≡ (settle report p, v))
        × Ends G (G.now w + rc.timeout) rc.interval round p v
  wait-Ends fuel rc report start round enough later w =
      let r = poll G (G.now w + rc.timeout) rc.interval round (suc fuel) start w in
      (
        r.0,
        r.1,
        refl,
        Run-Ends G (G.now w + rc.timeout) rc.interval round (
            poll_total G (G.now w + rc.timeout) rc.interval round enough.pauses timely.sleep_long
              later fuel start w (omega (arith, enough.suffices))),
      )
