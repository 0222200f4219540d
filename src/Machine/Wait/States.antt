-- ===== src/Machine/Wait/States.antt =====
-- What the end of `WaitForUnit`, `WaitForOpenPort`, `WaitForClosedPort` and `WaitForFile` says of the
-- guest. Each theorem also says that the method ends.
use mathlib.Core.Path.{subst}
use rules_vmtest.Base.{
  ℕ, suc, ◌+◌, ◌≤◌, ◌<◌, ◌≡◌, refl, ap, Bool, true, false, not, List, none, some, ℤ, Result, ok,
  err, arith, Text, text, same_iff, if◌then◌else◌,
}
use rules_vmtest.Strconv.{itoa}
use rules_vmtest.Machine.Guest.{Guest, IsTimely, UnitStatus}
use rules_vmtest.Machine.Retry.{RetryOption, apply_retry_opts}
use rules_vmtest.Machine.Exec.{Failure, timed_out, unit_failed}
use rules_vmtest.Machine.Poll.{
  Polled, returned, aborted, expired, out_of_fuel, done, failed, settle,
}
use rules_vmtest.Machine.Poll.Runs.{Ends}
use rules_vmtest.Machine.Wait.{
  Outcome, wait, unit_round, unit_attempt, port_round, file_round, test_attempt, wait_for_unit,
  wait_for_open_port, wait_for_closed_port, wait_for_file,
}
use rules_vmtest.Machine.Wait.Total.{IsEnough, wait-Ends}
use rules_vmtest.Machine.Wait.Sound.{TimedEnd}

module _ {F : Type 0} {E : Type 0} where
  test_done :
      {B A : Type 0} (test : B → Bool) (value : B → A) (r : Result E B) (a : A)
      → test_attempt {F = F} test value r ≡ done a
      → (b : B) × (r ≡ ok b) × (test b ≡ true) × (value b ≡ a)
  test_done test value (ok b) a h = (b, refl, ground arith, ground arith)
  test_done test value (err e) a h = absurd (cc)

  test_not_failed :
      {B A : Type 0} (test : B → Bool) (value : B → A) (r : Result E B) (f : F)
      → ¬ (test_attempt test value r ≡ failed f)
  test_not_failed test value (ok b) f h = ground arith
  test_not_failed test value (err e) f h = cc

unit_done :
    {E : Type 0} (unit : Text) (r : Result E UnitStatus) (a : Unit {0})
    → unit_attempt unit r ≡ done a
    → (s : UnitStatus) × (r ≡ ok s) × (s.active_state ≡ text "active")
unit_done unit (ok s) a h = (s, refl, ground (arith, same_iff s.active_state (text "active")))
unit_done unit (err e) a h = absurd (cc)

unit_fails :
    {E : Type 0} (unit : Text) (r : Result E UnitStatus) (f : Failure E)
    → unit_attempt unit r ≡ failed f
    → (s : UnitStatus) × (r ≡ ok s)
      × (s.active_state ≡ text "failed")
      × (f ≡ unit_failed unit s.sub_state)
unit_fails unit (ok s) f h = (
  s,
  refl,
  ground (arith, same_iff s.active_state (text "failed")),
  ground (arith, same_iff s.active_state (text "failed")),
)
unit_fails unit (err e) f h = absurd (cc)

module _ (G : Guest) where
  -- The reply of the last call, which was made before the deadline, is good.
  pub record Saw {B : Type 0} (deadline : ℕ) (call : G.World → Result G.Error B × G.World)
      (Good : B → Type 0) (v : G.World) : Type 0 where
    pub at : G.World
    pub reply : B
    pub early : G.now at < deadline
    pub last : call at ≡ (ok reply, v)
    pub good : Good reply

  abbrev pub IsActive : UnitStatus → Type 0
  IsActive s = s.active_state ≡ text "active"

  abbrev pub IsFailed : Text → UnitStatus → Type 0
  IsFailed sub s = (s.active_state ≡ text "failed") × (s.sub_state ≡ sub)

  -- The unit was seen active; or it was seen failed, in the sub-state that is reported; or the time
  -- is over.
  abbrev pub UnitEnd : ℕ → Text → Outcome G (Unit {0}) → Type 0
  UnitEnd deadline unit (some (ok a), v) = Saw deadline (G.unit_status unit) IsActive v
  UnitEnd deadline unit (some (err (unit_failed name sub)), v) =
      (name ≡ unit) × Saw deadline (G.unit_status unit) (IsFailed sub) v
  UnitEnd deadline unit (some (err f), v) = deadline ≤ G.now v
  UnitEnd deadline unit (none, v) = ⊥

  unit_ended :
      (deadline interval timeout : ℕ) (unit : Text)
      (p : Polled (Failure G.Error) (Unit {0}) (Unit {0})) (v : G.World)
      → Ends G deadline interval (unit_round G unit) p v
      → UnitEnd deadline unit (settle (λ _. timed_out unit timeout) p, v)
  unit_ended deadline interval timeout unit (returned a) v (w, early, e) =
      let (s, r, active) = unit_done unit (G.unit_status unit w).0 a (ap (λ t. t.0) e) in
      record { at = w; reply = s; early = early; last = λ i. (r i, (e i).1); good = active }
  unit_ended deadline interval timeout unit (aborted f) v (w, early, e) =
      let (s, r, bad, report) = unit_fails unit (G.unit_status unit w).0 f (ap (λ t. t.0) e) in
      rw report (
        refl,
        record { at = w; reply = s; early = early; last = λ i. (r i, (e i).1); good = (bad, refl) },
      )
  unit_ended deadline interval timeout unit (expired l) v late = late
  unit_ended deadline interval timeout unit out_of_fuel v h = h

  -- A call whose reply is tested, in a loop that goes on until the test holds.
  pub test_ended :
      {A B : Type 0} (call : G.World → Result G.Error B × G.World) (test : B → Bool) (value : B → A)
      (Good : A → B → Type 0)
      → ((b : B) → test b ≡ true → Good (value b) b)
      → (deadline interval : ℕ) (report : Unit {0} → Failure G.Error)
        (p : Polled (Failure G.Error) (Unit {0}) A) (v : G.World)
      → Ends G deadline interval (λ w. (test_attempt test value (call w).0, (call w).1)) p v
      → TimedEnd G deadline (λ a. Saw deadline call (Good a)) (settle report p, v)
  test_ended call test value Good meaning deadline interval report (returned a) v (w, early, e) =
      let (b, r, holds, same_value) = test_done test value (call w).0 a (ap (λ t. t.0) e) in
      record {
        at = w;
        reply = b;
        early = early;
        last = λ i. (r i, (e i).1);
        good = subst (λ a'. Good a' b) same_value (meaning b holds);
      }
  test_ended call test value Good meaning deadline interval report (aborted f) v (w, early, e) =
      absurd (test_not_failed test value (call w).0 f (ap (λ t. t.0) e))
  test_ended call test value Good meaning deadline interval report (expired l) v late = late
  test_ended call test value Good meaning deadline interval report out_of_fuel v h = h

module _ (G : Guest) (timely : IsTimely G) where
  -- With positive pauses and enough fuel `WaitForUnit` ends: it returns after a call, made before the
  -- deadline, that found the unit active; or it stops the test after such a call that found the unit
  -- failed, and reports its sub-state; or it stops the test, and the deadline has passed.
  pub wait_for_unit_sound :
      (fuel : ℕ) (unit : Text) (opts : List RetryOption) (w : G.World)
      → IsEnough fuel (apply_retry_opts opts)
      → let deadline = G.now w + (apply_retry_opts opts).timeout in
        UnitEnd G deadline unit (wait_for_unit G (suc fuel) unit opts w)
  unfolding wait_for_unit
  wait_for_unit_sound fuel unit opts w enough =
      let rc = apply_retry_opts opts in
      let (p, v, e, ends) =
        wait-Ends G timely fuel rc (λ (_ : Unit {0}). timed_out unit rc.timeout) tt
          (unit_round G unit) enough (timely.unit_status_later unit) w in
      rw e (unit_ended G _ rc.interval rc.timeout unit p v ends)

  -- With positive pauses and enough fuel `WaitForOpenPort` and `WaitForClosedPort` end: each returns
  -- after a call, made before the deadline, that found the port open, or closed; or it stops the
  -- test, and the deadline has passed.
  pub wait_for_port_sound :
      (fuel : ℕ) (port : ℤ) (opts : List RetryOption) (w : G.World)
      → IsEnough fuel (apply_retry_opts opts)
      → let deadline = G.now w + (apply_retry_opts opts).timeout in
        TimedEnd G deadline
          (λ _. Saw G deadline (G.check_port port) (λ found. found ≡ true))
          (wait_for_open_port G (suc fuel) port opts w)
        × TimedEnd G deadline
            (λ _. Saw G deadline (G.check_port port) (λ found. found ≡ false))
            (wait_for_closed_port G (suc fuel) port opts w)
  unfolding wait_for_open_port wait_for_closed_port
  wait_for_port_sound fuel port opts w enough = (waited true, waited false)
    where
      waited :
          (wanted : Bool)
          → TimedEnd G
              (G.now w + (apply_retry_opts opts).timeout)
              (λ _.
                Saw G
                  (G.now w + (apply_retry_opts opts).timeout)
                  (G.check_port port)
                  (λ found. found ≡ wanted))
              (wait G
                (suc fuel)
                (apply_retry_opts opts)
                (λ (_ : Unit {0}). timed_out (itoa port) (apply_retry_opts opts).timeout)
                tt
                (port_round G wanted port)
                w)
      waited wanted =
          let rc = apply_retry_opts opts in
          let report = λ (_ : Unit {0}). timed_out (itoa port) rc.timeout in
          let (p, v, e, ends) =
            wait-Ends G timely fuel rc report tt (port_round G wanted port) enough
              (timely.check_port_later port) w in
          rw e (
            test_ended G (G.check_port port) (λ found. if wanted then found else not found)
              (λ _. tt) (λ _ found. found ≡ wanted) (λ found h. ground arith) _ rc.interval report p
              v ends)

  -- With positive pauses and enough fuel `WaitForFile` ends: it returns after a call, made before the
  -- deadline, that found the file; or it stops the test, and the deadline has passed.
  pub wait_for_file_sound :
      (fuel : ℕ) (path : Text) (opts : List RetryOption) (w : G.World)
      → IsEnough fuel (apply_retry_opts opts)
      → let deadline = G.now w + (apply_retry_opts opts).timeout in
        TimedEnd G deadline
          (λ _. Saw G deadline (G.stat path) (λ s. s.exists ≡ true))
          (wait_for_file G (suc fuel) path opts w)
  unfolding wait_for_file
  wait_for_file_sound fuel path opts w enough =
      let rc = apply_retry_opts opts in
      let report = λ (_ : Unit {0}). timed_out path rc.timeout in
      let (p, v, e, ends) =
        wait-Ends G timely fuel rc report tt (file_round G path) enough (timely.stat_later path)
          w in
      rw e (
        test_ended G (G.stat path) (λ s. s.exists) (λ _. tt) (λ _ s. s.exists ≡ true) (λ s h. h) _
          rc.interval report p v ends)
