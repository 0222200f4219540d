-- ===== src/Machine/Poll.antt =====
-- The polling loop that the `WaitUntil…` and `WaitFor…` methods of `machine/machine.go` share in shape:
-- `for time.Now().Before(deadline) { attempt; time.Sleep(interval) }`.
pub mod Runs
use rules_vmtest.Base.{ℕ, zero, suc, Bool, Option, none, some, ltb, if◌then◌else◌, Result, ok, err}
use rules_vmtest.Machine.Guest.{Guest}

-- What one round ends in: a `return`, a `t.Fatalf`, or another round, with what the round left in
-- the variables that live across rounds.
pub data Attempt (F L A : Type 0) : Type 0 where
  done : A → Attempt F L A
  failed : F → Attempt F L A
  again : L → Attempt F L A

-- How the loop ends; `expired` when the deadline has come, with the variables of the last round.
pub data Polled (F L A : Type 0) : Type 0 where
  returned : A → Polled F L A
  aborted : F → Polled F L A
  expired : L → Polled F L A
  out_of_fuel : Polled F L A

module _ {F L A W : Type 0} where
  -- Whether the loop ends with the round, or goes on by `rest`.
  abbrev pub next : (L → W → Polled F L A × W) → Attempt F L A → W → Polled F L A × W
  next rest (done a) w = (returned a, w)
  next rest (failed f) w = (aborted f, w)
  next rest (again l) w = rest l w

module _ (G : Guest) {F L A : Type 0} where
  unfoldable pub poll :
      ℕ → ℕ → (G.World → Attempt F L A × G.World) → ℕ → L → G.World → Polled F L A × G.World
  poll deadline interval attempt zero last w = (out_of_fuel, w)
  poll deadline interval attempt (suc fuel) last w =
      let (a, w') = attempt w in
      let rest =
        λ (l : L) (v : G.World). poll deadline interval attempt fuel l (G.sleep interval v) in
      if ltb (G.now w) deadline then next rest a w' else (expired last, w)

-- The end of a method: what the code behind the loop makes of it; `none` if the fuel ran out.
abbrev pub settle : {F L A : Type 0} → (L → F) → Polled F L A → Option (Result F A)
settle fatal (returned a) = some (ok a)
settle fatal (aborted f) = some (err f)
settle fatal (expired l) = some (err (fatal l))
settle fatal out_of_fuel = none
