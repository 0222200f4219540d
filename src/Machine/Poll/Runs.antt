-- ===== src/Machine/Poll/Runs.antt =====
-- The polling loop against a relation that says which runs it has, and enough fuel.
use rules_vmtest.Base.{
  ℕ, zero, suc, ◌+◌, ◌*◌, ◌≤◌, ◌<◌, ◌≡◌, refl, false, arith, ltb, Bool-cases, inl, inr, ltb→lt,
  ltb→ge,
}
use rules_vmtest.Machine.Guest.{Guest}
use rules_vmtest.Machine.Poll.{
  Attempt, done, failed, again, Polled, returned, aborted, expired, out_of_fuel, next, poll,
}

module _ (G : Guest) {F L A : Type 0} (deadline interval : ℕ)
    (attempt : G.World → Attempt F L A × G.World) where
  -- The runs of the loop from its variables and the world to an end and the world behind it.
  pub data Run : L → G.World → Polled F L A → G.World → Type 0 where
    times_out : {l : L} {w : G.World} → deadline ≤ G.now w → Run l w (expired l) w
    returns :
        {l : L} {w w' : G.World} {a : A}
        → G.now w < deadline
        → attempt w ≡ (done a, w')
        → Run l w (returned a) w'
    aborts :
        {l : L} {w w' : G.World} {f : F}
        → G.now w < deadline
        → attempt w ≡ (failed f, w')
        → Run l w (aborted f) w'
    retries :
        {l m : L} {w w' v : G.World} {p : Polled F L A}
        → G.now w < deadline
        → attempt w ≡ (again m, w')
        → Run m (G.sleep interval w') p v
        → Run l w p v

  Run-round :
      (rest : L → G.World → Polled F L A × G.World) (l : L) (w : G.World)
      → G.now w < deadline
      → (r : Attempt F L A × G.World) → attempt w ≡ r
      → ((m : L) → Run m (G.sleep interval r.1) (rest m r.1).0 (rest m r.1).1)
      → Run l w (next rest r.0 r.1).0 (next rest r.0 r.1).1
  Run-round rest l w early (done a, w') e go = returns early e
  Run-round rest l w early (failed f, w') e go = aborts early e
  Run-round rest l w early (again m, w') e go = retries early e (go m)

  -- With positive pauses, a clock that does not run backwards during a round, and fuel for the
  -- rounds that fit before the deadline, the loop ends by one of its runs and not for lack of fuel.
  pub poll_total :
      0 < interval
      → ((d : ℕ) (w : G.World) → G.now w + d ≤ G.now (G.sleep d w))
      → ((w : G.World) → G.now w ≤ G.now (attempt w).1)
      → (fuel : ℕ) (l : L) (w : G.World) → deadline ≤ G.now w + fuel * interval
      → Run l w
          (poll G deadline interval attempt (suc fuel) l w).0
          (poll G deadline interval attempt (suc fuel) l w).1
  unfolding poll
  poll_total pos sleeps later zero l w h =
      let late : ltb (G.now w) deadline ≡ false = ground arith in rw late (times_out (omega arith))
  poll_total pos sleeps later (suc fuel) l w h = elim (Bool-cases (ltb (G.now w) deadline)) [
    | inl early ↦
        let w' = (attempt w).1 in
        let soon : deadline ≤ G.now (G.sleep interval w') + fuel * interval =
          omega (arith, sleeps interval w', later w) in
        rw early (
          Run-round (λ m v. poll G deadline interval attempt (suc fuel) m (G.sleep interval v)) l w
            (ltb→lt _ _ early) (attempt w) refl
            (λ m. poll_total pos sleeps later fuel m (G.sleep interval w') soon))
    | inr late ↦ rw late (times_out (ltb→ge _ _ late))
  ]

  -- What a run ends in says what was seen last, and when.
  abbrev pub Ends : Polled F L A → G.World → Type 0
  Ends (returned a) v = (w : G.World) × (G.now w < deadline) × (attempt w ≡ (done a, v))
  Ends (aborted f) v = (w : G.World) × (G.now w < deadline) × (attempt w ≡ (failed f, v))
  Ends (expired l) v = deadline ≤ G.now v
  Ends out_of_fuel v = ⊥

  pub Run-Ends : {l : L} {w v : G.World} {p : Polled F L A} → Run l w p v → Ends p v
  Run-Ends (times_out h) = h
  Run-Ends (returns {w = w} early e) = (w, early, e)
  Run-Ends (aborts {w = w} early e) = (w, early, e)
  Run-Ends (retries early e r) = Run-Ends r
