-- ===== src/Runner/Streamer/Ending.antt =====
-- That a wait is not in vain: the streams have only to end.
use rules_vmtest.Base.{
  ℕ, suc, ◌+◌, ◌≤◌, Bool-cases, inl, inr, ◌≡◌, refl, ap, ◌⊎◌, false, [], ◌∷◌, ◌++◌, List, arith,
}
use rules_vmtest.Runner.Streamer.{
  StreamType, monitored, detached, Routine, State, ready, in_wait_all, Caller, Label, routine_ends,
  wait_returns, first_wait_passes, wait_all_returns, Step, attach, end, wait, wait_first,
  wait_second, Reach, next,
}
use rules_vmtest.Runner.Streamer.Waiting.{running, running-end, Reach-Counted}

-- `n` goroutines end, in any order, and nothing else happens.
pub data Ends : ℕ → State → State → Type 0 where
  stop : {s : State} → Ends 0 s s
  more :
      {n : ℕ} {s t u : State} {k : StreamType}
      → Step s (routine_ends k) t
      → Ends n t u
      → Ends (suc n) s u

-- How many goroutines are running.
abbrev pub all_running : List Routine → ℕ
all_running rs = running monitored rs + running detached rs

abbrev routine : StreamType → Routine
routine t = record { stream_type = t; ended = false }

-- Each end leaves one goroutine less, and does not move the caller.
step_all_running :
    {s t : State} {l : Label} (k : StreamType)
    → Step s l t
    → l ≡ routine_ends k
    → all_running s.routines ≡ all_running t.routines + 1
step_all_running k (attach u e) q = absurd (ground arith)
step_all_running k (wait e z) q = absurd (ground arith)
step_all_running k (wait_first e z) q = absurd (ground arith)
step_all_running k (wait_second e z) q = absurd (ground arith)
step_all_running k (end before after monitored e) q = omega (
  arith,
  ap all_running e,
  running-end monitored monitored before after,
  running-end detached monitored before after,
)
step_all_running k (end before after detached e) q = omega (
  arith,
  ap all_running e,
  running-end monitored detached before after,
  running-end detached detached before after,
)

Ends-all_running :
    {n : ℕ} {s t : State} → Ends n s t → all_running s.routines ≡ n + all_running t.routines
Ends-all_running stop = omega arith
Ends-all_running (more {k = k} st es) =
    omega (arith, step_all_running k st refl, Ends-all_running es)

Ends-Reach : {n : ℕ} {s t : State} → Reach s → Ends n s t → Reach t
Ends-Reach r stop = r
Ends-Reach r (more st es) = Ends-Reach (next r st) es

-- A goroutine that is running, if there is one.
find_running :
    (rs : List Routine)
    → (all_running rs ≡ 0)
      ⊎ ((before after : List Routine) × (k : StreamType) × (rs ≡ before ++ (routine k ∷ after)))
unfolding running
find_running [] = inl refl
find_running (r ∷ rs) = elim (Bool-cases r.ended) [
  | inr e ↦
      inr
        ([], rs, r.stream_type, ap (λ b. record { stream_type = r.stream_type; ended = b } ∷ rs) e)
  | inl e ↦ elim (find_running rs) [
    | inl z ↦ inl (rw e (omega (arith, z)))
    | inr (before, after, k, q) ↦ inr (r ∷ before, after, k, ap (λ xs. r ∷ xs) q)
  ]
]

-- What the caller can do: a `Wait` and a `WaitAll` return if they are called, and a `WaitAll` that is
-- behind its first wait returns.
abbrev pub Returns : State → Type 0
Returns t =
    let behind : State = record t { caller = in_wait_all } in
    ((t.caller ≡ ready)
      × Step t wait_returns t
      × Step t first_wait_passes behind
      × Step behind wait_all_returns (record t { caller = ready }))
    ⊎ ((t.caller ≡ in_wait_all) × Step t wait_all_returns (record t { caller = ready }))

none_running-Returns :
    (t : State) (caller : Caller)
    → t.caller ≡ caller
    → t.streamer.monitored_group ≡ 0
    → t.streamer.detached_group ≡ 0
    → Returns t
none_running-Returns t ready e m d = inl (e, wait e m, wait_first e m, wait_second refl d)
none_running-Returns t in_wait_all e m d = inr (e, wait_second e d)

-- From every state that can be reached, whichever goroutines end and in whatever order: not more of them
-- end than are running. As long as one is running, one can end next; and as soon as none is, a `Wait` or a
-- `WaitAll` that is called returns, and so does a `WaitAll` that has passed its first wait.
pub Ends-Returns :
    {s t : State} {n : ℕ}
    → Reach s
    → Ends n s t
    → (n ≤ all_running s.routines)
      × (((all_running t.routines ≡ 0) × Returns t)
          ⊎ ((k : StreamType) × (u : State) × Step t (routine_ends k) u))
Ends-Returns {t = t} r es = (omega (arith, Ends-all_running es), goes_on)
  where
    goes_on :
        ((all_running t.routines ≡ 0) × Returns t)
        ⊎ ((k : StreamType) × (u : State) × Step t (routine_ends k) u)
    goes_on = elim (find_running t.routines) [
      | inl z ↦
          let c = Reach-Counted (Ends-Reach r es) in
          inl (
            z,
            none_running-Returns t t.caller refl (omega (arith, c.monitored_count))
                (omega (arith, c.detached_count)),
          )
      | inr (before, after, k, e) ↦ inr (k, _, end before after k e)
    ]
