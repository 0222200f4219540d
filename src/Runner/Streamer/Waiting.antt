-- ===== src/Runner/Streamer/Waiting.antt =====
-- What the wait groups count, and what has ended when a wait returns.
use mathlib.Core.Path.{subst}
use rules_vmtest.Base.{
  ℕ, ◌+◌, ◌<◌, ◌≡◌, refl, sym, ap, ◌∙◌, Bool, true, false, [], ◌∷◌, ◌++◌, List, All, arith,
}
use rules_vmtest.Runner.Streamer.{
  group, routine_ends, StreamType, monitored, detached, add_one, one_done, Routine, in_wait_all,
  State, Label, wait_returns, wait_all_returns, Step, attach, end, wait, wait_first, wait_second,
  Reach, here, next,
}

-- 1 if the two types are the same, and 0 if not.
abbrev pub one_if_same : StreamType → StreamType → ℕ
one_if_same monitored monitored = 1
one_if_same monitored detached = 0
one_if_same detached monitored = 0
one_if_same detached detached = 1

-- 1 for a goroutine that is running on a stream of the type.
abbrev pub runs_on : StreamType → StreamType → Bool → ℕ
runs_on t u true = 0
runs_on t u false = one_if_same t u

-- How many goroutines are running on streams of the type.
unfoldable pub running : StreamType → List Routine → ℕ
running t [] = 0
running t (r ∷ rs) = runs_on t r.stream_type r.ended + running t rs

pub running-append :
    (t : StreamType) (xs ys : List Routine) → running t (xs ++ ys) ≡ running t xs + running t ys
unfolding running
running-append t [] ys = omega arith
running-append t (x ∷ xs) ys = omega (arith, running-append t xs ys)

abbrev routine : StreamType → Bool → Routine
routine t ended = record { stream_type = t; ended = ended }

running-attach :
    (t u : StreamType) (rs : List Routine)
    → running t (rs ++ (routine u false ∷ [])) ≡ running t rs + one_if_same t u
unfolding running
running-attach t u rs = omega (arith, running-append t rs (routine u false ∷ []))

pub running-end :
    (t u : StreamType) (before after : List Routine)
    → running t (before ++ (routine u false ∷ after))
      ≡ running t (before ++ (routine u true ∷ after)) + one_if_same t u
unfolding running
running-end t u before after = omega (
  arith,
  running-append t before (routine u false ∷ after),
  running-append t before (routine u true ∷ after),
)

-- Each group counts the goroutines that run on its streams; and behind the first wait of `WaitAll` there
-- are none on monitored streams.
pub record Counted (s : State) : Type 0 where
  pub monitored_count : s.streamer.monitored_group ≡ running monitored s.routines
  pub detached_count : s.streamer.detached_group ≡ running detached s.routines
  pub waited : s.caller ≡ in_wait_all → s.streamer.monitored_group ≡ 0

pub Step-Counted : {s t : State} {l : Label} → Step s l t → Counted s → Counted t
unfolding add_one one_done
Step-Counted {s} (attach monitored r) c = record {
  monitored_count = omega (arith, c.monitored_count, running-attach monitored monitored s.routines);
  detached_count = omega (arith, c.detached_count, running-attach detached monitored s.routines);
  waited = λ w. absurd (ground arith);
}
Step-Counted {s} (attach detached r) c = record {
  monitored_count = omega (arith, c.monitored_count, running-attach monitored detached s.routines);
  detached_count = omega (arith, c.detached_count, running-attach detached detached s.routines);
  waited = λ w. absurd (ground arith);
}
Step-Counted (end before after monitored e) c = record {
  monitored_count = omega (
    arith,
    c.monitored_count,
    ap (running monitored) e,
    running-end monitored monitored before after,
  );
  detached_count = omega (
    arith,
    c.detached_count,
    ap (running detached) e,
    running-end detached monitored before after,
  );
  waited = λ w. omega (arith, c.waited w);
}
Step-Counted (end before after detached e) c = record {
  monitored_count = omega (
    arith,
    c.monitored_count,
    ap (running monitored) e,
    running-end monitored detached before after,
  );
  detached_count = omega (
    arith,
    c.detached_count,
    ap (running detached) e,
    running-end detached detached before after,
  );
  waited = λ w. omega (arith, c.waited w);
}
Step-Counted (wait r z) c = c
Step-Counted (wait_first r z) c = record {
  monitored_count = c.monitored_count;
  detached_count = c.detached_count;
  waited = λ _. z;
}
Step-Counted (wait_second r z) c = record {
  monitored_count = c.monitored_count;
  detached_count = c.detached_count;
  waited = λ w. absurd (ground arith);
}

pub Reach-Counted : {s : State} → Reach s → Counted s
unfolding running
Reach-Counted here = record {
  monitored_count = refl;
  detached_count = refl;
  waited = λ w. absurd (ground arith);
}
Reach-Counted (next r st) = Step-Counted st (Reach-Counted r)

-- No goroutine is running on a stream of the type.
abbrev pub AllEnded : StreamType → List Routine → Type 0
AllEnded t rs = All (λ r. r.stream_type ≡ t → r.ended ≡ true) rs

all_ended : (t : StreamType) (rs : List Routine) → running t rs ≡ 0 → AllEnded t rs
unfolding running
all_ended t [] h = tt
all_ended t (r ∷ rs) h = (λ e. ground arith, all_ended t rs (omega arith))

ends_same : {t u : StreamType} → routine_ends t ≡ routine_ends u → t ≡ u
ends_same q = cc

-- A goroutine that is running is counted.
counted :
    {s : State} (t : StreamType) (before after : List Routine)
    → Counted s
    → s.routines ≡ before ++ (routine t false ∷ after)
    → 0 < group t s.streamer
counted monitored before after c e = omega (
  arith,
  c.monitored_count,
  ap (running monitored) e,
  running-end monitored monitored before after,
)
counted detached before after c e =
    omega
      (arith, c.detached_count, ap (running detached) e, running-end detached detached before after)

-- When `Wait` returns, every goroutine on a monitored stream that has been attached so far has ended; when
-- `WaitAll` returns, every goroutine has; and no goroutine that ends takes its group below zero: whatever
-- the order in which the goroutines end and streams are attached.
pub wait-AllEnded :
    {s t : State} {l : Label}
    → Reach s
    → Step s l t
    → (l ≡ wait_returns → AllEnded monitored t.routines)
      × (l ≡ wait_all_returns → AllEnded monitored t.routines × AllEnded detached t.routines)
      × ((u : StreamType) → l ≡ routine_ends u → 0 < group u s.streamer)
wait-AllEnded r (attach u e) =
    (λ q. absurd (ground arith), λ q. absurd (ground arith), λ v q. absurd (ground arith))
wait-AllEnded {s} r (end before after u e) = (
  λ q. absurd (ground arith),
  λ q. absurd (ground arith),
  λ v q.
      subst (λ x. 0 < group x s.streamer) (ends_same q)
        (counted u before after (Reach-Counted r) e),
)
wait-AllEnded {s} r (wait e z) =
    let c = Reach-Counted r in
    (
      λ q. all_ended monitored s.routines (sym c.monitored_count ∙ z),
      λ q. absurd (ground arith),
      λ v q. absurd (ground arith),
    )
wait-AllEnded r (wait_first e z) =
    (λ q. absurd (ground arith), λ q. absurd (ground arith), λ v q. absurd (ground arith))
wait-AllEnded {s} r (wait_second e z) =
    let c = Reach-Counted r in
    (
      λ q. absurd (ground arith),
      λ q. (
        all_ended monitored s.routines (sym c.monitored_count ∙ c.waited e),
        all_ended detached s.routines (sym c.detached_count ∙ z),
      ),
      λ v q. absurd (ground arith),
    )
