-- ===== src/Machine/Journal.antt =====
-- `JournalLines` and `WaitForLog` of `machine/machine.go`.
use rules_vmtest.Base.{
  ℕ, suc, ◌+◌, ◌≡◌, refl, ap, Bool, true, false, [], ◌∷◌, ◌++◌, List, Option, none, some, ℤ, pos,
  Text, All, Result, ok, err, if◌then◌else◌, arith, Bool-cases, inl, inr,
}
use rules_vmtest.Machine.Guest.{Guest, IsTimely}
use rules_vmtest.Machine.Retry.{RetryOption, apply_retry_opts}
use rules_vmtest.Machine.Exec.{Failure, timed_out, call_failed, panicked}
use rules_vmtest.Machine.Poll.{
  Attempt, Polled, returned, aborted, expired, out_of_fuel, done, failed, again, settle,
}
use rules_vmtest.Machine.Poll.Runs.{Ends}
use rules_vmtest.Machine.Wait.{Outcome, Round, wait}
use rules_vmtest.Machine.Wait.Total.{IsEnough, wait-Ends}
use rules_vmtest.Machine.Wait.Sound.{TimedEnd}
use rules_vmtest.Machine.Wait.States.{Saw}

pub record JournalConfig : Type 0 where
  pub lines : ℤ
  pub since : Text

abbrev JournalOption : Type 0
JournalOption = JournalConfig → JournalConfig

abbrev with_journal_lines : ℤ → JournalOption
with_journal_lines n c = record c { lines = n }

abbrev with_journal_since : Text → JournalOption
with_journal_since since c = record c { since = since }

abbrev apply_journal : List JournalOption → JournalConfig → JournalConfig
apply_journal [] jc = jc
apply_journal (o ∷ opts) jc = apply_journal opts (o jc)

-- The inner loop of `WaitForLog`: the first line that matches.
unfoldable pub first_match : (Text → Bool) → List Text → Option Text
first_match match [] = none
first_match match (line ∷ lines) = if match line then some line else first_match match lines

abbrev found_attempt : {F : Type 0} → Option Text → Attempt F (Unit {0}) Text
found_attempt none = again tt
found_attempt (some line) = done line

abbrev log_attempt :
    {F E : Type 0} → (Text → Bool) → Result E (List Text) → Attempt F (Unit {0}) Text
log_attempt match (err e) = again tt
log_attempt match (ok lines) = found_attempt (first_match match lines)

module _ (G : Guest) where
  unfoldable pub journal_lines :
      Text → List JournalOption → G.World → Result (Failure G.Error) (List Text) × G.World
  journal_lines unit opts w =
      let jc = apply_journal opts (record { lines = pos 100; since = [] }) in
      let (reply, w') = G.journal_lines unit jc.lines jc.since w in
      (elim reply [ ok lines ↦ ok lines | err e ↦ err (call_failed unit e) ], w')

  abbrev log_round : Text → (Text → Bool) → Round G (Unit {0}) Text
  log_round unit match w =
      let (reply, w') = G.journal_lines unit (pos 0) [] w in (log_attempt match reply, w')

  abbrev wait_for_match :
      ℕ → Text → Text → List RetryOption → Option (Text → Bool) → G.World → Outcome G Text
  wait_for_match fuel unit pattern opts none w = (some (err (panicked pattern)), w)
  wait_for_match fuel unit pattern opts (some match) w =
      let rc = apply_retry_opts opts in
      wait G fuel rc (λ _. timed_out unit rc.timeout) tt (log_round unit match) w

  -- `regexp.MustCompile` panics on a malformed pattern.
  unfoldable pub wait_for_log : ℕ → Text → Text → List RetryOption → G.World → Outcome G Text
  wait_for_log fuel unit pattern opts w = wait_for_match fuel unit pattern opts (G.regexp pattern) w

-- `line` is the first of the lines that matches.
abbrev pub IsFirstMatch : (Text → Bool) → Text → List Text → Type 0
IsFirstMatch match line lines =
    (before after : List Text) × (lines ≡ before ++ line ∷ after)
    × All (λ l. match l ≡ false) before
    × (match line ≡ true)

first_match_sound :
    (match : Text → Bool) (lines : List Text) (line : Text)
    → first_match match lines ≡ some line
    → IsFirstMatch match line lines
unfolding first_match
first_match_sound match [] line h = absurd (cc)
first_match_sound match (l ∷ lines) line h = elim (Bool-cases (match l)) [
  | inl m ↦ ([], lines, ground arith, tt, ground arith)
  | inr m ↦
      let (before, after, e, misses, m') = first_match_sound match lines line (ground arith) in
      (l ∷ before, after, ap (λ r. l ∷ r) e, (m, misses), m')
]

log_done :
    {F E : Type 0} (match : Text → Bool) (r : Result E (List Text)) (line : Text)
    → log_attempt {F = F} match r ≡ done line
    → (lines : List Text) × (r ≡ ok lines) × IsFirstMatch match line lines
log_done match (err e) line h = absurd (cc)
log_done match (ok lines) line h = (lines, refl, first_match_sound match lines line (ground arith))

log_not_failed :
    {F E : Type 0} (match : Text → Bool) (r : Result E (List Text)) (f : F)
    → ¬ (log_attempt match r ≡ failed f)
log_not_failed match r f h = ground arith

module _ (G : Guest) where
  log_ended :
      (unit : Text) (match : Text → Bool) (deadline interval : ℕ)
      (report : Unit {0} → Failure G.Error) (p : Polled (Failure G.Error) (Unit {0}) Text)
      (v : G.World)
      → Ends G deadline interval (log_round G unit match) p v
      → TimedEnd G deadline
          (λ line. Saw G deadline (G.journal_lines unit (pos 0) []) (IsFirstMatch match line))
          (settle report p, v)
  log_ended unit match deadline interval report (returned line) v (w, early, e) =
      let (lines, r, first) =
        log_done match (G.journal_lines unit (pos 0) [] w).0 line (ap (λ t. t.0) e) in
      record { at = w; reply = lines; early = early; last = λ i. (r i, (e i).1); good = first }
  log_ended unit match deadline interval report (aborted f) v (w, early, e) =
      absurd (log_not_failed match (G.journal_lines unit (pos 0) [] w).0 f (ap (λ t. t.0) e))
  log_ended unit match deadline interval report (expired l) v late = late
  log_ended unit match deadline interval report out_of_fuel v h = h

module _ (G : Guest) (timely : IsTimely G) where
  -- With a well-formed pattern, positive pauses and enough fuel `WaitForLog` ends: it returns the first
  -- matching line among the lines of a reply to a call made before the deadline, all of the unit's
  -- journal; or it stops the test, and the deadline has passed.
  pub wait_for_log_sound :
      (fuel : ℕ) (unit pattern : Text) (match : Text → Bool) (opts : List RetryOption) (w : G.World)
      → G.regexp pattern ≡ some match
      → IsEnough fuel (apply_retry_opts opts)
      → let deadline = G.now w + (apply_retry_opts opts).timeout in
        TimedEnd G deadline
          (λ line. Saw G deadline (G.journal_lines unit (pos 0) []) (IsFirstMatch match line))
          (wait_for_log G (suc fuel) unit pattern opts w)
  unfolding wait_for_log
  wait_for_log_sound fuel unit pattern match opts w compiled enough =
      let rc = apply_retry_opts opts in
      let report = λ (_ : Unit {0}). timed_out unit rc.timeout in
      let (p, v, e, ends) =
        wait-Ends G timely fuel rc report tt (log_round G unit match) enough
          (timely.journal_lines_later unit (pos 0) []) w in
      rw (compiled, e) (log_ended G unit match _ rc.interval report p v ends)
