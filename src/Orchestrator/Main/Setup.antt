-- ===== src/Orchestrator/Main/Setup.antt =====
-- What setting up a session does: it makes windows, and nothing else.
use rules_vmtest.Base.{
  refl, Bool, true, false, [], ◌∷◌, List, Option, none, some, Text, text, same, All, All-append,
  Result, ok, err, Bool-cases, inl, inr,
}
use rules_vmtest.Orchestrator.Jobs.{Job}
use rules_vmtest.Orchestrator.Tmux.{
  Step, tmux, sleep, System, State, do_step, tenth_second, list_args, list_windows, has_window,
  check_window, window_args, start_with, start_window, new_window_args, create, create_window,
  create_windows, ensure_window, ensure_windows, contains_window, set_up_new, after_create, set_up,
  WindowError,
}
use rules_vmtest.Orchestrator.Main.Windows.{Quiet}

module _ (S : System) (P : Text → Type 0) where
  abbrev pub IsQuiet : State S → Type 0
  IsQuiet s = All (Quiet P) s.1

  do_step-IsQuiet :
      (step : Step) (s : State S) → Quiet P step → IsQuiet s → IsQuiet (do_step S step s)
  do_step-IsQuiet step (w, log) q h = All-append (Quiet P) log (step ∷ []) h (q, tt)

  list_windows-IsQuiet :
      (session : Text) (s : State S) → IsQuiet s → IsQuiet (list_windows S session s).1
  unfolding list_windows same text
  list_windows-IsQuiet session s h =
      do_step-IsQuiet (tmux (list_args S session)) s (tt, refl, refl) h

  check_window-IsQuiet :
      (session name : Text) (succeeded : Bool) (s : State S)
      → IsQuiet s
      → IsQuiet (check_window S session name succeeded s).1
  unfolding has_window
  check_window-IsQuiet session name false s h = h
  check_window-IsQuiet session name true s h =
      list_windows-IsQuiet session (do_step S (sleep tenth_second) s)
        (do_step-IsQuiet (sleep tenth_second) s (tt, refl, refl) h)

  start_with-IsQuiet :
      (env : Option (List Text)) (args : List Text) (session : Text) (job : Job) (s : State S)
      → ((vars : List Text) → Quiet P (tmux (window_args S args vars job)))
      → IsQuiet s
      → IsQuiet (start_with S env args session job s).1
  start_with-IsQuiet none args session job s q h = h
  start_with-IsQuiet (some env) args session job s q h =
      let step = tmux (window_args S args env job) in
      check_window-IsQuiet session job.id (S.succeeds (window_args S args env job) s.0)
        (do_step S step s) (do_step-IsQuiet step s (q env) h)

  create_window-IsQuiet :
      (session : Text) (job : Job) (s : State S)
      → P job.id
      → IsQuiet s
      → IsQuiet (create_window S session job s).1
  unfolding create_window start_window same text
  create_window-IsQuiet session job s p h =
      start_with-IsQuiet S.runfiles_env (new_window_args S session job) session job s
        (λ vars. ((p, tt), refl, refl)) h

  create-IsQuiet :
      (session : Text) (job : Job) (s : State S)
      → P job.id
      → IsQuiet s
      → IsQuiet (create S session job s).1
  unfolding create start_window same text
  create-IsQuiet session job s p h =
      start_with-IsQuiet S.runfiles_env
        (text "new-session" ∷ text "-d" ∷ text "-s" ∷ session ∷ text "-n" ∷ job.id ∷ []) session job
        s (λ vars. ((p, tt), refl, refl)) h

  create_windows-IsQuiet :
      (session : Text) (jobs : List Job) (s : State S)
      → All (λ job. P job.id) jobs
      → IsQuiet s
      → IsQuiet (create_windows S session jobs s)
  unfolding create_windows
  create_windows-IsQuiet session [] s ps h = h
  create_windows-IsQuiet session (job ∷ jobs) s (p, ps) h =
      create_windows-IsQuiet session jobs (create_window S session job s).1 ps
        (create_window-IsQuiet session job s p h)

  ensure_window-IsQuiet :
      (session : Text) (existing : List Text) (job : Job) (s : State S)
      → P job.id
      → IsQuiet s
      → IsQuiet (ensure_window S session existing job s)
  unfolding ensure_window
  ensure_window-IsQuiet session existing job s p h =
      elim (Bool-cases (contains_window existing job.id)) [
        | inl e ↦ rw e h
        | inr e ↦ rw e (create_window-IsQuiet session job s p h)
      ]

  ensure_windows-IsQuiet :
      (session : Text) (existing : List Text) (jobs : List Job) (s : State S)
      → All (λ job. P job.id) jobs
      → IsQuiet s
      → IsQuiet (ensure_windows S session existing jobs s)
  unfolding ensure_windows
  ensure_windows-IsQuiet session existing [] s ps h = h
  ensure_windows-IsQuiet session existing (job ∷ jobs) s (p, ps) h =
      ensure_windows-IsQuiet session existing jobs (ensure_window S session existing job s) ps
        (ensure_window-IsQuiet session existing job s p h)

  set_up_new-IsQuiet :
      (session : Text) (jobs : List Job) (s : State S)
      → All (λ job. P job.id) jobs
      → IsQuiet s
      → IsQuiet (set_up_new S session jobs s).1
  set_up_new-IsQuiet session [] s ps h = h
  set_up_new-IsQuiet session (job ∷ jobs) s (p, ps) h =
      made (create S session job s) (create-IsQuiet session job s p h)
    where
      made :
          (r : Result WindowError (Unit {0}) × State S)
          → IsQuiet r.1
          → IsQuiet (after_create S session jobs r).1
      made (ok u, t) q = create_windows-IsQuiet session jobs t ps q
      made (err e, t) q = q

  -- Setting up a session makes windows of the jobs only, closes none, and runs no command.
  pub set_up-IsQuiet :
      (session : Text) (jobs : List Job) (s : State S)
      → All (λ job. P job.id) jobs
      → IsQuiet s
      → IsQuiet (set_up S session jobs s).1
  unfolding set_up list_windows same text
  set_up-IsQuiet session jobs s ps h =
      let asked = text "has-session" ∷ text "-t" ∷ session ∷ [] in
      let s1 = do_step S (tmux asked) s in
      let quiet : IsQuiet s1 = do_step-IsQuiet (tmux asked) s (tt, refl, refl) h in
      let listed = list_windows S session s1 in
      elim (Bool-cases (S.succeeds asked s.0)) [
        | inl e ↦ rw e (
            ensure_windows-IsQuiet session listed.0 jobs listed.1 ps
              (list_windows-IsQuiet session s1 quiet))
        | inr e ↦ rw e (set_up_new-IsQuiet session jobs s1 ps quiet)
      ]
