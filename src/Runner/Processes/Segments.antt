-- ===== src/Runner/Processes/Segments.antt =====
-- What `CleanupAll` does, action by action.
use mathlib.Core.List.{flatten}
use mathlib.Core.Path.{subst}
use rules_vmtest.Base.{
  true, false, none, some, ap, ◌≡◌, ◌⊎◌, refl, sym, ◌∙◌, inl, inr, [], ◌∷◌, ◌++◌, List, ℤ, Text,
  append_assoc, append-nil, Bool-cases, Option-cases,
}
use rules_vmtest.Strings.{trim_space}
use rules_vmtest.Strconv.{atoi}
use rules_vmtest.Runner.Processes.{
  Action, sigterm, sigkill, cancel_context, kill_pid, pause, remove_file, signal_process,
  kill_process, wait_process, Command, System, ProcessManager, State, half_second, act,
  stop_content, stop_pid, cleanup_pid_file, cleanup_pid_files, cleanup_process, cleanup_processes,
  cleanup_all,
}

module _ (S : System) where
  -- The world behind some actions.
  abbrev pub performed : List Action → S.World → S.World
  performed [] w = w
  performed (a ∷ acts) w = performed acts (S.perform a w)

  performed-append :
      (xs ys : List Action) (w : S.World) → performed (xs ++ ys) w ≡ performed ys (performed xs w)
  performed-append [] ys w = refl
  performed-append (x ∷ xs) ys w = performed-append xs ys (S.perform x w)

  -- The file can be read in the world `w` and holds the number `pid`, blanks around it allowed.
  abbrev pub Holds : Text → S.World → ℤ → Type 0
  Holds path w pid =
      (content : Text) × (S.read_file path w ≡ some content)
      × (atoi (trim_space content) ≡ some pid)

  -- The actions on one PID file, from the world `w` on: if it holds a number, the process of that number
  -- is asked to end and killed half a second later; and in any case the file is removed.
  abbrev pub IsFileCleanup : Text → S.World → List Action → Type 0
  IsFileCleanup path w acts =
      (((pid : ℤ) → Holds path w pid → ⊥) × (acts ≡ remove_file path ∷ []))
      ⊎ ((pid : ℤ) × Holds path w pid
          × (acts
              ≡ kill_pid pid sigterm
                ∷ pause half_second
                ∷ kill_pid pid sigkill
                ∷ remove_file path
                ∷ []))

  -- The actions on one command, from the world `w` on: none if it has no process; else it is asked to end,
  -- killed half a second later unless it has exited by then, and waited for.
  abbrev pub IsProcessCleanup : Command → S.World → List Action → Type 0
  IsProcessCleanup cmd w acts =
      ((S.has_process cmd w ≡ false) × (acts ≡ []))
      ⊎ ((S.has_process cmd w ≡ true)
          × (S.has_exited cmd (performed (signal_process cmd ∷ pause half_second ∷ []) w) ≡ true)
          × (acts ≡ signal_process cmd ∷ pause half_second ∷ wait_process cmd ∷ []))
      ⊎ ((S.has_process cmd w ≡ true)
          × (S.has_exited cmd (performed (signal_process cmd ∷ pause half_second ∷ []) w) ≡ false)
          × (acts
              ≡ signal_process cmd ∷ pause half_second ∷ kill_process cmd ∷ wait_process cmd ∷ []))

  -- One segment of actions for each item, in order, each from the world behind the one before it.
  abbrev pub Segments :
      {A : Type 0}
      → (A → S.World → List Action → Type 0)
      → List A
      → S.World
      → List (List Action)
      → Type 0
  Segments P [] w [] = Unit {0}
  Segments P (x ∷ xs) w (s ∷ ss) = P x w s × Segments P xs (performed s w) ss
  Segments P [] w (s ∷ ss) = ⊥
  Segments P (x ∷ xs) w [] = ⊥

  -- Behind `s` just these actions have been performed.
  abbrev pub Adds : State S → List Action → State S → Type 0
  Adds s acts s' = s' ≡ (performed acts s.0, s.1 ++ acts)

  unread :
      (path : Text) (w : S.World) → S.read_file path w ≡ none → (pid : ℤ) → Holds path w pid → ⊥
  unread path w e pid (content, q, h) = cc

  no_number :
      (path : Text) (w : S.World) (content : Text)
      → S.read_file path w ≡ some content
      → atoi (trim_space content) ≡ none
      → (pid : ℤ) → Holds path w pid
      → ⊥
  no_number path w content e e' pid (other, q, h) =
      let one_content : other ≡ content = cc in
      no_clash (subst (λ t. atoi (trim_space t) ≡ some pid) one_content h)
    where
      no_clash : atoi (trim_space content) ≡ some pid → ⊥
      no_clash q' = cc

  cleanup_pid_file-Adds :
      (path : Text) (s : State S)
      → (acts : List Action) × IsFileCleanup path s.0 acts × Adds s acts (cleanup_pid_file S path s)
  unfolding cleanup_pid_file
  cleanup_pid_file-Adds path (w, log) = elim (Option-cases (S.read_file path w)) [
    | inl e ↦ (remove_file path ∷ [], inl (unread path w e, refl), rw (e, stop_content) refl)
    | inr (content, e) ↦ elim (Option-cases (atoi (trim_space content))) [
      | inl e' ↦ (
        remove_file path ∷ [],
        inl (no_number path w content e e', refl),
        rw (e, stop_content, e', stop_pid) refl,
      )
      | inr (pid, e') ↦ (
        kill_pid pid sigterm ∷ pause half_second ∷ kill_pid pid sigkill ∷ remove_file path ∷ [],
        inr (pid, (content, e, e'), refl),
        rw (e, stop_content, e', stop_pid) (simp append_assoc),
      )
    ]
  ]

  cleanup_process-Adds :
      (cmd : Command) (s : State S)
      → (acts : List Action) × IsProcessCleanup cmd s.0 acts × Adds s acts (cleanup_process S cmd s)
  unfolding cleanup_process
  cleanup_process-Adds cmd (w, log) =
      let w' = S.perform (pause half_second) (S.perform (signal_process cmd) w) in
      elim (Bool-cases (S.has_process cmd w)) [
        | inr e ↦ ([], inl (e, refl), rw e (ap (λ l. (w, l)) (sym (append-nil log))))
        | inl e ↦ elim (Bool-cases (S.has_exited cmd w')) [
          | inl e' ↦ (
            signal_process cmd ∷ pause half_second ∷ wait_process cmd ∷ [],
            inr (inl (e, e', refl)),
            rw (e, e') (simp append_assoc),
          )
          | inr e' ↦ (
            signal_process cmd ∷ pause half_second ∷ kill_process cmd ∷ wait_process cmd ∷ [],
            inr (inr (e, e', refl)),
            rw (e, e') (simp append_assoc),
          )
        ]
      ]

  Adds-append :
      (s s' s'' : State S) (xs ys : List Action)
      → Adds s xs s'
      → Adds s' ys s''
      → Adds s (xs ++ ys) s''
  Adds-append (w, log) s' s'' xs ys a b =
      b ∙ rw a (rw (performed-append xs ys w, append_assoc log xs ys) refl)

  cleanup_pid_files-Adds :
      (paths : List Text) (s : State S)
      → (segments : List (List Action)) × Segments IsFileCleanup paths s.0 segments
        × Adds s (flatten segments) (cleanup_pid_files S paths s)
  unfolding cleanup_pid_files flatten
  cleanup_pid_files-Adds [] s = ([], tt, ap (λ l. (s.0, l)) (sym (append-nil s.1)))
  cleanup_pid_files-Adds (path ∷ paths) s =
      let (acts, shape, a) = cleanup_pid_file-Adds path s in
      let s' = cleanup_pid_file S path s in
      let (rest, shapes, b) = cleanup_pid_files-Adds paths s' in
      (
        acts ∷ rest,
        (shape, subst (λ t. Segments IsFileCleanup paths t.0 rest) a shapes),
        Adds-append s s' (cleanup_pid_files S paths s') acts (flatten rest) a b,
      )

  cleanup_processes-Adds :
      (cmds : List Command) (s : State S)
      → (segments : List (List Action)) × Segments IsProcessCleanup cmds s.0 segments
        × Adds s (flatten segments) (cleanup_processes S cmds s)
  unfolding cleanup_processes flatten
  cleanup_processes-Adds [] s = ([], tt, ap (λ l. (s.0, l)) (sym (append-nil s.1)))
  cleanup_processes-Adds (cmd ∷ cmds) s =
      let (acts, shape, a) = cleanup_process-Adds cmd s in
      let s' = cleanup_process S cmd s in
      let (rest, shapes, b) = cleanup_processes-Adds cmds s' in
      (
        acts ∷ rest,
        (shape, subst (λ t. Segments IsProcessCleanup cmds t.0 rest) a shapes),
        Adds-append s s' (cleanup_processes S cmds s') acts (flatten rest) a b,
      )

  -- `CleanupAll` cancels the context, then deals with every PID file in the order in which they were
  -- added, then with every command in that order, and does nothing else: a file is removed, after the
  -- process whose number it holds then, if it holds one, was asked to end and killed half a second later;
  -- a command that has a process then is asked to end, killed half a second later unless it has exited
  -- by that time, and waited for; for a command without a process nothing is done.
  pub cleanup_all-Segments :
      (pm : ProcessManager) (s : State S)
      → let w = S.perform cancel_context s.0 in
        (files commands : List (List Action)) × Segments IsFileCleanup pm.pid_files w files
        × Segments IsProcessCleanup pm.processes (performed (flatten files) w) commands
        × Adds s (cancel_context ∷ (flatten files ++ flatten commands)) (cleanup_all S pm s)
  unfolding cleanup_all
  cleanup_all-Segments pm s =
      let s1 = act S cancel_context s in
      let (files, shapes, a) = cleanup_pid_files-Adds pm.pid_files s1 in
      let s2 = cleanup_pid_files S pm.pid_files s1 in
      let (commands, shapes', b) = cleanup_processes-Adds pm.processes s2 in
      let s3 = cleanup_processes S pm.processes s2 in
      (
        files,
        commands,
        shapes,
        subst (λ t. Segments IsProcessCleanup pm.processes t.0 commands) a shapes',
        Adds-append s s1 s3 (cancel_context ∷ []) (flatten files ++ flatten commands) refl
            (Adds-append s1 s2 s3 (flatten files) (flatten commands) a b),
      )
