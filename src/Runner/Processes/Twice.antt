-- ===== src/Runner/Processes/Twice.antt =====
-- A second cleanup of the same PID files.
use rules_vmtest.Base.{
  ◌≡◌, ◌∙◌, [], ◌∷◌, ◌++◌, List, none, Text, All, append_assoc, append-nil, sym, Option-cases, inl,
  inr,
}
use rules_vmtest.Strings.{trim_space}
use rules_vmtest.Strconv.{atoi}
use rules_vmtest.Runner.Processes.{
  Action, remove_file, System, State, stop_content, stop_pid, cleanup_pid_file, cleanup_pid_files,
}

-- Removing a file succeeds, and no action of a cleanup makes a file.
pub record Removes (S : System) : Type 0 where
  pub gone : (path : Text) (w : S.World) → S.read_file path (S.perform (remove_file path) w) ≡ none
  pub stays_gone :
      (path : Text) (a : Action) (w : S.World)
      → S.read_file path w ≡ none
      → S.read_file path (S.perform a w) ≡ none

-- The removal of each file.
abbrev pub removals : List Text → List Action
removals [] = []
removals (path ∷ paths) = remove_file path ∷ removals paths

module _ (S : System) (removes : Removes S) where
  -- `path` cannot be read.
  abbrev Gone : State S → Text → Type 0
  Gone s path = S.read_file path s.0 ≡ none

  stays-Gone :
      (path other : Text) (s : State S) → Gone s path → Gone (cleanup_pid_file S other s) path
  unfolding cleanup_pid_file
  stays-Gone path other (w, log) h = elim (Option-cases (S.read_file other w)) [
    | inl e ↦ rw (e, stop_content) (removes.stays_gone path _ w h)
    | inr (content, e) ↦ elim (Option-cases (atoi (trim_space content))) [
      | inl e' ↦ rw (e, stop_content, e', stop_pid) (removes.stays_gone path _ w h)
      | inr (pid, e') ↦
          rw (e, stop_content, e', stop_pid)
            (removes.stays_gone path _ _ (
              removes.stays_gone path _ _
                (removes.stays_gone path _ _ (removes.stays_gone path _ w h))))
    ]
  ]

  others-stay-Gone :
      (paths : List Text) (other : Text) (s : State S)
      → All (Gone s) paths
      → All (Gone (cleanup_pid_file S other s)) paths
  others-stay-Gone [] other s h = tt
  others-stay-Gone (path ∷ paths) other s (g, h) =
      (stays-Gone path other s g, others-stay-Gone paths other s h)

  stays-Gone_through :
      (paths : List Text) (path : Text) (s : State S)
      → Gone s path
      → Gone (cleanup_pid_files S paths s) path
  unfolding cleanup_pid_files
  stays-Gone_through [] path s h = h
  stays-Gone_through (other ∷ paths) path s h =
      stays-Gone_through paths path (cleanup_pid_file S other s) (stays-Gone path other s h)

  cleaned-Gone : (path : Text) (s : State S) → Gone (cleanup_pid_file S path s) path
  unfolding cleanup_pid_file
  cleaned-Gone path s = removes.gone path _

  every-Gone : (paths : List Text) (s : State S) → All (Gone (cleanup_pid_files S paths s)) paths
  unfolding cleanup_pid_files
  every-Gone [] s = tt
  every-Gone (path ∷ paths) s = (
    stays-Gone_through paths path (cleanup_pid_file S path s) (cleaned-Gone path s),
    every-Gone paths (cleanup_pid_file S path s),
  )

  removes-Gone :
      (path : Text) (paths : List Text) (s : State S)
      → Gone s path
      → (cleanup_pid_file S path s).1 ++ removals paths ≡ s.1 ++ (remove_file path ∷ removals paths)
  unfolding cleanup_pid_file
  removes-Gone path paths (w, log) g =
      rw (g, stop_content) (append_assoc log (remove_file path ∷ []) (removals paths))

  cleanup-Gone :
      (paths : List Text) (s : State S)
      → All (Gone s) paths
      → (cleanup_pid_files S paths s).1 ≡ s.1 ++ removals paths
  unfolding cleanup_pid_files
  cleanup-Gone [] s h = sym (append-nil s.1)
  cleanup-Gone (path ∷ paths) s (g, h) =
      cleanup-Gone paths (cleanup_pid_file S path s) (others-stay-Gone paths path s h)
      ∙ removes-Gone path paths s g

  -- If removing a file succeeds and no action of a cleanup makes one, a second cleanup of the same PID
  -- files signals no process: all that it does is remove the files once more.
  pub cleanup_pid_files_twice :
      (paths : List Text) (s : State S)
      → let s' = cleanup_pid_files S paths s in
        (cleanup_pid_files S paths s').1 ≡ s'.1 ++ removals paths
  cleanup_pid_files_twice paths s =
      cleanup-Gone paths (cleanup_pid_files S paths s) (every-Gone paths s)
