-- ===== src/Orchestrator/Tmux/Kills.antt =====
-- What `--run` does with its command, and the windows that it kills behind it.
use rules_vmtest.Base.{◌≡◌, ◌⊎◌, [], ◌∷◌, ◌++◌, List, ℤ, pos, Text}
use rules_vmtest.Orchestrator.Jobs.{Job, Jobs}
use rules_vmtest.Orchestrator.Tmux.{
  Ending, success, exit_error, no_start, Step, foreground, System, State, kill_step,
}

module _ (S : System) where
  abbrev pub kill_steps : Text → List Job → List Step
  kill_steps session [] = []
  kill_steps session (job ∷ jobs) = kill_step S session job ∷ kill_steps session jobs

  -- The code that the end of a command stands for.
  abbrev pub ExitsWith : Ending → ℤ → Type 0
  ExitsWith how code =
      ((how ≡ success) × (code ≡ pos 0))
      ⊎ ((n : ℤ) × (how ≡ exit_error n) × (code ≡ n))
      ⊎ ((how ≡ no_start) × (code ≡ pos 127))

  -- What is done with the words of a command, and that the windows are killed behind it.
  abbrev pub RunsThenKills : Text → List Job → List Text → State S → ℤ × State S → Type 0
  RunsThenKills session jobs words s done =
      ((words ≡ []) × (done.0 ≡ pos 1) × (done.1.1 ≡ s.1 ++ kill_steps session jobs))
      ⊎ ((word : Text) × (rest : List Text) × (words ≡ word ∷ rest)
          × ExitsWith (S.ending (word ∷ rest) s.0) done.0
          × (done.1.1 ≡ s.1 ++ (foreground (word ∷ rest) ∷ kill_steps session jobs)))
