-- ===== src/Orchestrator/Main/Closing.antt =====
-- What `main` of `orchestrator/main.go` leaves behind when it has been called with `--run`.
use mathlib.Core.List.{Mem}
use rules_vmtest.Base.{◌≡◌, ◌≢◌, ◌⊎◌, [], ◌∷◌, ◌++◌, List, ℤ, pos, Text, text, All}
use rules_vmtest.Orchestrator.Jobs.{Job, Jobs}
use rules_vmtest.Orchestrator.Tmux.{Step, System}
use rules_vmtest.Orchestrator.Main.Windows.{opened_by, closed_by, commands_of, collect}

-- A window as the target of a command.
abbrev pub target : Text → Text → Text
target session name = session ++ (text ":" ++ name)

abbrev pub targets : Text → List Job → List Text
targets session [] = []
targets session (job ∷ jobs) = target session job.id ∷ targets session jobs

-- The steps leave the window alone, and close each that they make, unless they run no command and the
-- exit code is 1.
abbrev pub Closes : Text → Text → ℤ → List Step → Type 0
Closes session window code steps =
    All (λ name. name ≢ window) (collect opened_by steps)
    × All (λ t. t ≢ target session window) (collect closed_by steps)
    × (((code ≡ pos 1) × (collect commands_of steps ≡ []))
        ⊎ All (λ name. Mem (target session name) (collect closed_by steps))
            (collect opened_by steps))

-- A window of one of the jobs, and not the one that is left alone.
abbrev pub IsOurs : Text → Text → List Job → Text → Type 0
IsOurs session window jobs name = (name ≢ window) × Mem (target session name) (targets session jobs)

module _ (S : System) (session window : Text) (jobs : List Job)
    (spares : All (λ job. job.id ≢ window) jobs) where
  abbrev Ours : Text → Type 0
  Ours = IsOurs session window jobs
