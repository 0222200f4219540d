-- ===== src/Orchestrator/Tmux/Ensure.antt =====
-- Which windows are made in a session that exists.
use rules_vmtest.Base.{[], ◌∷◌, ◌++◌, List, Text, text, same, if◌then◌else◌}
use rules_vmtest.Orchestrator.Jobs.{Job}
use rules_vmtest.Orchestrator.Tmux.{Step, tmux, foreground, sleep, contains_window}

-- The window that a command of tmux adds to a session.
abbrev pub added : List Text → List Text
unfolding same text
added [] = []
added (a ∷ []) = []
added (a ∷ b ∷ []) = []
added (a ∷ b ∷ c ∷ []) = []
added (a ∷ b ∷ c ∷ d ∷ []) = []
added (command ∷ b ∷ c ∷ d ∷ name ∷ rest) =
    if same command (text "new-window") then name ∷ [] else []

-- The windows that the steps add, in order.
pub new_windows : List Step → List Text
unfolding same text
new_windows [] = []
new_windows (tmux args ∷ steps) = added args ++ new_windows steps
new_windows (foreground args ∷ steps) = new_windows steps
new_windows (sleep d ∷ steps) = new_windows steps

-- The names of the jobs whose window is not in the list.
abbrev pub missing : List Text → List Job → List Text
missing existing [] = []
missing existing (job ∷ jobs) =
    if contains_window existing job.id
    then missing existing jobs
    else job.id ∷ missing existing jobs
