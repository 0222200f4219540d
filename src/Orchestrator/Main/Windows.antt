-- ===== src/Orchestrator/Main/Windows.antt =====
-- The windows that a step makes and closes, and the commands that it runs.

use rules_vmtest.Base.{
  ℕ, zero, suc, ◌≡◌, refl, ◌∙◌, sym, ap, [], ◌∷◌, ◌++◌, List, Text, text, same, append_assoc, All,
  All-append, if◌then◌else◌,
}
use rules_vmtest.Orchestrator.Tmux.{Step, tmux, foreground, sleep}

-- The item with an index, if there is one.
abbrev pub item : ℕ → List Text → List Text
item n [] = []
item zero (x ∷ xs) = x ∷ []
item (suc n) (x ∷ xs) = item n xs

-- The name behind `-n` in the arguments of a command that makes a window.
abbrev pub opened : List Text → List Text
opened [] = []
opened (command ∷ args) =
    if same command (text "new-window")
    then item 3 args
    else if same command (text "new-session")
    then item 4 args
    else []

-- The target of `kill-window`.
abbrev pub closed : List Text → List Text
closed [] = []
closed (command ∷ args) = if same command (text "kill-window") then item 1 args else []

abbrev pub opened_by : Step → List Text
opened_by (tmux args) = opened args
opened_by (foreground args) = []
opened_by (sleep d) = []

abbrev pub closed_by : Step → List Text
closed_by (tmux args) = closed args
closed_by (foreground args) = []
closed_by (sleep d) = []

abbrev pub commands_of : Step → List (List Text)
commands_of (tmux args) = []
commands_of (foreground args) = args ∷ []
commands_of (sleep d) = []

-- What all steps do, in order.
unfoldable pub collect : {A : Type 0} → (Step → List A) → List Step → List A
collect f [] = []
collect f (step ∷ steps) = f step ++ collect f steps

pub collect-append :
    {A : Type 0} (f : Step → List A) (xs ys : List Step)
    → collect f (xs ++ ys) ≡ collect f xs ++ collect f ys
unfolding collect
collect-append f [] ys = refl
collect-append f (x ∷ xs) ys =
    ap (λ r. f x ++ r) (collect-append f xs ys)
    ∙ sym (append_assoc (f x) (collect f xs) (collect f ys))

-- A step that makes only windows with a name of the kind `P`, closes none, and runs no command.
module _ (P : Text → Type 0) where
  abbrev pub Quiet : Step → Type 0
  Quiet step = All P (opened_by step) × (closed_by step ≡ []) × (commands_of step ≡ [])

  pub Quiet-opened : (steps : List Step) → All Quiet steps → All P (collect opened_by steps)
  unfolding collect
  Quiet-opened [] h = tt
  Quiet-opened (step ∷ steps) (q, h) =
      All-append P (opened_by step) (collect opened_by steps) q.0 (Quiet-opened steps h)

  pub Quiet-closed : (steps : List Step) → All Quiet steps → collect closed_by steps ≡ []
  unfolding collect
  Quiet-closed [] h = refl
  Quiet-closed (step ∷ steps) (q, h) = rw q.1 (Quiet-closed steps h)

  pub Quiet-commands : (steps : List Step) → All Quiet steps → collect commands_of steps ≡ []
  unfolding collect
  Quiet-commands [] h = refl
  Quiet-commands (step ∷ steps) (q, h) = rw q.2 (Quiet-commands steps h)
