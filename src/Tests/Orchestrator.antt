-- ===== src/Tests/Orchestrator.antt =====
-- Jobs and windows at fixed inputs.
use rules_vmtest.Base.{ℕ, ◌≡◌, ◌⊎◌, true, [], ◌∷◌, ◌++◌, List, some, Text, text, ok, err}
use rules_vmtest.Orchestrator.Jobs.{Job, Jobs, unresolved, Locate, all_jobs}
use rules_vmtest.Orchestrator.Jobs.Located.{AreJobs, runfiles, FirstMissing, all_jobs-AreJobs}
use rules_vmtest.Orchestrator.Main.{Flags, default_flags}
use rules_vmtest.Orchestrator.Tmux.{System, success}

abbrev locate : Locate
locate path = some (text "/r/" ++ path)

abbrev jobs : List Job
jobs =
    record { id = text "db"; command = text "/r/a/db" }
    ∷ record { id = text "web"; command = text "/r/a/web" }
    ∷ []

all_jobs-AreJobs_example :
    ((js : Jobs) × (all_jobs locate (text "a/db, ,c/cache") (text "a/web") ≡ ok js)
      × AreJobs locate (runfiles (text "a/db, ,c/cache") (text "a/web")) js.ensure)
    ⊎ ((path : Text) × (all_jobs locate (text "a/db, ,c/cache") (text "a/web")
          ≡ err (unresolved path))
        × FirstMissing locate path (runfiles (text "a/db, ,c/cache") (text "a/web")))
all_jobs-AreJobs_example = all_jobs-AreJobs locate (text "a/db, ,c/cache") (text "a/web")

-- A session in which every command succeeds and the window `db` is listed.
abbrev system : System
system = record {
  World = ℕ;
  perform = λ step n. n;
  succeeds = λ args n. true;
  output = λ args n. some (text "db\n");
  ending = λ args n. success;
  runfiles_env = some (text "RUNFILES_DIR=/r" ∷ []);
  workspace = [];
}

abbrev all : Jobs
all = record { paths = (text "web", text "a/web") ∷ []; ensure = jobs }

abbrev both_jobs : Jobs
both_jobs = record {
  paths = (text "web", text "a/web") ∷ (text "db", text "a/db") ∷ [];
  ensure = jobs;
}

abbrev flags : Flags
flags = record default_flags { run = text "web" }
