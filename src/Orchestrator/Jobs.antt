-- ===== src/Orchestrator/Jobs.antt =====
-- The jobs of `main` in `orchestrator/main.go`: how they are made from the build-time variables, which
-- of them `--run` leaves out, and how the command of `--run` is found. Where a runfile is found
-- (`Rlocation`) is a parameter.
pub mod Located
pub mod Filter
use rules_vmtest.Base.{
  Bool, true, false, not, ◌&&◌, [], ◌∷◌, ◌++◌, List, Option, none, some, Text, text, same, is_empty,
  ltb, length, keep, any, if◌then◌else◌, Result, ok, err, ◌>>=◌,
}
use rules_vmtest.Strings.{split, trim_space, contains, has_prefix}

pub record Job : Type 0 where
  pub id : Text
  pub command : Text

-- `allJobs`, the latest entry first, and `ensureJobs`.
pub record Jobs : Type 0 where
  pub paths : List (Text × Text)
  pub ensure : List Job

-- The runfile that cannot be found.
pub data JobError : Type 0 where
  unresolved : Text → JobError

abbrev pub Locate : Type 0
Locate = Text → Option Text

-- `parts[len(parts)-1]`; the parts of a text are never none.
abbrev pub last_part : List Text → Text
last_part [] = []
last_part (p ∷ []) = p
last_part (p ∷ q ∷ ps) = last_part (q ∷ ps)

unfoldable pub base_name : Text → Text
base_name path = last_part (split b'/' path)

abbrev pub add_located : Text → Option Text → Jobs → Result JobError Jobs
add_located path none jobs = err (unresolved path)
add_located path (some binary) jobs = ok (record {
  paths = (base_name path, path) ∷ jobs.paths;
  ensure = jobs.ensure ++ (record { id = base_name path; command = binary } ∷ []);
})

module _ (locate : Locate) where
  unfoldable pub add_job : Text → Jobs → Result JobError Jobs
  add_job path jobs = add_located path (locate path) jobs

  -- The body of the loop over the dependencies, behind the trimming.
  abbrev pub add_dependency : Text → Jobs → Result JobError Jobs
  add_dependency dep jobs = if is_empty dep then ok jobs else add_job dep jobs

  unfoldable pub add_dependencies : List Text → Jobs → Result JobError Jobs
  add_dependencies [] jobs = ok jobs
  add_dependencies (dep ∷ deps) jobs =
      add_dependency (trim_space dep) jobs >>= add_dependencies deps

  unfoldable pub dependency_jobs : Text → Jobs → Result JobError Jobs
  unfolding add_dependencies
  dependency_jobs dependencies jobs =
      if is_empty dependencies then ok jobs else add_dependencies (split b',' dependencies) jobs

  unfoldable pub all_jobs : Text → Text → Result JobError Jobs
  unfolding dependency_jobs add_job
  all_jobs dependencies primary =
      dependency_jobs dependencies (record { paths = []; ensure = [] }) >>= add_job primary

abbrev pub has_id : Text → Job → Bool
has_id name job = same job.id name

-- The window that `--run` names.
unfoldable pub run_window : Text → List Job → Text
unfolding base_name
run_window run jobs =
    if contains run (text "/") && any (has_id (base_name run)) jobs then base_name run else run

unfoldable pub other_jobs : Text → List Job → List Job
unfolding keep
other_jobs name jobs = keep (λ job. not (has_id name job)) jobs

-- The filter is taken over only if it is shorter.
abbrev pub shorter : List Job → List Job → List Job
shorter filtered jobs = if ltb (length filtered) (length jobs) then filtered else jobs

unfoldable pub jobs_to_ensure : Text → List Job → List Job
unfolding run_window other_jobs
jobs_to_ensure run jobs =
    if is_empty run then jobs else shorter (other_jobs (run_window run jobs) jobs) jobs

-- `allJobs[name]`
unfoldable pub find_path : Text → List (Text × Text) → Option Text
find_path name [] = none
find_path name ((known, path) ∷ rest) = if same known name then some path else find_path name rest

abbrev pub path_or : Option Text → Text → Text
path_or none run = run
path_or (some path) run = path

abbrev pub named_path : Text → List (Text × Text) → Text
named_path run paths = if contains run (text "/") then run else path_or (find_path run paths) run

abbrev pub located : Text → Option Text → Result JobError Text
located path none = err (unresolved path)
located path (some binary) = ok binary

-- The command that `--run` runs.
unfoldable pub run_command : Locate → Text → List (Text × Text) → Result JobError Text
unfolding find_path
run_command locate run paths =
    let path = named_path run paths in
    if has_prefix path (text "/") then ok path else located path (locate path)
