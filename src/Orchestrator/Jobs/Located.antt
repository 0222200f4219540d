-- ===== src/Orchestrator/Jobs/Located.antt =====
-- Which jobs are made from the build-time variables.
use mathlib.Core.Path.{subst}
use rules_vmtest.Base.{
  ℕ, ap, ◌==◌, arith, ◌≡◌, refl, ◌⊎◌, inl, inr, ◌∙◌, sym, [], ◌∷◌, ◌++◌, List, none, some, Text,
  is_empty, append_assoc, append-nil, if◌then◌else◌, Bool-cases, Option-cases, Result, Result-cases,
  ok, err, ◌>>=◌,
}
use rules_vmtest.Strings.{split, trim_space}
use rules_vmtest.Strings.Laws.{Lacks, split-of-Lacks, split-append}
use rules_vmtest.Orchestrator.Jobs.{
  last_part, Job, Jobs, JobError, unresolved, Locate, base_name, add_located, add_job,
  add_dependencies, dependency_jobs, all_jobs,
}

-- What stands between the commas, without blanks and without the empty parts.
abbrev pub named : Text → List Text → List Text
named part rest = if is_empty part then rest else part ∷ rest

abbrev pub non_blank : List Text → List Text
non_blank [] = []
non_blank (part ∷ parts) = named (trim_space part) (non_blank parts)

abbrev pub slash : ℕ
slash = 47

-- The part of a path behind the last slash, or the whole path if there is none.
abbrev pub IsLastPart : Text → Text → Type 0
IsLastPart path part =
    Lacks slash part × ((path ≡ part) ⊎ ((front : Text) × (path ≡ front ++ (slash ∷ part))))

-- The last slash of a path, if it has one.
last_slash :
    (path : Text)
    → Lacks slash path ⊎ ((front part : Text) × (path ≡ front ++ (slash ∷ part)) × Lacks slash part)
last_slash [] = inl tt
last_slash (c ∷ s) = elim (last_slash s) [
  | inr (front, part, e, clean) ↦ inr (c ∷ front, part, ap (λ r. c ∷ r) e, clean)
  | inl clean ↦ elim (Bool-cases (c == slash)) [
    | inl e ↦ inr ([], s, ap (λ d. d ∷ s) (ground arith), clean)
    | inr e ↦ inl (ground arith, clean)
  ]
]

-- The last of the parts of a path with a slash.
split-last :
    (front part : Text)
    → Lacks slash part
    → (a b : Text) × (rest : List Text) × (split slash (front ++ (slash ∷ part)) ≡ a ∷ b ∷ rest)
      × (last_part (b ∷ rest) ≡ part)
unfolding split
split-last [] part clean = (
  [],
  part,
  [],
  split-append slash [] part tt ∙ ap (λ r. [] ∷ r) (split-of-Lacks slash part clean),
  refl,
)
split-last (c ∷ front) part clean =
    let (a, b, rest, e, last) = split-last front part clean in
    elim (Bool-cases (c == slash)) [
      | inl q ↦ ([], a, b ∷ rest, rw (q, e) refl, last)
      | inr q ↦ (c ∷ a, b, rest, rw (q, e) refl, last)
    ]

base_name-IsLastPart : (path : Text) → IsLastPart path (base_name path)
unfolding base_name
base_name-IsLastPart path = elim (last_slash path) [
  | inl clean ↦
      let whole : last_part (split slash path) ≡ path =
        ap last_part (split-of-Lacks slash path clean) in
      subst (IsLastPart path) (sym whole) (clean, inl refl)
  | inr (front, part, e, clean) ↦
      let (a, b, rest, parts, last) = split-last front part clean in
      let behind : last_part (split slash path) ≡ part =
        ap (λ p. last_part (split slash p)) e ∙ (ap last_part parts ∙ last) in
      subst (IsLastPart path) (sym behind) (clean, inr (front, e))
]

-- The runfiles that the two variables name.
abbrev pub runfiles : Text → Text → List Text
runfiles dependencies primary = non_blank (split b',' dependencies) ++ (primary ∷ [])

module _ (locate : Locate) where
  -- The job of a runfile: its window is the last part of the path.
  abbrev pub IsJob : Text → Job → Type 0
  IsJob path job = IsLastPart path job.id × (locate path ≡ some job.command)

  abbrev pub AreJobs : List Text → List Job → Type 0
  AreJobs [] [] = Unit {0}
  AreJobs [] (job ∷ jobs) = ⊥
  AreJobs (path ∷ paths) [] = ⊥
  AreJobs (path ∷ paths) (job ∷ jobs) = IsJob path job × AreJobs paths jobs

  -- `path` is the first that cannot be found.
  abbrev pub FirstMissing : Text → List Text → Type 0
  FirstMissing path [] = ⊥
  FirstMissing path (p ∷ ps) =
      ((p ≡ path) × (locate p ≡ none))
      ⊎ (((binary : Text) × (locate p ≡ some binary)) × FirstMissing path ps)

  abbrev add_all : List Text → Jobs → Result JobError Jobs
  add_all [] jobs = ok jobs
  add_all (path ∷ paths) jobs = add_job locate path jobs >>= add_all paths

  add_dependencies-add_all :
      (parts : List Text) (primary : Text) (jobs : Jobs)
      → (add_dependencies locate parts jobs >>= add_job locate primary)
        ≡ add_all (non_blank parts ++ (primary ∷ [])) jobs
  unfolding add_dependencies
  add_dependencies-add_all [] primary jobs = elim (Result-cases (add_job locate primary jobs)) [
    | inl (jobs', e) ↦ rw e refl
    | inr (error, e) ↦ rw e refl
  ]
  add_dependencies-add_all (part ∷ parts) primary jobs =
      elim (Bool-cases (is_empty (trim_space part))) [
        | inl e ↦ rw e (add_dependencies-add_all parts primary jobs)
        | inr e ↦ rw e (elim (Result-cases (add_job locate (trim_space part) jobs)) [
          | inl (jobs', e') ↦ rw e' (add_dependencies-add_all parts primary jobs')
          | inr (error, e') ↦ rw e' refl
        ])
      ]

  add_all_lem :
      (paths : List Text) (jobs : Jobs)
      → ((jobs' : Jobs) × (new : List Job) × (add_all paths jobs ≡ ok jobs')
          × (jobs'.ensure ≡ jobs.ensure ++ new)
          × AreJobs paths new)
        ⊎ ((path : Text) × (add_all paths jobs ≡ err (unresolved path)) × FirstMissing path paths)
  unfolding add_job
  add_all_lem [] jobs = inl (jobs, [], refl, sym (append-nil jobs.ensure), tt)
  add_all_lem (path ∷ paths) jobs = elim (Option-cases (locate path)) [
    | inl e ↦ inr (path, rw (e, add_located) refl, inl (refl, e))
    | inr (binary, e) ↦
        let job : Job = record { id = base_name path; command = binary } in
        let jobs1 : Jobs = record {
          paths = (base_name path, path) ∷ jobs.paths;
          ensure = jobs.ensure ++ (job ∷ []);
        } in
        elim (add_all_lem paths jobs1) [
          | inl (jobs', new, ran, eq, are) ↦ inl (
            jobs',
            job ∷ new,
            rw (e, add_located) ran,
            eq ∙ append_assoc jobs.ensure (job ∷ []) new,
            ((base_name-IsLastPart path, e), are),
          )
          | inr (missing, ran, first) ↦
              inr (missing, rw (e, add_located) ran, inr ((binary, e), first))
        ]
  ]

  all_jobs-add_all :
      (dependencies primary : Text)
      → all_jobs locate dependencies primary
        ≡ add_all (runfiles dependencies primary) (record { paths = []; ensure = [] })
  unfolding all_jobs dependency_jobs split trim_space
  all_jobs-add_all [] primary =
      add_dependencies-add_all [] primary (record { paths = []; ensure = [] })
  all_jobs-add_all (c ∷ rest) primary =
      add_dependencies-add_all (split b',' (c ∷ rest)) primary (record { paths = []; ensure = [] })

  -- Either every runfile that the two variables name is found, and then there is one job for each of
  -- them, in their order and the primary last, whose window is the last part of the path and whose
  -- command is what was found; or the error names the first of them that is not found. A part between
  -- commas that is blank names no runfile.
  pub all_jobs-AreJobs :
      (dependencies primary : Text)
      → ((jobs : Jobs) × (all_jobs locate dependencies primary ≡ ok jobs)
          × AreJobs (runfiles dependencies primary) jobs.ensure)
        ⊎ ((path : Text) × (all_jobs locate dependencies primary ≡ err (unresolved path))
            × FirstMissing path (runfiles dependencies primary))
  all_jobs-AreJobs dependencies primary =
      let eq = all_jobs-add_all dependencies primary in
      elim (add_all_lem (runfiles dependencies primary) (record { paths = []; ensure = [] })) [
        | inl (jobs, new, ran, same_jobs, are) ↦ inl (jobs, eq ∙ ran, rw same_jobs are)
        | inr (path, ran, first) ↦ inr (path, eq ∙ ran, first)
      ]
