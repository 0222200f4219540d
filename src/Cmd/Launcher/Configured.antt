-- ===== src/Cmd/Launcher/Configured.antt =====
-- What a configuration that is made has been checked for.
use mathlib.Core.Path.{subst}
use rules_vmtest.Base.{
  ◌≡◌, ◌≢◌, text, same, same_iff, arith, refl, ◌⊎◌, inl, inr, Bool, true, false, [], ◌∷◌, List,
  Option, none, some, Text, String, is_empty, if◌then◌else◌, Bool-cases, Result, ok, ok_of_bind,
  All,
}
use rules_vmtest.Strconv.{atoi}
use rules_vmtest.Runner.Config.{ToolPaths, RunnerConfig}
use rules_vmtest.Cmd.Launcher.{
  BuildVars, Flags, LaunchError, Locate, require_all, required, need, unresolved, invalid_cpus,
  locate_or, resolve_tools, iso_wanted, configured, make_config,
}

-- `got` is where the runfile is found, and the default if there is none named.
abbrev pub Found : Locate → Text → Text → Text → Type 0
Found locate path default got =
    ((is_empty path ≡ true) × (got ≡ default))
    ⊎ ((is_empty path ≡ false) × (locate path ≡ some got))

abbrev pub Set : String × Text → Type 0
Set named = is_empty named.1 ≡ false

pub record IsConfigured (locate : Locate) (default : ToolPaths) (workspace : Text) (v : BuildVars)
    (c : RunnerConfig) : Type 0 where
  pub mode_set : is_empty v.mode ≡ false
  pub server_set : is_empty v.server ≡ false
  pub tap_set : is_empty v.tap ≡ false
  pub mac_set : is_empty v.mac ≡ false
  pub memory_set : is_empty v.memory ≡ false
  pub cpus_set : is_empty v.cpus ≡ false
  pub disk_size_set : is_empty v.disk_size ≡ false
  pub workspace_set : is_empty workspace ≡ false
  pub processors : atoi v.cpus ≡ some c.cpus
  pub code : Found locate v.ovmf_code default.ovmf_code c.tool_paths.ovmf_code
  pub vars : Found locate v.ovmf_vars default.ovmf_vars c.tool_paths.ovmf_vars
  pub tpm : Found locate v.swtpm default.swtpm c.tool_paths.swtpm
  pub tpm_setup : Found locate v.swtpm_setup default.swtpm_setup c.tool_paths.swtpm_setup
  pub iso :
      ((v.mode ≡ text "build") × Found locate v.iso_runfile [] c.iso_path)
      ⊎ ((v.mode ≢ text "build") × (c.iso_path ≡ []))

require_all-Set : (vs : List (String × Text)) → require_all vs ≡ ok tt → All Set vs
unfolding require_all
require_all-Set [] h = tt
require_all-Set ((name, value) ∷ rest) h = elim (Bool-cases (is_empty value)) [
  | inl e ↦ absurd (fails e h)
  | inr e ↦ (e, require_all-Set rest (passes e h))
]
  where
    fails : is_empty value ≡ true → require_all ((name, value) ∷ rest) ≡ ok tt → ⊥
    fails e h = cc

    passes :
        is_empty value ≡ false
        → require_all ((name, value) ∷ rest) ≡ ok tt
        → require_all rest ≡ ok tt
    passes e h = cc

need-some : {A : Type 0} (e : LaunchError) (o : Option A) (a : A) → need e o ≡ ok a → o ≡ some a
need-some e none a h = cc
need-some e (some b) a h = cc

located :
    (locate : Locate) (path default got : Text) (empty : Bool)
    → (if empty then ok default else need (unresolved path) (locate path)) ≡ ok got
    → ((empty ≡ true) × (got ≡ default)) ⊎ ((empty ≡ false) × (locate path ≡ some got))
located locate path default got true h = inl (refl, cc)
located locate path default got false h =
    inr (refl, need-some (unresolved path) (locate path) got h)

locate_or-Found :
    (locate : Locate) (path default got : Text)
    → locate_or locate path default ≡ ok got
    → Found locate path default got
unfolding locate_or
locate_or-Found locate path default got h = located locate path default got (is_empty path) h

-- Only in build mode a runfile can be named for the ISO.
iso_found :
    (locate : Locate) (v : BuildVars) (got : Text)
    → Found locate (iso_wanted v) [] got
    → ((v.mode ≡ text "build") × Found locate v.iso_runfile [] got)
      ⊎ ((v.mode ≢ text "build") × (got ≡ []))
iso_found locate v got h = elim (Bool-cases (same v.mode (text "build"))) [
  | inl e ↦
      inl
        ((same_iff v.mode (text "build")).0 e, subst (λ path. Found locate path [] got) (build e) h)
  | inr e ↦
      inr ((λ q. differs e q), none_wanted (subst (λ path. Found locate path [] got) (other e) h))
]
  where
    build : same v.mode (text "build") ≡ true → iso_wanted v ≡ v.iso_runfile
    build e = rw e refl

    other : same v.mode (text "build") ≡ false → iso_wanted v ≡ []
    other e = rw e refl

    differs : same v.mode (text "build") ≡ false → v.mode ≡ text "build" → ⊥
    differs e q = ground (arith, (same_iff v.mode (text "build")).1 q)

    none_wanted : Found locate [] [] got → got ≡ []
    none_wanted (inl (e, q)) = q
    none_wanted (inr (e, q)) = cc

-- The four tools that can be runfiles.
abbrev AreFound : Locate → ToolPaths → BuildVars → ToolPaths → Type 0
AreFound locate default v tools =
    Found locate v.ovmf_code default.ovmf_code tools.ovmf_code
    × Found locate v.ovmf_vars default.ovmf_vars tools.ovmf_vars
    × Found locate v.swtpm default.swtpm tools.swtpm
    × Found locate v.swtpm_setup default.swtpm_setup tools.swtpm_setup

tool_paths_of_ok : (t u : ToolPaths) → ◌≡◌ {A = Result LaunchError ToolPaths} (ok t) (ok u) → t ≡ u
tool_paths_of_ok t u h = cc

resolve_tools-AreFound :
    (locate : Locate) (default tools : ToolPaths) (v : BuildVars)
    → resolve_tools locate v default ≡ ok tools
    → AreFound locate default v tools
unfolding resolve_tools
resolve_tools-AreFound locate default tools v h =
    let (code, e1, h1) = ok_of_bind (locate_or locate v.ovmf_code default.ovmf_code) _ h in
    let (vars, e2, h2) = ok_of_bind (locate_or locate v.ovmf_vars default.ovmf_vars) _ h1 in
    let (swtpm, e3, h3) = ok_of_bind (locate_or locate v.swtpm default.swtpm) _ h2 in
    let (setup, e4, h4) = ok_of_bind (locate_or locate v.swtpm_setup default.swtpm_setup) _ h3 in
    let eq =
      tool_paths_of_ok
        (record default { ovmf_code = code; ovmf_vars = vars; swtpm = swtpm; swtpm_setup = setup })
        tools h4 in
    subst (λ t. AreFound locate default v t) eq
      (
        locate_or-Found locate v.ovmf_code default.ovmf_code code e1,
        locate_or-Found locate v.ovmf_vars default.ovmf_vars vars e2,
        locate_or-Found locate v.swtpm default.swtpm swtpm e3,
        locate_or-Found locate v.swtpm_setup default.swtpm_setup setup e4,
      )

config_of_ok :
    (c d : RunnerConfig) → ◌≡◌ {A = Result LaunchError RunnerConfig} (ok c) (ok d) → c ≡ d
config_of_ok c d h = cc

-- A configuration is made only if the mode, the server, the tap device, the MAC address, the memory,
-- the processors, the disk size and the workspace are set and the number of processors can be read,
-- which is the configuration's; the firmware and the TPM tools are where the runfiles are that are
-- named for them, and as by default where none is named; and in build mode, but in no other, the ISO
-- is where its runfile is, if one is named, and else there is none.
pub make_config-IsConfigured :
    (locate : Locate) (default : ToolPaths) (workspace : Text) (flags : Flags) (v : BuildVars)
    (c : RunnerConfig)
    → make_config (some locate) default workspace flags v ≡ ok c
    → IsConfigured locate default workspace v c
unfolding make_config configured
make_config-IsConfigured locate default workspace flags v c h =
    let (_, e1, h1) = ok_of_bind (require_all (("vmMode", v.mode) ∷ [])) _ h in
    let (_, e3, h3) = ok_of_bind (require_all (required v)) _ h1 in
    let (cpus, e4, h4) = ok_of_bind (need (invalid_cpus v.cpus) (atoi v.cpus)) _ h3 in
    let (_, e5, h5) =
      ok_of_bind (require_all (("BUILD_WORKSPACE_DIRECTORY", workspace) ∷ [])) _ h4 in
    let (tools, e6, h6) = ok_of_bind (resolve_tools locate v default) _ h5 in
    let (iso, e7, h7) = ok_of_bind (locate_or locate (iso_wanted v) []) _ h6 in
    let checked = require_all-Set (required v) e3 in
    let found = resolve_tools-AreFound locate default tools v e6 in
    subst (λ d. IsConfigured locate default workspace v d)
      (config_of_ok (configured v flags workspace cpus tools iso) c h7)
      (record {
        mode_set = (require_all-Set (("vmMode", v.mode) ∷ []) e1).0;
        server_set = checked.0;
        tap_set = checked.1.0;
        mac_set = checked.1.1.0;
        memory_set = checked.1.1.1.0;
        cpus_set = checked.1.1.1.1.0;
        disk_size_set = checked.1.1.1.1.1.0;
        workspace_set = (require_all-Set (("BUILD_WORKSPACE_DIRECTORY", workspace) ∷ []) e5).0;
        processors = need-some (invalid_cpus v.cpus) (atoi v.cpus) cpus e4;
        code = found.0;
        vars = found.1;
        tpm = found.2;
        tpm_setup = found.3;
        iso = iso_found locate v iso (locate_or-Found locate (iso_wanted v) [] iso e7);
      })
