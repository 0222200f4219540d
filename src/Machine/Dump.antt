-- ===== src/Machine/Dump.antt =====
-- `DumpOnFailure` of `machine/machine.go`, with its options: what is collected when a test has failed.
-- An entry is a call of `t.Logf`. The clean-up is modelled where it runs, at the end of the test.
pub mod Asked
pub mod Requests
pub mod Failed
use rules_vmtest.Base.{
  Bool, true, false, not, [], ◌∷◌, ◌++◌, List, Option, none, some, ℤ, pos, Text, text, is_empty,
  if◌then◌else◌, Result, ok, err,
}
use rules_vmtest.Strings.{split, trim_space, fields}
use rules_vmtest.Machine.Guest.{Guest, ProcessInfo}
use rules_vmtest.Machine.Quote.{dmesg_command}
use rules_vmtest.Machine.Exec.{ExecResult, Failure, panicked, execute}

-- `dmesg_filters` is `none` where the slice is nil.
pub record DumpConfig : Type 0 where
  pub journal_units : List Text
  pub dmesg_filters : Option (List Text)
  pub process_glob : Text
  pub file_globs : List Text
  pub has_options : Bool

abbrev pub no_dump : DumpConfig
no_dump = record {
  journal_units = [];
  dmesg_filters = none;
  process_glob = [];
  file_globs = [];
  has_options = false;
}

-- The calls of the option functions, with their arguments. The filters are `none` where the slice is
-- nil, as it is in a call without filters.
pub data DumpOption : Type 0 where
  dump_journal_units : List Text → DumpOption
  dump_dmesg : Option (List Text) → DumpOption
  dump_process_list : Text → DumpOption
  dump_files : List Text → DumpOption

unfoldable pub apply_dump : DumpOption → DumpConfig → DumpConfig
apply_dump (dump_journal_units units) c = record c {
  journal_units = c.journal_units ++ units;
  has_options = true;
}
apply_dump (dump_dmesg filters) c = record c { dmesg_filters = filters; has_options = true }
apply_dump (dump_process_list pattern) c = record c { process_glob = pattern; has_options = true }
apply_dump (dump_files globs) c = record c {
  file_globs = c.file_globs ++ globs;
  has_options = true;
}

unfoldable pub apply_dumps : List DumpOption → DumpConfig → DumpConfig
unfolding apply_dump
apply_dumps [] c = c
apply_dumps (o ∷ opts) c = apply_dumps opts (apply_dump o c)

pub data Entry : Type 0 where
  header : Entry
  journal failed_unit : Text → List Text → Entry
  dmesg : Text → Entry
  process : ProcessInfo → Entry
  file : Text → Text → Entry

module _ (G : Guest) where
  -- The world, and what has been logged.
  abbrev pub State : Type 0
  State = G.World × List Entry

  -- Logs something if the call has succeeded.
  abbrev pub log_reply :
      {A : Type 0} → (A → Entry) → List Entry → Result G.Error A × G.World → State
  log_reply entry log (err e, w) = (w, log)
  log_reply entry log (ok a, w) = (w, log ++ (entry a ∷ []))

  unfoldable pub dump_journal : Text → State → State
  dump_journal unit (w, log) = log_reply (journal unit) log (G.journal_lines unit (pos 100) [] w)

  unfoldable pub dump_journals : List Text → State → State
  unfolding dump_journal
  dump_journals [] s = s
  dump_journals (unit ∷ units) s = dump_journals units (dump_journal unit s)

  abbrev pub log_output : List Entry → Option G.Error → ExecResult G.Error → G.World → State
  log_output log (some e) r w = (w, log)
  log_output log none r w = (w, log ++ (dmesg r.stdout ∷ []))

  -- `dumpDmesg`
  unfoldable pub dump_kernel_log : List Text → State → State
  dump_kernel_log filters (w, log) =
      let (r, w') = execute G (dmesg_command filters) w in log_output log r.error r w'

  abbrev pub process_entries : List ProcessInfo → List Entry
  process_entries [] = []
  process_entries (p ∷ ps) = process p ∷ process_entries ps

  abbrev pub log_processes : List Entry → Result G.Error (List ProcessInfo) × G.World → State
  log_processes log (err e, w) = (w, log)
  log_processes log (ok procs, w) = (w, log ++ process_entries procs)

  unfoldable pub dump_processes : Text → State → State
  dump_processes pattern (w, log) = log_processes log (G.find_processes pattern w)

  unfoldable pub dump_file : Text → State → State
  dump_file glob (w, log) = log_reply (file glob) log (G.read_file glob w)

  unfoldable pub dump_all_files : List Text → State → State
  unfolding dump_file
  dump_all_files [] s = s
  dump_all_files (glob ∷ globs) s = dump_all_files globs (dump_file glob s)

  abbrev pub dump_filtered : Option (List Text) → State → State
  dump_filtered none s = s
  dump_filtered (some filters) s = dump_kernel_log filters s

  abbrev pub dump_listed : Text → State → State
  dump_listed pattern s = if not (is_empty pattern) then dump_processes pattern s else s

  -- The parts in the order in which the code has them.
  unfoldable pub dump_parts : DumpConfig → State → State
  unfolding dump_journals dump_all_files
  dump_parts c s =
      dump_all_files c.file_globs (
        dump_listed c.process_glob
          (dump_filtered c.dmesg_filters (dump_journals c.journal_units s)))

  -- The result of the clean-up, which can panic, and the state.
  abbrev pub Dumped : Type 0
  Dumped = Result (Failure G.Error) (Unit {0}) × State

  unfoldable pub dump_failed_unit : Text → State → State
  dump_failed_unit unit (w, log) =
      log_reply (failed_unit unit) log (G.journal_lines unit (pos 50) [] w)

  -- `strings.Fields(line)[0]` panics on a line of blanks.
  abbrev pub first_field : Text → List Text → (Text → Dumped) → State → Dumped
  first_field line [] next s = (err (panicked line), s)
  first_field line (unit ∷ rest) next s = next unit

  unfoldable pub dump_lines : List Text → State → Dumped
  unfolding dump_failed_unit
  dump_lines [] s = (ok tt, s)
  dump_lines (line ∷ lines) s =
      let skipped = dump_lines lines s in
      if is_empty line
      then skipped
      else first_field line (fields line) (λ unit. dump_lines lines (dump_failed_unit unit s)) s

  abbrev pub dump_listing : List Entry → Option G.Error → ExecResult G.Error → G.World → Dumped
  dump_listing log (some e) r w = (ok tt, (w, log))
  dump_listing log none r w = dump_lines (split b'\n' (trim_space r.stdout)) (w, log)

  -- `dumpFailedUnits`
  unfoldable pub dump_failed_units : State → Dumped
  unfolding dump_lines
  dump_failed_units (w, log) =
      let (r, w') = execute G (text "systemctl --failed --no-legend --no-pager --plain") w in
      dump_listing log r.error r w'

  abbrev pub then_kernel_log : Dumped → Dumped
  then_kernel_log (err e, s) = (err e, s)
  then_kernel_log (ok u, s) = (ok u, dump_kernel_log [] s)

  -- The function that `DumpOnFailure` registers.
  unfoldable pub dump : DumpConfig → Bool → State → Dumped
  unfolding dump_parts dump_failed_units
  dump c false s = (ok tt, s)
  dump c true (w, log) =
      let s : State = (w, log ++ (header ∷ [])) in
      if not c.has_options then then_kernel_log (dump_failed_units s) else (ok tt, dump_parts c s)

  -- `DumpOnFailure`
  unfoldable pub dump_on_failure : List DumpOption → Bool → State → Dumped
  unfolding apply_dumps dump
  dump_on_failure opts test_failed s = dump (apply_dumps opts no_dump) test_failed s
