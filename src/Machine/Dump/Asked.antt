-- ===== src/Machine/Dump/Asked.antt =====
-- What the options of `DumpOnFailure` ask for, and what the configuration keeps of it.
use rules_vmtest.Base.{
  ◌≡◌, refl, sym, ◌∙◌, true, [], ◌∷◌, ◌++◌, List, Option, none, some, Text, is_empty, append_assoc,
  append-nil, if◌then◌else◌,
}
use rules_vmtest.Machine.Dump.{
  DumpConfig, no_dump, DumpOption, dump_journal_units, dump_dmesg, dump_process_list, dump_files,
  apply_dump, apply_dumps,
}

pub data Request : Type 0 where
  ask_journal ask_processes ask_file : Text → Request
  ask_dmesg : List Text → Request

-- The units and files of all options, in order.
abbrev pub units_of : List DumpOption → List Text
units_of [] = []
units_of (dump_journal_units units ∷ opts) = units ++ units_of opts
units_of (dump_dmesg filters ∷ opts) = units_of opts
units_of (dump_process_list pattern ∷ opts) = units_of opts
units_of (dump_files globs ∷ opts) = units_of opts

abbrev pub files_of : List DumpOption → List Text
files_of [] = []
files_of (dump_journal_units units ∷ opts) = files_of opts
files_of (dump_dmesg filters ∷ opts) = files_of opts
files_of (dump_process_list pattern ∷ opts) = files_of opts
files_of (dump_files globs ∷ opts) = globs ++ files_of opts

-- The filters and the pattern of the last option that sets them, and what they were where none does.
abbrev pub last_filters : List DumpOption → Option (List Text) → Option (List Text)
last_filters [] old = old
last_filters (dump_journal_units units ∷ opts) old = last_filters opts old
last_filters (dump_dmesg filters ∷ opts) old = last_filters opts filters
last_filters (dump_process_list pattern ∷ opts) old = last_filters opts old
last_filters (dump_files globs ∷ opts) old = last_filters opts old

abbrev pub last_pattern : List DumpOption → Text → Text
last_pattern [] old = old
last_pattern (dump_journal_units units ∷ opts) old = last_pattern opts old
last_pattern (dump_dmesg filters ∷ opts) old = last_pattern opts old
last_pattern (dump_process_list pattern ∷ opts) old = last_pattern opts pattern
last_pattern (dump_files globs ∷ opts) old = last_pattern opts old

abbrev pub each : (Text → Request) → List Text → List Request
each ask [] = []
each ask (t ∷ ts) = ask t ∷ each ask ts

abbrev pub asked_filters : Option (List Text) → List Request
asked_filters none = []
asked_filters (some filters) = ask_dmesg filters ∷ []

abbrev pub asked_pattern : Text → List Request
asked_pattern pattern = if is_empty pattern then [] else ask_processes pattern ∷ []

abbrev pub asked : List Text → Option (List Text) → Text → List Text → List Request
asked units filters pattern globs =
    each ask_journal units
    ++ (asked_filters filters ++ (asked_pattern pattern ++ each ask_file globs))

-- The last option for the kernel log, if there is one.
abbrev pub last_dmesg : List DumpOption → Option (Option (List Text)) → Option (Option (List Text))
last_dmesg [] old = old
last_dmesg (dump_journal_units units ∷ opts) old = last_dmesg opts old
last_dmesg (dump_dmesg filters ∷ opts) old = last_dmesg opts (some filters)
last_dmesg (dump_process_list pattern ∷ opts) old = last_dmesg opts old
last_dmesg (dump_files globs ∷ opts) old = last_dmesg opts old

-- The filters of a call: none are given by a nil slice.
abbrev pub filters_given : Option (List Text) → List Text
filters_given none = []
filters_given (some filters) = filters

-- The kernel log is asked for by an option, whether or not it has filters.
abbrev pub asked_dmesg : Option (Option (List Text)) → List Request
asked_dmesg none = []
asked_dmesg (some filters) = ask_dmesg (filters_given filters) ∷ []

-- What the options ask for: journals, the kernel log, processes and files.
abbrev pub requests_with : List Request → List DumpOption → List Request
requests_with dmesg opts =
    each ask_journal (units_of opts)
    ++ (dmesg ++ (asked_pattern (last_pattern opts []) ++ each ask_file (files_of opts)))

abbrev pub requests : List DumpOption → List Request
requests opts = requests_with (asked_dmesg (last_dmesg opts none)) opts

-- What becomes of the last option for the kernel log.
abbrev pub filters_kept : Option (Option (List Text)) → Option (List Text)
filters_kept none = none
filters_kept (some filters) = filters

pub last_filters-kept :
    (opts : List DumpOption) (old : Option (Option (List Text)))
    → last_filters opts (filters_kept old) ≡ filters_kept (last_dmesg opts old)
last_filters-kept [] old = refl
last_filters-kept (dump_journal_units units ∷ opts) old = last_filters-kept opts old
last_filters-kept (dump_dmesg filters ∷ opts) old = last_filters-kept opts (some filters)
last_filters-kept (dump_process_list pattern ∷ opts) old = last_filters-kept opts old
last_filters-kept (dump_files globs ∷ opts) old = last_filters-kept opts old

pub apply_dumps_lem :
    (opts : List DumpOption) (c : DumpConfig)
    → ((apply_dumps opts c).journal_units ≡ c.journal_units ++ units_of opts)
      × ((apply_dumps opts c).dmesg_filters ≡ last_filters opts c.dmesg_filters)
      × ((apply_dumps opts c).process_glob ≡ last_pattern opts c.process_glob)
      × ((apply_dumps opts c).file_globs ≡ c.file_globs ++ files_of opts)
unfolding apply_dumps
apply_dumps_lem [] c = (sym (append-nil c.journal_units), refl, refl, sym (append-nil c.file_globs))
apply_dumps_lem (dump_journal_units units ∷ opts) c =
    let (a, b, d, e) = apply_dumps_lem opts (apply_dump (dump_journal_units units) c) in
    (a ∙ append_assoc c.journal_units units (units_of opts), b, d, e)
apply_dumps_lem (dump_dmesg filters ∷ opts) c =
    apply_dumps_lem opts (apply_dump (dump_dmesg filters) c)
apply_dumps_lem (dump_process_list pattern ∷ opts) c =
    apply_dumps_lem opts (apply_dump (dump_process_list pattern) c)
apply_dumps_lem (dump_files globs ∷ opts) c =
    let (a, b, d, e) = apply_dumps_lem opts (apply_dump (dump_files globs) c) in
    (a, b, d, e ∙ append_assoc c.file_globs globs (files_of opts))

has_options-stays :
    (opts : List DumpOption) (c : DumpConfig)
    → c.has_options ≡ true
    → (apply_dumps opts c).has_options ≡ true
unfolding apply_dumps
has_options-stays [] c h = h
has_options-stays (dump_journal_units units ∷ opts) c h = has_options-stays opts _ refl
has_options-stays (dump_dmesg filters ∷ opts) c h = has_options-stays opts _ refl
has_options-stays (dump_process_list pattern ∷ opts) c h = has_options-stays opts _ refl
has_options-stays (dump_files globs ∷ opts) c h = has_options-stays opts _ refl

pub has_options-cons :
    (o : DumpOption) (opts : List DumpOption) → (apply_dumps (o ∷ opts) no_dump).has_options ≡ true
unfolding apply_dumps
has_options-cons (dump_journal_units units) opts = has_options-stays opts _ refl
has_options-cons (dump_dmesg filters) opts = has_options-stays opts _ refl
has_options-cons (dump_process_list pattern) opts = has_options-stays opts _ refl
has_options-cons (dump_files globs) opts = has_options-stays opts _ refl
