-- ===== src/Machine/Dump/Requests.antt =====
-- The diagnostics that the options ask for, one by one.
use rules_vmtest.Base.{◌≡◌, ◌≢◌, ◌⊎◌, [], ◌∷◌, ◌++◌, List, none, some, ok}
use rules_vmtest.Machine.Guest.{Guest}
use rules_vmtest.Machine.Dump.{
  DumpOption, Entry, header, State, Dumped, dump_journal, dump_kernel_log, dump_processes,
  dump_file,
}
use rules_vmtest.Machine.Dump.Asked.{
  Request, ask_journal, ask_processes, ask_file, ask_dmesg, last_dmesg, requests_with, requests,
}

module _ (G : Guest) where
  -- One request: an entry, or one for each process, if the call succeeds, and nothing if it fails.
  pub answer : Request → State G → State G
  answer (ask_journal unit) s = dump_journal G unit s
  answer (ask_dmesg filters) s = dump_kernel_log G filters s
  answer (ask_processes pattern) s = dump_processes G pattern s
  answer (ask_file glob) s = dump_file G glob s

  pub serve : List Request → State G → State G
  unfolding answer
  serve [] s = s
  serve (r ∷ rs) s = serve rs (answer r s)

  -- What a failed test has done: all that was asked for; or, if the last option for the kernel log has no
  -- filters, all but the kernel log.
  abbrev pub Serves : DumpOption → List DumpOption → G.World → List Entry → Dumped G → Type 0
  Serves o opts w log d =
      ((last_dmesg (o ∷ opts) none ≢ some none)
        × (d ≡ (ok tt, serve (requests (o ∷ opts)) (w, log ++ (header ∷ [])))))
      ⊎ ((last_dmesg (o ∷ opts) none ≡ some none)
          × (d ≡ (ok tt, serve (requests_with [] (o ∷ opts)) (w, log ++ (header ∷ [])))))
