-- ===== src/Tests/Machine/Diagnosis.antt =====
-- Diagnostics, queries, and the life of a machine at fixed inputs.
use rules_vmtest.Base.{ℕ, ◌≡◌, refl, ◌⊎◌, true, [], ◌∷◌, List, none, some, pos, text, ok, err}
use rules_vmtest.Strings.{fields, split, trim_space}
use rules_vmtest.Machine.Guest.{Guest, NetworkInfo}
use rules_vmtest.Machine.Exec.{call_failed, execute, panicked}
use rules_vmtest.Machine.Env.{Env, with_memory}
use rules_vmtest.Machine.Dump.{
  DumpOption, dump_journal_units, dump_dmesg, dump_files, header, failed_unit, dmesg,
  dump_on_failure, dump_lines, dump_kernel_log,
}
use rules_vmtest.Machine.Dump.Asked.{ask_journal, ask_dmesg, ask_file, requests}
use rules_vmtest.Machine.Dump.Failed.{Reported, dump_on_failure-Reported}
use rules_vmtest.Machine.Query.{Link, network_links}
use rules_vmtest.Machine.Query.Links.{Mirrors, network_links-Mirrors}
use rules_vmtest.Cmd.TestRunner.Verdict.{Verdict, test_main, test_main-Verdict}
use rules_vmtest.Machine.Boot.{Vmm, with_bridge, with_vm_option, MachineOption}
use rules_vmtest.Tests.Machine.Wait.{booting}

-- Options of the same kind add up, but for the filters and the pattern, of which the last counts; and
-- `DumpDmesg` without filters asks for nothing.
asked_for :
    requests (
      dump_journal_units (text "a" ∷ [])
      ∷ dump_dmesg (some (text "oom" ∷ []))
      ∷ dump_files (text "f" ∷ [])
      ∷ dump_journal_units (text "b" ∷ [])
      ∷ [])
    ≡ ask_journal (text "a")
      ∷ ask_journal (text "b")
      ∷ ask_dmesg (text "oom" ∷ [])
      ∷ ask_file (text "f")
      ∷ []
asked_for = refl

-- A guest with two failed units and two links, one of which has two addresses.
abbrev degraded : Guest
degraded = record booting {
  exec = λ cmd d w. (
    ok (record {
      stdout = text "a.service loaded failed\nb.service loaded failed\n";
      stderr = [];
      exit_code = pos 0;
    }),
    w,
  );
  journal_lines = λ unit n since w. (ok (unit ∷ []), w);
  read_file = λ path w. (ok (text "content"), w);
  network_info = λ iface w. (
    ok (record {
      addrs =
          record { interface = text "eth0"; address = text "10.0.0.2/24" }
          ∷ record { interface = text "lo"; address = text "127.0.0.1/8" }
          ∷ record { interface = text "eth0"; address = text "fe80::1/64" }
          ∷ [];
      routes = [];
      links =
          record { name = text "lo"; state = text "up"; mtu = pos 65536 }
          ∷ record { name = text "eth0"; state = text "up"; mtu = pos 1500 }
          ∷ [];
    }),
    w,
  );
}

failed_dumped :
    (dump_on_failure degraded [] true (0, [])).1.1
    ≡ header
      ∷ failed_unit (text "a.service") (text "a.service" ∷ [])
      ∷ failed_unit (text "b.service") (text "b.service" ∷ [])
      ∷ dmesg (text "a.service loaded failed\nb.service loaded failed\n")
      ∷ []
unfolding dump_on_failure text execute split trim_space fields dump_kernel_log
failed_dumped = refl

-- The kernel log is asked for, and left out.
no_filters :
    (requests (dump_dmesg none ∷ []) ≡ ask_dmesg [] ∷ [])
    × (dump_on_failure degraded (dump_dmesg none ∷ []) true (0, []) ≡ (ok tt, (0, header ∷ [])))
unfolding dump_on_failure
no_filters = (refl, refl)

abbrev some_options : List DumpOption
some_options = dump_files (text "f" ∷ []) ∷ dump_dmesg (some (text "oom" ∷ [])) ∷ []

-- A line of blanks between two lines ends the listing in a panic.
blank_line :
    (dump_lines booting (text "a.service" ∷ text "  " ∷ []) (0, [])).0 ≡ err (panicked (text "  "))
unfolding dump_lines fields text
blank_line = refl

dump_on_failure-Reported_example :
    let (r, w') = execute degraded (text "systemctl --failed --no-legend --no-pager --plain") 0 in
    Reported degraded (header ∷ []) r.error r w' (dump_on_failure degraded [] true (0, []))
dump_on_failure-Reported_example = dump_on_failure-Reported degraded 0 []

network_links-Mirrors_example :
    ((info : NetworkInfo) × ((degraded.network_info [] 0).0 ≡ ok info)
      × ((links : List Link) × ((network_links degraded 0).0 ≡ ok links)
          × Mirrors info.addrs info.links links))
    ⊎ ((e : Unit {0}) × ((degraded.network_info [] 0).0 ≡ err e)
        × ((network_links degraded 0).0 ≡ err (call_failed [] e)))
network_links-Mirrors_example = network_links-Mirrors degraded 0

-- Machines and connections are numbers, and every call succeeds.
abbrev vmm : Vmm
vmm = record {
  World = ℕ;
  Error = Unit {0};
  Vm = ℕ;
  Agent = ℕ;
  allocate_tap = λ bridge w. (ok (text "mltt-tap3"), w);
  start = λ opts w. (ok 7, w);
  has_serial = λ vm w. true;
  connect_agent = λ vm limit w. (ok 8, w);
  perform = λ a w. w;
  stop = λ vm w. (none, w);
}

abbrev no_env : Env
no_env = λ name. []

abbrev options : List MachineOption
options = with_bridge (text "br0") ∷ with_vm_option (with_memory (text "1G")) ∷ []

-- The serial line shows the marker of a test that passes.
test_main-Verdict_example :
    Verdict vmm (λ vm w. (none, w)) [] [] (ok 7, 0) (test_main vmm (λ vm w. (none, w)) [] (0, []))
test_main-Verdict_example = test_main-Verdict vmm (λ vm w. (none, w)) [] (0, [])
