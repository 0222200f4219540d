-- ===== src/Tests/Ending.antt =====
-- The launcher with a run that fails.
use rules_vmtest.Base.{ℕ, ◌≡◌, refl, ◌⊎◌, true, false, Option, none, some, Text, text, same}
use rules_vmtest.Runner.Config.{new_runner}
use rules_vmtest.Runner.Modes.{Ended, run}
use rules_vmtest.Runner.Modes.Cleaned.{Cleaned}
use rules_vmtest.Cmd.Ending.{
  Signal, sigint, sigterm, sighup, selects, branches, signal_kills, Step, exited, ended_by_signal,
  is_direct, State, run_returns, signal_comes, select_signal, done_behind_signal, Reach, here, next,
}
use rules_vmtest.Cmd.Ending.Exits.{ExitsWith, EndedBy, Reach-ExitWith}
use rules_vmtest.Tests.Runner.Modes.{host, platform, config}

abbrev abs : Text → Option Text
abs path = none

abbrev result : Ended host
result = run host abs platform (new_runner platform config) 0

-- A signal comes, then the run returns, and the program exits.
abbrev cancelled : State host abs platform config
cancelled = record {
  phase = exited 0;
  begun = true;
  result = some result;
  signal = false;
  cancelled = true;
}

build_selects : is_direct config ≡ false
unfolding same text
build_selects = refl

reached : Reach host abs platform config cancelled
unfolding same text
reached =
    next
      (next (next (next (next here (branches refl)) (signal_comes refl)) (select_signal refl refl))
        (run_returns 0 refl refl))
      (done_behind_signal result refl refl)

Reach-ExitWith_example :
    ((code : ℕ)
      → cancelled.phase ≡ exited code
      → (r : Ended host) × (cancelled.result ≡ some r)
        × ExitsWith host abs platform config r.0 code true
        × (config.no_cleanup ≡ false → Cleaned host r.1))
    × ((g : Signal) → cancelled.phase ≡ ended_by_signal g → EndedBy host abs platform config g true)
    × ((g : Signal)
        → cancelled.phase ≡ selects
        → ((g ≡ sigint) ⊎ (g ≡ sigterm))
          ⊎ Step host abs platform config cancelled
              (record cancelled { phase = ended_by_signal g }))
Reach-ExitWith_example = Reach-ExitWith host abs platform config cancelled reached

-- The window of the launcher is closed while the run goes on.
abbrev hung_up : State host abs platform config
hung_up = record {
  phase = ended_by_signal sighup;
  begun = true;
  result = none;
  signal = false;
  cancelled = false;
}

hung_up_reached : Reach host abs platform config hung_up
unfolding same text
hung_up_reached = next (next here (branches refl)) (signal_kills sighup refl)
