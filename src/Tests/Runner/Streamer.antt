-- ===== src/Tests/Runner/Streamer.antt =====
-- A streamer with one stream of each type, and lines that are filtered.
use rules_vmtest.Base.{◌≡◌, ◌<◌, ◌≤◌, ◌⊎◌, refl, true, false, [], ◌∷◌, List, Text, text, keep}
use rules_vmtest.Strings.{contains, has_prefix}
use rules_vmtest.Bufio.{scanned}
use rules_vmtest.Runner.Streamer.{
  Step, StreamType, routine_ends, group, monitored, detached, ready, State, wait_returns,
  wait_all_returns, attach, end, wait, Reach, here, next, attach_filter, match_sync, add_one,
  one_done,
}
use rules_vmtest.Runner.Streamer.Waiting.{AllEnded, wait-AllEnded}
use rules_vmtest.Runner.Streamer.Ending.{Ends, more, stop, all_running, Returns, Ends-Returns}
use rules_vmtest.Runner.Streamer.Filtered.{read_lines, is_picked, FirstMatch, attach_filter-keep}

-- Two streams are attached, and that which is monitored ends: `Wait` can return.
abbrev two_attached : State
two_attached = record {
  streamer = record { monitored_group = 1; detached_group = 1 };
  routines =
      record { stream_type = monitored; ended = false }
      ∷ record { stream_type = detached; ended = false }
      ∷ [];
  caller = ready;
}

attached : Reach two_attached
unfolding add_one
attached = next (next here (attach monitored refl)) (attach detached refl)

abbrev one_ended : State
one_ended = record {
  streamer = record { monitored_group = 0; detached_group = 1 };
  routines =
      record { stream_type = monitored; ended = true }
      ∷ record { stream_type = detached; ended = false }
      ∷ [];
  caller = ready;
}

monitored-Ends : Ends 1 two_attached one_ended
unfolding one_done
monitored-Ends =
    more (end [] (record { stream_type = detached; ended = false } ∷ []) monitored refl) stop

ended : Reach one_ended
unfolding one_done
ended =
    next attached (end [] (record { stream_type = detached; ended = false } ∷ []) monitored refl)

wait-AllEnded_example :
    (wait_returns ≡ wait_returns → AllEnded monitored one_ended.routines)
    × (wait_returns ≡ wait_all_returns
        → AllEnded monitored one_ended.routines × AllEnded detached one_ended.routines)
    × ((u : StreamType) → wait_returns ≡ routine_ends u → 0 < group u one_ended.streamer)
wait-AllEnded_example = wait-AllEnded ended (wait refl refl)

Ends-Returns_example :
    (1 ≤ all_running two_attached.routines)
    × (((all_running one_ended.routines ≡ 0) × Returns one_ended)
        ⊎ ((k : StreamType) × (u : State) × Step one_ended (routine_ends k) u))
Ends-Returns_example = Ends-Returns attached monitored-Ends

abbrev input : Text
input = text "boot\npanic: oops\r\n\nlast error"

scanned_lines : scanned input ≡ text "boot" ∷ text "panic: oops" ∷ [] ∷ text "last error" ∷ []
unfolding scanned text
scanned_lines = refl

picked :
    attach_filter (text "panic" ∷ text "oops" ∷ text "error" ∷ []) input
    ≡ text "panic: oops" ∷ text "last error" ∷ []
unfolding attach_filter text contains has_prefix
picked = refl

-- The whole line, if it begins with `p`.
abbrev find : Text → List Text
find [] = []
find (c ∷ s) = elim (has_prefix (c ∷ s) (112 ∷ [])) [ true ↦ (c ∷ s) ∷ [] | false ↦ [] ]

attach_filter-keep_example :
    (attach_filter (text "error" ∷ []) input
      ≡ keep (is_picked (text "error" ∷ [])) (read_lines input))
    × FirstMatch find (read_lines input) (match_sync find input)
attach_filter-keep_example = attach_filter-keep (text "error" ∷ []) find input
