-- ===== src/Runner/Streamer.antt =====
-- `OutputStreamer` of `runner/process_manager.go`: the two wait groups with the goroutines that they
-- count, and the two ways of reading a stream line by line. What a goroutine of `AttachTagged` prints
-- is modelled in `Runner/Stream`.
pub mod Waiting
pub mod Ending
pub mod Filtered
use rules_vmtest.Base.{
  ℕ, suc, ◌+◌, ◌-◌, ◌≡◌, Bool, true, false, [], ◌∷◌, ◌++◌, List, Option, none, some, Text,
  if◌then◌else◌,
}
use rules_vmtest.Strings.{contains}
use rules_vmtest.Bufio.{scanned}

pub data StreamType : Type 0 where
  monitored detached : StreamType

pub record OutputStreamer : Type 0 where
  pub monitored_group : ℕ
  pub detached_group : ℕ

abbrev pub new_output_streamer : OutputStreamer
new_output_streamer = record { monitored_group = 0; detached_group = 0 }

-- `wg`
abbrev pub group : StreamType → OutputStreamer → ℕ
group monitored s = s.monitored_group
group detached s = s.detached_group

-- `wg.Add(1)` and `wg.Done()` on the group of the stream's type. Below zero Go panics, where this stays
-- at zero.
unfoldable pub add_one : StreamType → OutputStreamer → OutputStreamer
add_one monitored s = record s { monitored_group = s.monitored_group + 1 }
add_one detached s = record s { detached_group = s.detached_group + 1 }

unfoldable pub one_done : StreamType → OutputStreamer → OutputStreamer
one_done monitored s = record s { monitored_group = s.monitored_group - 1 }
one_done detached s = record s { detached_group = s.detached_group - 1 }

-- A goroutine of `AttachTagged` or `AttachFilter`, and whether it has ended.
pub record Routine : Type 0 where
  pub stream_type : StreamType
  pub ended : Bool

-- Where the caller stands: between two calls, or behind the first wait of `WaitAll`.
pub data Caller : Type 0 where
  ready in_wait_all : Caller

pub record State : Type 0 where
  pub streamer : OutputStreamer
  pub routines : List Routine
  pub caller : Caller

abbrev pub start : State
start = record { streamer = new_output_streamer; routines = []; caller = ready }

pub data Label : Type 0 where
  attaches wait_returns first_wait_passes wait_all_returns : Label
  routine_ends : StreamType → Label

-- One step of the caller or of a goroutine. A goroutine ends when its reader does.
pub data Step (s : State) : Label → State → Type 0 where
  attach :
      (t : StreamType)
      → s.caller ≡ ready
      → Step s attaches (record s {
        streamer = add_one t s.streamer;
        routines = s.routines ++ (record { stream_type = t; ended = false } ∷ []);
      })
  end :
      (before after : List Routine) (t : StreamType)
      → s.routines ≡ before ++ (record { stream_type = t; ended = false } ∷ after)
      → Step s (routine_ends t) (record s {
        streamer = one_done t s.streamer;
        routines = before ++ (record { stream_type = t; ended = true } ∷ after);
      })
  wait : s.caller ≡ ready → s.streamer.monitored_group ≡ 0 → Step s wait_returns s
  wait_first :
      s.caller ≡ ready
      → s.streamer.monitored_group ≡ 0
      → Step s first_wait_passes (record s { caller = in_wait_all })
  wait_second :
      s.caller ≡ in_wait_all
      → s.streamer.detached_group ≡ 0
      → Step s wait_all_returns (record s { caller = ready })

pub data Reach : State → Type 0 where
  here : Reach start
  next : {s t : State} {l : Label} → Reach s → Step s l t → Reach t

-- The inner loop of `AttachFilter`: the line is printed at the first pattern that it contains.
unfoldable pub print_match : Text → List Text → List Text → List Text
print_match line [] out = out
print_match line (pattern ∷ patterns) out =
    let later = print_match line patterns out in
    if contains line pattern then out ++ (line ∷ []) else later

unfoldable pub filter_lines : List Text → List Text → List Text → List Text
unfolding print_match
filter_lines patterns [] out = out
filter_lines patterns (line ∷ lines) out =
    filter_lines patterns lines (print_match line patterns out)

-- `AttachFilter`: the lines printed behind the tag.
unfoldable pub attach_filter : List Text → Text → List Text
unfolding filter_lines scanned
attach_filter patterns input = filter_lines patterns (scanned input) []

-- The loop of `MatchSync`, with what `FindStringSubmatch` gives as a parameter: the matches with which
-- the callback is called, if it is.
unfoldable pub match_lines : (Text → List Text) → List Text → Option (List Text)
match_lines find [] = none
match_lines find (line ∷ lines) =
    let later = match_lines find lines in elim (find line) [ [] ↦ later | m ∷ ms ↦ some (m ∷ ms) ]

unfoldable pub match_sync : (Text → List Text) → Text → Option (List Text)
unfolding match_lines scanned
match_sync find input = match_lines find (scanned input)
