-- ===== src/Runner/Streamer/Filtered.antt =====
-- Which lines the two readers pick.
use mathlib.Core.Path.{subst}
use rules_vmtest.Base.{
  suc, ◌≤◌, ◌<◌, ◌==◌, ltb, leb, length, length-append, is_empty, arith, ◌≡◌, refl, ap, sym, ◌∙◌,
  ◌⊎◌, inl, inr, Bool, [], ◌∷◌, ◌++◌, List, Option, none, some, Text, any, keep, append-nil,
  append_assoc, if◌then◌else◌, Bool-cases,
}
use rules_vmtest.Strings.{contains}
use rules_vmtest.Bufio.{scanned, scan_from, drop_cr, max_scan_token_size}
use rules_vmtest.Runner.Streamer.{print_match, filter_lines, attach_filter, match_lines, match_sync}

-- Whether the line contains one of the patterns.
abbrev pub is_picked : List Text → Text → Bool
is_picked patterns line = any (contains line) patterns

print_match-keep :
    (line : Text) (patterns out : List Text)
    → print_match line patterns out ≡ out ++ (if is_picked patterns line then line ∷ [] else [])
unfolding print_match
print_match-keep line [] out = sym (append-nil out)
print_match-keep line (p ∷ patterns) out = elim (Bool-cases (contains line p)) [
  | inl e ↦ rw e refl
  | inr e ↦ rw e (print_match-keep line patterns out)
]

picked-keep :
    (patterns : List Text) (line : Text) (lines : List Text)
    → (if is_picked patterns line then line ∷ [] else []) ++ keep (is_picked patterns) lines
      ≡ keep (is_picked patterns) (line ∷ lines)
unfolding keep
picked-keep patterns line lines = elim (Bool-cases (is_picked patterns line)) [
  | inl e ↦ rw e refl
  | inr e ↦ rw e refl
]

filter_lines-keep :
    (patterns lines out : List Text)
    → filter_lines patterns lines out ≡ out ++ keep (is_picked patterns) lines
unfolding filter_lines keep
filter_lines-keep patterns [] out = sym (append-nil out)
filter_lines-keep patterns (line ∷ lines) out =
    filter_lines-keep patterns lines (print_match line patterns out)
    ∙ rw (print_match-keep line patterns out) (
        append_assoc out (if is_picked patterns line then line ∷ [] else [])
          (keep (is_picked patterns) lines)
        ∙ ap (λ r. out ++ r) (picked-keep patterns line lines))

-- The matches of the first line that has any, and before it lines with none.
abbrev pub FirstMatch : (Text → List Text) → List Text → Option (List Text) → Type 0
FirstMatch find [] r = r ≡ none
FirstMatch find (line ∷ lines) r =
    ((find line ≡ []) × FirstMatch find lines r)
    ⊎ ((m : Text) × (ms : List Text) × (find line ≡ m ∷ ms) × (r ≡ some (m ∷ ms)))

match_lines-FirstMatch :
    (find : Text → List Text) (lines : List Text) → FirstMatch find lines (match_lines find lines)
unfolding match_lines
match_lines-FirstMatch find [] = refl
match_lines-FirstMatch find (line ∷ lines) =
    found (find line) refl (match_lines-FirstMatch find lines)
  where
    found :
        (ms : List Text)
        → find line ≡ ms
        → FirstMatch find lines (match_lines find lines)
        → FirstMatch find (line ∷ lines) (match_lines find (line ∷ lines))
    found [] e later = inl (e, rw (e, match_lines) later)
    found (m ∷ ms) e later = inr (m, ms, e, rw (e, match_lines) refl)

-- The lines of a stream; what follows the last newline is one if it is not empty.
abbrev pub lines_from : Text → Text → List Text
lines_from line [] = if is_empty line then [] else line ∷ []
lines_from line (c ∷ s) =
    if c == 10 then line ∷ lines_from [] s else lines_from (line ++ (c ∷ [])) s

-- The lines in front of the first that has 64 KiB or more, without a carriage return at their end.
abbrev pub readable : List Text → List Text
readable [] = []
readable (line ∷ lines) = if ltb (length line) 65536 then drop_cr line ∷ readable lines else []

abbrev pub read_lines : Text → List Text
read_lines input = readable (lines_from [] input)

too_long : (line s : Text) → 65536 ≤ length line → readable (lines_from line s) ≡ []
too_long [] [] h = absurd (ground arith)
too_long (d ∷ line) [] h = elim (Bool-cases (ltb (length (d ∷ line)) 65536)) [
  | inl e ↦ absurd (ground arith)
  | inr e ↦ rw e refl
]
too_long line (c ∷ s) h = elim (Bool-cases (c == 10)) [
  | inl e ↦ rw e (elim (Bool-cases (ltb (length line) 65536)) [
    | inl q ↦ absurd (ground arith)
    | inr q ↦ rw q refl
  ])
  | inr e ↦ rw e (too_long (line ++ (c ∷ [])) s (omega (arith, length-append line (c ∷ []))))
]

short_line :
    (line : Text) (lines : List Text)
    → length line < 65536
    → readable (line ∷ lines) ≡ drop_cr line ∷ readable lines
short_line line lines h = elim (Bool-cases (ltb (length line) 65536)) [
  | inl e ↦ rw e refl
  | inr e ↦ absurd (ground arith)
]

scan_from-readable :
    (line s : Text) → length line < 65536 → scan_from line s ≡ readable (lines_from line s)
unfolding scan_from
scan_from-readable [] [] h = refl
scan_from-readable (d ∷ line) [] h = sym (short_line (d ∷ line) [] h)
scan_from-readable line (c ∷ s) h = elim (Bool-cases (c == 10)) [
  | inl e ↦ rw e (
      ap (λ ls. drop_cr line ∷ ls) (scan_from-readable [] s (omega arith))
      ∙ sym (short_line line (lines_from [] s) h))
  | inr e ↦ elim (Bool-cases (leb max_scan_token_size (suc (length line)))) [
    | inl q ↦
        rw (e, q)
          (sym (too_long (line ++ (c ∷ [])) s (ground (arith, length-append line (c ∷ [])))))
    | inr q ↦
        rw (e, q)
          (scan_from-readable (line ++ (c ∷ [])) s (ground (arith, length-append line (c ∷ []))))
  ]
]

-- Both readers stop at the first line of 64 KiB or more. Of the lines in front of it `AttachFilter`
-- prints exactly those that contain one of the patterns, each once and in order; and `MatchSync` calls
-- its callback with the matches of the first of them that has any, and not at all if none of them has.
pub attach_filter-keep :
    (patterns : List Text) (find : Text → List Text) (input : Text)
    → (attach_filter patterns input ≡ keep (is_picked patterns) (read_lines input))
      × FirstMatch find (read_lines input) (match_sync find input)
unfolding attach_filter match_sync scanned
attach_filter-keep patterns find input =
    let read = scan_from-readable [] input (omega arith) in
    (
      filter_lines-keep patterns (scan_from [] input) [] ∙ ap (keep (is_picked patterns)) read,
      subst (λ ls. FirstMatch find ls (match_lines find (scan_from [] input))) read
          (match_lines-FirstMatch find (scan_from [] input)),
    )
