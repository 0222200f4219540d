-- ===== src/Runner/Stream/Scan.antt =====
-- Cutting a whole text into lines at once, and that the inner loop of `AttachTagged` does just this.
use mathlib.Core.Path.{subst}
use rules_vmtest.Base.{
  ℕ, zero, suc, ◌+◌, ◌≤◌, ◌<◌, ◌≡◌, ◌≢◌, refl, sym, ap, ◌∙◌, [], ◌∷◌, ◌++◌, List, length,
  length-append, All-append, is_empty, ◌==◌, arith, append-nil, append_assoc, Bool-cases,
  Option-cases, inl, inr, if◌then◌else◌,
}
use rules_vmtest.Runner.Stream.{Bytes, newline, buffer_limit, cut, print, drain}
use rules_vmtest.Runner.Stream.Drain.{NoNewline, cut-none, cut-some}

-- A line, unless it is empty.
abbrev pub line_of : Bytes → List Bytes
line_of line = if is_empty line then [] else line ∷ []

abbrev pub behind_line : Bytes → List Bytes × Bytes → List Bytes × Bytes
behind_line line (lines, rest) = (line_of line ++ lines, rest)

-- The complete lines of a text behind the unfinished line `line`, and the unfinished line at its end.
unfoldable pub scan_lines : Bytes → Bytes → List Bytes × Bytes
scan_lines line [] = ([], line)
scan_lines line (c ∷ s) =
    let fresh = scan_lines [] s in
    let longer = scan_lines (line ++ (c ∷ [])) s in
    if c == newline then behind_line line fresh else longer

-- No line of the text grows beyond the limit, where `n` bytes of the first are there already.
unfoldable pub Short : ℕ → Bytes → Type 0
Short n [] = n ≤ buffer_limit
Short n (c ∷ s) = (n ≤ buffer_limit) × Short (if c == newline then 0 else n + 1) s

pub scan_lines-NoNewline : (line s : Bytes) → NoNewline s → scan_lines line s ≡ ([], line ++ s)
unfolding scan_lines
scan_lines-NoNewline line [] h = rw (append-nil line) refl
scan_lines-NoNewline line (c ∷ s) h = elim (Bool-cases (c == newline)) [
  | inl e ↦ absurd (ground arith)
  | inr e ↦
      rw e (scan_lines-NoNewline (line ++ (c ∷ [])) s h.1 ∙ rw (append_assoc line (c ∷ []) s) refl)
]

scan_lines-newline :
    (line s rest : Bytes)
    → NoNewline s
    → scan_lines line (s ++ newline ∷ rest) ≡ behind_line (line ++ s) (scan_lines [] rest)
unfolding scan_lines
scan_lines-newline line [] rest h = rw (append-nil line) refl
scan_lines-newline line (c ∷ s) rest h = elim (Bool-cases (c == newline)) [
  | inl e ↦ absurd (ground arith)
  | inr e ↦
      rw e
        (scan_lines-newline (line ++ (c ∷ [])) s rest h.1 ∙ rw (append_assoc line (c ∷ []) s) refl)
]

-- Cutting a text in two parts, one after the other.
abbrev pub then_scan : List Bytes × Bytes → Bytes → List Bytes × Bytes
then_scan (lines, rest) s = (lines ++ (scan_lines rest s).0, (scan_lines rest s).1)

then_scan-behind_line :
    (line : Bytes) (r : List Bytes × Bytes) (s : Bytes)
    → behind_line line (then_scan r s) ≡ then_scan (behind_line line r) s
then_scan-behind_line line (lines, rest) s =
    rw (append_assoc (line_of line) lines (scan_lines rest s).0) refl

pub scan_lines-append :
    (line x y : Bytes) → scan_lines line (x ++ y) ≡ then_scan (scan_lines line x) y
unfolding scan_lines
scan_lines-append line [] y = refl
scan_lines-append line (c ∷ x) y = elim (Bool-cases (c == newline)) [
  | inl e ↦ rw e (
      ap (behind_line line) (scan_lines-append [] x y)
      ∙ then_scan-behind_line line (scan_lines [] x) y)
  | inr e ↦ rw e (scan_lines-append (line ++ (c ∷ [])) x y)
]

pub print-line_of : (line : Bytes) (out : List Bytes) → print line out ≡ out ++ line_of line
print-line_of [] out = sym (append-nil out)
print-line_of (c ∷ line) out = refl

-- The inner loop cuts the buffer into lines.
pub drain-scan_lines :
    (fuel : ℕ) (buf : Bytes) (out : List Bytes)
    → length buf < fuel
    → drain fuel buf out ≡ ((scan_lines [] buf).1, out ++ (scan_lines [] buf).0)
unfolding drain
drain-scan_lines zero buf out h = elim h [ ]
drain-scan_lines (suc fuel) buf out h = elim (Option-cases (cut buf)) [
  | inl e ↦
      rw (e, drain, scan_lines-NoNewline [] buf (cut-none buf e))
        (ap (λ o. (buf, o)) (sym (append-nil out)))
  | inr (p, e) ↦
      let (clean, whole) = cut-some buf p.0 p.1 e in
      let smaller : length p.1 < fuel =
        omega (arith, ap length whole, length-append p.0 (newline ∷ p.1)) in
      let cut_at : scan_lines [] buf ≡ behind_line p.0 (scan_lines [] p.1) =
        ap (scan_lines []) whole ∙ scan_lines-newline [] p.0 p.1 clean in
      rw (e, drain, cut_at)
        (drain-scan_lines fuel p.1 (print p.0 out) smaller
          ∙ rw (print-line_of p.0 out) (
              ap (λ o. ((scan_lines [] p.1).1, o))
                (append_assoc out (line_of p.0) (scan_lines [] p.1).0)))
]

Short-start : (n : ℕ) (s : Bytes) → Short n s → n ≤ buffer_limit
unfolding Short
Short-start n [] h = h
Short-start n (c ∷ s) h = h.0

-- The unfinished line at the end of a text with short lines is short too, and what follows it.
pub Short-append :
    (line x y : Bytes)
    → Short (length line) (x ++ y)
    → Short (length line) x × Short (length (scan_lines line x).1) y
unfolding Short scan_lines
Short-append line [] y h = (Short-start (length line) y h, h)
Short-append line (c ∷ x) y h = elim (Bool-cases (c == newline)) [
  | inl e ↦ let (first, rest) = Short-append [] x y (rw e at (h.1)) in rw e ((h.0, first), rest)
  | inr e ↦
      let longer : length line + 1 ≡ length (line ++ (c ∷ [])) =
        omega (arith, length-append line (c ∷ [])) in
      let (first, rest) = Short-append (line ++ (c ∷ [])) x y (rw longer at (rw e at (h.1))) in
      rw e ((h.0, rw longer first), rest)
]

pub scan_lines-Short :
    (line x : Bytes) → Short (length line) x → length (scan_lines line x).1 ≤ buffer_limit
scan_lines-Short line x h =
    Short-start (length (scan_lines line x).1) []
      (Short-append line x [] (subst (Short (length line)) (sym (append-nil x)) h)).1

pub scan_lines-clean : (line x : Bytes) → NoNewline line → NoNewline (scan_lines line x).1
unfolding scan_lines
scan_lines-clean line [] h = h
scan_lines-clean line (c ∷ x) h = elim (Bool-cases (c == newline)) [
  | inl e ↦ rw e (scan_lines-clean [] x tt)
  | inr e ↦ rw e (
      scan_lines-clean (line ++ (c ∷ [])) x
        (All-append (λ d. d ≢ newline) line (c ∷ []) h (ground arith, tt)))
]
