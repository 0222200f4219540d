-- ===== src/Runner/Stream/Drain.antt =====
-- The inner loop of `AttachTagged`: it keeps every byte but the newlines, and leaves no newline behind.
use mathlib.Core.List.{flatten, cons-ne-nil}
use rules_vmtest.Base.{
  ℕ, zero, suc, ◌≤◌, ◌<◌, ◌≡◌, ◌≢◌, refl, sym, ap, ◌∙◌, not, [], ◌∷◌, ◌++◌, List, none, some,
  length, length-append, arith, All, All-append, keep, append-nil, append_assoc, Option-cases, inl,
  inr, ◌==◌,
}
use rules_vmtest.Runner.Stream.{Bytes, newline, cut, print, drain}

abbrev pub NoNewline : Bytes → Type 0
NoNewline = All (λ c. c ≢ newline)

-- The bytes that are no newline.
abbrev pub without_newlines : Bytes → Bytes
without_newlines = keep (λ c. not (c == newline))

pub cut-none : (s : Bytes) → cut s ≡ none → NoNewline s
unfolding cut
cut-none [] h = tt
cut-none (c ∷ s) h = elim (Option-cases (cut s)) [
  | inl e ↦ ground (arith, cut-none s e)
  | inr (p, e) ↦ absurd (ground arith)
]

pub cut-some :
    (s line rest : Bytes)
    → cut s ≡ some (line, rest)
    → NoNewline line × (s ≡ line ++ newline ∷ rest)
unfolding cut
cut-some [] line rest h = absurd (cc)
cut-some (c ∷ s) line rest h = elim (Option-cases (cut s)) [
  | inl e ↦ ground arith
  | inr (p, e) ↦ ground (arith, cut-some s p.0 p.1 e)
]

pub without_newlines-of-NoNewline : (s : Bytes) → NoNewline s → without_newlines s ≡ s
unfolding keep
without_newlines-of-NoNewline [] h = refl
without_newlines-of-NoNewline (c ∷ s) h = ground (arith, without_newlines-of-NoNewline s h.1)

without_newlines-cut :
    (line rest : Bytes)
    → NoNewline line
    → without_newlines (line ++ newline ∷ rest) ≡ line ++ without_newlines rest
unfolding keep
without_newlines-cut [] rest h = refl
without_newlines-cut (c ∷ line) rest h = ground (arith, without_newlines-cut line rest h.1)

-- A payload that `drain` may print.
abbrev pub IsLine : Bytes → Type 0
IsLine line = (line ≢ []) × NoNewline line

pub flatten-concat :
    (out : List Bytes) (line : Bytes) → flatten (out ++ (line ∷ [])) ≡ flatten out ++ line
unfolding flatten
flatten-concat [] line = append-nil line
flatten-concat (o ∷ out) line =
    rw (flatten-concat out line) (sym (append_assoc o (flatten out) line))

pub flatten-print :
    (line : Bytes) (out : List Bytes) → flatten (print line out) ≡ flatten out ++ line
flatten-print [] out = sym (append-nil (flatten out))
flatten-print (c ∷ line) out = flatten-concat out (c ∷ line)

print-IsLine :
    (line : Bytes) (out : List Bytes)
    → NoNewline line
    → All IsLine out
    → All IsLine (print line out)
print-IsLine [] out h lines = lines
print-IsLine (c ∷ line) out h lines =
    All-append IsLine out ((c ∷ line) ∷ []) lines ((cons-ne-nil c line, h), tt)

-- What the inner loop makes of the buffer `buf` and the printed payloads `out`.
pub record Drained (buf : Bytes) (out : List Bytes) (rest : Bytes) (out' : List Bytes)
    : Type 0 where
  pub clean : NoNewline rest
  pub short : length rest ≤ length buf
  pub kept : flatten out' ++ rest ≡ flatten out ++ without_newlines buf
  pub lines : All IsLine out → All IsLine out'

Drained-none : (buf : Bytes) (out : List Bytes) → NoNewline buf → Drained buf out buf out
Drained-none buf out h = record {
  clean = h;
  short = omega arith;
  kept = rw (without_newlines-of-NoNewline buf h);
  lines = λ l. l;
}

Drained-some :
    (buf line rest rest' : Bytes) (out out' : List Bytes)
    → NoNewline line
    → buf ≡ line ++ newline ∷ rest
    → Drained rest (print line out) rest' out'
    → Drained buf out rest' out'
Drained-some buf line rest rest' out out' h e d = record {
  clean = d.clean;
  short = omega (arith, d.short, ap length e, length-append line (newline ∷ rest));
  kept =
      d.kept
      ∙ rw (flatten-print, e, without_newlines-cut line rest h)
          (append_assoc (flatten out) line (without_newlines rest));
  lines = λ l. d.lines (print-IsLine line out h l);
}

-- With fuel for every byte the inner loop ends: nothing but newlines is lost, no newline is left in
-- the buffer, the buffer has not grown, and the printed payloads are lines.
pub drain_lem :
    (fuel : ℕ) (buf : Bytes) (out : List Bytes)
    → length buf < fuel
    → Drained buf out (drain fuel buf out).0 (drain fuel buf out).1
unfolding drain
drain_lem zero buf out h = elim h [ ]
drain_lem (suc fuel) buf out h = elim (Option-cases (cut buf)) [
  | inl e ↦ rw (e, drain) (Drained-none buf out (cut-none buf e))
  | inr (p, e) ↦
      let (clean, whole) = cut-some buf p.0 p.1 e in
      let smaller : length p.1 < fuel =
        omega (arith, ap length whole, length-append p.0 (newline ∷ p.1)) in
      rw (e, drain)
        (Drained-some buf p.0 p.1 _ out _ clean whole (drain_lem fuel p.1 (print p.0 out) smaller))
]
