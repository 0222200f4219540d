-- ===== src/Tests/Runner/Stream.antt =====
-- Streams that are printed line by line.

use rules_vmtest.Base.{
  ◌≡◌, refl, ap, true, false, not, [], ◌∷◌, List, text, arith, ◌==◌, keep, keep-append,
}
use rules_vmtest.Runner.Stream.{Process, Read, attach, new_stream, drain}
use rules_vmtest.Runner.Stream.Lines.{Kept, shown, attach-Kept}
use rules_vmtest.Runner.Stream.Scan.{scan_lines, Short}
use rules_vmtest.Runner.Stream.Reference.{Streaming, stream_bytes, reference, attach-reference}

-- No escape sequences: all bytes are shown.
abbrev raw : Process
raw bytes = (bytes, [])

abbrev reads : List Read
reads =
    record { chunk = text "boo"; ends = false }
    ∷ record { chunk = text "t\n\nlogi"; ends = false }
    ∷ record { chunk = text "n"; ends = true }
    ∷ []

two_lines : (attach raw reads new_stream).0.printed ≡ text "boot" ∷ text "login" ∷ []
unfolding attach drain text
two_lines = refl

attach-Kept_example : Kept raw new_stream (attach raw reads new_stream) (shown raw [] reads)
attach-Kept_example = attach-Kept raw reads

-- Escapes that are one byte long: they are left out.
abbrev strip : Process
strip bytes = (keep (λ c. not (c == 27)) bytes, [])

strip-Streaming : Streaming strip
unfolding keep
strip-Streaming = record {
  empty = refl;
  joined = λ x y. ap (λ o. (o, [])) (keep-append (λ c. not (c == 27)) x y);
}

abbrev escaped : List Read
escaped =
    record { chunk = 98 ∷ 27 ∷ []; ends = false }
    ∷ record { chunk = 111 ∷ 10 ∷ 10 ∷ 107 ∷ []; ends = true }
    ∷ []

escaped-Short : Short 0 (strip (stream_bytes escaped)).0
unfolding Short keep
escaped-Short = omega arith

escaped_ends : (attach strip escaped new_stream).1 ≡ true
unfolding attach
escaped_ends = refl

attach-reference_example :
    (attach strip escaped new_stream).0.printed ≡ reference strip (stream_bytes escaped)
attach-reference_example = attach-reference strip strip-Streaming escaped escaped-Short escaped_ends

reference_lines : reference strip (stream_bytes escaped) ≡ (98 ∷ 111 ∷ []) ∷ (107 ∷ []) ∷ []
unfolding scan_lines keep
reference_lines = refl
