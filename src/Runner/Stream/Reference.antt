-- ===== src/Runner/Stream/Reference.antt =====
-- That `AttachTagged` prints a stream as if it had been read at once, however its reads fall.
use mathlib.Core.Path.{subst}
use rules_vmtest.Base.{
  suc, ◌≤◌, ◌≡◌, refl, sym, ap, ◌∙◌, Bool, true, false, [], ◌∷◌, ◌++◌, List, length, is_empty,
  arith, append-nil, append_assoc, Bool-cases, inl, inr, if◌then◌else◌,
}
use rules_vmtest.Runner.Stream.{
  Bytes, buffer_limit, flush, Stream, Read, Process, take_chunk, finish, attach, new_stream,
}
use rules_vmtest.Runner.Stream.Drain.{NoNewline}
use rules_vmtest.Runner.Stream.Lines.{shown, shown_now}
use rules_vmtest.Runner.Stream.Scan.{
  line_of, scan_lines, Short, scan_lines-NoNewline, scan_lines-append, print-line_of,
  drain-scan_lines, Short-append, scan_lines-Short, scan_lines-clean,
}

-- Reading a stream whose lines are short.
module _ (process : Process) where
  -- The variables behind a read that printed nothing but complete lines.
  abbrev cut_up : List Bytes × Bytes → Bytes → List Bytes → Stream
  cut_up (lines, rest) pending out = record {
    pending = pending;
    line_buf = rest;
    printed = out ++ lines;
  }

  flush-short :
      (pending rest : Bytes) (out : List Bytes)
      → length rest ≤ buffer_limit
      → flush pending rest out ≡ record { pending = pending; line_buf = rest; printed = out }
  flush-short pending rest out h = ground arith

  take_chunk-cut_up :
      (chunk : Bytes) (st : Stream)
      → NoNewline st.line_buf
      → Short (length st.line_buf) (process (st.pending ++ chunk)).0
      → let r = process (st.pending ++ chunk) in
        take_chunk process chunk st ≡ cut_up (scan_lines st.line_buf r.0) r.1 st.printed
  unfolding take_chunk
  take_chunk-cut_up chunk st clean short =
      let r = process (st.pending ++ chunk) in
      let buf = st.line_buf ++ r.0 in
      let whole : scan_lines [] buf ≡ scan_lines st.line_buf r.0 =
        scan_lines-append [] st.line_buf r.0
        ∙ rw (scan_lines-NoNewline [] st.line_buf clean) refl in
      ap (λ d. flush r.1 d.0 d.1)
        (drain-scan_lines (suc (length buf)) buf st.printed (omega arith)
          ∙ ap (λ l. (l.1, st.printed ++ l.0)) whole)
      ∙ flush-short r.1 (scan_lines st.line_buf r.0).1
          (st.printed ++ (scan_lines st.line_buf r.0).0) (scan_lines-Short st.line_buf r.0 short)

  -- What has been printed of a stream that began at `st`, and the unfinished line.
  abbrev Cut : Stream → Stream × Bool → Bytes × Bytes → Type 0
  Cut st (st', true) (output, incomplete) =
      let l = scan_lines st.line_buf output in
      st'.printed ≡ st.printed ++ (l.0 ++ line_of (l.1 ++ incomplete))
  Cut st (st', false) (output, incomplete) =
      let l = scan_lines st.line_buf output in
      (st'.printed ≡ st.printed ++ l.0) × (st'.line_buf ≡ l.1)

  abbrev step : Read → Stream → Stream
  step r st = if is_empty r.chunk then st else take_chunk process r.chunk st

  step-cut_up :
      (r : Read) (st : Stream)
      → NoNewline st.line_buf
      → let now = shown_now process st.pending r in
        Short (length st.line_buf) now.0
        → step r st ≡ cut_up (scan_lines st.line_buf now.0) now.1 st.printed
  unfolding scan_lines
  step-cut_up r st clean short = elim (Bool-cases (is_empty r.chunk)) [
    | inl e ↦ rw (e, append-nil st.printed) refl
    | inr e ↦ rw e (take_chunk-cut_up r.chunk st clean (rw e at short))
  ]

  finish-Cut :
      (st : Stream) → (finish st).printed ≡ st.printed ++ line_of (st.line_buf ++ st.pending)
  unfolding finish
  finish-Cut st = print-line_of (st.line_buf ++ st.pending) st.printed

  Cut-cons :
      (st : Stream) (x pending : Bytes) (rest : Stream × Bool) (later : Bytes × Bytes)
      → Cut (cut_up (scan_lines st.line_buf x) pending st.printed) rest later
      → Cut st rest (x ++ later.0, later.1)
  Cut-cons st x pending (st', true) later k =
      k ∙ rw (scan_lines-append st.line_buf x later.0) (simp append_assoc)
  Cut-cons st x pending (st', false) later (k, l) = (
    k ∙ rw (scan_lines-append st.line_buf x later.0) (simp append_assoc),
    l ∙ rw (scan_lines-append st.line_buf x later.0) refl,
  )

  attach-Cut :
      (reads : List Read) (st : Stream)
      → NoNewline st.line_buf
      → Short (length st.line_buf) (shown process st.pending reads).0
      → Cut st (attach process reads st) (shown process st.pending reads)
  unfolding attach shown scan_lines
  attach-Cut [] st clean short = (sym (append-nil st.printed), refl)
  attach-Cut (r ∷ reads) st clean short =
      let now = shown_now process st.pending r in
      let l = scan_lines st.line_buf now.0 in
      elim (Bool-cases r.ends) [
        | inl e ↦ rw e (
            finish-Cut (step r st)
            ∙ rw (step-cut_up r st clean (rw e at short)) (append_assoc st.printed l.0 _))
        | inr e ↦
            let later = shown process now.1 reads in
            let (first, rest) = Short-append st.line_buf now.0 later.0 (rw e at short) in
            rw e (
              Cut-cons st now.0 now.1 (attach process reads (step r st)) later (
                subst (λ st1. Cut (cut_up l now.1 st.printed) (attach process reads st1) later)
                  (sym (step-cut_up r st clean first))
                  (attach-Cut reads (cut_up l now.1 st.printed)
                    (scan_lines-clean st.line_buf now.0 clean) rest)))
      ]

-- An escape processing that does not depend on how the bytes are cut: nothing comes from nothing, and
-- what comes of two pieces is what comes of the first, and of the second behind the incomplete rest.
pub record Streaming (process : Process) : Type 0 where
  pub empty : process [] ≡ ([], [])
  pub joined :
      (x y : Bytes)
      → let r = process ((process x).1 ++ y) in process (x ++ y) ≡ ((process x).0 ++ r.0, r.1)

-- The bytes of a stream up to its end.
abbrev pub stream_bytes : List Read → Bytes
stream_bytes [] = []
stream_bytes (r ∷ reads) =
    let rest = stream_bytes reads in if r.ends then r.chunk else r.chunk ++ rest

-- What is to be printed of the whole stream.
abbrev pub reference : Process → Bytes → List Bytes
reference process bytes =
    let r = process bytes in let l = scan_lines [] r.0 in l.0 ++ line_of (l.1 ++ r.1)

module _ (process : Process) (streaming : Streaming process) where
  chunk-Streaming :
      (seen chunk : Bytes)
      → let now =
          if is_empty chunk then ([], (process seen).1) else process ((process seen).1 ++ chunk) in
        process (seen ++ chunk) ≡ ((process seen).0 ++ now.0, now.1)
  chunk-Streaming seen [] = rw (append-nil seen, append-nil (process seen).0) refl
  chunk-Streaming seen (c ∷ chunk) = streaming.joined seen (c ∷ chunk)

  shown-Streaming :
      (seen : Bytes) (reads : List Read)
      → let later = shown process (process seen).1 reads in
        process (seen ++ stream_bytes reads) ≡ ((process seen).0 ++ later.0, later.1)
  unfolding shown
  shown-Streaming seen [] = chunk-Streaming seen []
  shown-Streaming seen (r ∷ reads) = elim (Bool-cases r.ends) [
    | inl e ↦ rw e (chunk-Streaming seen r.chunk)
    | inr e ↦
        let now = shown_now process (process seen).1 r in
        let later = shown process now.1 reads in
        rw e (
          ap process (sym (append_assoc seen r.chunk (stream_bytes reads)))
          ∙ (shown-Streaming (seen ++ r.chunk) reads
              ∙ rw (chunk-Streaming seen r.chunk)
                  (ap (λ o. (o, later.1)) (append_assoc (process seen).0 now.0 later.0))))
  ]

  ended_Cut :
      (st : Stream) (r : Stream × Bool) (o : Bytes × Bytes)
      → Cut process st r o
      → r.1 ≡ true
      → let l = scan_lines st.line_buf o.0 in
        r.0.printed ≡ st.printed ++ (l.0 ++ line_of (l.1 ++ o.1))
  ended_Cut st (st', true) o k e = k
  ended_Cut st (st', false) o k e = cc

  -- If the escape processing does not depend on how the bytes are cut, and no line that it lets through is
  -- longer than 4096 bytes, a stream that has ended has been printed as if it had been read at once:
  -- each line of what is shown, in order, the empty ones left out, and at the end the unfinished line
  -- with the incomplete sequence behind it. So two streams of the same bytes are printed alike.
  pub attach-reference :
      (reads : List Read)
      → Short 0 (process (stream_bytes reads)).0
      → (attach process reads new_stream).1 ≡ true
      → (attach process reads new_stream).0.printed ≡ reference process (stream_bytes reads)
  attach-reference reads short ended =
      let whole : process (stream_bytes reads) ≡ shown process [] reads =
        shown-Streaming [] reads ∙ rw streaming.empty refl in
      ended_Cut new_stream (attach process reads new_stream) (shown process [] reads)
        (attach-Cut process reads new_stream tt (subst (λ o. Short 0 o.0) whole short)) ended
      ∙ rw whole refl
