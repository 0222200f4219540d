-- ===== src/Runner/Stream/Lines.antt =====
-- What `AttachTagged` prints of a stream, whatever the reads cut it into and whatever the escape
-- processing makes of it.
use mathlib.Core.Path.{subst}
use mathlib.Core.List.{flatten, cons-ne-nil}
use rules_vmtest.Base.{
  suc, ◌≤◌, ◌≡◌, ◌≢◌, sym, ◌∙◌, Bool, true, false, [], ◌∷◌, ◌++◌, List, length, is_empty, arith,
  All, All-append, keep, keep-append, append-nil, append_assoc, Bool-cases, inl, inr, if◌then◌else◌,
  ltb,
}
use rules_vmtest.Runner.Stream.{
  Bytes, buffer_limit, drain, flush, Stream, Read, Process, take_chunk, finish, attach, new_stream,
}
use rules_vmtest.Runner.Stream.Drain.{
  NoNewline, IsLine, without_newlines, without_newlines-of-NoNewline, flatten-concat, flatten-print,
  Drained, drain_lem,
}

module _ (process : Process) where
  -- What the escape processing lets through of one read, and the incomplete sequence it keeps.
  abbrev pub shown_now : Bytes → Read → Bytes × Bytes
  shown_now pending r = if is_empty r.chunk then ([], pending) else process (pending ++ r.chunk)

  -- The same for all reads up to the end of the stream.
  unfoldable pub shown : Bytes → List Read → Bytes × Bytes
  shown pending [] = ([], pending)
  shown pending (r ∷ reads) =
      let now = shown_now pending r in
      let later = shown now.1 reads in if r.ends then now else (now.0 ++ later.0, later.1)

-- The variables between two rounds: the buffer holds at most 4096 bytes and no newline, and every
-- payload printed so far is a line, not empty and with no newline.
pub record IsTidy (st : Stream) : Type 0 where
  pub clean : NoNewline st.line_buf
  pub bounded : length st.line_buf ≤ buffer_limit
  pub lines : All IsLine st.printed

-- The bytes of the payloads and of the buffer.
abbrev pub content : Stream → Bytes
content st = flatten st.printed ++ st.line_buf

content-flush :
    (pending rest : Bytes) (out : List Bytes)
    → content (flush pending rest out) ≡ flatten out ++ rest
content-flush pending rest out = elim (Bool-cases (ltb buffer_limit (length rest))) [
  | inl e ↦ rw e (append-nil _ ∙ flatten-concat out rest)
  | inr e ↦ rw e
]

long-ne-nil : (rest : Bytes) → ltb buffer_limit (length rest) ≡ true → rest ≢ []
long-ne-nil [] h = absurd (ground arith)
long-ne-nil (c ∷ rest) h = cons-ne-nil c rest

flush-IsTidy :
    (pending rest : Bytes) (out : List Bytes)
    → NoNewline rest
    → All IsLine out
    → IsTidy (flush pending rest out)
flush-IsTidy pending rest out clean lines = elim (Bool-cases (ltb buffer_limit (length rest))) [
  | inl e ↦ rw e (record {
    clean = tt;
    bounded = omega arith;
    lines = All-append IsLine out (rest ∷ []) lines ((long-ne-nil rest e, clean), tt);
  })
  | inr e ↦ rw e (record { clean = clean; bounded = ground arith; lines = lines })
]

flush-pending :
    (pending rest : Bytes) (out : List Bytes) → (flush pending rest out).pending ≡ pending
flush-pending pending rest out = ground arith

drained :
    (buf : Bytes) (out : List Bytes)
    → Drained buf out (drain (suc (length buf)) buf out).0 (drain (suc (length buf)) buf out).1
drained buf out = drain_lem (suc (length buf)) buf out (omega arith)

module _ (process : Process) where
  take_chunk-IsTidy :
      (chunk : Bytes) (st : Stream) → IsTidy st → IsTidy (take_chunk process chunk st)
  unfolding take_chunk
  take_chunk-IsTidy chunk st tidy =
      let d = drained (st.line_buf ++ (process (st.pending ++ chunk)).0) st.printed in
      flush-IsTidy _ _ _ d.clean (d.lines tidy.lines)

  content-take_chunk :
      (chunk : Bytes) (st : Stream)
      → IsTidy st
      → content (take_chunk process chunk st)
        ≡ content st ++ without_newlines (process (st.pending ++ chunk)).0
  unfolding take_chunk
  content-take_chunk chunk st tidy =
      let output = (process (st.pending ++ chunk)).0 in
      let d = drained (st.line_buf ++ output) st.printed in
      content-flush _ _ _
      ∙ d.kept
      ∙ rw (keep-append, without_newlines-of-NoNewline st.line_buf tidy.clean)
          (sym (append_assoc (flatten st.printed) st.line_buf (without_newlines output)))

  take_chunk-pending :
      (chunk : Bytes) (st : Stream)
      → (take_chunk process chunk st).pending ≡ (process (st.pending ++ chunk)).1
  unfolding take_chunk
  take_chunk-pending chunk st = flush-pending _ _ _

  -- A read, as far as it is taken before its error.
  abbrev step : Read → Stream → Stream
  step r st = if is_empty r.chunk then st else take_chunk process r.chunk st

  -- What one read does to the variables: `st` before it and `st'` behind it.
  record Stepped (r : Read) (st st' : Stream) : Type 0 where
    tidy : IsTidy st'
    kept : content st' ≡ content st ++ without_newlines (shown_now process st.pending r).0
    waits : st'.pending ≡ (shown_now process st.pending r).1

  step_lem : (r : Read) (st : Stream) → IsTidy st → Stepped r st (step r st)
  unfolding keep
  step_lem r st tidy = elim (Bool-cases (is_empty r.chunk)) [
    | inl e ↦ record { tidy = rw e tidy; kept = rw e (sym (append-nil _)); waits = rw e }
    | inr e ↦ record {
      tidy = rw e (take_chunk-IsTidy r.chunk st tidy);
      kept = rw e (content-take_chunk r.chunk st tidy);
      waits = rw e (take_chunk-pending r.chunk st);
    }
  ]

  -- What stands printed for a stream that began at `st`: at its end all that was shown, the newlines
  -- left out, and the incomplete sequence; before that all but what the buffer holds.
  abbrev pub Kept : Stream → Stream × Bool → Bytes × Bytes → Type 0
  Kept st (st', true) (output, incomplete) =
      flatten st'.printed ≡ content st ++ (without_newlines output ++ incomplete)
  Kept st (st', false) (output, incomplete) =
      IsTidy st' × (content st' ≡ content st ++ without_newlines output)

  finish-printed : (st : Stream) → flatten (finish st).printed ≡ content st ++ st.pending
  unfolding finish
  finish-printed st =
      flatten-print _ st.printed ∙ sym (append_assoc (flatten st.printed) st.line_buf st.pending)

  Kept-cons :
      (r : Read) (st : Stream) (rest : Stream × Bool) (later : Bytes × Bytes)
      → IsTidy st
      → Kept (step r st) rest later
      → Kept st rest ((shown_now process st.pending r).0 ++ later.0, later.1)
  Kept-cons r st (st', true) later tidy k =
      k ∙ rw ((step_lem r st tidy).kept, keep-append) (simp append_assoc)
  Kept-cons r st (st', false) later tidy (t, k) =
      (t, k ∙ rw ((step_lem r st tidy).kept, keep-append) (simp append_assoc))

  attach-Kept_from :
      (reads : List Read) (st : Stream)
      → IsTidy st
      → Kept st (attach process reads st) (shown process st.pending reads)
  unfolding attach shown keep
  attach-Kept_from [] st tidy = (tidy, sym (append-nil _))
  attach-Kept_from (r ∷ reads) st tidy = elim (Bool-cases r.ends) [
    | inl e ↦ rw e (
        finish-printed (step r st)
        ∙ rw ((step_lem r st tidy).kept, (step_lem r st tidy).waits)
            (append_assoc (content st) _ _))
    | inr e ↦ rw e (
        Kept-cons r st (attach process reads (step r st))
          (shown process (shown_now process st.pending r).1 reads) tidy
          (subst (λ p. Kept (step r st) (attach process reads (step r st)) (shown process p reads))
            (step_lem r st tidy).waits
            (attach-Kept_from reads (step r st) (step_lem r st tidy).tidy)))
  ]

  -- Whatever the reads cut a stream into and whatever the escape processing does: when the stream has
  -- ended, the printed payloads are, one behind the other, the bytes that were shown without their
  -- newlines, and the incomplete sequence that was left. Before that they are so up to the bytes in
  -- the buffer, which are at most 4096 and no newline; and every payload is a line, not empty and
  -- without newlines.
  pub attach-Kept :
      (reads : List Read)
      → Kept new_stream (attach process reads new_stream) (shown process [] reads)
  attach-Kept reads =
      attach-Kept_from reads new_stream (record { clean = tt; bounded = omega arith; lines = tt })
