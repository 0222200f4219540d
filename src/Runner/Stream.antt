-- ===== src/Runner/Stream.antt =====
-- `AttachTagged` of `runner/process_manager.go`: the goroutine that prints a stream line by line behind a
-- tag. `vm.ProcessEscapeSequences` is outside the repository, and is the argument `process`: it gives
-- the bytes to show, and those of a sequence that is not complete yet.
pub mod Drain
pub mod Lines
pub mod Scan
pub mod Reference
use rules_vmtest.Base.{
  ℕ, zero, suc, ◌+◌, Bool, true, false, [], ◌∷◌, ◌++◌, List, Option, none, some, length, ltb, ◌==◌,
  is_empty, if◌then◌else◌,
}

abbrev pub Bytes : Type 0
Bytes = List ℕ

abbrev pub newline : ℕ
newline = 10

abbrev pub buffer_limit : ℕ
buffer_limit = 4096

-- The variables of the goroutine, and the payloads that it has printed: each is printed as the tag,
-- a blank, the payload and a newline.
pub record Stream : Type 0 where
  pub pending : Bytes
  pub line_buf : Bytes
  pub printed : List Bytes

-- One `reader.Read`: the bytes that it gave, and whether it gave an error too (the end of the stream).
pub record Read : Type 0 where
  pub chunk : Bytes
  pub ends : Bool

abbrev pub behind : ℕ → Option (Bytes × Bytes) → Option (Bytes × Bytes)
behind c none = none
behind c (some (line, rest)) = some (c ∷ line, rest)

-- `lineBuf[:idx]` and `lineBuf[idx+1:]` for the index of the first newline, if there is one.
unfoldable pub cut : Bytes → Option (Bytes × Bytes)
cut [] = none
cut (c ∷ s) = let later = behind c (cut s) in if c == newline then some ([], s) else later

abbrev pub print : Bytes → List Bytes → List Bytes
print line out = if is_empty line then out else out ++ (line ∷ [])

-- The inner loop: prints the complete lines, the empty ones left out, and keeps the rest.
unfoldable pub drain : ℕ → Bytes → List Bytes → Bytes × List Bytes
unfolding cut
drain zero buf out = (buf, out)
drain (suc fuel) buf out = elim (cut buf) [
  | none ↦ (buf, out)
  | some (line, rest) ↦ drain fuel rest (print line out)
]

-- A line that grows too long is printed as it is.
abbrev pub flush : Bytes → Bytes → List Bytes → Stream
flush pending rest out =
    if ltb buffer_limit (length rest)
    then record { pending = pending; line_buf = []; printed = out ++ (rest ∷ []) }
    else record { pending = pending; line_buf = rest; printed = out }

abbrev pub Process : Type 0
Process = Bytes → Bytes × Bytes

-- A round with `n > 0`.
unfoldable pub take_chunk : Process → Bytes → Stream → Stream
take_chunk process chunk st =
    let (output, incomplete) = process (st.pending ++ chunk) in
    let buf = st.line_buf ++ output in
    let (rest, out) = drain (suc (length buf)) buf st.printed in flush incomplete rest out

-- The end of the stream: what is left is printed.
unfoldable pub finish : Stream → Stream
finish st =
    let buf = st.line_buf ++ st.pending in
    record { pending = st.pending; line_buf = buf; printed = print buf st.printed }

unfoldable pub read_round : Process → Read → Stream → Stream
unfolding take_chunk finish
read_round process r st =
    let st' = if is_empty r.chunk then st else take_chunk process r.chunk st in
    if r.ends then finish st' else st'

-- The outer loop, over the reads: the last state, and whether the stream has ended.
unfoldable pub attach : Process → List Read → Stream → Stream × Bool
unfolding read_round
attach process [] st = (st, false)
attach process (r ∷ reads) st =
    let rest = attach process reads (read_round process r st) in
    if r.ends then (read_round process r st, true) else rest

abbrev pub new_stream : Stream
new_stream = record { pending = []; line_buf = []; printed = [] }
