-- ===== src/Bufio.antt =====
-- `bufio.Scanner` with its default settings, as far as the code uses it: the lines of a stream without
-- their line ends, up to the first that is too long.
use rules_vmtest.Base.{ℕ, suc, ◌*◌, [], ◌∷◌, ◌++◌, List, length, is_empty, leb, ◌==◌, if◌then◌else◌}

-- `bufio.MaxScanTokenSize`
abbrev pub max_scan_token_size : ℕ
max_scan_token_size = 64 * 1024

-- A carriage return at the end of a line is left out.
abbrev pub drop_cr : List ℕ → List ℕ
drop_cr [] = []
drop_cr (c ∷ []) = if c == 13 then [] else c ∷ []
drop_cr (c ∷ d ∷ s) = c ∷ drop_cr (d ∷ s)

-- The lines, where `line` has been read of the first; a line that fills the buffer ends the scan.
unfoldable pub scan_from : List ℕ → List ℕ → List (List ℕ)
scan_from line [] = if is_empty line then [] else drop_cr line ∷ []
scan_from line (c ∷ s) =
    let fresh = scan_from [] s in
    let longer = scan_from (line ++ (c ∷ [])) s in
    if c == 10
    then drop_cr line ∷ fresh
    else if leb max_scan_token_size (suc (length line))
    then []
    else longer

-- Every text that `scanner.Scan()` yields.
unfoldable pub scanned : List ℕ → List (List ℕ)
unfolding scan_from
scanned s = scan_from [] s
