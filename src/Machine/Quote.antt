-- ===== src/Machine/Quote.antt =====
-- `shellQuote` and the command of `dumpDmesg` of `machine/machine.go`, with an independent reader of
-- POSIX shell words.
pub mod RoundTrip
use rules_vmtest.Base.{
  ℕ, Bool, ◌&&◌, ◌||◌, [], ◌∷◌, ◌++◌, List, Option, none, some, Text, text, leb, ◌==◌,
  if◌then◌else◌,
}
use rules_vmtest.Strings.{replace_all, join}

abbrev pub quote : ℕ
quote = b'\''

abbrev pub double_quote : ℕ
double_quote = b'"'

-- What stands for a single quote inside single quotes: close, a quote in double quotes, open.
abbrev escaped_quote : Text
escaped_quote = quote ∷ double_quote ∷ quote ∷ double_quote ∷ quote ∷ []

-- `shellQuote`
unfoldable pub shell_quote : Text → Text
unfolding replace_all
shell_quote s = quote ∷ (replace_all s quote escaped_quote ++ (quote ∷ []))

-- The command that `dumpDmesg` runs on the guest.
unfoldable pub dmesg_command : List Text → Text
dmesg_command [] = text "dmesg --color=never"
dmesg_command (f ∷ filters) =
    text "dmesg --color=never | grep -E " ++ shell_quote (join (text "|") (f ∷ filters))

-- Where a POSIX shell stands in a word: outside quotes, in single or in double quotes.
pub data Mode : Type 0 where
  plain single double : Mode

-- Characters that a shell takes literally outside quotes; any other but a blank is special.
abbrev is_literal : ℕ → Bool
is_literal c =
    (leb b'a' c && leb c b'z')
    || (leb b'A' c && leb c b'Z')
    || (leb b'-' c && leb c b'9')
    || c == b'_'

abbrev is_expansion : ℕ → Bool
is_expansion c = c == b'$' || c == b'`' || c == b'\\'

abbrev pub add_char : ℕ → Option (Text × Text) → Option (Text × Text)
add_char c none = none
add_char c (some (word, rest)) = some (c ∷ word, rest)

-- One shell word, read from its start: the characters that it stands for, and the text behind it,
-- which is empty or begins with a blank.
-- `none`: an expansion, an escape, another special character, or a quote that is left open.
unfoldable pub shell_word : Mode → Text → Option (Text × Text)
shell_word plain [] = some ([], [])
shell_word single [] = none
shell_word double [] = none
shell_word plain (c ∷ s) =
    let inside = shell_word single s in
    let quoted = shell_word double s in
    let longer = add_char c (shell_word plain s) in
    if c == quote
    then inside
    else if c == double_quote
    then quoted
    else if c == b' '
    then some ([], c ∷ s)
    else if is_literal c
    then longer
    else none
shell_word single (c ∷ s) =
    let closed = shell_word plain s in
    let longer = add_char c (shell_word single s) in if c == quote then closed else longer
shell_word double (c ∷ s) =
    let closed = shell_word plain s in
    let longer = add_char c (shell_word double s) in
    if c == double_quote then closed else if is_expansion c then none else longer
