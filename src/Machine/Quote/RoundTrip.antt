-- ===== src/Machine/Quote/RoundTrip.antt =====
-- A POSIX shell reads a quoted text back as one word, whatever the text holds.
use rules_vmtest.Base.{
  ℕ, ◌≡◌, refl, ◌∙◌, ap, [], ◌∷◌, ◌++◌, List, append_assoc, Option, some, Text, text, ◌==◌, false,
  ==_iff, Bool-cases, inl, inr,
}
use rules_vmtest.Strings.{replace_all, join}
use rules_vmtest.Machine.Quote.{
  quote, escaped_quote, shell_quote, dmesg_command, plain, single, add_char, shell_word,
}

abbrev add_text : Text → Option (Text × Text) → Option (Text × Text)
add_text [] r = r
add_text (c ∷ s) r = add_char c (add_text s r)

shell_word-escaped :
    (rest : Text)
    → shell_word single (escaped_quote ++ rest) ≡ add_char quote (shell_word single rest)
unfolding shell_word
shell_word-escaped rest = refl

shell_word-literal :
    (c : ℕ) (rest : Text)
    → (c == quote) ≡ false
    → shell_word single (c ∷ rest) ≡ add_char c (shell_word single rest)
unfolding shell_word
shell_word-literal c rest h = rw h

shell_word-replace_all :
    (s rest : Text)
    → shell_word single (replace_all s quote escaped_quote ++ (quote ∷ rest))
      ≡ add_text s (shell_word plain rest)
unfolding replace_all
shell_word-replace_all [] rest = unfold shell_word in refl
shell_word-replace_all (c ∷ s) rest = elim (Bool-cases (c == quote)) [
  | inl e ↦ rw (e, shell_word-escaped, shell_word-replace_all s rest, (==_iff c quote).0 e) refl
  | inr e ↦ rw e (shell_word-literal c _ e ∙ ap (add_char c) (shell_word-replace_all s rest))
]

add_text-some : (s rest : Text) → add_text s (some ([], rest)) ≡ some (s, rest)
add_text-some [] rest = refl
add_text-some (c ∷ s) rest = rw (add_text-some s rest)

shell_word-shell_quote_end : (s : Text) → shell_word plain (shell_quote s) ≡ some (s, [])
unfolding shell_quote shell_word
shell_word-shell_quote_end s = shell_word-replace_all s [] ∙ add_text-some s []

shell_word-shell_quote_then :
    (s rest : Text) → shell_word plain (shell_quote s ++ (b' ' ∷ rest)) ≡ some (s, b' ' ∷ rest)
unfolding shell_quote shell_word
shell_word-shell_quote_then s rest =
    rw append_assoc (shell_word-replace_all s (b' ' ∷ rest) ∙ add_text-some s (b' ' ∷ rest))

-- For every text `s`, a POSIX shell that reads `shellQuote(s)` takes it as one word that stands for
-- exactly `s`: at the end of the command, and with a blank and any further text behind it.
pub shell_word-shell_quote :
    (s rest : Text)
    → (shell_word plain (shell_quote s) ≡ some (s, []))
      × (shell_word plain (shell_quote s ++ (b' ' ∷ rest)) ≡ some (s, b' ' ∷ rest))
shell_word-shell_quote s rest = (shell_word-shell_quote_end s, shell_word-shell_quote_then s rest)

-- With at least one filter the command of `dumpDmesg` is a pipe into `grep -E` and one shell word,
-- which a POSIX shell reads as the filters joined by `|`, whatever characters they hold.
dmesg_command-shell_word :
    (f : Text) (filters : List Text)
    → (word : Text) × (dmesg_command (f ∷ filters) ≡ text "dmesg --color=never | grep -E " ++ word)
      × (shell_word plain word ≡ some (join (text "|") (f ∷ filters), []))
unfolding dmesg_command
dmesg_command-shell_word f filters =
    (shell_quote (join (text "|") (f ∷ filters)), refl, shell_word-shell_quote_end _)
