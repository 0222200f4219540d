-- ===== src/Tests/Machine/Names.antt =====
-- Quoting and MAC addresses at fixed inputs.

use rules_vmtest.Base.{◌≡◌, ◌↔◌, ◌<◌, refl, [], ◌∷◌, ◌++◌, some, text, arith}
use rules_vmtest.Strings.{after_last}
use rules_vmtest.Strconv.{hex02, atoi}
use rules_vmtest.Machine.Quote.{shell_quote, plain, shell_word}
use rules_vmtest.Machine.Quote.RoundTrip.{shell_word-shell_quote}
use rules_vmtest.Machine.Mac.{mac_from_tap}
use rules_vmtest.Machine.Mac.Format.{IsMac, tap_name, mac_from_tap-IsMac}

quoted : shell_quote (text "it's") ≡ text "'it'\"'\"'s'"
unfolding shell_quote text
quoted = refl

shell_word-shell_quote_example :
    (shell_word plain (shell_quote (text "a'b|c")) ≡ some (text "a'b|c", []))
    × (shell_word plain (shell_quote (text "a'b|c") ++ (b' ' ∷ text "-v"))
        ≡ some (text "a'b|c", b' ' ∷ text "-v"))
shell_word-shell_quote_example = shell_word-shell_quote (text "a'b|c") (text "-v")

third_tap : mac_from_tap (text "mltt-tap3") ≡ text "02:00:00:00:00:03"
unfolding mac_from_tap text hex02 after_last atoi
third_tap = refl

-- The device with the index 256 gets a text that is no MAC address.
too_many_taps : mac_from_tap (text "mltt-tap256") ≡ text "02:00:00:00:00:100"
unfolding mac_from_tap text hex02 after_last atoi
too_many_taps = refl

no_index : mac_from_tap (text "eth0") ≡ text "02:00:00:00:00:00"
unfolding mac_from_tap text hex02 after_last atoi
no_index = refl

mac_from_tap-IsMac_example : IsMac (mac_from_tap (tap_name (text "mltt-") 10)) ↔ (10 < 256)
mac_from_tap-IsMac_example = mac_from_tap-IsMac (text "mltt-") 10 (omega arith)
