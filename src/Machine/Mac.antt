-- ===== src/Machine/Mac.antt =====
-- `macFromTap` of `machine/machine.go`.
pub mod Format
use rules_vmtest.Base.{ℕ, ◌++◌, Option, none, some, ℤ, pos, Text, text}
use rules_vmtest.Strings.{after_last}
use rules_vmtest.Strconv.{atoi, hex02}

abbrev number_or_zero : Option ℤ → ℤ
number_or_zero none = pos 0
number_or_zero (some n) = n

abbrev index_behind : Option Text → ℤ
index_behind none = pos 0
index_behind (some rest) = number_or_zero (atoi rest)

-- `idx`: the number behind the last `tap`, and 0 where there is none.
unfoldable pub tap_index : Text → ℤ
tap_index tap = index_behind (after_last tap (text "tap"))

-- `macFromTap`
unfoldable pub mac_from_tap : Text → Text
unfolding tap_index
mac_from_tap tap = text "02:00:00:00:00:" ++ hex02 (tap_index tap)
