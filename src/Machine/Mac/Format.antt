-- ===== src/Machine/Mac/Format.antt =====
-- When the result of `macFromTap` is a MAC address, and that two devices get two addresses.
use mathlib.Core.List.{append_cancel_left}
use native.Mathlib.Decide.{dec_lt}
use rules_vmtest.Base.{
  ℕ, zero, suc, ◌/◌, ◌%◌, ◌≤◌, ◌<◌, ◌≡◌, ◌↔◌, ◌⊎◌, refl, sym, ◌∙◌, [], ◌∷◌, ◌++◌, List, none, some,
  pos, arith, inr, Text, text, All, length,
}
use rules_vmtest.Strings.{split, after_last}
use rules_vmtest.Strings.Laws.{Lacks, split-of-Lacks}
use rules_vmtest.Strconv.{max_int, decimal, hex_digit, hex_digits, hex02}
use rules_vmtest.Strconv.RoundTrip.{IsDigit, Lacks-of-IsDigit, decimal-IsDigit, atoi-decimal}
use rules_vmtest.Machine.Mac.{tap_index, mac_from_tap}

abbrev pub IsHex : ℕ → Type 0
IsHex c = ((b'0' ≤ c) × (c ≤ b'9')) ⊎ ((b'a' ≤ c) × (c ≤ b'f'))

-- Two hexadecimal digits.
abbrev pub IsOctet : Text → Type 0
IsOctet (a ∷ b ∷ []) = IsHex a × IsHex b
IsOctet _ = ⊥

abbrev pub AreOctets : List Text → Type 0
AreOctets (a ∷ b ∷ c ∷ d ∷ e ∷ f ∷ []) =
    IsOctet a × IsOctet b × IsOctet c × IsOctet d × IsOctet e × IsOctet f
AreOctets _ = ⊥

-- Six octets between colons.
abbrev pub IsMac : Text → Type 0
IsMac m = AreOctets (split b':' m)

-- A device name that ends in `tap` and the number `n`.
abbrev pub tap_name : Text → ℕ → Text
tap_name prefix n = prefix ++ (text "tap" ++ decimal n)

after_last-of-Lacks : (d : Text) → Lacks b't' d → after_last d (text "tap") ≡ none
unfolding after_last text
after_last-of-Lacks [] h = refl
after_last-of-Lacks (c ∷ d) (hc, hd) = ground (arith, after_last-of-Lacks d hd)

after_last_tap : (d : Text) → All IsDigit d → after_last (text "tap" ++ d) (text "tap") ≡ some d
unfolding after_last text
after_last_tap d h =
    rw (after_last-of-Lacks d (Lacks-of-IsDigit b't' d (inr (omega arith)) h)) (ground arith)

after_last-append :
    (p d : Text) → All IsDigit d → after_last (p ++ (text "tap" ++ d)) (text "tap") ≡ some d
unfolding after_last
after_last-append [] d h = after_last_tap d h
after_last-append (c ∷ p) d h = rw (after_last-append p d h)

tap_index-tap_name : (p : Text) (n : ℕ) → n ≤ max_int → tap_index (tap_name p n) ≡ pos n
unfolding tap_index
tap_index-tap_name p n h =
    rw (after_last-append p (decimal n) (decimal-IsDigit n), atoi-decimal n h) refl

hex02_octet : (n : ℕ) → n < 256 → hex02 (pos n) ≡ hex_digit (n / 16) ∷ hex_digit (n % 16) ∷ []
unfolding hex02
hex02_octet zero h = refl
hex02_octet (suc n) h = ground arith

length-hex_digits : (f n : ℕ) (out : Text) → length out < length (hex_digits (suc f) n out)
unfolding hex_digits
length-hex_digits zero n out = ground arith
length-hex_digits (suc f) n out =
    ground (arith, length-hex_digits f (n / 16) (hex_digit (n % 16) ∷ out))

length-hex02 : (n : ℕ) → 256 ≤ n → 2 < length (hex02 (pos n))
unfolding hex02
length-hex02 zero h = elim h [ ]
length-hex02 (suc zero) h = absurd (omega arith)
length-hex02 (suc (suc n)) h = ground (
  arith,
  length-hex_digits n (suc (suc n) / 16 / 16)
      (hex_digit (suc (suc n) / 16 % 16) ∷ hex_digit (suc (suc n) % 16) ∷ []),
)

hex_digit-IsHex : (d : ℕ) → d < 16 → IsHex (hex_digit d)
hex_digit-IsHex d h = ground arith

hex_digit-inj : (d e : ℕ) → d < 16 → e < 16 → hex_digit d ≡ hex_digit e → d ≡ e
hex_digit-inj d e hd he p = ground arith

hex_digits-Lacks : (f n : ℕ) (out : Text) → Lacks b':' out → Lacks b':' (hex_digits f n out)
unfolding hex_digits
hex_digits-Lacks zero n out h = h
hex_digits-Lacks (suc f) n out h =
    ground (arith, hex_digits-Lacks f (n / 16) (hex_digit (n % 16) ∷ out))

hex02-Lacks : (n : ℕ) → Lacks b':' (hex02 (pos n))
unfolding hex02
hex02-Lacks n = ground (arith, hex_digits-Lacks (suc n) n [] tt)

split-mac :
    (h : Text)
    → Lacks b':' h
    → split b':' (text "02:00:00:00:00:" ++ h)
      ≡ text "02" ∷ text "00" ∷ text "00" ∷ text "00" ∷ text "00" ∷ h ∷ []
unfolding split text
split-mac h lacks = rw (split-of-Lacks b':' h lacks)

AreOctets-mac :
    (h : Text)
    → AreOctets (text "02" ∷ text "00" ∷ text "00" ∷ text "00" ∷ text "00" ∷ h ∷ []) ↔ IsOctet h
unfolding text
AreOctets-mac h = (λ o. o.5, λ o. ground arith)

IsOctet-length : (h : Text) → 2 < length h → ¬ IsOctet h
IsOctet-length (a ∷ b ∷ c ∷ h) lt o = o
IsOctet-length [] lt o = o
IsOctet-length (a ∷ []) lt o = o
IsOctet-length (a ∷ b ∷ []) lt o = omega arith

IsOctet-hex02 : (n : ℕ) → IsOctet (hex02 (pos n)) ↔ (n < 256)
IsOctet-hex02 n = (below, λ h. rw (hex02_octet n h) (octet h))
  where
    octet : n < 256 → IsHex (hex_digit (n / 16)) × IsHex (hex_digit (n % 16))
    octet h = (hex_digit-IsHex (n / 16) (omega arith), hex_digit-IsHex (n % 16) (omega arith))

    below : IsOctet (hex02 (pos n)) → n < 256
    below o = elim (dec_lt n 256) [
      | yes h ↦ h
      | no h ↦ absurd (IsOctet-length _ (length-hex02 n (omega arith)) o)
    ]

-- For a device name that ends in `tap` and a number `n` in the range of `int`, the result of
-- `macFromTap` is a MAC address, six octets between colons, exactly when `n` is below 256.
pub mac_from_tap-IsMac :
    (prefix : Text) (n : ℕ) → n ≤ max_int → IsMac (mac_from_tap (tap_name prefix n)) ↔ (n < 256)
unfolding mac_from_tap
mac_from_tap-IsMac prefix n h =
    rw (tap_index-tap_name prefix n h, split-mac _ (hex02-Lacks n))
      (λ o. (IsOctet-hex02 n).0 o.5, λ lt. (AreOctets-mac _).1 ((IsOctet-hex02 n).1 lt))

mac_from_tap_octet :
    (p : Text) (n : ℕ)
    → n < 256
    → mac_from_tap (tap_name p n)
      ≡ text "02:00:00:00:00:" ++ (hex_digit (n / 16) ∷ hex_digit (n % 16) ∷ [])
unfolding mac_from_tap
mac_from_tap_octet p n h = rw (tap_index-tap_name p n (omega arith), hex02_octet n h)

-- Two device names that end in `tap` and numbers below 256 get the same address only if the numbers
-- are equal, whatever stands in front.
mac_from_tap-inj :
    (p q : Text) (n m : ℕ)
    → n < 256
    → m < 256
    → mac_from_tap (tap_name p n) ≡ mac_from_tap (tap_name q m)
    → n ≡ m
mac_from_tap-inj p q n m hn hm e =
    let same_digits =
      append_cancel_left (text "02:00:00:00:00:") (hex_digit (n / 16) ∷ hex_digit (n % 16) ∷ [])
        (hex_digit (m / 16) ∷ hex_digit (m % 16) ∷ [])
        (sym (mac_from_tap_octet p n hn) ∙ e ∙ mac_from_tap_octet q m hm) in
    ground (arith, same_digits, hex_digit-inj (n / 16) (m / 16), hex_digit-inj (n % 16) (m % 16))
