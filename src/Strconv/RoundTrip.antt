-- ===== src/Strconv/RoundTrip.antt =====
-- `Atoi` reads back what `%d` prints; what a decimal print holds and lacks.
use mathlib.Core.List.{cons-ne-nil}
use rules_vmtest.Strings.Laws.{Lacks}
use rules_vmtest.Base.{
  ◌⊎◌, ℕ, zero, suc, ◌+◌, ◌/◌, ◌%◌, ◌≤◌, ◌<◌, ◌≡◌, ◌≢◌, refl, [], ◌∷◌, some, pos, arith, Text, All,
}
use rules_vmtest.Strconv.{max_int, digits, decimal, scan, unsigned, atoi}

abbrev pub IsDigit : ℕ → Type 0
IsDigit c = (b'0' ≤ c) × (c ≤ b'9')

scan-digits : (f n : ℕ) (out : Text) → n < f → scan (digits f n out) 0 ≡ scan out n
unfolding scan digits
scan-digits zero n out h = elim h [ ]
scan-digits (suc f) n out h = ground (arith, scan-digits f (n / 10) ((b'0' + n % 10) ∷ out))

digits-IsDigit : (f n : ℕ) (out : Text) → All IsDigit out → All IsDigit (digits f n out)
unfolding digits
digits-IsDigit zero n out h = h
digits-IsDigit (suc f) n out h = ground (arith, digits-IsDigit f (n / 10) ((b'0' + n % 10) ∷ out))

-- The print of a number is digits only.
pub decimal-IsDigit : (n : ℕ) → All IsDigit (decimal n)
unfolding decimal
decimal-IsDigit n = digits-IsDigit (suc n) n [] tt

digits-cons : (f n c : ℕ) (out : Text) → digits f n (c ∷ out) ≢ []
unfolding digits
digits-cons zero n c out = cons-ne-nil c out
digits-cons (suc f) n c out = ground (arith, digits-cons f (n / 10) (b'0' + n % 10) (c ∷ out))

pub decimal-ne-nil : (n : ℕ) → decimal n ≢ []
unfolding decimal digits
decimal-ne-nil n = ground (arith, digits-cons n (n / 10) (b'0' + n % 10) [])

atoi-scan :
    (s : Text) (n : ℕ)
    → s ≢ []
    → All IsDigit s
    → scan s 0 ≡ some n
    → n ≤ max_int
    → atoi s ≡ some (pos n)
unfolding atoi unsigned
atoi-scan [] n h _ _ _ = absurd (h refl)
atoi-scan (c ∷ s) n h d e fits = ground arith

scan-decimal : (n : ℕ) → scan (decimal n) 0 ≡ some n
unfolding decimal scan
scan-decimal n = scan-digits (suc n) n [] (omega arith)

-- A number in the range of `int` is read back from its decimal print.
pub atoi-decimal : (n : ℕ) → n ≤ max_int → atoi (decimal n) ≡ some (pos n)
atoi-decimal n h = atoi-scan (decimal n) n (decimal-ne-nil n) (decimal-IsDigit n) (scan-decimal n) h

-- A character that is no digit stands in no text of digits.
pub Lacks-of-IsDigit : (c : ℕ) (d : Text) → (c < b'0') ⊎ (b'9' < c) → All IsDigit d → Lacks c d
Lacks-of-IsDigit c [] h k = tt
Lacks-of-IsDigit c (e ∷ d) h (ke, kd) = (ground arith, Lacks-of-IsDigit c d h kd)
