-- ===== src/Strconv.antt =====
-- The conversions of Go's `strconv` and `fmt` that the repository uses: `Atoi`, `%d` and `%02x`.
pub mod RoundTrip
use rules_vmtest.Base.{
  ℕ, zero, suc, ◌+◌, ◌-◌, ◌*◌, ◌/◌, ◌%◌, ◌^◌, Bool, ◌&&◌, [], ◌∷◌, Option, none, some, ℤ, pos,
  negsuc, neg, Text, ltb, leb, ◌==◌, if◌then◌else◌,
}

-- The largest `int`.
abbrev pub max_int : ℕ
max_int = 2 ^ 63 - 1

-- The decimal digits of `n` in front of `out`; one round for each digit, and `n + 1` rounds are
-- enough.
unfoldable pub digits : ℕ → ℕ → Text → Text
digits zero n out = out
digits (suc f) n out =
    let more = digits f (n / 10) ((b'0' + n % 10) ∷ out) in
    if ltb n 10 then (b'0' + n) ∷ out else more

-- `%d` of a number that is not negative
unfoldable pub decimal : ℕ → Text
unfolding digits
decimal n = digits (suc n) n []

-- `strconv.Itoa`, `%d`
unfoldable pub itoa : ℤ → Text
unfolding decimal
itoa (pos n) = decimal n
itoa (negsuc n) = b'-' ∷ decimal (suc n)

abbrev pub is_digit : ℕ → Bool
is_digit c = leb b'0' c && leb c b'9'

-- The number that digits spell behind `n`, and `none` at any other character.
unfoldable pub scan : Text → ℕ → Option ℕ
scan [] n = some n
scan (c ∷ s) n = if is_digit c then scan s (n * 10 + (c - b'0')) else none

-- One or more digits, with a value of at most `limit`.
unfoldable pub unsigned : ℕ → Text → Option ℕ
unfolding scan
unsigned limit [] = none
unsigned limit (c ∷ s) = elim (scan (c ∷ s) 0) [
  | none ↦ none
  | some n ↦ if leb n limit then some n else none
]

abbrev positive : Option ℕ → Option ℤ
positive none = none
positive (some n) = some (pos n)

abbrev negative : Option ℕ → Option ℤ
negative none = none
negative (some n) = some (neg n)

-- `strconv.Atoi` with a 64-bit `int`: a sign is allowed, and a value out of range is an error.
unfoldable pub atoi : Text → Option ℤ
unfolding unsigned
atoi [] = none
atoi (c ∷ s) =
    if c == b'-'
    then negative (unsigned (2 ^ 63) s)
    else if c == b'+'
    then positive (unsigned max_int s)
    else positive (unsigned max_int (c ∷ s))

abbrev pub hex_digit : ℕ → ℕ
hex_digit d = if ltb d 10 then b'0' + d else b'a' + (d - 10)

-- The lower-case hexadecimal digits of `n` in front of `out`.
unfoldable pub hex_digits : ℕ → ℕ → Text → Text
hex_digits zero n out = out
hex_digits (suc f) n out =
    let more = hex_digits f (n / 16) (hex_digit (n % 16) ∷ out) in
    if ltb n 16 then hex_digit n ∷ out else more

-- `%02x`: at least two characters, the sign counted.
unfoldable pub hex02 : ℤ → Text
unfolding hex_digits
hex02 (pos n) = if ltb n 16 then b'0' ∷ hex_digit n ∷ [] else hex_digits (suc n) n []
hex02 (negsuc n) = b'-' ∷ hex_digits (suc (suc n)) (suc n) []
