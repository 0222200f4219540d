-- ===== src/Strings.antt =====
-- The functions of Go's `strings` package that the repository calls, over texts of code points.
-- `split` and `replace_all` take a single character, as every call in the repository does.
pub mod Laws
pub mod Words
use mathlib.Core.List.{reverse, flat_map}
use rules_vmtest.Base.{
  ℕ, zero, suc, ◌+◌, Bool, true, false, ◌&&◌, ◌||◌, List, [], ◌∷◌, ◌++◌, map, Option, none, some,
  Text, text, ltb, leb, ◌==◌, is_empty, if◌then◌else◌,
}

-- `strings.HasPrefix`
unfoldable pub has_prefix : Text → Text → Bool
has_prefix s [] = true
has_prefix [] (p ∷ ps) = false
has_prefix (c ∷ s) (p ∷ ps) = c == p && has_prefix s ps

-- `strings.Contains`
unfoldable pub contains : Text → Text → Bool
unfolding has_prefix
contains [] sub = is_empty sub
contains (c ∷ s) sub = has_prefix (c ∷ s) sub || contains s sub

-- The text behind the last occurrence of `sub`: `s[i+len(sub):]` for `i := strings.LastIndex(s, sub)`,
-- and `none` where the index is -1.
unfoldable pub after_prefix : Text → Text → Option Text
after_prefix s [] = some s
after_prefix [] (p ∷ ps) = none
after_prefix (c ∷ s) (p ∷ ps) = if c == p then after_prefix s ps else none

abbrev pub later_or : Option Text → Option Text → Option Text
later_or none here = here
later_or (some rest) here = some rest

unfoldable pub after_last : Text → Text → Option Text
unfolding after_prefix
after_last [] sub = after_prefix [] sub
after_last (c ∷ s) sub = later_or (after_last s sub) (after_prefix (c ∷ s) sub)

abbrev pub prepend : ℕ → List Text → List Text
prepend c [] = (c ∷ []) ∷ []
prepend c (p ∷ ps) = (c ∷ p) ∷ ps

-- `strings.Split`
unfoldable pub split : ℕ → Text → List Text
split sep [] = [] ∷ []
split sep (c ∷ s) = let rest = split sep s in if c == sep then [] ∷ rest else prepend c rest

-- `strings.Join`
unfoldable pub join : Text → List Text → Text
join sep [] = []
join sep (p ∷ []) = p
join sep (p ∷ q ∷ ps) = p ++ (sep ++ join sep (q ∷ ps))

-- `unicode.IsSpace`
unfoldable pub is_space : ℕ → Bool
is_space c =
    (leb 9 c && leb c 13)
    || c == 32
    || c == 0x85
    || c == 0xa0
    || c == 0x1680
    || (leb 0x2000 c && leb c 0x200a)
    || c == 0x2028
    || c == 0x2029
    || c == 0x202f
    || c == 0x205f
    || c == 0x3000

unfoldable pub trim_left : Text → Text
trim_left [] = []
trim_left (c ∷ s) = let rest = trim_left s in if is_space c then rest else c ∷ s

-- `strings.TrimSpace`
unfoldable pub trim_space : Text → Text
unfolding trim_left is_space
trim_space s = reverse (trim_left (reverse (trim_left s)))

-- The words so far, the current word, and whether one is open.
unfoldable pub fields_from : Text → Text → List Text
unfolding is_space
fields_from [] word = if is_empty word then [] else word ∷ []
fields_from (c ∷ s) word =
    let closed = fields_from s [] in
    let longer = fields_from s (word ++ (c ∷ [])) in
    if is_space c then (if is_empty word then closed else word ∷ closed) else longer

-- `strings.Fields`
unfoldable pub fields : Text → List Text
unfolding fields_from
fields s = fields_from s []

-- `strings.ReplaceAll` of one character
unfoldable pub replace_all : Text → ℕ → Text → Text
replace_all [] old new = []
replace_all (c ∷ s) old new = (if c == old then new else c ∷ []) ++ replace_all s old new

-- `strings.ToLower`, as far as a comparison with an ASCII text can see it: the capitals A to Z, and
-- the two other characters that Go lowers into ASCII (U+0130 and U+212A).
unfoldable pub lower : ℕ → ℕ
lower c =
    if leb b'A' c && leb c b'Z'
    then c + 32
    else if c == 0x130
    then b'i'
    else if c == 0x212a
    then b'k'
    else c

unfoldable pub to_lower : Text → Text
unfolding lower
to_lower = map lower
