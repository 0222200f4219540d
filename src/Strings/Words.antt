-- ===== src/Strings/Words.antt =====
-- Laws of `trim_space`: a text with no space is left as it is.
use mathlib.Core.List.{reverse, reverse-reverse, reverse_aux}
use rules_vmtest.Base.{◌≡◌, refl, false, [], ◌∷◌, arith, Text, All}
use rules_vmtest.Strings.{is_space, trim_left, trim_space}

abbrev pub NoSpace : Text → Type 0
NoSpace = All (λ c. is_space c ≡ false)

trim_left-of-NoSpace : (s : Text) → NoSpace s → trim_left s ≡ s
unfolding trim_left
trim_left-of-NoSpace [] h = refl
trim_left-of-NoSpace (c ∷ s) h = ground arith

All-reverse_aux : (s t : Text) → NoSpace s → NoSpace t → NoSpace (reverse_aux s t)
All-reverse_aux [] t hs ht = ht
All-reverse_aux (c ∷ s) t (hc, hs) ht = All-reverse_aux s (c ∷ t) hs (hc, ht)

reverse-NoSpace : (s : Text) → NoSpace s → NoSpace (reverse s)
reverse-NoSpace s h = All-reverse_aux s [] h tt

pub trim_space-of-NoSpace : (s : Text) → NoSpace s → trim_space s ≡ s
unfolding trim_space
trim_space-of-NoSpace s h =
    rw (trim_left-of-NoSpace s h, trim_left-of-NoSpace (reverse s) (reverse-NoSpace s h))
      (reverse-reverse s)
