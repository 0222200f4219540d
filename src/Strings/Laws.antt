-- ===== src/Strings/Laws.antt =====
-- Laws of `split`, `join`, `contains` and `after_last`.
use rules_vmtest.Base.{ℕ, ◌≡◌, ◌≢◌, refl, ap, ◌∙◌, true, List, [], ◌∷◌, ◌++◌, arith, Text, All}
use rules_vmtest.Strings.{has_prefix, contains, split, join}

-- No character of the text is `c`.
abbrev pub Lacks : ℕ → Text → Type 0
Lacks c = All (λ d. d ≢ c)

pub split-of-Lacks : (sep : ℕ) (s : Text) → Lacks sep s → split sep s ≡ s ∷ []
unfolding split
split-of-Lacks sep [] h = refl
split-of-Lacks sep (c ∷ s) (hc, hs) = ground (arith, split-of-Lacks sep s hs)

pub split-append :
    (sep : ℕ) (p s : Text) → Lacks sep p → split sep (p ++ (sep ∷ s)) ≡ p ∷ split sep s
unfolding split
split-append sep [] s h = ground arith
split-append sep (c ∷ p) s (hc, hp) = ground (arith, split-append sep p s hp)

-- Splitting a join at a separator that no part holds gives the parts back.
pub split-join :
    (sep : ℕ) (p : Text) (ps : List Text)
    → Lacks sep p
    → All (Lacks sep) ps
    → split sep (join (sep ∷ []) (p ∷ ps)) ≡ p ∷ ps
unfolding join
split-join sep p [] hp _ = split-of-Lacks sep p hp
split-join sep p (q ∷ ps) hp (hq, hps) =
    split-append sep p _ hp ∙ ap (λ r. p ∷ r) (split-join sep q ps hq hps)

pub has_prefix-append : (p s : Text) → has_prefix (p ++ s) p ≡ true
unfolding has_prefix
has_prefix-append [] [] = refl
has_prefix-append [] (c ∷ s) = refl
has_prefix-append (c ∷ p) s = ground (arith, has_prefix-append p s)

-- A text contains each of its parts.
pub contains-append : (a p s : Text) → contains (a ++ (p ++ s)) p ≡ true
unfolding contains
contains-append [] [] [] = refl
contains-append [] [] (c ∷ s) = unfold has_prefix in refl
contains-append [] (c ∷ p) s = rw (has_prefix-append (c ∷ p) s)
contains-append (c ∷ a) p s = ground (arith, contains-append a p s)
