-- ===== src/Machine/Dump/Failed.antt =====
-- What is dumped where no option has been given: the journals of the failed units, and the kernel log.
use rules_vmtest.Base.{
  ◌≡◌, ◌≢◌, refl, ap, ◌⊎◌, inl, inr, true, [], ◌∷◌, ◌++◌, List, Option, none, some, Text, text, ok,
  err,
}
use rules_vmtest.Strings.{split, trim_space, fields}
use rules_vmtest.Machine.Guest.{Guest}
use rules_vmtest.Machine.Exec.{ExecResult, panicked, execute}
use rules_vmtest.Machine.Dump.{
  Entry, header, State, Dumped, dump_kernel_log, dump_failed_unit, first_field, dump_lines,
  dump_listing, dump_failed_units, then_kernel_log, dump, dump_on_failure,
}

-- A listing names these units: each line that is not empty begins, behind blanks, with the next.
abbrev pub Names : List Text → List Text → Type 0
Names [] units = units ≡ []
Names (line ∷ lines) units =
    ((line ≡ []) × Names lines units)
    ⊎ ((unit : Text) × (words : List Text) × (rest : List Text) × (fields line ≡ unit ∷ words)
        × (units ≡ unit ∷ rest)
        × Names lines rest)

-- The first line that is neither empty nor names a unit, behind lines that name `units`.
abbrev pub StopsAt : Text → List Text → List Text → Type 0
StopsAt blank units lines =
    (before : List Text) × (after : List Text) × (lines ≡ before ++ (blank ∷ after))
    × (blank ≢ [])
    × (fields blank ≡ [])
    × Names before units

module _ (G : Guest) where
  -- The journals of units, one after the other.
  abbrev pub dump_units : List Text → State G → State G
  dump_units [] s = s
  dump_units (unit ∷ units) s = dump_units units (dump_failed_unit G unit s)

  -- What becomes of a listing.
  abbrev pub Listed : List Text → State G → Dumped G → Type 0
  Listed lines s d =
      ((units : List Text) × Names lines units × (d ≡ (ok tt, dump_units units s)))
      ⊎ ((blank : Text) × (units : List Text) × StopsAt blank units lines
          × (d ≡ (err (panicked blank), dump_units units s)))

  skip-Listed :
      (lines : List Text) (s : State G) (d : Dumped G) → Listed lines s d → Listed ([] ∷ lines) s d
  skip-Listed lines s d (inl (units, names, e)) = inl (units, inl (refl, names), e)
  skip-Listed lines s d (inr (blank, units, (before, after, e, filled, no_field, names), q)) = inr (
    blank,
    units,
    ([] ∷ before, after, ap (λ ls. [] ∷ ls) e, filled, no_field, inl (refl, names)),
    q,
  )

  unit-Listed :
      (line unit : Text) (words : List Text) (lines : List Text) (s : State G) (d : Dumped G)
      → fields line ≡ unit ∷ words
      → Listed lines (dump_failed_unit G unit s) d
      → Listed (line ∷ lines) s d
  unit-Listed line unit words lines s d first (inl (units, names, e)) =
      inl (unit ∷ units, inr (unit, words, units, first, refl, names), e)
  unit-Listed line unit words lines s d first
        (inr (blank, units, (before, after, e, filled, no_field, names), q)) =
      inr (
        blank,
        unit ∷ units,
        (
          line ∷ before,
          after,
          ap (λ ls. line ∷ ls) e,
          filled,
          no_field,
          inr (unit, words, units, first, refl, names),
        ),
        q,
      )

  first_field-Listed :
      (line : Text) (lines : List Text) (s : State G) (words : List Text)
      → line ≢ []
      → fields line ≡ words
      → ((t : State G) → Listed lines t (dump_lines G lines t))
      → Listed
          (line ∷ lines)
          s
          (first_field G line words (λ unit. dump_lines G lines (dump_failed_unit G unit s)) s)
  first_field-Listed line lines s [] filled no_field later =
      inr (line, [], ([], lines, refl, filled, no_field, refl), refl)
  first_field-Listed line lines s (unit ∷ words) filled first later =
      unit-Listed line unit words lines s _ first (later (dump_failed_unit G unit s))

  dump_lines-Listed : (lines : List Text) (s : State G) → Listed lines s (dump_lines G lines s)
  unfolding dump_lines
  dump_lines-Listed [] s = inl ([], refl, refl)
  dump_lines-Listed ([] ∷ lines) s = skip-Listed lines s _ (dump_lines-Listed lines s)
  dump_lines-Listed ((c ∷ line) ∷ lines) s =
      first_field-Listed (c ∷ line) lines s (fields (c ∷ line)) (λ e. cc) refl
        (dump_lines-Listed lines)

  -- What the default dump does with the reply of systemctl.
  abbrev pub Reported :
      List Entry → Option G.Error → ExecResult G.Error → G.World → Dumped G → Type 0
  Reported log (some e) r w d = d ≡ (ok tt, dump_kernel_log G [] (w, log))
  Reported log none r w d =
      let lines = split b'\n' (trim_space r.stdout) in
      ((units : List Text) × Names lines units
        × (d ≡ (ok tt, dump_kernel_log G [] (dump_units units (w, log)))))
      ⊎ ((blank : Text) × (units : List Text) × StopsAt blank units lines
          × (d ≡ (err (panicked blank), dump_units units (w, log))))

  listing-Reported :
      (log : List Entry) (error : Option G.Error) (r : ExecResult G.Error) (w : G.World)
      → Reported log error r w (then_kernel_log G (dump_listing G log error r w))
  listing-Reported log (some e) r w = refl
  listing-Reported log none r w =
      let lines = split b'\n' (trim_space r.stdout) in
      elim (dump_lines-Listed lines (w, log)) [
        | inl (units, names, e) ↦ inl (units, names, ap (then_kernel_log G) e)
        | inr (blank, units, stops, e) ↦ inr (blank, units, stops, ap (then_kernel_log G) e)
      ]

  -- When a test without options fails, systemctl is asked for the failed units. If that call fails only
  -- the kernel log is dumped, without filters. Else the journals of the units that the lines name are
  -- called, in order, and then the kernel log; but a line that is not empty and names no unit ends the
  -- dump in a panic, behind the journals of the units before it, and without the kernel log.
  pub dump_on_failure-Reported :
      (w : G.World) (log : List Entry)
      → let (r, w') = execute G (text "systemctl --failed --no-legend --no-pager --plain") w in
        Reported (log ++ (header ∷ [])) r.error r w' (dump_on_failure G [] true (w, log))
  unfolding dump_on_failure dump dump_failed_units
  dump_on_failure-Reported w log =
      let (r, w') = execute G (text "systemctl --failed --no-legend --no-pager --plain") w in
      listing-Reported (log ++ (header ∷ [])) r.error r w'
