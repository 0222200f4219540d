-- ===== src/Cmd/TestRunner/Choices.antt =====
-- Which of the options that exclude each other are chosen.
use mathlib.Core.Path.{subst}
use rules_vmtest.Base.{
  ◌≡◌, ◌≢◌, ◌⊎◌, sym, same_iff, arith, refl, ◌∙◌, ap, Text, text, same, is_empty, Bool, true, false,
  [], ◌∷◌, ◌++◌, List, keep, keep-append, append-nil, Bool-cases, inl, inr, All,
}
use rules_vmtest.Machine.Env.{
  VmOption, chosen, with_no_network, with_user_net, with_existing_disk, with_disk,
}
use rules_vmtest.Cmd.TestRunner.{
  Flags, base_opts, boot_choices, disk_opts, tpm_choices, network_opt, share_choices, start_opts,
}

abbrev pub is_network : VmOption → Bool
is_network o = elim o [ with_no_network ↦ true | with_user_net ↦ true | _ ↦ false ]

abbrev pub is_disk : VmOption → Bool
is_disk o = elim o [ with_existing_disk _ ↦ true | with_disk _ ↦ true | _ ↦ false ]

keep-chosen :
    (p : VmOption → Bool) (choices : List (Bool × VmOption))
    → All (λ c. p c.1 ≡ false) choices
    → keep p (chosen choices) ≡ []
unfolding keep chosen
keep-chosen p [] h = refl
keep-chosen p ((true, o) ∷ choices) (fails, h) = rw fails (keep-chosen p choices h)
keep-chosen p ((false, o) ∷ choices) (fails, h) = keep-chosen p choices h

keep-skip :
    (p : VmOption → Bool) (choices : List (Bool × VmOption)) (rest : List VmOption)
    → All (λ c. p c.1 ≡ false) choices
    → keep p (chosen choices ++ rest) ≡ keep p rest
keep-skip p choices rest h = keep-append p (chosen choices) rest ∙ rw (keep-chosen p choices h) refl

-- Of the six parts of the options, only the fixed ones, the disk and the network can pass.
keep-parts :
    (p : VmOption → Bool) (fixed disk net : List VmOption) (boot tpm share : List (Bool × VmOption))
    → All (λ c. p c.1 ≡ false) boot
    → All (λ c. p c.1 ≡ false) tpm
    → All (λ c. p c.1 ≡ false) share
    → keep p (fixed ++ (chosen boot ++ (disk ++ (chosen tpm ++ (net ++ chosen share)))))
      ≡ keep p fixed ++ (keep p disk ++ keep p net)
keep-parts p fixed disk net boot tpm share h1 h2 h3 =
    let tail = net ++ chosen share in
    let late = disk ++ (chosen tpm ++ tail) in
    keep-append p fixed (chosen boot ++ late)
    ∙ ap (λ r. keep p fixed ++ r)
        (keep-skip p boot late h1
          ∙ (keep-append p disk (chosen tpm ++ tail)
              ∙ ap (λ r. keep p disk ++ r)
                  (keep-skip p tpm tail h2
                    ∙ (keep-append p net (chosen share)
                        ∙ rw (keep-chosen p share h3) (append-nil (keep p net))))))

disk_opts-keep :
    (f : Flags) → (keep is_disk (disk_opts f) ≡ disk_opts f) × (keep is_network (disk_opts f) ≡ [])
unfolding disk_opts keep
disk_opts-keep f = elim (Bool-cases (is_empty f.disk)) [
  | inr e ↦ rw e (refl, refl)
  | inl e ↦ elim (Bool-cases (is_empty f.disk_size)) [
    | inr e' ↦ rw (e, e') (refl, refl)
    | inl e' ↦ rw (e, e') (refl, refl)
  ]
]

network_opt-keep :
    (mode : Text)
    → (keep is_disk (network_opt mode ∷ []) ≡ [])
      × (keep is_network (network_opt mode ∷ []) ≡ network_opt mode ∷ [])
unfolding network_opt keep
network_opt-keep mode = elim (Bool-cases (same mode (text "none"))) [
  | inr e ↦ rw e (refl, refl)
  | inl e ↦ rw e (refl, refl)
]

-- The disks that the flags ask for: the one that is named; else a new one, if a size is given.
abbrev pub Disks : Flags → List VmOption → Type 0
Disks f disks =
    ((f.disk ≢ []) × (disks ≡ with_existing_disk f.disk ∷ []))
    ⊎ ((f.disk ≡ []) × (f.disk_size ≢ []) × (disks ≡ with_disk f.disk_size ∷ []))
    ⊎ ((f.disk ≡ []) × (f.disk_size ≡ []) × (disks ≡ []))

abbrev pub Networks : Flags → List VmOption → Type 0
Networks f networks =
    ((f.network ≡ text "none") × (networks ≡ with_no_network ∷ []))
    ⊎ ((f.network ≢ text "none") × (networks ≡ with_user_net ∷ []))

is_empty-nil : (t : Text) → is_empty t ≡ true → t ≡ []
is_empty-nil [] e = refl
is_empty-nil (c ∷ t) e = cc

is_empty-cons : (t : Text) → is_empty t ≡ false → t ≢ []
is_empty-cons [] e = cc
is_empty-cons (c ∷ t) e = λ q. cc

disk_opts-Disks : (f : Flags) → Disks f (disk_opts f)
unfolding disk_opts
disk_opts-Disks f = elim (Bool-cases (is_empty f.disk)) [
  | inr e ↦ inl (is_empty-cons f.disk e, rw e refl)
  | inl e ↦ elim (Bool-cases (is_empty f.disk_size)) [
    | inr e' ↦ inr (inl (is_empty-nil f.disk e, is_empty-cons f.disk_size e', rw (e, e') refl))
    | inl e' ↦ inr (inr (is_empty-nil f.disk e, is_empty-nil f.disk_size e', rw (e, e') refl))
  ]
]

network_opt-Networks : (f : Flags) → Networks f (network_opt f.network ∷ [])
unfolding network_opt
network_opt-Networks f = elim (Bool-cases (same f.network (text "none"))) [
  | inl e ↦ inl ((same_iff f.network (text "none")).0 e, rw e refl)
  | inr e ↦ inr ((λ q. ground (arith, (same_iff f.network (text "none")).1 q)), rw e refl)
]

-- Whatever the flags are, the machine is started with exactly one option for the network, which is that
-- for no network if the flag says `none` and the user network else; and its disks are an existing disk
-- if one is named, else a new one if a size is given, and none if neither is.
pub start_opts-Choices :
    (f : Flags)
    → Networks f (keep is_network (start_opts f)) × Disks f (keep is_disk (start_opts f))
unfolding start_opts keep
start_opts-Choices f = (
  subst (Networks f) (sym networks) (network_opt-Networks f),
  subst (Disks f) (sym disks) (disk_opts-Disks f),
)
  where
    networks : keep is_network (start_opts f) ≡ network_opt f.network ∷ []
    networks =
        keep-parts is_network (base_opts f) (disk_opts f) (network_opt f.network ∷ [])
          (boot_choices f) (tpm_choices f) (share_choices f)
          (refl, (refl, (refl, (refl, (refl, (refl, (refl, tt))))))) (refl, tt) (refl, tt)
        ∙ rw ((disk_opts-keep f).1, (network_opt-keep f.network).1) refl

    disks : keep is_disk (start_opts f) ≡ disk_opts f
    disks =
        keep-parts is_disk (base_opts f) (disk_opts f) (network_opt f.network ∷ []) (boot_choices f)
          (tpm_choices f) (share_choices f)
          (refl, (refl, (refl, (refl, (refl, (refl, (refl, tt))))))) (refl, tt) (refl, tt)
        ∙ rw ((disk_opts-keep f).0, (network_opt-keep f.network).0) (append-nil (disk_opts f))
