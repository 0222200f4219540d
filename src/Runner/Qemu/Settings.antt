-- ===== src/Runner/Qemu/Settings.antt =====
-- How QEMU reads the values that `buildQEMUArgs` puts together.

use rules_vmtest.Base.{
  ◌≡◌, refl, true, ◌==◌, [], ◌∷◌, ◌++◌, List, Text, text, same, is_empty, All, Bool-cases, inl, inr,
  arith,
}
use rules_vmtest.Strings.{split, join}
use rules_vmtest.Strings.Laws.{Lacks, split-join}
use rules_vmtest.Runner.Config.{Platform, RunnerConfig}
use rules_vmtest.Runner.Qemu.{
  machine_type, default_machine_type, tap_netdev, net_device, code_drive, vars_drive, iso_drive,
  disk_drive, tpm_chardev,
}
use rules_vmtest.Runner.Qemu.Values.{
  settings, no_comma, machine_of, tap_settings, disk_settings, iso_settings, code_settings,
  vars_settings, mac_settings,
}

pub no_comma-Lacks : (t : Text) → no_comma t ≡ true → Lacks b',' t
no_comma-Lacks [] h = tt
no_comma-Lacks (c ∷ t) h = elim (Bool-cases (c == b',')) [
  | inl e ↦ absurd (ground (arith, rw e at h))
  | inr e ↦ (ground arith, no_comma-Lacks t (rw e at h))
]

All-Lacks : (ts : List Text) → All (λ t. no_comma t ≡ true) ts → All (Lacks b',') ts
All-Lacks [] h = tt
All-Lacks (t ∷ ts) (p, ps) = (no_comma-Lacks t p, All-Lacks ts ps)

-- The parts of a value whose parts have no commas.
settings-join :
    (t : Text) (ts : List Text)
    → no_comma t ≡ true
    → All (λ u. no_comma u ≡ true) ts
    → settings (join (b',' ∷ []) (t ∷ ts)) ≡ t ∷ ts
settings-join t ts h hs = split-join b',' t ts (no_comma-Lacks t h) (All-Lacks ts hs)

pub code_drive-settings :
    (path : Text) → no_comma path ≡ true → settings (code_drive path) ≡ code_settings path
unfolding text join
code_drive-settings path h =
    settings-join (text "if=pflash")
      (text "format=raw" ∷ text "unit=0" ∷ (text "file=" ++ path) ∷ text "readonly=on" ∷ []) refl
      (refl, (refl, (h, (refl, tt))))

pub vars_drive-settings :
    (path : Text) → no_comma path ≡ true → settings (vars_drive path) ≡ vars_settings path
unfolding text join
vars_drive-settings path h =
    settings-join (text "if=pflash")
      (text "format=raw" ∷ text "unit=1" ∷ (text "file=" ++ path) ∷ []) refl (refl, (refl, (h, tt)))

pub iso_drive-settings :
    (path : Text) → no_comma path ≡ true → settings (iso_drive path) ≡ iso_settings path
unfolding text join
iso_drive-settings path h =
    settings-join (text "file=" ++ path)
      (text "format=raw"
        ∷ text "cache=none"
        ∷ text "media=cdrom"
        ∷ text "if=none"
        ∷ text "id=cd0"
        ∷ [])
      h (refl, (refl, (refl, (refl, (refl, tt)))))

pub disk_drive-settings :
    (path : Text) → no_comma path ≡ true → settings (disk_drive path) ≡ disk_settings path
unfolding text join
disk_drive-settings path h =
    settings-join (text "file=" ++ path) (text "format=raw" ∷ text "if=none" ∷ text "id=disk" ∷ [])
      h (refl, (refl, (refl, tt)))

pub tpm_chardev-settings :
    (path : Text)
    → no_comma path ≡ true
    → settings (tpm_chardev path) ≡ text "socket" ∷ text "id=char0" ∷ (text "path=" ++ path) ∷ []
unfolding text join
tpm_chardev-settings path h =
    settings-join (text "socket") (text "id=char0" ∷ (text "path=" ++ path) ∷ []) refl
      (refl, (h, tt))

pub first_netdev-settings :
    (name : Text)
    → no_comma name ≡ true
    → settings (tap_netdev (text "net0") name) ≡ tap_settings (text "id=net0") name
unfolding text join
first_netdev-settings name h =
    settings-join (text "tap")
      (text "id=net0" ∷ (text "ifname=" ++ name) ∷ text "script=no" ∷ text "downscript=no" ∷ [])
      refl (refl, (h, (refl, (refl, tt))))

pub second_netdev-settings :
    (name : Text)
    → no_comma name ≡ true
    → settings (tap_netdev (text "net1") name) ≡ tap_settings (text "id=net1") name
unfolding text join
second_netdev-settings name h =
    settings-join (text "tap")
      (text "id=net1" ∷ (text "ifname=" ++ name) ∷ text "script=no" ∷ text "downscript=no" ∷ [])
      refl (refl, (h, (refl, (refl, tt))))

pub net_device-settings :
    (mac : Text) → no_comma mac ≡ true → settings (net_device mac) ≡ mac_settings mac
unfolding text join split
net_device-settings [] h = refl
net_device-settings (c ∷ mac) h =
    settings-join (text "virtio-net-pci") (text "netdev=net0" ∷ (text "mac=" ++ (c ∷ mac)) ∷ [])
      refl (refl, (h, tt))

pub machine_type-of : (p : Platform) (c : RunnerConfig) → machine_type p c ≡ machine_of p c
unfolding default_machine_type
machine_type-of p c = elim (Bool-cases (is_empty c.machine_type)) [
  | inr e ↦ rw e refl
  | inl e ↦ elim (Bool-cases (same p.goos (text "darwin"))) [
    | inr o ↦ rw (e, o) refl
    | inl o ↦ elim (Bool-cases (same p.goarch (text "arm64"))) [
      | inr a ↦ rw (e, o, a) refl
      | inl a ↦ rw (e, o, a) refl
    ]
  ]
]
