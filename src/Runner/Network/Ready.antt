-- ===== src/Runner/Network/Ready.antt =====
-- What the checks of the network have seen when they succeed, and that nothing more is asked for.
use rules_vmtest.Base.{
  ◌≡◌, refl, sym, ap, ◌∙◌, ◌>>=◌, ◌↔◌, ◌⊎◌, inl, inr, Bool, true, false, not, List, Option, none,
  some, Text, text, is_empty, if◌then◌else◌, Bool-cases, ok, ok_of_bind,
}
use rules_vmtest.Strings.{contains}
use rules_vmtest.Runner.Config.{RunnerConfig}
use rules_vmtest.Runner.Network.{
  NetworkError, Ip, link_args, addr_args, printed, ensure, shows_address, use_tap_device,
}

-- `ip` with these arguments succeeds, and prints a text for which `P` holds.
abbrev pub Prints : Ip → List Text → (Text → Type 0) → Type 0
Prints ip args P = (out : Text) × (ip args ≡ some out) × P out

-- The device's line shows flags, and the text UP.
abbrev pub LooksUp : Text → Type 0
LooksUp out = (contains out (text "<") ≡ true) × (contains out (text "UP") ≡ true)

-- Of the two transit addresses, those that are configured are shown.
abbrev pub ShowsTransit : RunnerConfig → Text → Type 0
ShowsTransit c out =
    (shows_address c.transit_network.ipv4 out ≡ true)
    × (shows_address c.transit_network.ipv6 out ≡ true)

pub record BridgeReady (ip : Ip) (c : RunnerConfig) : Type 0 where
  pub bridge : Prints ip (link_args c.bridge_name) LooksUp
  pub second :
      (is_empty c.second_tap_device ≡ true)
      ⊎ Prints ip (addr_args c.second_tap_device) (ShowsTransit c)

pub record TapReady (ip : Ip) (c : RunnerConfig) : Type 0 where
  pub named : is_empty c.tap_device ≡ false
  pub tap : (out : Text) × (ip (link_args c.tap_device) ≡ some out)
  pub second :
      (is_empty c.second_tap_device ≡ true)
      ⊎ ((out : Text) × (ip (link_args c.second_tap_device) ≡ some out))

printed-some :
    (e : NetworkError) (o : Option Text) (out : Text) → printed e o ≡ ok out → o ≡ some out
printed-some e none out h = cc
printed-some e (some t) out h = cc

ensure-true : (e : NetworkError) (b : Bool) → ensure e b ≡ ok tt → b ≡ true
ensure-true e true h = refl
ensure-true e false h = cc

false_of_not : (b : Bool) → not b ≡ true → b ≡ false
false_of_not true h = cc
false_of_not false h = refl

second_tap_seen :
    (ip : Ip) (c : RunnerConfig) (name : Text) (alone : Bool)
    → (if alone
        then ok c.tap_device
        else printed
            (NetworkError.second_tap_not_found c.second_tap_device)
            (ip (link_args c.second_tap_device))
          >>= λ _. ok c.tap_device)
      ≡ ok name
    → (name ≡ c.tap_device)
      × ((alone ≡ true) ⊎ ((out : Text) × (ip (link_args c.second_tap_device) ≡ some out)))
second_tap_seen ip c name true h = (cc, inl refl)
second_tap_seen ip c name false h =
    let (out, e, h1) =
      ok_of_bind
        (printed (NetworkError.second_tap_not_found c.second_tap_device)
          (ip (link_args c.second_tap_device)))
        _ h in
    (cc, inr (out, printed-some _ _ out e))

tap_seen :
    (ip : Ip) (c : RunnerConfig) (name : Text)
    → use_tap_device ip c ≡ ok name
    → (name ≡ c.tap_device) × TapReady ip c
unfolding use_tap_device
tap_seen ip c name h =
    let (_, e, h1) =
      ok_of_bind (ensure NetworkError.no_tap_device (not (is_empty c.tap_device))) _ h in
    let (out, e', h2) =
      ok_of_bind (printed (NetworkError.tap_not_found c.tap_device) (ip (link_args c.tap_device))) _
        h1 in
    let (eq, second) = second_tap_seen ip c name (is_empty c.second_tap_device) h2 in
    (
      eq,
      record {
        named = false_of_not (is_empty c.tap_device) (ensure-true _ _ e);
        tap = (out, printed-some _ _ out e');
        second = second;
      },
    )

tap_passes : (ip : Ip) (c : RunnerConfig) → TapReady ip c → use_tap_device ip c ≡ ok c.tap_device
unfolding use_tap_device
tap_passes ip c r =
    let (out, e) = r.tap in
    rw (r.named, e)
      (elim (Bool-cases (is_empty c.second_tap_device)) [
        | inl alone ↦ rw alone refl
        | inr two ↦ rw two (elim r.second [ inl alone ↦ cc | inr (out', e') ↦ rw e' refl ])
      ])

-- `useTapDevice` gives a name exactly when a tap device is configured, `ip` knows it, and `ip` knows the
-- second tap device if one is configured; and the name is then that of the first tap device.
pub use_tap_device-TapReady :
    (ip : Ip) (c : RunnerConfig) (name : Text)
    → (use_tap_device ip c ≡ ok name) ↔ ((name ≡ c.tap_device) × TapReady ip c)
use_tap_device-TapReady ip c name =
    (tap_seen ip c name, λ (eq, r). tap_passes ip c r ∙ ap ok (sym eq))
