-- ===== src/Machine/Query/Links.antt =====
-- Where the addresses of a guest are listed.
use rules_vmtest.Base.{
  ◌≡◌, ◌↔◌, Result, ok, err, refl, ◌⊎◌, inl, inr, [], ◌∷◌, List, Text, same, same_iff, Bool-cases,
}
use rules_vmtest.Machine.Guest.{Guest, NetworkInfo, Address, LinkEntry}
use rules_vmtest.Machine.Query.{
  Link, link_addresses, links_with, then_reply, replied, network_links,
}
use rules_vmtest.Machine.Exec.{call_failed}

-- An address is one of a list.
abbrev pub Listed : Text → List Text → Type 0
Listed a [] = ⊥
Listed a (b ∷ bs) = (b ≡ a) ⊎ Listed a bs

-- An entry of the reply with this interface and address.
abbrev pub Entry : Text → Text → List Address → Type 0
Entry name a [] = ⊥
Entry name a (e ∷ es) = ((e.interface ≡ name) × (e.address ≡ a)) ⊎ Entry name a es

listed_entry :
    (name a : Text) (es : List Address) → Listed a (link_addresses name es) → Entry name a es
unfolding link_addresses
listed_entry name a [] h = h
listed_entry name a (e ∷ es) h = elim (Bool-cases (same e.interface name)) [
  | inl q ↦
      let h' : Listed a (e.address ∷ link_addresses name es) = rw q at h in
      elim h' [
        | inl eq ↦ inl ((same_iff e.interface name).0 q, eq)
        | inr later ↦ inr (listed_entry name a es later)
      ]
  | inr q ↦ inr (listed_entry name a es (rw q at h))
]

entry-Listed :
    (name a : Text) (es : List Address) → Entry name a es → Listed a (link_addresses name es)
unfolding link_addresses
entry-Listed name a [] h = absurd h
entry-Listed name a (e ∷ es) (inl (q, eq)) = rw ((same_iff e.interface name).1 q) (inl eq)
entry-Listed name a (e ∷ es) (inr h) = elim (Bool-cases (same e.interface name)) [
  | inl q ↦ rw q (inr (entry-Listed name a es h))
  | inr q ↦ rw q (entry-Listed name a es h)
]

-- The links of a reply: one for each entry, in order, with its name, state and MTU; and an address is
-- listed under a link exactly if an entry of the reply has it with the link's name.
abbrev pub Mirrors : List Address → List LinkEntry → List Link → Type 0
Mirrors addrs [] [] = Unit {0}
Mirrors addrs [] (l ∷ ls) = ⊥
Mirrors addrs (e ∷ es) [] = ⊥
Mirrors addrs (e ∷ es) (l ∷ ls) =
    ((l.name ≡ e.name)
      × (l.state ≡ e.state)
      × (l.mtu ≡ e.mtu)
      × ((a : Text) → Listed a l.addrs ↔ Entry l.name a addrs))
    × Mirrors addrs es ls

links_with-Mirrors :
    (addrs : List Address) (es : List LinkEntry) → Mirrors addrs es (links_with addrs es)
unfolding links_with
links_with-Mirrors addrs [] = tt
links_with-Mirrors addrs (e ∷ es) = (
  (refl, refl, refl, λ a. (listed_entry e.name a addrs, entry-Listed e.name a addrs)),
  links_with-Mirrors addrs es,
)

module _ (G : Guest) where
  links_of_reply :
      (r : Result G.Error NetworkInfo × G.World)
      → ((info : NetworkInfo) × (r.0 ≡ ok info)
          × ((links : List Link) × ((then_reply G
                  (replied G [] r)
                  (λ info'. ok (links_with info'.addrs info'.links))).0
                ≡ ok links)
              × Mirrors info.addrs info.links links))
        ⊎ ((e : G.Error) × (r.0 ≡ err e)
            × ((then_reply G (replied G [] r) (λ info'. ok (links_with info'.addrs info'.links))).0
                ≡ err (call_failed [] e)))
  links_of_reply (ok info, w) = inl (
    info,
    refl,
    (links_with info.addrs info.links, refl, links_with-Mirrors info.addrs info.links),
  )
  links_of_reply (err e, w) = inr (e, refl, refl)

  -- If the guest replies, `NetworkLinks` returns one link for each of the reply's, in order, with its
  -- name, state and MTU, and an address is listed under a link exactly if an entry of the reply has it
  -- with the link's name; if the call fails, the test stops with the call's error.
  pub network_links-Mirrors :
      (w : G.World)
      → ((info : NetworkInfo) × ((G.network_info [] w).0 ≡ ok info)
          × ((links : List Link) × ((network_links G w).0 ≡ ok links)
              × Mirrors info.addrs info.links links))
        ⊎ ((e : G.Error) × ((G.network_info [] w).0 ≡ err e)
            × ((network_links G w).0 ≡ err (call_failed [] e)))
  unfolding network_links
  network_links-Mirrors w = links_of_reply (G.network_info [] w)
