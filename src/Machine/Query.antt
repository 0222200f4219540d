-- ===== src/Machine/Query.antt =====
-- The single calls of `machine/machine.go`: `Background`, `CopyFromHost`, `Listen`, `ForwardedPort`,
-- `ReadFile`, `FileHash`, `FileSize`, `FindProcesses`, `NetworkAddrs`, `NetworkRoutes`, `NetworkLinks`
-- and `Time`. A call that fails stops the test.
pub mod Links
use rules_vmtest.Base.{
  ℕ, ◌-◌, Bool, not, [], ◌∷◌, List, Option, none, some, ℤ, pos, Text, same, if◌then◌else◌, Result,
  ok, err, ◌>>=◌,
}
use rules_vmtest.Strings.{join}
use rules_vmtest.Strconv.{itoa}
use rules_vmtest.Machine.Guest.{
  Guest, FileStat, ProcessInfo, Address, LinkEntry, Route, NetworkInfo,
}
use rules_vmtest.Machine.Exec.{Failure, call_failed, no_such_file}

-- The type `Link`.
pub record Link : Type 0 where
  pub name : Text
  pub state : Text
  pub mtu : ℤ
  pub addrs : List Text

-- The addresses of all entries.
abbrev pub addresses : List Address → List Text
addresses [] = []
addresses (a ∷ as_) = a.address ∷ addresses as_

-- The inner loop of `NetworkLinks`.
unfoldable pub link_addresses : Text → List Address → List Text
link_addresses name [] = []
link_addresses name (a ∷ as_) =
    if same a.interface name then a.address ∷ link_addresses name as_ else link_addresses name as_

-- The outer loop.
unfoldable pub links_with : List Address → List LinkEntry → List Link
unfolding link_addresses
links_with addrs [] = []
links_with addrs (l ∷ ls) =
    record { name = l.name; state = l.state; mtu = l.mtu; addrs = link_addresses l.name addrs }
    ∷ links_with addrs ls

module _ (G : Guest) where
  abbrev pub Called : Type 0 → Type 0
  Called A = Result (Failure G.Error) A × G.World

  -- `if err != nil { t.Fatalf(…) }`
  abbrev pub replied : {A : Type 0} → Text → Result G.Error A × G.World → Called A
  replied label (err e, w) = (err (call_failed label e), w)
  replied label (ok a, w) = (ok a, w)

  abbrev pub done_or : Text → Option G.Error × G.World → Called (Unit {0})
  done_or label (some e, w) = (err (call_failed label e), w)
  done_or label (none, w) = (ok tt, w)

  -- A test or a conversion of the reply.
  abbrev pub then_reply : {A B : Type 0} → Called A → (A → Result (Failure G.Error) B) → Called B
  then_reply (r, w) f = (r >>= f, w)

  unfoldable pub background : List Text → G.World → Called (Unit {0})
  background argv w = done_or (join (32 ∷ []) argv) (G.background argv w)

  -- The host's file is `none` where `os.ReadFile` fails.
  unfoldable pub copy_from_host : Text → Option Text → Text → G.World → Called (Unit {0})
  copy_from_host host_path none guest_path w = (err (no_such_file host_path), w)
  copy_from_host host_path (some content) guest_path w =
      done_or guest_path (G.write_file guest_path content w)

  unfoldable pub listen : ℤ → G.World → Called (Unit {0})
  listen port w = done_or (itoa port) (G.listen port w)

  unfoldable pub read_file : Text → G.World → Called Text
  read_file path w = replied path (G.read_file path w)

  unfoldable pub file_hash : Text → Text → G.World → Called Text
  file_hash path algo w = replied path (G.file_hash path algo w)

  abbrev pub size_of : Text → FileStat → Result (Failure G.Error) ℤ
  size_of path s = if not s.exists then err (no_such_file path) else ok s.size

  unfoldable pub file_size : Text → G.World → Called ℤ
  file_size path w = then_reply (replied path (G.stat path w)) (size_of path)

  unfoldable pub find_processes : Text → G.World → Called (List ProcessInfo)
  find_processes pattern w = replied pattern (G.find_processes pattern w)

  unfoldable pub network_addrs : Text → G.World → Called (List Text)
  network_addrs iface w =
      then_reply (replied iface (G.network_info iface w)) (λ info. ok (addresses info.addrs))

  unfoldable pub network_routes : G.World → Called (List Route)
  network_routes w = then_reply (replied [] (G.network_info [] w)) (λ info. ok info.routes)

  unfoldable pub network_links : G.World → Called (List Link)
  unfolding links_with
  network_links w =
      then_reply (replied [] (G.network_info [] w)) (λ info. ok (links_with info.addrs info.links))

  -- `Time`, without the message: what `fn` does to the world, and the time that passes.
  unfoldable pub time : (G.World → G.World) → G.World → ℕ × G.World
  time fn w = let w' = fn w in (G.now w' - G.now w, w')

-- `ForwardedPort`, of a machine with or without a virtual machine
unfoldable pub forwarded_port : Option (ℤ → ℤ) → ℤ → ℤ
forwarded_port none port = pos 0
forwarded_port (some forwarded) port = forwarded port
