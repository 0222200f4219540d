-- ===== src/Machine/Guest.antt =====
-- What `machine/machine.go` uses of the agent connection, of the clock and of regular expressions, as
-- an interface: the agent is a library outside the repository. A duration and a point in time are
-- numbers of nanoseconds.
use rules_vmtest.Base.{ℕ, ◌+◌, ◌≤◌, Bool, List, Option, ℤ, Text, Result}

-- The fields of the agent's replies that the code reads.
pub record ExecResponse : Type 0 where
  pub stdout : Text
  pub stderr : Text
  pub exit_code : ℤ

pub record UnitStatus : Type 0 where
  pub active_state : Text
  pub sub_state : Text

pub record FileStat : Type 0 where
  pub exists : Bool
  pub size : ℤ

pub record HttpResponse : Type 0 where
  pub status_code : ℤ
  pub body : Text

pub record Address : Type 0 where
  pub interface : Text
  pub address : Text

pub record LinkEntry : Type 0 where
  pub name : Text
  pub state : Text
  pub mtu : ℤ

pub record Route : Type 0 where
  pub destination : Text
  pub gateway : Text
  pub interface : Text

pub record NetworkInfo : Type 0 where
  pub addrs : List Address
  pub routes : List Route
  pub links : List LinkEntry

pub record ProcessInfo : Type 0 where
  pub pid : ℤ
  pub uid : ℤ
  pub gid : ℤ
  pub cmdline : Text
  pub state : Text

-- A call takes the world, the guest and the clock included, and gives its reply with the world
-- behind it. `exec` takes the time limit of its context, `regexp` fails on a malformed pattern.
pub record Guest : Type 1 where
  pub World : Type 0
  pub Error : Type 0
  pub now : World → ℕ
  pub sleep : ℕ → World → World
  pub exec : Text → ℕ → World → Result Error ExecResponse × World
  pub background : List Text → World → Option Error × World
  pub unit_status : Text → World → Result Error UnitStatus × World
  pub check_port : ℤ → World → Result Error Bool × World
  pub listen : ℤ → World → Option Error × World
  pub stat : Text → World → Result Error FileStat × World
  pub read_file : Text → World → Result Error Text × World
  pub write_file : Text → Text → World → Option Error × World
  pub file_hash : Text → Text → World → Result Error Text × World
  pub http_get : Text → World → Result Error HttpResponse × World
  pub journal_lines : Text → ℤ → Text → World → Result Error (List Text) × World
  pub find_processes : Text → World → Result Error (List ProcessInfo) × World
  pub network_info : Text → World → Result Error NetworkInfo × World
  pub regexp : Text → Option (Text → Bool)

-- The clock does not run backwards during the calls of the polling loops, and a sleep lasts at least
-- as long as it was asked to.
pub record IsTimely (G : Guest) : Type 0 where
  pub sleep_long : (d : ℕ) (w : G.World) → G.now w + d ≤ G.now (G.sleep d w)
  pub exec_later : (cmd : Text) (d : ℕ) (w : G.World) → G.now w ≤ G.now (G.exec cmd d w).1
  pub unit_status_later : (unit : Text) (w : G.World) → G.now w ≤ G.now (G.unit_status unit w).1
  pub check_port_later : (port : ℤ) (w : G.World) → G.now w ≤ G.now (G.check_port port w).1
  pub stat_later : (path : Text) (w : G.World) → G.now w ≤ G.now (G.stat path w).1
  pub http_get_later : (url : Text) (w : G.World) → G.now w ≤ G.now (G.http_get url w).1
  pub journal_lines_later :
      (unit : Text) (lines : ℤ) (since : Text) (w : G.World)
      → G.now w ≤ G.now (G.journal_lines unit lines since w).1
