-- ===== src/Jam.antt =====
-- Class `JamChannel`, web/src/network/jam.ts: the roles of a tab, its connections and data channels, its timers
-- and its calls. A connection of the browser is the number that it was made as; what the browser reports of it
-- is an argument, and what is asked of it an effect. `rtcStats`, a probe, is left out.
pub mod Signals
pub mod Events
pub mod Counts
mod Steps
mod Balance
pub mod Rest
pub mod Tidy
pub mod Meeting
pub mod Handshake
use daw_project.Common.{
  ℕ, suc, ◌+◌, ◌==◌, String, Bool, true, false, ◌&&◌, not, Option, none, some, List, [], ◌∷◌, ◌++◌,
  if◌then◌else◌,
}
use daw_project.Common.Dict.{lookup, insert}
use daw_project.Num.{Num}
use daw_project.Schema.{Name}

pub data JamRole : Type 0 where
  idle broadcasting listening : JamRole

-- `other` is a kind that the code does not know.
pub data Kind : Type 0 where
  offer answer ice bye other : Kind

-- A session description or a candidate is opaque text.
pub record SignalMsg : Type 0 where
  pub jam : Bool
  pub from : String
  pub to : Option String
  pub kind : Kind
  pub sdp : Option Name
  pub candidate : Option Name

-- `takes_channels`: `ondatachannel` is set.
pub record Connection : Type 0 where
  pub pc : ℕ
  pub takes_channels : Bool

-- The channel of a connection that the tab made itself, or one that came from the peer.
pub record Channel : Type 0 where
  pub pc : ℕ
  pub number : Option ℕ

pub data PingMsg : Type 0 where
  ping pong : Num → PingMsg
  other : PingMsg

pub data Effect : Type 0 where
  send : SignalMsg → Effect
  make : ℕ → Effect
  close : ℕ → Effect
  create_channel : ℕ → Effect
  add_tracks : ℕ → Effect
  create_offer create_answer : ℕ → Effect
  set_local set_remote : ℕ → Kind → Name → Effect
  add_candidate : ℕ → Name → Effect
  write : Channel → PingMsg → Effect
  state_change warn : Effect
  remote_track : ℕ → Effect

-- A handler that waits for a promise: of createOffer or createAnswer, of the local description to be sent then, of
-- the offer, or of a call after which it ends.
pub data Task : Type 0 where
  offering answering accepting : ℕ → String → Task
  describing : String → Kind → Name → Task
  ending : Task

pub record Jam : Type 0 where
  pub role : JamRole
  pub peers : List (String × Connection)
  pub channels : List (String × Channel)
  pub latency_ms : List (String × Num)
  pub ping_timer : Bool
  pub join_retry_timer : Bool
  pub waiting : List Task
  pub made : ℕ

abbrev pub new_jam : Jam
new_jam = record {
  role = idle;
  peers = [];
  channels = [];
  latency_ms = [];
  ping_timer = false;
  join_retry_timer = false;
  waiting = [];
  made = 0;
}

-- What the browser reports: connectionState 'connected' and readyState 'open'; and whether there is a stream.
pub record Browser : Type 0 where
  pub is_connected : ℕ → Bool
  pub is_open : Channel → Bool
  pub has_stream : Bool

abbrev pub is_idle : JamRole → Bool
is_idle r = elim r [ idle ↦ true | _ ↦ false ]

abbrev pub is_broadcasting : JamRole → Bool
is_broadcasting r = elim r [ broadcasting ↦ true | _ ↦ false ]

abbrev pub is_listening : JamRole → Bool
is_listening r = elim r [ listening ↦ true | _ ↦ false ]

abbrev pub join_request : String → SignalMsg
join_request own = record {
  jam = true;
  from = own;
  to = none;
  kind = offer;
  sdp = none;
  candidate = none;
}

abbrev pub bye_signal : String → SignalMsg
bye_signal own = record (join_request own) { kind = bye }

-- Directed, with a description.
abbrev pub described : String → String → Kind → Name → SignalMsg
described own to kind sdp = record (join_request own) { to = some to; kind = kind; sdp = some sdp }

unfoldable pub peer_count : Browser → List (String × Connection) → ℕ
peer_count b [] = 0
peer_count b ((k, c) ∷ m) = let n = peer_count b m in if b.is_connected c.pc then suc n else n

unfoldable pub start_broadcast : String → Jam → Jam × List Effect
start_broadcast own s = if not (is_idle s.role) then (s, []) else (
  record s { role = broadcasting },
  state_change ∷ send (bye_signal own) ∷ send (join_request own) ∷ [],
)

unfoldable pub start_listen : String → Jam → Jam × List Effect
start_listen own s = if not (is_idle s.role) then (s, []) else (
  record s { role = listening; join_retry_timer = true },
  state_change ∷ send (join_request own) ∷ [],
)

-- Also the callback of the retry timer.
unfoldable pub reassert : String → Browser → Jam → Jam × List Effect
reassert own b s = (
  s,
  if is_listening s.role && peer_count b s.peers == 0 then send (join_request own) ∷ [] else [],
)

unfoldable pub close_all : List (String × Connection) → List Effect
close_all [] = state_change ∷ []
close_all ((k, c) ∷ m) = close c.pc ∷ close_all m

unfoldable pub stop : String → Jam → Jam × List Effect
stop own s = (
  record s {
    role = idle;
    peers = [];
    channels = [];
    latency_ms = [];
    ping_timer = false;
    join_retry_timer = false;
  },
  send (bye_signal own) ∷ close_all s.peers,
)

abbrev pub close_old : Option Connection → List Effect
close_old none = []
close_old (some c) = close c.pc ∷ []

-- A new connection to the peer, in the place of an old one; its number is that of the ones made before.
unfoldable pub new_peer : String → Bool → Jam → Jam × List Effect
new_peer peer takes s = (
  record s {
    peers = insert peer (record { pc = s.made; takes_channels = takes }) s.peers;
    made = suc s.made;
  },
  make s.made ∷ close_old (lookup peer s.peers),
)
