-- ===== src/Jam/Events.antt =====
-- What happens to the jam of a tab, one event after the other. A connection that was closed fires no event, as
-- the browser documents; one that is open is the one kept for its peer.
use daw_project.Common.{
  ℕ, ◌==◌, String, Bool, true, false, ◌&&◌, Option, none, some, List, [], ◌∷◌, ◌++◌, if◌then◌else◌,
}
use daw_project.Common.Int.{◌-ℤ◌}
use daw_project.Common.Dict.{lookup, insert}
use daw_project.Num.{Num, round_num}
use daw_project.Schema.{Name}
use daw_project.Jam.{
  SignalMsg, ice, Connection, Channel, PingMsg, ping, pong, Effect, send, write, state_change,
  remote_track, Jam, Browser, join_request, start_broadcast, start_listen, reassert, stop,
}
use daw_project.Jam.Signals.{handle_signal, Outcome, settle}

pub data Event : Type 0 where
  signal : SignalMsg → Event
  starts_broadcast starts_listen reasserts stops retry_fires : Event
  settles : ℕ → Outcome → Event
  candidate_found : String → ℕ → Option Name → Event
  connection_changes : String → ℕ → Event
  track_arrives : String → ℕ → Bool → Event
  channel_arrives : String → ℕ → ℕ → Event
  channel_opens : String → Channel → Event
  message_arrives : String → Channel → Num → PingMsg → Event
  ping_fires : Num → Event

-- The connection is the one kept for the peer.
abbrev pub is_live : Option Connection → ℕ → Bool
is_live none pc = false
is_live (some c) pc = c.pc == pc

abbrev pub takes : Option Connection → Bool
takes none = false
takes (some c) = c.takes_channels

-- On an open channel.
unfoldable pub message : String → Channel → Num → PingMsg → Jam → Jam × List Effect
message peer ch now (ping t) s = (s, write ch (pong t) ∷ [])
message peer ch now (pong t) s =
    (record s { latency_ms = insert peer (round_num (now -ℤ t)) s.latency_ms }, state_change ∷ [])
message peer ch now PingMsg.other s = (s, [])

unfoldable pub pings : Browser → Num → List (String × Channel) → List Effect
pings b now [] = []
pings b now ((k, ch) ∷ m) =
    let rest = pings b now m in if b.is_open ch then write ch (ping now) ∷ rest else rest

unfoldable pub handle : String → Browser → Event → Jam → Jam × List Effect
handle own b (signal m) s = handle_signal own b m s
handle own b starts_broadcast s = start_broadcast own s
handle own b starts_listen s = start_listen own s
handle own b reasserts s = reassert own b s
handle own b stops s = stop own s
handle own b retry_fires s = if s.join_retry_timer then reassert own b s else (s, [])
handle own b (settles i o) s =
    let (waiting, effects) = settle own i o s.waiting in (record s { waiting = waiting }, effects)
handle own b (candidate_found peer pc none) s = (s, [])
handle own b (candidate_found peer pc (some c)) s =
    if is_live (lookup peer s.peers) pc
    then (
      s,
      send (record (join_request own) { to = some peer; kind = ice; candidate = some c }) ∷ [],
    )
    else (s, [])
handle own b (connection_changes peer pc) s =
    if is_live (lookup peer s.peers) pc then (s, state_change ∷ []) else (s, [])
handle own b (track_arrives peer pc has_stream) s =
    if is_live (lookup peer s.peers) pc && has_stream then (s, remote_track pc ∷ []) else (s, [])
handle own b (channel_arrives peer pc n) s =
    if is_live (lookup peer s.peers) pc && takes (lookup peer s.peers)
    then (record s { channels = insert peer (record { pc = pc; number = some n }) s.channels }, [])
    else (s, [])
handle own b (channel_opens peer ch) s =
    if is_live (lookup peer s.peers) ch.pc then (record s { ping_timer = true }, []) else (s, [])
handle own b (message_arrives peer ch now m) s =
    let reply = message peer ch now m s in
    if is_live (lookup peer s.peers) ch.pc then reply else (s, [])
handle own b (ping_fires now) s = if s.ping_timer then (s, pings b now s.channels) else (s, [])

-- The browser reports anew at every event.
unfoldable pub run : String → List (Browser × Event) → Jam → Jam × List Effect
run own [] s = (s, [])
run own ((b, e) ∷ es) s =
    let (t, effects) = handle own b e s in let (u, later) = run own es t in (u, effects ++ later)
