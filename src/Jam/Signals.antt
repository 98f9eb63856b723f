-- ===== src/Jam/Signals.antt =====
-- `handleSignal`: what a signal of the relay does, up to the first promise that it waits for, and from there.
use daw_project.Common.{
  ℕ, ◌==◌, String, Bool, true, false, ◌&&◌, ◌||◌, not, Option, none, some, List, [], ◌∷◌, ◌++◌,
  if◌then◌else◌, str_eq,
}
use daw_project.Common.Dict.{lookup, insert, remove}
use daw_project.Schema.{Name, or_else}
use daw_project.Jam.{
  Kind, offer, answer, ice, bye, other, SignalMsg, Connection, Effect, send, create_channel,
  add_tracks, create_offer, create_answer, set_local, set_remote, add_candidate, state_change, warn,
  Task, offering, answering, accepting, describing, ending, Jam, Browser, is_broadcasting,
  is_listening, join_request, described, peer_count, close_old, new_peer,
}

-- A text that is there and not empty.
abbrev pub truthy : Option Name → Option Name
truthy none = none
truthy (some []) = none
truthy (some (c ∷ cs)) = some (c ∷ cs)

abbrev pub is_directed : Option String → Bool
is_directed none = false
is_directed (some to) = not (str_eq to "")

abbrev pub is_connected_peer : Browser → Option Connection → Bool
is_connected_peer b none = false
is_connected_peer b (some c) = b.is_connected c.pc

abbrev pub is_peer : Option Connection → Bool
is_peer none = false
is_peer (some c) = true

-- A broadcaster connects the peer, and waits for the offer.
unfoldable pub offer_to : Browser → String → Jam → Jam × List Effect
offer_to b from s =
    let (t, effects) = new_peer from false s in
    (
      record t {
        channels = insert from (record { pc = s.made; number = none }) t.channels;
        waiting = t.waiting ++ offering s.made from ∷ [];
      },
      effects
          ++ create_channel s.made
            ∷ ((if b.has_stream then add_tracks s.made ∷ [] else []) ++ create_offer s.made ∷ []),
    )

-- An offer without a description: a listener asks, or a broadcaster announces itself.
unfoldable pub asked : String → Browser → SignalMsg → Jam → Jam × List Effect
asked own b m s =
    if is_listening s.role
      && (not (is_directed m.to)
          && (peer_count b s.peers == 0 && not (is_peer (lookup m.from s.peers))))
    then (s, send (join_request own) ∷ [])
    else if not (is_broadcasting s.role) || is_connected_peer b (lookup m.from s.peers)
    then (s, [])
    else offer_to b m.from s

-- The offer of the broadcaster.
unfoldable pub offered : String → Name → Jam → Jam × List Effect
offered from sdp s =
    let (t, effects) = new_peer from true s in
    if is_listening s.role
    then (
      record t { waiting = t.waiting ++ accepting s.made from ∷ [] },
      effects ++ set_remote s.made offer sdp ∷ [],
    )
    else (s, [])

unfoldable pub answered : Option Connection → Option Name → Jam → Jam × List Effect
answered (some c) (some sdp) s =
    (record s { waiting = s.waiting ++ ending ∷ [] }, set_remote c.pc answer sdp ∷ [])
answered _ _ s = (s, [])

unfoldable pub iced : Option Connection → Option Name → Jam → Jam × List Effect
iced (some c) (some candidate) s =
    (record s { waiting = s.waiting ++ ending ∷ [] }, add_candidate c.pc candidate ∷ [])
iced _ _ s = (s, [])

unfoldable pub left : String → Jam → Jam × List Effect
left from s = (
  record s {
    peers = remove from s.peers;
    channels = remove from s.channels;
    latency_ms = remove from s.latency_ms;
  },
  close_old (lookup from s.peers) ++ state_change ∷ [],
)

-- By the description, where there is one.
unfoldable pub offer_heard : String → Browser → SignalMsg → Option Name → Jam → Jam × List Effect
offer_heard own b m none s = asked own b m s
offer_heard own b m (some sdp) s = offered m.from sdp s

unfoldable pub heard : String → Browser → SignalMsg → Kind → Jam → Jam × List Effect
heard own b m offer s = offer_heard own b m (truthy m.sdp) s
heard own b m answer s = answered (lookup m.from s.peers) (truthy m.sdp) s
heard own b m ice s = iced (lookup m.from s.peers) m.candidate s
heard own b m bye s = left m.from s
heard own b m other s = (s, [])

abbrev pub is_for : String → SignalMsg → Bool
is_for own m =
    m.jam && (not (str_eq m.from own) && (not (is_directed m.to) || str_eq (or_else m.to "") own))

unfoldable pub handle_signal : String → Browser → SignalMsg → Jam → Jam × List Effect
handle_signal own b m s = if is_for own m then heard own b m m.kind s else (s, [])

-- How a promise settles: with a description where it is of one.
pub data Outcome : Type 0 where
  resolved : Option Name → Outcome
  rejected : Outcome

-- The handler goes on, to its next promise or to its end.
unfoldable pub resume : String → Task → Outcome → List Task × List Effect
resume own t rejected = ([], warn ∷ state_change ∷ [])
resume own (offering pc to) (resolved sdp) =
    (describing to offer (or_else sdp []) ∷ [], set_local pc offer (or_else sdp []) ∷ [])
resume own (accepting pc to) (resolved sdp) = (answering pc to ∷ [], create_answer pc ∷ [])
resume own (answering pc to) (resolved sdp) =
    (describing to answer (or_else sdp []) ∷ [], set_local pc answer (or_else sdp []) ∷ [])
resume own (describing to kind sdp) (resolved _) = ([], send (described own to kind sdp) ∷ [])
resume own ending (resolved _) = ([], [])

-- The promise of the handler that waits at this place; without one nothing happens.
unfoldable pub settle : String → ℕ → Outcome → List Task → List Task × List Effect
settle own i o [] = ([], [])
settle own ℕ.zero o (t ∷ ts) = let (more, effects) = resume own t o in (ts ++ more, effects)
settle own (ℕ.suc i) o (t ∷ ts) = let (rest, effects) = settle own i o ts in (t ∷ rest, effects)
