-- ===== src/Transport.antt =====
-- Play and stop, web/src/app/transport.ts: what they send to the engine and what they publish to the
-- peers. The flash of a refused button is left out.
pub mod Guard
use daw_project.Common.{
  ℕ, String, Bool, true, false, ◌&&◌, ◌||◌, ◌==◌, not, Option, none, some, List, [], ◌∷◌, ◌++◌,
  if◌then◌else◌, str_eq,
}
use daw_project.Common.Int.{pos, ◌*ℤ◌}
use daw_project.Num.{Num, num, round_num, max_num}
use daw_project.Protocol.{Payloads, Codec}
use daw_project.ServerClient.{is_open}
use daw_project.EngineClient.{EngineClient, given}
use daw_project.EngineClient as Engine
use daw_project.EngineClient.Commands.{play, stop, seek}
use daw_project.TransportSync.{SyncState, Surroundings, publish}
use daw_project.TransportSync as Sync

-- What the two functions read and write of the context. A rate of 0 is a project that is not there.
pub record Deck : Type 0 where
  pub engine : Option EngineClient
  pub sync : Option SyncState
  pub project_id : String
  pub jam_listening : Bool
  pub follow_paused : Bool
  pub sample_rate : ℕ
  pub insert_marker_sec : Num
  pub last_playhead_sec : Num

-- The context after a call, the frames to the engine and the messages to the peers.
abbrev pub Result : Payloads → Type 0
Result P = Deck × (List (Engine.Effect P) × List Sync.Effect)

-- `transportRefusedByProjectGuard`
abbrev pub is_refused : EngineClient → Deck → Bool
is_refused e deck = given e.engine_project && not (str_eq e.engine_project deck.project_id)

-- Math.round(insertMarkerSec * sr)
abbrev pub marker_sample : Deck → Num
marker_sample deck =
    round_num
      (deck.insert_marker_sec *ℤ pos (if deck.sample_rate == 0 then 48000 else deck.sample_rate))

-- `ctx.transportSync?.publish(playing, posSec)`
unfoldable pub publish_to : Surroundings → Bool → Num → Deck → Deck × List Sync.Effect
publish_to env playing pos_sec deck = elim deck.sync [
  | none ↦ (deck, [])
  | some s ↦
      let (next, sent) = publish env playing pos_sec s in (record deck { sync = some next }, sent)
]

module _ {P : Payloads} (codec : Codec P) where
  started : Surroundings → EngineClient → Deck → Result P
  started env e deck =
      let (next, sent) = publish_to env true deck.insert_marker_sec deck in
      (
        record next { follow_paused = false },
        ((seek codec (marker_sample deck) e).1 ++ (play codec e).1, sent),
      )

  unfoldable pub start_playback : Surroundings → Deck → Result P
  unfolding started
  start_playback env deck = elim deck.engine [
    | none ↦ (deck, ([], []))
    | some e ↦
        if is_open e.socket && (not deck.jam_listening && not (is_refused e deck))
        then started env e deck
        else (deck, ([], []))
  ]

  -- The first stop halts, the next one goes back to the marker.
  stopped : Surroundings → EngineClient → Deck → Result P
  stopped env e deck =
      if e.last_playing
      then (let (next, sent) = publish_to env false (max_num (num 0) deck.last_playhead_sec) deck in
          (next, ((stop codec e).1, sent)))
      else (let (next, sent) = publish_to env false deck.insert_marker_sec deck in
          (next, ((seek codec (marker_sample deck) e).1, sent)))

  unfoldable pub stop_playback : Surroundings → Deck → Result P
  unfolding stopped
  stop_playback env deck = elim deck.engine [
    | none ↦ (deck, ([], []))
    | some e ↦ if is_open e.socket then stopped env e deck else (deck, ([], []))
  ]
