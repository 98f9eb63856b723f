-- ===== src/Transport/Guard.antt =====
-- Play never starts another project than the one that the tab shows.
use daw_project.Common.{
  ℕ, ◌≡◌, refl, ◌∙◌, String, Bool, false, ◌&&◌, ◌||◌, not, Option, none, some, List, [], ◌∷◌, arith,
  if◌then◌else◌, str_eq,
}
use daw_project.Protocol.{
  Payloads, Codec, EncodeMessage, TransportAction, DecodedMessage, encode_message, decode_message,
}
use daw_project.ServerClient.{is_open}
use daw_project.EngineClient.{
  EngineClient, given, send, transport_data, set_token, set_from_token_file, schedule_reconnect,
  connect, socket_opens, socket_closes, fresh_token, token_arrives, socket_fails, reconnect_fires,
  disconnect,
}
use daw_project.EngineClient.Commands.{
  play, seek, send_transport, send_message, set_monitor, dispatch, dispatch_decoded, handle_message,
}
use daw_project.EngineClient.Events.{
  Event, sets_token, reads_token, connects, opens, closes, token_comes, fails, timer, disconnects,
  commands, monitors, message, handle, run,
}
use daw_project.TransportSync.{Surroundings}
use daw_project.Transport.{Deck, marker_sample, started, start_playback}

module _ {P : Payloads} (codec : Codec P) where
  -- The project that a message names.
  abbrev named : Option (DecodedMessage P) → Option String
  named (some (DecodedMessage.state e)) = some (P.project_id e)
  named _ = none

  abbrev report : Event → Option String
  report (message bytes) = named (decode_message codec bytes)
  report _ = none

  abbrev newer : Option String → String → String
  newer none old = old
  newer (some id) old = if given id then id else old

  -- The last project that the engine named, or else the one from before.
  abbrev pub last_report : List Event → String → String
  last_report [] old = old
  last_report (e ∷ es) old = last_report es (newer (report e) old)

  decoded-project :
      (m : Option (DecodedMessage P)) (s : EngineClient)
      → (dispatch_decoded codec m s).0.engine_project ≡ newer (named m) s.engine_project
  unfolding dispatch_decoded dispatch
  decoded-project m s = ground arith

  closes-project :
      (has_refresher : Bool) (code : ℕ) (s : EngineClient)
      → (socket_closes {P = P} has_refresher code s).0.engine_project ≡ s.engine_project
  unfolding socket_closes schedule_reconnect
  closes-project has_refresher code s = ground arith

  token-project :
      (made : Bool) (t : Option String) (s : EngineClient)
      → (token_arrives {P = P} made t s).0.engine_project ≡ s.engine_project
  unfolding token_arrives fresh_token schedule_reconnect connect
  token-project made t s = ground arith

  handle-project :
      (e : Event) (s : EngineClient)
      → (handle codec e s).0.engine_project ≡ newer (report e) s.engine_project
  unfolding handle set_token set_from_token_file connect socket_opens socket_fails reconnect_fires
      send_message schedule_reconnect handle_message disconnect set_monitor
  handle-project (sets_token t) s = refl
  handle-project (reads_token none) s = refl
  handle-project (reads_token (some f)) s = refl
  handle-project (connects made) s = ground arith
  handle-project opens s = refl
  handle-project (closes has_refresher code) s = closes-project has_refresher code s
  handle-project (token_comes made t) s = token-project made t s
  handle-project fails s = refl
  handle-project (timer made) s = ground arith
  handle-project disconnects s = refl
  handle-project (commands m) s = refl
  handle-project (monitors track solo mute) s = refl
  handle-project (message bytes) s =
      decoded-project (decode_message codec bytes) (record s { refreshed_once = false })

  run-project :
      (events : List Event) (s : EngineClient)
      → (run codec events s).0.engine_project ≡ last_report events s.engine_project
  unfolding run
  run-project [] s = refl
  run-project (e ∷ es) s = run-project es (handle codec e s).0 ∙ rw (handle-project e s) refl

  -- A call of play after any events of the engine connection. It sends a seek to the marker and then a
  -- play where the connection is open, no jam is listened to, and the last project that the engine
  -- named, where it named one, is the one that the tab shows; else it sends nothing.
  pub start_playback-run :
      (env : Surroundings) (deck : Deck) (events : List Event) (s : EngineClient)
      → deck.engine ≡ some (run codec events s).0
      → (start_playback codec env deck).1.0 ≡ (
          if is_open (run codec events s).0.socket
            && (not deck.jam_listening
                && (not (given (last_report events s.engine_project))
                    || str_eq (last_report events s.engine_project) deck.project_id))
          then send (
              encode_message codec (
                EncodeMessage.transport (record (transport_data TransportAction.seek) {
                  seek_position = some (marker_sample deck);
                })))
            ∷ send (
                encode_message codec
                  (EncodeMessage.transport (transport_data TransportAction.play)))
            ∷ []
          else [])
  unfolding start_playback started play seek send_transport send_message
  start_playback-run env deck events s h =
      rw (h, start_playback, run-project events s) (ground arith)
