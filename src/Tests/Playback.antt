-- ===== src/Tests/Playback.antt =====
-- An instance of the theorem on play at a concrete context.
use daw_project.Common.{
  ◌≡◌, refl, true, false, ◌&&◌, ◌||◌, not, none, some, [], ◌∷◌, if◌then◌else◌, str_eq,
}
use daw_project.Num.{num}
use daw_project.Protocol.{EncodeMessage, TransportAction, encode_message}
use daw_project.ServerClient.{is_open}
use daw_project.EngineClient.{given, send, transport_data}
use daw_project.EngineClient.Events.{run}
use daw_project.TransportSync.{Surroundings}
use daw_project.Transport.{Deck, marker_sample, start_playback}
use daw_project.Transport.Guard.{last_report, start_playback-run}
use daw_project.Tests.Network.{positions}
use daw_project.Tests.Engine.{client, mixed}

abbrev env : Surroundings
env = record { id = []; now = num 5; offset_of = λ peer. none; suspended = false; live = none }

abbrev deck : Deck
deck = record {
  engine = some (run positions mixed client).0;
  sync = none;
  project_id = "song";
  jam_listening = false;
  follow_paused = true;
  sample_rate = 48000;
  insert_marker_sec = num 2;
  last_playhead_sec = num 0;
}

start_playback-run_example : (start_playback positions env deck).1.0 ≡ (
    if is_open (run positions mixed client).0.socket
      && (not false
          && (not (given (last_report positions mixed ""))
              || str_eq (last_report positions mixed "") "song"))
    then send (
        encode_message positions (
          EncodeMessage.transport (record (transport_data TransportAction.seek) {
            seek_position = some (marker_sample deck);
          })))
      ∷ send
          (encode_message positions (EncodeMessage.transport (transport_data TransportAction.play)))
      ∷ []
    else [])
start_playback-run_example = start_playback-run positions env deck mixed client refl
