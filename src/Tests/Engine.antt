-- ===== src/Tests/Engine.antt =====
-- Instances of the theorems on the engine client at concrete inputs.
use daw_project.Common.{◌+◌, ◌≤◌, ◌≡◌, refl, true, false, none, some, List, [], ◌∷◌}
use daw_project.Schema.{or_else}
use daw_project.Protocol.{EncodeMessage, encode_message, decode_message}
use daw_project.ServerClient.{ReadyState}
use daw_project.EngineClient.{EngineClient, send}
use daw_project.EngineClient.Commands.{set_monitor, handle_message}
use daw_project.EngineClient.Events.{
  Event, opens, closes, token_comes, timer, monitors, message, run,
}
use daw_project.EngineClient.Refresh.{asks, given_back, asks-run}
use daw_project.EngineClient.Alive.{is_alive, run-alive}
use daw_project.EngineClient.SoloMute.{last_solo, last_mute, kept, set_monitor-run}
use daw_project.Tests.Network.{positions}

abbrev pub client : EngineClient
client = record {
  socket = some ReadyState.opened;
  address = "127.0.0.1";
  port = 47821;
  token = "old";
  reconnecting = false;
  refreshed_once = false;
  refreshing = false;
  sample_rate = 48000;
  monitor_state = [];
  last_playing = false;
  engine_project = "";
}

-- Two refusals of the token, with a new token and the timer in between.
abbrev refusals : List Event
refusals =
    closes true 4001
    ∷ token_comes true (some "new")
    ∷ opens
    ∷ closes true 4001
    ∷ timer true
    ∷ opens
    ∷ closes true 4001
    ∷ []

abbrev pub mixed : List Event
mixed =
    monitors "a" (some true) none
    ∷ message (0 ∷ [])
    ∷ monitors "b" none (some true)
    ∷ monitors "a" none (some true)
    ∷ []

asks-run_example : asks (run positions refusals client).1 ≤ 1 + given_back refusals
asks-run_example = asks-run positions refusals client

run-alive_example : is_alive (run positions refusals client).0 ≡ true
run-alive_example = run-alive positions refusals client refl refl

set_monitor-run_example :
    (set_monitor positions "a" (some false) none (run positions mixed client).0).1
    ≡ send (
        encode_message positions (
          EncodeMessage.set_monitor "a"
            (or_else (some false) (or_else (last_solo "a" mixed) (kept "a" client).solo))
            (or_else none (or_else (last_mute "a" mixed) (kept "a" client).mute))))
      ∷ []
unfolding run set_monitor handle_message decode_message
set_monitor-run_example = set_monitor-run positions "a" (some false) none mixed client refl
