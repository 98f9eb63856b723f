-- ===== src/EngineClient/Events.antt =====
-- What happens to an engine client, one after the other.
use daw_project.Common.{ℕ, String, Bool, Option, List, [], ◌∷◌, ◌++◌}
use daw_project.Protocol.{EncodeMessage, Payloads, Codec}
use daw_project.EngineClient.{
  EngineClient, Effect, TokenFile, set_token, set_from_token_file, connect, socket_opens,
  socket_closes, token_arrives, socket_fails, reconnect_fires, disconnect,
}
use daw_project.EngineClient.Commands.{send_message, set_monitor, handle_message}

-- The flag of a call that makes a socket says whether the browser makes it.
-- `commands` are the calls that only send: transport, tap, editor, launcher, render, project.
pub data Event : Type 0 where
  sets_token : String → Event
  reads_token : Option TokenFile → Event
  connects : Bool → Event
  opens : Event
  closes : Bool → ℕ → Event
  token_comes : Bool → Option String → Event
  fails : Event
  timer : Bool → Event
  disconnects : Event
  commands : EncodeMessage → Event
  monitors : String → Option Bool → Option Bool → Event
  message : List ℕ → Event

module _ {P : Payloads} (codec : Codec P) where
  unfoldable pub handle : Event → EngineClient → EngineClient × List (Effect P)
  handle (sets_token t) s = (set_token t s, [])
  handle (reads_token f) s = (set_from_token_file f s, [])
  handle (connects made) s = connect made s
  handle opens s = socket_opens s
  handle (closes has_refresher code) s = socket_closes has_refresher code s
  handle (token_comes made t) s = token_arrives made t s
  handle fails s = socket_fails s
  handle (timer made) s = reconnect_fires made s
  handle disconnects s = disconnect s
  handle (commands m) s = send_message codec m s
  handle (monitors id solo mute) s = set_monitor codec id solo mute s
  handle (message bytes) s = handle_message codec bytes s

  -- The state after the events, and all that went out.
  unfoldable pub run : List Event → EngineClient → EngineClient × List (Effect P)
  unfolding handle
  run [] s = (s, [])
  run (e ∷ es) s =
      let first = handle e s in let rest = run es first.0 in (rest.0, first.1 ++ rest.1)
