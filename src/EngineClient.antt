-- ===== src/EngineClient.antt =====
-- Class `EngineClient`, web/src/network/engine_client.ts: the connection to the local audio engine,
-- the solo and mute that were last sent, and what the engine last reported. The protobuf codec is a
-- parameter; of its messages this class reads the fields that `Protocol` names.
pub mod Commands
pub mod Events
pub mod Refresh
pub mod Alive
pub mod SoloMute
use daw_project.Common.{
  ℕ, String, Bool, true, false, ◌&&◌, ◌||◌, ◌==◌, not, Option, none, some, List, [], ◌∷◌, ltb,
  if◌then◌else◌, str_eq,
}
use mathlib.Core.Option
use daw_project.Num.{Num, num}
use daw_project.Schema.{or_else}
use daw_project.Protocol.{
  TransportAction, TransportData, EncodeMessage, Payloads, Codec, DecodedMessage, TransportPosition,
  encode_message, decode_message,
}
use daw_project.ServerClient.{ReadyState, is_open}

pub record Monitor : Type 0 where
  pub solo : Bool
  pub mute : Bool

-- `refreshing`: the close handler waits for the token that it asked for. Of the map the newest entry
-- stands first.
pub record EngineClient : Type 0 where
  pub socket : Option ReadyState
  pub address : String
  pub port : ℕ
  pub token : String
  pub reconnecting : Bool
  pub refreshed_once : Bool
  pub refreshing : Bool
  pub sample_rate : ℕ
  pub monitor_state : List (String × Monitor)
  pub last_playing : Bool
  pub engine_project : String

-- The token file as `JSON.parse` gives it: the fields that are there.
pub record TokenFile : Type 0 where
  pub token : Option String
  pub port : Option ℕ
  pub address : Option String

-- What leaves the object: frames, calls of the browser and callbacks.
pub data Effect (P : Payloads) : Type 0 where
  open_socket : String → ℕ → Effect P
  close_socket ask_token on_connect on_disconnect : Effect P
  send_auth : String → Effect P
  send : List ℕ → Effect P
  on_position : Num → ℕ → Effect P
  on_meters : P.Meters → Effect P
  on_state : P.EngineState → Effect P
  on_audio_tap : P.AudioTap → Effect P
  on_plugin_catalog : P.PluginCatalog → Effect P
  on_session_state : P.SessionState → Effect P
  on_render_state : P.RenderState → Effect P
  on_error : String → Effect P

-- A text that counts as true.
abbrev pub given : String → Bool
given s = not (str_eq s "")

-- A text that is there and not empty, or else the old one.
or_old : Option String → String → String
or_old none old = old
or_old (some s) old = if given s then s else old

or_old_port : Option ℕ → ℕ → ℕ
or_old_port none old = old
or_old_port (some n) old = if n == 0 then old else n

unfoldable pub set_token : String → EngineClient → EngineClient
set_token token s = record s { token = token }

-- `none` is a content that does not parse.
unfoldable pub set_from_token_file : Option TokenFile → EngineClient → EngineClient
unfolding or_old or_old_port
set_from_token_file none s = s
set_from_token_file (some f) s = record s {
  token = or_old f.token s.token;
  port = or_old_port f.port s.port;
  address = or_old f.address s.address;
}

unfoldable pub schedule_reconnect : EngineClient → EngineClient
schedule_reconnect s = record s { reconnecting = true }

-- `monitorState.get(id)`
unfoldable pub get_monitor : String → List (String × Monitor) → Option Monitor
get_monitor id [] = none
get_monitor id ((key, m) ∷ rest) = if str_eq key id then some m else get_monitor id rest

abbrev silent : Monitor
silent = record { solo = false; mute = false }

-- The state that a call asks for: what it leaves out stays.
unfoldable pub next_monitor : String → Option Bool → Option Bool → EngineClient → Monitor
next_monitor track_id solo mute s =
    let prev = or_else (get_monitor track_id s.monitor_state) silent in
    record { solo = or_else solo prev.solo; mute = or_else mute prev.mute }

abbrev pub transport_data : TransportAction → TransportData
transport_data action = record {
  action = action;
  seek_position = none;
  loop_enabled = none;
  set_region = none;
  loop_start = none;
  loop_end = none;
  clear_region = none;
}

abbrev pub Reply : Payloads → Type 0
Reply P = EngineClient × List (Effect P)

module _ {P : Payloads} where
  -- `made`: the browser makes the socket. Where its constructor throws, the promise is rejected, and
  -- its callers log that and do no more.
  unfoldable pub connect : Bool → EngineClient → Reply P
  connect made s =
      if made
      then (record s { socket = some ReadyState.connecting }, open_socket s.address s.port ∷ [])
      else (s, [])

  unfoldable pub socket_opens : EngineClient → Reply P
  socket_opens s =
      (record s { socket = some ReadyState.opened }, send_auth s.token ∷ on_connect ∷ [])

  -- `onclose` up to its `await`, or to its end. `has_refresher` says whether one is set; the one that
  -- web/src/app/wiring.ts sets catches every error, so that its promise is never rejected.
  unfoldable pub socket_closes : Bool → ℕ → EngineClient → Reply P
  unfolding schedule_reconnect
  socket_closes has_refresher code s =
      let closed = record s { socket = Option.map (λ _. ReadyState.closed) s.socket } in
      if code == 4001 && has_refresher && not s.refreshed_once
      then (
        record closed { refreshed_once = true; refreshing = true },
        on_disconnect ∷ ask_token ∷ [],
      )
      else (schedule_reconnect closed, on_disconnect ∷ [])

  unfoldable pub fresh_token : Bool → Option String → EngineClient → Reply P
  unfolding connect schedule_reconnect
  fresh_token made none s = (schedule_reconnect s, [])
  fresh_token made (some token) s =
      if given token then connect made (record s { token = token }) else (schedule_reconnect s, [])

  -- The rest of `onclose`, once for each token asked for.
  unfoldable pub token_arrives : Bool → Option String → EngineClient → Reply P
  unfolding fresh_token
  token_arrives made fresh s =
      if s.refreshing then fresh_token made fresh (record s { refreshing = false }) else (s, [])

  unfoldable pub socket_fails : EngineClient → Reply P
  unfolding schedule_reconnect
  socket_fails s = (schedule_reconnect s, [])

  unfoldable pub reconnect_fires : Bool → EngineClient → Reply P
  unfolding connect
  reconnect_fires made s = connect made (record s { reconnecting = false; refreshed_once = false })

  unfoldable pub disconnect : EngineClient → Reply P
  disconnect s = (
    record s { reconnecting = false; socket = none },
    elim s.socket [ none ↦ [] | some _ ↦ close_socket ∷ [] ],
  )
