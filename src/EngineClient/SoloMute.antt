-- ===== src/EngineClient/SoloMute.antt =====
-- The solo and mute of a track that are sent, however the calls mix the two.
use daw_project.Common.{
  ℕ, ◌≡◌, refl, ◌∙◌, String, Bool, true, false, Option, none, some, List, [], ◌∷◌, arith,
  if◌then◌else◌, str_eq, str_eq_iff,
}
use daw_project.Schema.{or_else}
use daw_project.Protocol.{
  Payloads, Codec, EncodeMessage, DecodedMessage, encode_message, decode_message,
}
use daw_project.ServerClient.{is_open}
use daw_project.EngineClient.{
  EngineClient, Monitor, silent, send, get_monitor, next_monitor, set_token, set_from_token_file,
  schedule_reconnect, connect, socket_opens, socket_closes, fresh_token, token_arrives,
  socket_fails, reconnect_fires, disconnect,
}
use daw_project.EngineClient.Commands.{
  send_message, set_monitor, dispatch, dispatch_decoded, handle_message,
}
use daw_project.EngineClient.Events.{
  Event, sets_token, reads_token, connects, opens, closes, token_comes, fails, timer, disconnects,
  commands, monitors, message, handle, run,
}

-- What the latest call says that names the track and gives the value.
abbrev later : Option Bool → Option Bool → Option Bool
later (some b) old = some b
later none old = old

abbrev solo_in : String → Event → Option Bool
solo_in id (monitors track solo mute) = if str_eq track id then solo else none
solo_in id _ = none

abbrev mute_in : String → Event → Option Bool
mute_in id (monitors track solo mute) = if str_eq track id then mute else none
mute_in id _ = none

abbrev pub last_solo : String → List Event → Option Bool
last_solo id [] = none
last_solo id (e ∷ es) = later (last_solo id es) (solo_in id e)

abbrev pub last_mute : String → List Event → Option Bool
last_mute id [] = none
last_mute id (e ∷ es) = later (last_mute id es) (mute_in id e)

-- What is kept of a track.
abbrev pub kept : String → EngineClient → Monitor
kept id s = or_else (get_monitor id s.monitor_state) silent

or_else-later : (a b : Option Bool) (c : Bool) → or_else a (or_else b c) ≡ or_else (later a b) c
or_else-later none b c = refl
or_else-later (some a) b c = refl

module _ {P : Payloads} (codec : Codec P) where
  dispatch-same :
      (m : Option (DecodedMessage P)) (s : EngineClient)
      → (dispatch_decoded codec m s).0.monitor_state ≡ s.monitor_state
  unfolding dispatch_decoded dispatch
  dispatch-same m s = ground arith

  closes-same :
      (has_refresher : Bool) (code : ℕ) (s : EngineClient)
      → (socket_closes {P = P} has_refresher code s).0.monitor_state ≡ s.monitor_state
  unfolding socket_closes schedule_reconnect
  closes-same has_refresher code s = ground arith

  connect-same :
      (made : Bool) (s : EngineClient) → (connect {P = P} made s).0.monitor_state ≡ s.monitor_state
  unfolding connect
  connect-same made s = ground arith

  token-same :
      (made : Bool) (t : Option String) (s : EngineClient)
      → (token_arrives {P = P} made t s).0.monitor_state ≡ s.monitor_state
  unfolding token_arrives fresh_token schedule_reconnect connect
  token-same made t s = ground arith

  set_monitor-kept :
      (id track : String) (solo mute : Option Bool) (s : EngineClient)
      → kept id (set_monitor codec track solo mute s).0 ≡ record {
        solo = or_else (solo_in id (monitors track solo mute)) (kept id s).solo;
        mute = or_else (mute_in id (monitors track solo mute)) (kept id s).mute;
      }
  unfolding set_monitor send_message next_monitor get_monitor
  set_monitor-kept id track solo mute s = ground (arith, str_eq_iff track id)

  handle-kept :
      (id : String) (e : Event) (s : EngineClient)
      → kept id (handle codec e s).0 ≡ record {
        solo = or_else (solo_in id e) (kept id s).solo;
        mute = or_else (mute_in id e) (kept id s).mute;
      }
  unfolding handle set_token set_from_token_file socket_opens socket_fails reconnect_fires
      send_message schedule_reconnect handle_message disconnect
  handle-kept id (sets_token t) s = refl
  handle-kept id (reads_token none) s = refl
  handle-kept id (reads_token (some f)) s = refl
  handle-kept id (connects made) s = rw (connect-same made s) refl
  handle-kept id opens s = refl
  handle-kept id (closes has_refresher code) s = rw (closes-same has_refresher code s) refl
  handle-kept id (token_comes made t) s = rw (token-same made t s) refl
  handle-kept id fails s = refl
  handle-kept id (timer made) s =
      rw (connect-same made (record s { reconnecting = false; refreshed_once = false })) refl
  handle-kept id disconnects s = refl
  handle-kept id (commands m) s = refl
  handle-kept id (monitors track solo mute) s = set_monitor-kept id track solo mute s
  handle-kept id (message bytes) s =
      rw (dispatch-same (decode_message codec bytes) (record s { refreshed_once = false })) refl

  run-kept :
      (id : String) (events : List Event) (s : EngineClient)
      → kept id (run codec events s).0 ≡ record {
        solo = or_else (last_solo id events) (kept id s).solo;
        mute = or_else (last_mute id events) (kept id s).mute;
      }
  unfolding run
  run-kept id [] s = refl
  run-kept id (e ∷ es) s =
      run-kept id es (handle codec e s).0
      ∙ rw (
        handle-kept id e s,
        or_else-later (last_solo id es) (solo_in id e) (kept id s).solo,
        or_else-later (last_mute id es) (mute_in id e) (kept id s).mute,
      )

  -- A call for solo alone, mute alone or both, after any events: on an open socket one frame goes out,
  -- with both values of the track: what the call gives, or else what the latest call for that track
  -- gave, or else what was kept at the start.
  pub set_monitor-run :
      (id : String) (solo mute : Option Bool) (events : List Event) (s : EngineClient)
      → is_open (run codec events s).0.socket ≡ true
      → (set_monitor codec id solo mute (run codec events s).0).1
        ≡ send (
            encode_message codec (
              EncodeMessage.set_monitor id
                (or_else solo (or_else (last_solo id events) (kept id s).solo))
                (or_else mute (or_else (last_mute id events) (kept id s).mute))))
          ∷ []
  unfolding set_monitor send_message next_monitor
  set_monitor-run id solo mute events s h = rw (h, run-kept id events s) refl
