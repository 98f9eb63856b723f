-- ===== src/EngineClient/Commands.antt =====
-- What is sent to the engine and what its messages do, web/src/network/engine_client.ts.
use daw_project.Common.{
  ℕ, String, Bool, true, false, Option, none, some, List, [], ◌∷◌, ltb, if◌then◌else◌,
}
use daw_project.Num.{Num}
use daw_project.Protocol.{
  TransportAction, TransportData, EncodeMessage, Payloads, Codec, DecodedMessage, encode_message,
  decode_message,
}
use daw_project.ServerClient.{is_open}
use daw_project.EngineClient.{
  EngineClient, Reply, given, next_monitor, transport_data, send, on_position, on_meters, on_state,
  on_audio_tap, on_plugin_catalog, on_session_state, on_render_state, on_error,
}

module _ {P : Payloads} where
  module _ (codec : Codec P) where
    -- A message, sent where the socket is open.
    unfoldable pub send_message : EncodeMessage → EngineClient → Reply P
    send_message m s = (s, if is_open s.socket then send (encode_message codec m) ∷ [] else [])

    unfoldable pub send_transport : TransportData → EngineClient → Reply P
    unfolding send_message
    send_transport d = send_message (EncodeMessage.transport d)

    unfoldable pub play : EngineClient → Reply P
    unfolding send_transport
    play = send_transport (transport_data TransportAction.play)

    unfoldable pub stop : EngineClient → Reply P
    unfolding send_transport
    stop = send_transport (transport_data TransportAction.stop)

    unfoldable pub seek : Num → EngineClient → Reply P
    unfolding send_transport
    seek position =
        send_transport
          (record (transport_data TransportAction.seek) { seek_position = some position })

    unfoldable pub set_loop : Bool → EngineClient → Reply P
    unfolding send_transport
    set_loop enabled =
        send_transport
          (record (transport_data TransportAction.loop) { loop_enabled = some enabled })

    unfoldable pub set_loop_region : Num → Num → EngineClient → Reply P
    unfolding send_transport
    set_loop_region start stop = send_transport (record (transport_data TransportAction.loop) {
      loop_enabled = some true;
      set_region = some true;
      loop_start = some start;
      loop_end = some stop;
    })

    unfoldable pub clear_loop_region : EngineClient → Reply P
    unfolding send_transport
    clear_loop_region = send_transport (record (transport_data TransportAction.loop) {
      loop_enabled = some false;
      clear_region = some true;
    })

    unfoldable pub set_tap : Bool → EngineClient → Reply P
    unfolding send_message
    set_tap enabled = send_message (EncodeMessage.tap_control enabled)

    unfoldable pub set_editor : String → Bool → EngineClient → Reply P
    unfolding send_message
    set_editor node_id opened = send_message (EncodeMessage.editor node_id opened)

    unfoldable pub session_launch : String → String → Bool → Bool → EngineClient → Reply P
    unfolding send_message
    session_launch scene_id track_id stops quantize =
        send_message (EncodeMessage.session_launch scene_id track_id stops quantize)

    unfoldable pub switch_project : String → EngineClient → Reply P
    unfolding send_message
    switch_project project_id = send_message (EncodeMessage.switch_project project_id)

    unfoldable pub render_request : ℕ → EngineClient → Reply P
    unfolding send_message
    render_request bit_depth = send_message (EncodeMessage.render_request bit_depth)

    unfoldable pub set_monitor : String → Option Bool → Option Bool → EngineClient → Reply P
    unfolding send_message
    set_monitor track_id solo mute s =
        let next = next_monitor track_id solo mute s in
        send_message (EncodeMessage.set_monitor track_id next.solo next.mute)
          (record s { monitor_state = (track_id, next) ∷ s.monitor_state })

    -- What a message that decodes does.
    unfoldable pub dispatch : DecodedMessage P → EngineClient → Reply P
    dispatch (DecodedMessage.position p) s =
        let rate = if ltb 0 p.sample_rate then p.sample_rate else s.sample_rate in
        (
          record s { last_playing = p.is_playing; sample_rate = rate },
          on_position p.position_samples rate ∷ [],
        )
    dispatch (DecodedMessage.meters m) s = (s, on_meters m ∷ [])
    dispatch (DecodedMessage.state e) s =
        let id = P.project_id e in
        (record s { engine_project = if given id then id else s.engine_project }, on_state e ∷ [])
    dispatch (DecodedMessage.audio_tap t) s = (s, on_audio_tap t ∷ [])
    dispatch (DecodedMessage.plugin_catalog c) s = (s, on_plugin_catalog c ∷ [])
    dispatch (DecodedMessage.session_state t) s = (s, on_session_state t ∷ [])
    dispatch (DecodedMessage.render_state t) s = (s, on_render_state t ∷ [])
    dispatch (DecodedMessage.error text) s = (s, on_error text ∷ [])

    unfoldable pub dispatch_decoded : Option (DecodedMessage P) → EngineClient → Reply P
    unfolding dispatch
    dispatch_decoded none s = (s, [])
    dispatch_decoded (some m) s = dispatch m s

    unfoldable pub handle_message : List ℕ → EngineClient → Reply P
    unfolding dispatch_decoded
    handle_message bytes s =
        dispatch_decoded (decode_message codec bytes) (record s { refreshed_once = false })
