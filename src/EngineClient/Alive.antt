-- ===== src/EngineClient/Alive.antt =====
-- After a lost connection something always brings it back.
use daw_project.Common.{
  ℕ, ◌≡◌, refl, String, Bool, true, false, ◌||◌, ◌&&◌, Option, none, some, List, [], ◌∷◌, arith,
}
use daw_project.Protocol.{Payloads, Codec, DecodedMessage, decode_message}
use daw_project.ServerClient.{ReadyState}
use daw_project.EngineClient.{
  EngineClient, set_token, set_from_token_file, schedule_reconnect, connect, socket_opens,
  socket_closes, fresh_token, token_arrives, socket_fails, reconnect_fires,
}
use daw_project.EngineClient.Commands.{
  send_message, set_monitor, dispatch, dispatch_decoded, handle_message,
}
use daw_project.EngineClient.Events.{
  Event, sets_token, reads_token, connects, opens, closes, token_comes, fails, timer, disconnects,
  commands, monitors, message, handle, run,
}

abbrev is_used : Option ReadyState → Bool
is_used (some ReadyState.connecting) = true
is_used (some ReadyState.opened) = true
is_used _ = false

-- The socket is open or opening, or the timer runs, or a token is on its way.
abbrev pub is_alive : EngineClient → Bool
is_alive s = is_used s.socket || s.reconnecting || s.refreshing

-- Nobody asks for the connection to end, and whenever the timer fires or a token comes the browser
-- makes the socket.
abbrev pub stays : List Event → Bool
stays [] = true
stays (disconnects ∷ es) = false
stays (timer made ∷ es) = made && stays es
stays (token_comes made t ∷ es) = made && stays es
stays (_ ∷ es) = stays es

module _ {P : Payloads} (codec : Codec P) where
  dispatch-alive :
      (m : DecodedMessage P) (s : EngineClient) → is_alive (dispatch codec m s).0 ≡ is_alive s
  unfolding dispatch
  dispatch-alive m s = ground arith

  decoded-alive :
      (m : Option (DecodedMessage P)) (s : EngineClient)
      → is_alive (dispatch_decoded codec m s).0 ≡ is_alive s
  unfolding dispatch_decoded
  decoded-alive none s = refl
  decoded-alive (some m) s = dispatch-alive m s

  closes-alive :
      (has_refresher : Bool) (code : ℕ) (s : EngineClient)
      → is_alive (socket_closes {P = P} has_refresher code s).0 ≡ true
  unfolding socket_closes schedule_reconnect
  closes-alive has_refresher code s = ground arith

  fresh-alive :
      (t : Option String) (s : EngineClient) → is_alive (fresh_token {P = P} true t s).0 ≡ true
  unfolding fresh_token schedule_reconnect connect
  fresh-alive none s = ground arith
  fresh-alive (some t) s = ground arith

  token-alive :
      (t : Option String) (s : EngineClient)
      → is_alive s ≡ true
      → is_alive (token_arrives {P = P} true t s).0 ≡ true
  unfolding token_arrives
  token-alive t s h = ground (arith, fresh-alive t (record s { refreshing = false }))

  handle-alive :
      (e : Event) (s : EngineClient)
      → stays (e ∷ []) ≡ true
      → is_alive s ≡ true
      → is_alive (handle codec e s).0 ≡ true
  unfolding handle set_token set_from_token_file connect socket_opens socket_fails reconnect_fires
      send_message set_monitor schedule_reconnect handle_message
  handle-alive (sets_token t) s n h = h
  handle-alive (reads_token none) s n h = h
  handle-alive (reads_token (some f)) s n h = h
  handle-alive (connects true) s n h = refl
  handle-alive (connects false) s n h = h
  handle-alive opens s n h = refl
  handle-alive (closes has_refresher code) s n h = closes-alive has_refresher code s
  handle-alive (token_comes true t) s n h = token-alive t s h
  handle-alive (token_comes false t) s n h = cc
  handle-alive fails s n h = ground arith
  handle-alive (timer true) s n h = refl
  handle-alive (timer false) s n h = cc
  handle-alive disconnects s n h = cc
  handle-alive (commands m) s n h = h
  handle-alive (monitors id solo mute) s n h = h
  handle-alive (message bytes) s n h =
      rw (decoded-alive (decode_message codec bytes) (record s { refreshed_once = false })) h

  -- A client that is connected, connecting, waiting for its timer or for a token stays one of these,
  -- whatever happens, in any order, but a call of disconnect and a socket that the browser fails to
  -- make when the timer fires or a token comes: no refused token, failure or close leaves it with
  -- nothing that connects it again.
  pub run-alive :
      (events : List Event) (s : EngineClient)
      → stays events ≡ true
      → is_alive s ≡ true
      → is_alive (run codec events s).0 ≡ true
  unfolding run
  run-alive [] s n h = h
  run-alive (e ∷ es) s n h =
      run-alive es (handle codec e s).0 (ground arith) (handle-alive e s (ground arith) h)
