-- ===== src/EngineClient/Refresh.antt =====
-- How often a token is asked for.
use daw_project.Common.{
  ℕ, ◌+◌, ◌≤◌, ◌≡◌, String, Bool, false, Option, none, some, List, [], ◌∷◌, ◌++◌, arith,
  if◌then◌else◌,
}
use daw_project.Protocol.{Payloads, Codec, DecodedMessage, decode_message}
use daw_project.EngineClient.{
  EngineClient, Effect, ask_token, set_token, set_from_token_file, or_old, or_old_port,
  schedule_reconnect, connect, socket_opens, socket_closes, fresh_token, token_arrives,
  socket_fails, reconnect_fires, disconnect,
}
use daw_project.EngineClient.Commands.{
  send_message, set_monitor, dispatch, dispatch_decoded, handle_message,
}
use daw_project.EngineClient.Events.{
  Event, sets_token, reads_token, connects, opens, closes, token_comes, fails, timer, disconnects,
  commands, monitors, message, handle, run,
}

-- What gives the budget back: the timer, and a message.
abbrev gives_back : Event → ℕ
gives_back (timer made) = 1
gives_back (message bytes) = 1
gives_back _ = 0

abbrev pub given_back : List Event → ℕ
given_back [] = 0
given_back (e ∷ es) = gives_back e + given_back es

abbrev budget : EngineClient → ℕ
budget s = if s.refreshed_once then 0 else 1

module _ {P : Payloads} where
  abbrev asks_it : Effect P → ℕ
  asks_it e = elim e [ ask_token ↦ 1 | _ ↦ 0 ]

  abbrev pub asks : List (Effect P) → ℕ
  asks [] = 0
  asks (e ∷ es) = asks_it e + asks es

  asks-append : (xs ys : List (Effect P)) → asks (xs ++ ys) ≡ asks xs + asks ys
  asks-append [] ys = omega arith
  asks-append (x ∷ xs) ys = omega (arith, asks-append xs ys)

  abbrev Within : Event → EngineClient → EngineClient × List (Effect P) → Type 0
  Within e s r = asks r.1 + budget r.0 ≤ gives_back e + budget s

  module _ (codec : Codec P) where
    dispatch-budget :
        (m : DecodedMessage P) (s : EngineClient)
        → asks (dispatch codec m s).1 + budget (dispatch codec m s).0 ≤ budget s
    unfolding dispatch
    dispatch-budget (DecodedMessage.position x) s = ground arith
    dispatch-budget (DecodedMessage.meters x) s = ground arith
    dispatch-budget (DecodedMessage.state x) s = ground arith
    dispatch-budget (DecodedMessage.audio_tap x) s = ground arith
    dispatch-budget (DecodedMessage.plugin_catalog x) s = ground arith
    dispatch-budget (DecodedMessage.session_state x) s = ground arith
    dispatch-budget (DecodedMessage.render_state x) s = ground arith
    dispatch-budget (DecodedMessage.error x) s = ground arith

    decoded-budget :
        (m : Option (DecodedMessage P)) (s : EngineClient)
        → asks (dispatch_decoded codec m s).1 + budget (dispatch_decoded codec m s).0 ≤ budget s
    unfolding dispatch_decoded
    decoded-budget none s = omega arith
    decoded-budget (some m) s = dispatch-budget m s

    closes-Within :
        (has_refresher : Bool) (code : ℕ) (s : EngineClient)
        → Within (closes has_refresher code) s (socket_closes has_refresher code s)
    unfolding socket_closes schedule_reconnect
    closes-Within has_refresher code s = ground arith

    fresh-budget :
        (made : Bool) (t : Option String) (s : EngineClient)
        → asks (fresh_token {P = P} made t s).1 + budget (fresh_token {P = P} made t s).0 ≤ budget s
    unfolding fresh_token schedule_reconnect connect
    fresh-budget made none s = omega arith
    fresh-budget made (some t) s = ground arith

    token_arrives-Within :
        (made : Bool) (t : Option String) (s : EngineClient)
        → Within (token_comes made t) s (token_arrives made t s)
    unfolding token_arrives
    token_arrives-Within made t s =
        ground (arith, fresh-budget made t (record s { refreshing = false }))

    handle-Within : (e : Event) (s : EngineClient) → Within e s (handle codec e s)
    unfolding handle set_token set_from_token_file or_old or_old_port connect socket_opens
        socket_fails reconnect_fires disconnect send_message set_monitor schedule_reconnect
        handle_message
    handle-Within (sets_token t) s = omega arith
    handle-Within (reads_token none) s = omega arith
    handle-Within (reads_token (some f)) s = omega arith
    handle-Within (connects made) s = ground arith
    handle-Within opens s = omega arith
    handle-Within (closes has_refresher code) s = closes-Within has_refresher code s
    handle-Within (token_comes made t) s = token_arrives-Within made t s
    handle-Within fails s = omega arith
    handle-Within (timer made) s = ground arith
    handle-Within disconnects s = ground arith
    handle-Within (commands m) s = ground arith
    handle-Within (monitors id solo mute) s = ground arith
    handle-Within (message bytes) s =
        omega
          (arith, decoded-budget (decode_message codec bytes) (record s { refreshed_once = false }))

    run-budget :
        (events : List Event) (s : EngineClient)
        → asks (run codec events s).1 + budget (run codec events s).0 ≤ given_back events + budget s
    unfolding run
    run-budget [] s = omega arith
    run-budget (e ∷ es) s = omega (
      arith,
      asks-append (handle codec e s).1 (run codec es (handle codec e s).0).1,
      handle-Within e s,
      run-budget es (handle codec e s).0,
    )

    -- The engine refuses tokens as often as it likes: whatever happens, in any order, the client asks
    -- for a fresh token at most once more than the reconnect timer has fired and messages have come.
    pub asks-run :
        (events : List Event) (s : EngineClient)
        → asks (run codec events s).1 ≤ 1 + given_back events
    asks-run events s = ground (arith, run-budget events s)
