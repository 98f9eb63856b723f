-- ===== src/ServerClient/Connection.antt =====
-- The handlers of the socket and of the timers, web/src/network/server_client.ts.
use daw_project.Common.{
  ℕ, ◌-◌, String, Bool, true, false, Option, none, some, List, [], ◌∷◌, ◌++◌, map, ltb,
  if◌then◌else◌, str_eq,
}
use mathlib.Core.Option
use daw_project.ServerClient.{
  Bytes, Browser, ReadyState, ServerClient, Effect, send_auth, send_signal, close_socket,
  open_socket, on_connect, on_disconnect, on_document, on_change, on_signal, watchdog_timeout_ms,
  adopt_orphan_outboxes, flush_outbox,
}

module _ {B : Browser} where
  open B use {Text}

  abbrev pub auth_frame : Option String → List (Effect B)
  auth_frame none = []
  auth_frame (some token) = if str_eq token "" then [] else send_auth token ∷ []

  unfoldable pub socket_opens : ℕ → ServerClient B → ServerClient B × List (Effect B)
  socket_opens now s = (
    record s {
      socket = some ReadyState.opened;
      awaiting_initial_doc = true;
      last_activity = now;
      watching = true;
      signal_outbox = [];
    },
    auth_frame s.auth_token ++ map send_signal s.signal_outbox ++ on_connect ∷ [],
  )

  unfoldable pub schedule_reconnect : ServerClient B → ServerClient B
  schedule_reconnect s = record s { reconnecting = true }

  -- `onclose` of the socket that the object holds, or held before `disconnect`.
  unfoldable pub socket_closes : ServerClient B → ServerClient B × List (Effect B)
  unfolding schedule_reconnect
  socket_closes s = (
    schedule_reconnect
        (record s { socket = Option.map (λ _. ReadyState.closed) s.socket; watching = false }),
    on_disconnect ∷ [],
  )

  -- `made`: the browser makes the socket. Where its constructor throws, the promise is rejected, and
  -- its callers log that and do no more.
  unfoldable pub connect : Bool → String → ServerClient B → ServerClient B × List (Effect B)
  connect made project_id s =
      let named = record s { project_id = project_id } in
      if made
      then (record named { socket = some ReadyState.connecting }, open_socket project_id ∷ [])
      else (named, [])

  unfoldable pub reconnect_fires : Bool → ServerClient B → ServerClient B × List (Effect B)
  unfolding connect
  reconnect_fires made s = connect made s.project_id (record s { reconnecting = false })

  -- A text frame: a heartbeat, or a signal with the text that JSON.parse accepts.
  unfoldable pub text_arrives : ℕ → Option Text → ServerClient B → ServerClient B × List (Effect B)
  text_arrives now signal s =
      (record s { last_activity = now }, elim signal [ none ↦ [] | some t ↦ on_signal t ∷ [] ])

  -- The document of the connection first; then the queues, ours behind those of closed tabs.
  unfoldable pub first_document : ℕ → Bytes → ServerClient B → ServerClient B × List (Effect B)
  first_document budget data' s =
      let (t, effects) =
        flush_outbox budget (adopt_orphan_outboxes (record s { awaiting_initial_doc = false })) in
      (t, on_document data' ∷ effects)

  unfoldable pub binary_arrives : ℕ → ℕ → Bytes → ServerClient B → ServerClient B × List (Effect B)
  unfolding first_document
  binary_arrives now budget data' s =
      if s.awaiting_initial_doc
      then first_document budget data' (record s { last_activity = now })
      else (record s { last_activity = now }, on_change data' ∷ [])

  abbrev pub close : ServerClient B → ServerClient B × List (Effect B)
  close s = elim s.socket [
    | none ↦ (s, [])
    | some _ ↦ (record s { socket = some ReadyState.closing }, close_socket ∷ [])
  ]

  unfoldable pub watchdog_fires : ℕ → ServerClient B → ServerClient B × List (Effect B)
  watchdog_fires now s =
      if ltb watchdog_timeout_ms (now - s.last_activity)
      then close (record s { watching = false })
      else (s, [])

  unfoldable pub request_resync : ServerClient B → ServerClient B
  request_resync s = record s { resyncing = true }

  unfoldable pub resync_fires : ServerClient B → ServerClient B × List (Effect B)
  resync_fires s = close (record s { resyncing = false })

  unfoldable pub disconnect : ServerClient B → ServerClient B × List (Effect B)
  disconnect s =
      let (t, effects) =
        close (record s { watching = false; reconnecting = false; resyncing = false }) in
      (record t { socket = none }, effects)
