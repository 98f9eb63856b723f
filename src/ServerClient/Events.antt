-- ===== src/ServerClient/Events.antt =====
-- The events that a client sees, one after the other.
use daw_project.Common.{Bool, ℕ, String, Option, List, [], ◌∷◌, ◌++◌}
use daw_project.ServerClient.{
  Bytes, Browser, Storage, ServerClient, Effect, submit_change, submit_signal,
}
use daw_project.ServerClient.Connection.{
  connect, socket_opens, socket_closes, text_arrives, binary_arrives, watchdog_fires,
  request_resync, resync_fires, reconnect_fires, disconnect,
}

-- In `binary` the numbers are the time and how many sends the socket outlives; `others` is what other
-- tabs do to the storage.
pub data Event (B : Browser) : Type 0 where
  connects : Bool → String → Event B
  opens : ℕ → Event B
  closes : Event B
  text : ℕ → Option B.Text → Event B
  binary : ℕ → ℕ → Bytes → Event B
  watchdog : ℕ → Event B
  asks_resync : Event B
  resync : Event B
  reconnect : Bool → Event B
  disconnects : Event B
  change : Bytes → Event B
  signal : B.Text → Event B
  others : Storage B → Event B

module _ {B : Browser} where
  unfoldable pub handle : Event B → ServerClient B → ServerClient B × List (Effect B)
  handle (Event.connects made p) s = connect made p s
  handle (Event.opens now) s = socket_opens now s
  handle Event.closes s = socket_closes s
  handle (Event.text now t) s = text_arrives now t s
  handle (Event.binary now budget b) s = binary_arrives now budget b s
  handle (Event.watchdog now) s = watchdog_fires now s
  handle Event.asks_resync s = (request_resync s, [])
  handle Event.resync s = resync_fires s
  handle (Event.reconnect made) s = reconnect_fires made s
  handle Event.disconnects s = disconnect s
  handle (Event.change c) s = submit_change c s
  handle (Event.signal t) s = submit_signal t s
  handle (Event.others st) s = (record s { storage = st }, [])

  -- The state after the events, and all that went out.
  unfoldable pub run : List (Event B) → ServerClient B → ServerClient B × List (Effect B)
  unfolding handle
  run [] s = (s, [])
  run (e ∷ es) s =
      let first = handle e s in let rest = run es first.0 in (rest.0, first.1 ++ rest.1)
