-- ===== src/Jam/Balance.antt =====
-- What every event does to the connections: each stays kept or is closed.
use daw_project.Common.{
  ◌==◌, refl, String, Bool, true, false, ◌&&◌, not, none, some, List, [], ◌∷◌, arith, if◌then◌else◌,
}
use daw_project.Common.Dict.{lookup, insert}
use daw_project.Num.{Num}
use daw_project.Jam.{
  ice, broadcasting, listening, Channel, Effect, send, state_change, write, ping, pong, PingMsg,
  remote_track, SignalMsg, Jam, Browser, start_broadcast, start_listen, reassert, is_idle,
  is_listening, peer_count, join_request, bye_signal,
}
use daw_project.Jam.Signals.{is_for, heard, handle_signal, settle}
use daw_project.Jam.Events.{
  Event, handle, run, message, pings, is_live, takes, signal, starts_broadcast, starts_listen,
  reasserts, stops, retry_fires, settles, candidate_found, connection_changes, track_arrives,
  channel_arrives, channel_opens, message_arrives, ping_fires,
}
use daw_project.Jam.Counts.{closings, closings-append}
use daw_project.Jam.Steps.{
  Quiet, IsTidyStep, calm, still, choice-IsTidyStep, heard-IsTidyStep, stop-IsTidyStep,
  settle-Quiet, pings-Quiet,
}

choice-Quiet : (t : Bool) (x y : List Effect) → Quiet x → Quiet y → Quiet (if t then x else y)
choice-Quiet true x y p q = p
choice-Quiet false x y p q = q

nothing-Quiet : Quiet []
unfolding closings
nothing-Quiet h = refl

one-Quiet : (m : SignalMsg) → Quiet (send m ∷ [])
unfolding closings
one-Quiet m h = omega arith

reassert-IsTidyStep : (own : String) (b : Browser) (s : Jam) → IsTidyStep s (reassert own b s)
unfolding reassert
reassert-IsTidyStep own b s = calm s s (reassert own b s).1 refl refl (
    choice-Quiet (is_listening s.role && peer_count b s.peers == 0) (send (join_request own) ∷ [])
      [] (one-Quiet (join_request own)) nothing-Quiet)

-- An effect that closes nothing, where a test holds.
sends-IsTidyStep :
    (s : Jam) (t : Bool) (es : List Effect)
    → Quiet es
    → IsTidyStep s (if t then (s, es) else (s, []))
sends-IsTidyStep s t es q =
    choice-IsTidyStep s t (s, es) (s, []) (calm s s es refl refl q) (still s)

message-IsTidyStep :
    (peer : String) (ch : Channel) (now : Num) (m : PingMsg) (s : Jam)
    → IsTidyStep s (message peer ch now m s)
unfolding message closings
message-IsTidyStep peer ch now (ping t) s =
    calm s s (write ch (pong t) ∷ []) refl refl (λ h. omega arith)
message-IsTidyStep peer ch now (pong t) s =
    calm s (message peer ch now (pong t) s).0 (state_change ∷ []) refl refl (λ h. omega arith)
message-IsTidyStep peer ch now PingMsg.other s = still s

handle-IsTidyStep :
    (own : String) (b : Browser) (e : Event) (s : Jam) → IsTidyStep s (handle own b e s)
unfolding handle handle_signal start_broadcast start_listen closings
handle-IsTidyStep own b (signal m) s =
    choice-IsTidyStep s (is_for own m) (heard own b m m.kind s) (s, [])
      (heard-IsTidyStep own b m m.kind s) (still s)
handle-IsTidyStep own b starts_broadcast s =
    let more = state_change ∷ send (bye_signal own) ∷ send (join_request own) ∷ [] in
    choice-IsTidyStep s (not (is_idle s.role)) (s, []) (record s { role = broadcasting }, more)
      (still s) (calm s (record s { role = broadcasting }) more refl refl (λ h. omega arith))
handle-IsTidyStep own b starts_listen s =
    let t = record s { role = listening; join_retry_timer = true } in
    let more = state_change ∷ send (join_request own) ∷ [] in
    choice-IsTidyStep s (not (is_idle s.role)) (s, []) (t, more) (still s)
      (calm s t more refl refl (λ h. omega arith))
handle-IsTidyStep own b reasserts s = reassert-IsTidyStep own b s
handle-IsTidyStep own b stops s = stop-IsTidyStep own s
handle-IsTidyStep own b retry_fires s =
    choice-IsTidyStep s s.join_retry_timer (reassert own b s) (s, []) (reassert-IsTidyStep own b s)
      (still s)
handle-IsTidyStep own b (settles i o) s =
    calm s (record s { waiting = (settle own i o s.waiting).0 }) (settle own i o s.waiting).1 refl
      refl (settle-Quiet own i o s.waiting)
handle-IsTidyStep own b (candidate_found peer pc none) s = still s
handle-IsTidyStep own b (candidate_found peer pc (some c)) s =
    sends-IsTidyStep s (is_live (lookup peer s.peers) pc)
      (send (record (join_request own) { to = some peer; kind = ice; candidate = some c }) ∷ [])
      (λ h. omega arith)
handle-IsTidyStep own b (connection_changes peer pc) s =
    sends-IsTidyStep s (is_live (lookup peer s.peers) pc) (state_change ∷ []) (λ h. omega arith)
handle-IsTidyStep own b (track_arrives peer pc has_stream) s =
    sends-IsTidyStep s (is_live (lookup peer s.peers) pc && has_stream) (remote_track pc ∷ [])
      (λ h. omega arith)
handle-IsTidyStep own b (channel_arrives peer pc n) s =
    let t = record s { channels = insert peer (record { pc = pc; number = some n }) s.channels } in
    choice-IsTidyStep s (is_live (lookup peer s.peers) pc && takes (lookup peer s.peers)) (t, [])
      (s, []) (calm s t [] refl refl nothing-Quiet) (still s)
handle-IsTidyStep own b (channel_opens peer ch) s =
    let t = record s { ping_timer = true } in
    choice-IsTidyStep s (is_live (lookup peer s.peers) ch.pc) (t, []) (s, [])
      (calm s t [] refl refl nothing-Quiet) (still s)
handle-IsTidyStep own b (message_arrives peer ch now m) s =
    choice-IsTidyStep s (is_live (lookup peer s.peers) ch.pc) (message peer ch now m s) (s, [])
      (message-IsTidyStep peer ch now m s) (still s)
handle-IsTidyStep own b (ping_fires now) s =
    sends-IsTidyStep s s.ping_timer (pings b now s.channels) (pings-Quiet b now s.channels)

pub run-IsTidyStep :
    (own : String) (es : List (Browser × Event)) (s : Jam) → IsTidyStep s (run own es s)
unfolding run
run-IsTidyStep own [] s d = still s d
run-IsTidyStep own ((b, e) ∷ es) s d =
    let t = handle own b e s in
    let u = run own es t.0 in
    let (d1, first) = handle-IsTidyStep own b e s d in
    let (d2, later) = run-IsTidyStep own es t.0 d1 in
    (
      d2,
      λ h. let x = first h in let y = later h in let a = closings-append h t.1 u.1 in omega arith,
    )
