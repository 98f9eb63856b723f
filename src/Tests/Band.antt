-- ===== src/Tests/Band.antt =====
-- An instance of the theorem on the connections of a jam, and runs.
use daw_project.Common.{◌≡◌, refl, true, false, some, List, [], ◌∷◌}
use mathlib.Core.Bool.{false≢true}
use daw_project.Common.{str_eq_iff}
use daw_project.Jam.{
  JamRole, Jam, send, offer, ending, new_jam, Browser, join_request, bye_signal, described, answer,
  peer_count, start_broadcast, new_peer,
}
use daw_project.Jam.Signals.{
  resolved, rejected, handle_signal, heard, offer_heard, asked, offer_to, answered, left, settle,
  resume,
}
use daw_project.Jam.Events.{Event, signal, starts_broadcast, settles, handle, run}
use daw_project.Jam.Counts.{kept, closings}
use daw_project.Jam.Tidy.{IsTidy, run-IsTidy}
use daw_project.Jam.Meeting.{at, offering_events, answering_events, answered_events}
use daw_project.Jam.Handshake.{IsJoined, handshake}
use daw_project.Common.Dict.{lookup, insert, remove}

-- A browser with no connection up yet.
abbrev starting : Browser
starting = record { is_connected = λ pc. false; is_open = λ ch. false; has_stream = true }

-- One listener asks twice before it is connected, and another leaves.
abbrev events : List (Browser × Event)
events =
    (starting, starts_broadcast)
    ∷ (starting, signal (join_request "l"))
    ∷ (starting, settles 0 (resolved (some (1 ∷ []))))
    ∷ (starting, signal (join_request "l"))
    ∷ (starting, settles 0 rejected)
    ∷ (starting, signal (join_request "m"))
    ∷ (starting, signal (described "l" "b" answer (2 ∷ [])))
    ∷ (starting, signal (bye_signal "m"))
    ∷ []

run-IsTidy_example : IsTidy (run "b" events new_jam)
run-IsTidy_example = run-IsTidy "b" events

old_closed : closings 0 (run "b" events new_jam).1 ≡ 1
unfolding closings run handle handle_signal heard offer_heard asked offer_to new_peer answered left
    start_broadcast settle resume peer_count lookup insert remove
old_closed = refl

new_kept : kept 1 (run "b" events new_jam).0.peers ≡ 1
unfolding kept run handle handle_signal heard offer_heard asked offer_to new_peer answered left
    start_broadcast settle resume peer_count lookup insert remove
new_kept = refl

abbrev waiting_tab : Jam
waiting_tab = record new_jam { role = JamRole.listening; join_retry_timer = true; made = 3 }

-- It waits for the description of another peer's connection.
abbrev busy_tab : Jam
busy_tab = record new_jam { role = JamRole.broadcasting; waiting = ending ∷ [] }

handshake_example :
    (run "l" (at starting (signal (join_request "b") ∷ [])) waiting_tab
      ≡ (waiting_tab, send (join_request "l") ∷ []))
    × IsJoined "l" "b" waiting_tab busy_tab
        (1 ∷ [])
        (2 ∷ [])
        (run "b" (offering_events starting "l" busy_tab (1 ∷ [])) busy_tab)
        (run "l"
          (answering_events starting (described "b" "l" offer (1 ∷ [])) waiting_tab (2 ∷ []))
          waiting_tab)
        (run "b"
          (answered_events starting
            (described "l" "b" answer (2 ∷ []))
            (run "b" (offering_events starting "l" busy_tab (1 ∷ [])) busy_tab).0)
          (run "b" (offering_events starting "l" busy_tab (1 ∷ [])) busy_tab).0)
unfolding peer_count lookup
handshake_example =
    handshake "l" "b" starting starting waiting_tab busy_tab 1 2 [] []
      (λ e. false≢true ((str_eq_iff "l" "b").1 e)) refl refl refl refl refl
