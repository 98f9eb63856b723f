-- ===== src/Tests/Company.antt =====
-- An instance of the theorem on the roster, and runs.
use daw_project.Common.{◌≡◌, refl, String, Option, none, some, List, [], ◌∷◌, arith}
use daw_project.Num.{num}
use daw_project.Common.Dict.{lookup}
use daw_project.Presence.{PresenceMsg, new_presence, tick, peer_name}
use daw_project.Presence.Events.{Event, beat, signal, select, run}
use daw_project.Presence.Said.{recent, latest}
use daw_project.Presence.Roster.{tick-latest}

abbrev hello : Option String → PresenceMsg
hello sel = record { pr = some 1; from = some "b"; name = none; color = none; sel = sel }

abbrev events : List Event
events =
    signal (num 10) (hello none)
    ∷ select (some "t1")
    ∷ beat (num 2000)
    ∷ signal (num 2500) (hello (some "t2"))
    ∷ []

tick-latest_example :
    lookup "b" (tick "a" (num 8000) (run "a" events new_presence)).0.peers
    ≡ recent (num 8000) (latest "b" events none)
tick-latest_example = tick-latest "a" "b" (num 0) (num 8000) events (omega arith)

hashed : peer_name "ab" ≡ "Cerf"
unfolding peer_name
hashed = refl
