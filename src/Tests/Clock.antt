-- ===== src/Tests/Clock.antt =====
-- An instance of the theorem on the session clock, and a run.
use daw_project.Common.{String, some, List, [], ◌∷◌, All, arith}
use daw_project.Num.{Num, num}
use daw_project.Common.Dict.{lookup}
use daw_project.SessionClock.{Message, new_clock, peers, read}
use daw_project.SessionClock.Estimates.{
  Event, beat, signal, run, IsAnswered, IsListed, peers-IsListed,
}

-- The peer is a second ahead.
abbrev lead : String → Num
lead id = num 1000

abbrev pong : Num → Num → Message
pong t1 t2 = record { clk = some 2; from = some "b"; to = some "a"; t1 = some t1; t2 = some t2 }

abbrev events : List Event
events =
    beat (num 0)
    ∷ signal (num 20) (pong (num 0) (num 1015))
    ∷ signal (num 2030) (pong (num 2000) (num 3010))
    ∷ []

events-IsAnswered : All (IsAnswered lead "a") events
unfolding read daw_project.Common.Int.◌+ℤ◌
events-IsAnswered = omega arith

peers-IsListed_example :
    IsListed
      (num 1000)
      (lookup "b" (run "a" events new_clock).per_peer)
      (lookup "b" (peers (run "a" events new_clock)))
peers-IsListed_example = peers-IsListed lead "a" events events-IsAnswered "b"
