-- ===== src/Presence/Events.antt =====
-- What happens to a roster, web/src/network/presence.ts.
use daw_project.Common.{String, Option, List, [], ◌∷◌}
use daw_project.Common.Int.{◌≤ℤ◌}
use daw_project.Num.{Num}
use daw_project.Presence.{PresenceMsg, Presence, set_selection, tick, handle_signal}

-- What happens to a running roster, each signal and beat at its time.
pub data Event : Type 0 where
  beat : Num → Event
  signal : Num → PresenceMsg → Event
  select : Option String → Event

unfoldable pub step : String → Event → Presence → Presence
step own (beat now) s = (tick own now s).0
step own (signal now m) s = (handle_signal own now m s).0
step own (select track_id) s = (set_selection own track_id s).0

unfoldable pub run : String → List Event → Presence → Presence
run own [] s = s
run own (e ∷ es) s = run own es (step own e s)

-- The times do not fall, from `t` to `now`.
abbrev pub Ordered : Num → List Event → Num → Type 0
Ordered t [] now = t ≤ℤ now
Ordered t (beat u ∷ es) now = (t ≤ℤ u) × Ordered u es now
Ordered t (signal u m ∷ es) now = (t ≤ℤ u) × Ordered u es now
Ordered t (select track_id ∷ es) now = Ordered t es now
