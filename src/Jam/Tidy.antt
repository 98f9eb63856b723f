-- ===== src/Jam/Tidy.antt =====
-- The jam of a tab under any events.
use daw_project.Common.{ℕ, ◌+◌, ◌≡◌, refl, String, List, arith, ltb}
use daw_project.Jam.{Effect, Jam, new_jam, Browser}
use daw_project.Jam.Events.{Event, run}
use daw_project.Jam.Counts.{bit, kept, closings}
use daw_project.Jam.Balance.{run-IsTidyStep}
use daw_project.Jam.Rest.{IsSettled, run-IsSettled}

-- What a tab that began with nothing has come to, by what it asked of the browser: a connection made is kept for one peer
-- and open, or kept for none and closed once; none is kept or closed that was not made; and it is settled.
abbrev pub IsTidy : Jam × List Effect → Type 0
IsTidy (s, effects) =
    ((h : ℕ) → kept h s.peers + closings h effects ≡ bit (ltb h s.made)) × IsSettled s

-- Whatever signals come, calls are made, promises settle, timers fire and connections report, in any order: every
-- connection that was made is kept for exactly one peer and was not closed, or is kept for none and was closed exactly once, and
-- no other is; the timer of the join requests runs exactly while the tab listens; and an idle tab keeps no
-- connection, no channel, no latency and no ping timer.
pub run-IsTidy : (own : String) (es : List (Browser × Event)) → IsTidy (run own es new_jam)
unfolding kept
run-IsTidy own es = (
  λ h.
      let z : bit (ltb h 0) ≡ 0 = ground arith in
      let b = (run-IsTidyStep own es new_jam tt).1 h in omega arith,
  run-IsSettled own es new_jam (refl, λ i. (refl, refl, refl, refl)),
)
