-- ===== src/SessionClock/Estimates.antt =====
-- The estimates after any events of the clock.
use daw_project.Common.{
  ◌<◌, ◌≤◌, ◌≡◌, refl, ◌∙◌, ap, sym, String, Bool, true, false, ◌||◌, Option, none, some, List, [],
  ◌∷◌, length, All, arith, if◌then◌else◌, str_eq, Bool-cases, Option-cases, inl, inr,
}
use daw_project.Common.Int.{pos, ◌+ℤ◌, ◌-ℤ◌, ◌≤ℤ◌, ltb_ℤ}
use daw_project.Common.Dict.{lookup, remove, All-insert, All-remove, All-lookup}
use daw_project.Num.{Num}
use daw_project.SessionClock.{
  Sample, PeerClock, Message, Clock, window, max_rtt_ms, new_clock, expire, tick, Heard, ping, pong,
  other, read, push_sample, samples_of, handle_heard, handle_signal, estimate, estimates, peers,
  stop, stale_ms,
}
use daw_project.SessionClock.Accuracy.{
  IsNear, IsClose, Samples, Invariant, Answered, sample-IsNear, length-push_sample,
  push_sample-Near, estimate-Close,
}

-- What happens to a clock: a round of its timer, while that runs, and a signal, each at a time; a stop.
pub data Event : Type 0 where
  beat : Num → Event
  signal : Num → Message → Event
  stopped : Event

unfoldable pub step : String → Event → Clock → Clock
step own (beat now) s = if s.timer then (tick own now s).0 else s
step own (signal now m) s = (handle_signal own now m s).0
step own stopped s = stop s

unfoldable pub run : String → List Event → Clock → Clock
run own [] s = s
run own (e ∷ es) s = run own es (step own e s)

abbrev pub IsAnswered : (String → Num) → String → Event → Type 0
IsAnswered lead own (signal now m) = Answered lead now (read own m)
IsAnswered lead own _ = Unit

module _ (lead : String → Num) where
  samples_of-Samples :
      (id : String) (s : Clock)
      → Invariant lead s
      → (length (samples_of (lookup id s.per_peer)) ≤ window)
        × All (IsNear (lead id)) (samples_of (lookup id s.per_peer))
  samples_of-Samples id s i = elim (Option-cases (lookup id s.per_peer)) [
    | inl e ↦ rw e (omega arith, tt)
    | inr (win, e) ↦ let h = All-lookup (Samples lead) id win s.per_peer i e in rw e (h.1, h.2)
  ]

  handle_heard-Invariant :
      (own : String) (now : Num) (h : Heard) (s : Clock)
      → Answered lead now h
      → Invariant lead s
      → Invariant lead (handle_heard own now h s).0
  unfolding handle_heard
  handle_heard-Invariant own now other s a i = i
  handle_heard-Invariant own now (ping from t1) s a i = i
  handle_heard-Invariant own now (pong from t1 t2) s a i =
      elim (Bool-cases (ltb_ℤ (now -ℤ t1) (pos 0) || ltb_ℤ max_rtt_ms (now -ℤ t1))) [
        | inl e ↦ rw e i
        | inr e ↦
            let x : Sample = record {
              offset = t2 +ℤ t2 -ℤ (t1 +ℤ t1 +ℤ (now -ℤ t1));
              rtt = now -ℤ t1;
            } in
            let win = samples_of (lookup from s.per_peer) in
            let old = samples_of-Samples from s i in
            let l = length-push_sample x win old.0 in
            rw e (
              All-insert (Samples lead) from (push_sample x win) s.per_peer
                (
                  l.0,
                  l.1,
                  push_sample-Near (lead from) x win (sample-IsNear (lead from) t1 t2 now a.0 a.1 e)
                      old.1,
                )
                i)
      ]

  expire-Invariant :
      (now : Num) (heard : List (String × Num)) (s : Clock)
      → Invariant lead s
      → Invariant lead (expire now heard s).0
  unfolding expire
  expire-Invariant now [] s i = i
  expire-Invariant now ((id, t) ∷ rest) s i = elim (Bool-cases (ltb_ℤ stale_ms (now -ℤ t))) [
    | inl e ↦ rw e (
        expire-Invariant now rest
          (record s { per_peer = remove id s.per_peer; last_heard = remove id s.last_heard })
          (All-remove (Samples lead) id s.per_peer i))
    | inr e ↦ rw e (expire-Invariant now rest s i)
  ]

  if-Invariant :
      (b : Bool) (x y : Clock)
      → Invariant lead x
      → Invariant lead y
      → Invariant lead (if b then x else y)
  if-Invariant true x y h k = h
  if-Invariant false x y h k = k

  step-Invariant :
      (own : String) (e : Event) (s : Clock)
      → IsAnswered lead own e
      → Invariant lead s
      → Invariant lead (step own e s)
  unfolding step tick handle_signal stop
  step-Invariant own (beat now) s a i =
      if-Invariant s.timer (tick own now s).0 s (expire-Invariant now s.last_heard s i) i
  step-Invariant own (signal now m) s a i = handle_heard-Invariant own now (read own m) s a i
  step-Invariant own stopped s a i = tt

  run-Invariant :
      (own : String) (es : List Event) (s : Clock)
      → All (IsAnswered lead own) es
      → Invariant lead s
      → Invariant lead (run own es s)
  unfolding run
  run-Invariant own [] s a i = i
  run-Invariant own (e ∷ es) s a i =
      run-Invariant own es (step own e s) a.1 (step-Invariant own e s a.0 i)

  estimates-cons :
      (id : String) (win : List Sample) (c : PeerClock) (m : List (String × List Sample))
      → estimate win ≡ some c
      → estimates ((id, win) ∷ m) ≡ (id, c) ∷ estimates m
  unfolding estimates
  estimates-cons id win c m e = rw (e, estimates)

  lookup-estimates :
      (id : String) (m : List (String × List Sample))
      → All (Samples lead) m
      → lookup id (estimates m) ≡ (elim (lookup id m) [ none ↦ none | some win ↦ estimate win ])
  unfolding lookup estimates
  lookup-estimates id [] h = refl
  lookup-estimates id ((j, win) ∷ m) h =
      let (best, off, e, _, _) = estimate-Close (lead j) win h.0.0 h.0.2 in
      ap (lookup id) (estimates-cons j win _ m e) ∙ elim (Bool-cases (str_eq j id)) [
        | inl q ↦ rw q (sym e)
        | inr q ↦ rw q (lookup-estimates id m h.1)
      ]

-- A peer is listed exactly where it has samples, sixteen at most, and then as near the truth as said.
abbrev pub IsListed : Num → Option (List Sample) → Option PeerClock → Type 0
IsListed lead none listed = listed ≡ none
IsListed lead (some win) listed =
    (best off : Num) × (listed
      ≡ some (record { offset = some off; rtt = best; samples = length win }))
    × (0 < length win)
    × (length win ≤ window)
    × (best ≤ℤ max_rtt_ms)
    × IsClose lead best off

-- After any events, in any order, of which each answer to a ping was stamped by its peer between the
-- ping and the arrival: a peer is listed exactly where it has samples, of which there are at most
-- sixteen, with an offset that is off the true one by at most three quarters of the best round trip
-- and half a millisecond, and a best round trip of at most five seconds.
pub peers-IsListed :
    (lead : String → Num) (own : String) (events : List Event)
    → All (IsAnswered lead own) events
    → (id : String)
    → IsListed
        (lead id)
        (lookup id (run own events new_clock).per_peer)
        (lookup id (peers (run own events new_clock)))
unfolding peers
peers-IsListed lead own events a id =
    let s = run own events new_clock in
    let i = run-Invariant lead own events new_clock a tt in
    elim (Option-cases (lookup id s.per_peer)) [
      | inl e ↦ rw e (lookup-estimates lead id s.per_peer i ∙ rw e refl)
      | inr (win, e) ↦
          let h = All-lookup (Samples lead) id win s.per_peer i e in
          let (best, off, est, small, close) = estimate-Close (lead id) win h.0 h.2 in
          rw e (best, off, lookup-estimates lead id s.per_peer i ∙ rw e est, h.0, h.1, small, close)
    ]
