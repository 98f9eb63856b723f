-- ===== src/Jam/Rest.antt =====
-- What the role of a tab says of its timers, and that nothing is left at rest.
use mathlib.Core.Bool.{false≢true}
use mathlib.Core.Path.{subst}
use daw_project.Common.{
  ℕ, ◌≡◌, refl, ◌∙◌, ap, sym, String, Bool, true, false, ◌&&◌, ◌||◌, not, Option, none, some, List,
  [], ◌∷◌, ◌++◌, if◌then◌else◌, Bool-cases, inl, inr,
}
use daw_project.Common.Dict.{lookup, insert, remove}
use daw_project.Num.{Num}
use daw_project.Schema.{Name}
use daw_project.Jam.{
  accepting, set_remote, Kind, offer, answer, ice, bye, other, JamRole, idle, broadcasting,
  listening, Channel, Effect, send, ping, pong, PingMsg, SignalMsg, Jam, Browser, new_peer,
  start_broadcast, start_listen, reassert, stop, is_idle, is_listening, is_broadcasting,
  join_request,
}
use daw_project.Jam.Signals.{
  is_connected_peer, is_for, offer_to, asked, offered, answered, iced, left, offer_heard, heard,
  handle_signal, truthy,
}
use daw_project.Jam.Events.{
  Event, handle, run, message, pings, is_live, takes, signal, starts_broadcast, starts_listen,
  reasserts, stops, retry_fires, settles, candidate_found, connection_changes, track_arrives,
  channel_arrives, channel_opens, message_arrives, ping_fires,
}

abbrev pub AtRest : Jam → Type 0
AtRest s = (s.peers ≡ []) × (s.channels ≡ []) × (s.latency_ms ≡ []) × (s.ping_timer ≡ false)

-- The timer of the join requests runs while the tab listens, and an idle tab keeps nothing.
abbrev pub IsSettled : Jam → Type 0
IsSettled s = (s.join_retry_timer ≡ is_listening s.role) × (is_idle s.role ≡ true → AtRest s)

idle-listening : (r : JamRole) → not (is_idle r) ≡ false → is_listening r ≡ false
idle-listening idle e = refl
idle-listening broadcasting e = cc
idle-listening listening e = cc

choice-IsSettled :
    (t : Bool) (x y : Jam × List Effect)
    → (t ≡ true → IsSettled x.0)
    → (t ≡ false → IsSettled y.0)
    → IsSettled (if t then x else y).0
choice-IsSettled true x y p q = p refl
choice-IsSettled false x y p q = q refl

-- The role and its timer stay; what is kept may change where the tab is not idle.
busy :
    (s t : Jam)
    → t.role ≡ s.role
    → t.join_retry_timer ≡ s.join_retry_timer
    → is_idle s.role ≡ false
    → IsSettled s
    → IsSettled t
busy s t r j n (timer, rest) =
    (j ∙ timer ∙ ap is_listening (sym r), λ i. absurd (false≢true (sym n ∙ ap is_idle (sym r) ∙ i)))

not_idle-listening : (r : JamRole) → is_listening r ≡ true → is_idle r ≡ false
not_idle-listening idle e = cc
not_idle-listening broadcasting e = refl
not_idle-listening listening e = refl

not_idle-broadcasting : (r : JamRole) → not (is_broadcasting r) ≡ false → is_idle r ≡ false
not_idle-broadcasting idle e = cc
not_idle-broadcasting broadcasting e = refl
not_idle-broadcasting listening e = refl

-- A tab with a live connection is not idle.
not_idle-live :
    (peer : String) (pc : ℕ) (s : Jam)
    → IsSettled s
    → is_live (lookup peer s.peers) pc ≡ true
    → is_idle s.role ≡ false
unfolding lookup
not_idle-live peer pc s (timer, rest) e = elim (Bool-cases (is_idle s.role)) [
  | inl i ↦ absurd (false≢true (subst (λ m. is_live (lookup peer m) pc ≡ true) (rest i).0 e))
  | inr n ↦ n
]

or-false : (a b : Bool) → a || b ≡ false → a ≡ false
or-false true b e = e
or-false false b e = refl

and-true : (a b : Bool) → a && b ≡ true → a ≡ true
and-true true b e = refl
and-true false b e = e

asked-IsSettled :
    (own : String) (b : Browser) (m : SignalMsg) (s : Jam)
    → IsSettled s
    → IsSettled (asked own b m s).0
unfolding asked offer_to new_peer
asked-IsSettled own b m s i =
    choice-IsSettled _ (s, send (join_request own) ∷ [])
      (if not (is_broadcasting s.role) || is_connected_peer b (lookup m.from s.peers)
        then (s, [])
        else offer_to b m.from s)
      (λ e. i)
      (λ e.
        choice-IsSettled _ (s, []) (offer_to b m.from s) (λ e. i)
          (λ e.
            busy s (offer_to b m.from s).0 refl refl (not_idle-broadcasting s.role (or-false _ _ e))
              i))

offer_heard-IsSettled :
    (own : String) (b : Browser) (m : SignalMsg) (o : Option Name) (s : Jam)
    → IsSettled s
    → IsSettled (offer_heard own b m o s).0
unfolding offer_heard offered new_peer
offer_heard-IsSettled own b m none s i = asked-IsSettled own b m s i
offer_heard-IsSettled own b m (some sdp) s i =
    let t = (new_peer m.from true s).0 in
    let u = record t { waiting = t.waiting ++ accepting s.made m.from ∷ [] } in
    choice-IsSettled (is_listening s.role)
      (u, (new_peer m.from true s).1 ++ set_remote s.made offer sdp ∷ []) (s, [])
      (λ e. busy s u refl refl (not_idle-listening s.role e) i) (λ e. i)

heard-IsSettled :
    (own : String) (b : Browser) (m : SignalMsg) (k : Kind) (s : Jam)
    → IsSettled s
    → IsSettled (heard own b m k s).0
unfolding heard answered iced left remove
heard-IsSettled own b m offer s i = offer_heard-IsSettled own b m (truthy m.sdp) s i
heard-IsSettled own b m answer s i =
    elim (lookup m.from s.peers) as (λ o. IsSettled (answered o (truthy m.sdp) s).0) [
      | none ↦ i
      | some c ↦ elim (truthy m.sdp) as (λ o. IsSettled (answered (some c) o s).0) [
        | none ↦ i
        | some sdp ↦ i
      ]
    ]
heard-IsSettled own b m ice s i =
    elim (lookup m.from s.peers) as (λ o. IsSettled (iced o m.candidate s).0) [
      | none ↦ i
      | some c ↦ elim m.candidate as (λ o. IsSettled (iced (some c) o s).0) [
        | none ↦ i
        | some d ↦ i
      ]
    ]
heard-IsSettled own b m bye s (timer, rest) = (
  timer,
  λ i. (
    ap (remove m.from) (rest i).0,
    ap (remove m.from) (rest i).1,
    ap (remove m.from) (rest i).2,
    (rest i).3,
  ),
)
heard-IsSettled own b m other s i = i

message-IsSettled :
    (peer : String) (ch : Channel) (now : Num) (m : PingMsg) (s : Jam)
    → is_idle s.role ≡ false
    → IsSettled s
    → IsSettled (message peer ch now m s).0
unfolding message
message-IsSettled peer ch now (ping t) s n i = i
message-IsSettled peer ch now (pong t) s n i =
    busy s (message peer ch now (pong t) s).0 refl refl n i
message-IsSettled peer ch now PingMsg.other s n i = i

-- An effect alone, where a test holds.
same-IsSettled :
    (s : Jam) (t : Bool) (es : List Effect)
    → IsSettled s
    → IsSettled (if◌then◌else◌ {A = Jam × List Effect} t (s, es) (s, [])).0
same-IsSettled s t es i = choice-IsSettled t (s, es) (s, []) (λ e. i) (λ e. i)

handle-IsSettled :
    (own : String) (b : Browser) (e : Event) (s : Jam)
    → IsSettled s
    → IsSettled (handle own b e s).0
unfolding handle handle_signal start_broadcast start_listen reassert stop
handle-IsSettled own b (signal m) s i =
    choice-IsSettled (is_for own m) (heard own b m m.kind s) (s, [])
      (λ e. heard-IsSettled own b m m.kind s i) (λ e. i)
handle-IsSettled own b starts_broadcast s i =
    choice-IsSettled (not (is_idle s.role)) (s, []) (record s { role = broadcasting }, _) (λ e. i)
      (λ e. (i.0 ∙ idle-listening s.role e, λ x. absurd (false≢true x)))
handle-IsSettled own b starts_listen s i =
    choice-IsSettled (not (is_idle s.role)) (s, [])
      (record s { role = listening; join_retry_timer = true }, _) (λ e. i)
      (λ e. (refl, λ x. absurd (false≢true x)))
handle-IsSettled own b reasserts s i = i
handle-IsSettled own b stops s i = (refl, λ x. (refl, refl, refl, refl))
handle-IsSettled own b retry_fires s i = same-IsSettled s s.join_retry_timer (reassert own b s).1 i
handle-IsSettled own b (settles n o) s i = i
handle-IsSettled own b (candidate_found peer pc none) s i = i
handle-IsSettled own b (candidate_found peer pc (some c)) s i =
    same-IsSettled s (is_live (lookup peer s.peers) pc) _ i
handle-IsSettled own b (connection_changes peer pc) s i =
    same-IsSettled s (is_live (lookup peer s.peers) pc) _ i
handle-IsSettled own b (track_arrives peer pc h) s i =
    same-IsSettled s (is_live (lookup peer s.peers) pc && h) _ i
handle-IsSettled own b (channel_arrives peer pc n) s i =
    let t = record s { channels = insert peer (record { pc = pc; number = some n }) s.channels } in
    choice-IsSettled (is_live (lookup peer s.peers) pc && takes (lookup peer s.peers)) (t, [])
      (s, []) (λ e. busy s t refl refl (not_idle-live peer pc s i (and-true _ _ e)) i) (λ e. i)
handle-IsSettled own b (channel_opens peer ch) s i =
    let t = record s { ping_timer = true } in
    choice-IsSettled (is_live (lookup peer s.peers) ch.pc) (t, []) (s, [])
      (λ e. busy s t refl refl (not_idle-live peer ch.pc s i e) i) (λ e. i)
handle-IsSettled own b (message_arrives peer ch now m) s i =
    choice-IsSettled (is_live (lookup peer s.peers) ch.pc) (message peer ch now m s) (s, [])
      (λ e. message-IsSettled peer ch now m s (not_idle-live peer ch.pc s i e) i) (λ e. i)
handle-IsSettled own b (ping_fires now) s i =
    same-IsSettled s s.ping_timer (pings b now s.channels) i

pub run-IsSettled :
    (own : String) (es : List (Browser × Event)) (s : Jam)
    → IsSettled s
    → IsSettled (run own es s).0
unfolding run
run-IsSettled own [] s i = i
run-IsSettled own ((b, e) ∷ es) s i =
    run-IsSettled own es (handle own b e s).0 (handle-IsSettled own b e s i)
