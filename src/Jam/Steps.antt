-- ===== src/Jam/Steps.antt =====
-- What a signal or a call does to the connections: each stays kept or is closed.
use daw_project.Common.{
  ℕ, suc, ◌+◌, ◌==◌, ◌≡◌, refl, String, Bool, true, false, not, ◌||◌, Option, none, some, List, [],
  ◌∷◌, ◌++◌, arith, ltb, if◌then◌else◌, Bool-cases, inl, inr,
}
use daw_project.Common.Dict.{lookup, Distinct, insert-Distinct, remove-Distinct}
use daw_project.Schema.{Name}
use daw_project.Num.{Num}
use daw_project.Jam.{
  Kind, offer, answer, ice, bye, other, Channel, create_channel, add_tracks, create_offer,
  set_remote, offering, answering, accepting, describing, ending, Connection, Effect, state_change,
  send, Jam, Browser, SignalMsg, close_old, new_peer, stop, is_listening, is_broadcasting,
  join_request, Task,
}
use daw_project.Jam.Signals.{
  offer_to, asked, offered, answered, iced, left, heard, offer_heard, is_connected_peer, resolved,
  rejected, truthy, settle, resume, Outcome,
}
use daw_project.Jam.Events.{pings}
use daw_project.Jam.Counts.{
  bit, kept, closings, closings-append, kept-insert, kept-remove, closings-close_all,
  closings-close_old,
}

abbrev pub Quiet : List Effect → Type 0
Quiet es = (h : ℕ) → closings h es ≡ 0

-- A step keeps or closes every connection that was kept, and what it makes.
abbrev pub IsTidyStep : Jam → Jam × List Effect → Type 0
IsTidyStep s (t, es) =
    Distinct s.peers
    → Distinct t.peers
      × ((h : ℕ)
          → kept h t.peers + closings h es + bit (ltb h s.made)
            ≡ kept h s.peers + bit (ltb h t.made))

pub calm :
    (s t : Jam) (es : List Effect)
    → t.peers ≡ s.peers
    → t.made ≡ s.made
    → Quiet es
    → IsTidyStep s (t, es)
calm s t es p m q d = (rw p d, λ h. let c = q h in rw (p, m) (omega arith))

onward :
    (s t u : Jam) (es more : List Effect)
    → IsTidyStep s (t, es)
    → u.peers ≡ t.peers
    → u.made ≡ t.made
    → Quiet more
    → IsTidyStep s (u, es ++ more)
onward s t u es more step p m q d =
    let (e, balance) = step d in
    (
      rw p e,
      λ h.
          let c = q h in
          let a = closings-append h es more in let b = balance h in rw (p, m) (omega arith),
    )

bit-suc : (h n : ℕ) → bit (ltb h (suc n)) ≡ bit (ltb h n) + bit (n == h)
bit-suc h n = ground arith

new_peer-IsTidyStep :
    (peer : String) (takes : Bool) (s : Jam) → IsTidyStep s (new_peer peer takes s)
unfolding new_peer closings
new_peer-IsTidyStep peer takes s d =
    let c : Connection = record { pc = s.made; takes_channels = takes } in
    (
      insert-Distinct peer c s.peers d,
      λ h.
          let i = kept-insert h peer c s.peers in
          let o = closings-close_old h (lookup peer s.peers) in
          let b = bit-suc h s.made in omega arith,
    )

left-IsTidyStep : (from : String) (s : Jam) → IsTidyStep s (left from s)
unfolding left closings
left-IsTidyStep from s d = (
  remove-Distinct from s.peers d,
  λ h.
      let r = kept-remove h from s.peers d in
      let o = closings-close_old h (lookup from s.peers) in
      let a = closings-append h (close_old (lookup from s.peers)) (state_change ∷ []) in
      omega arith,
)

pub stop-IsTidyStep : (own : String) (s : Jam) → IsTidyStep s (stop own s)
unfolding stop closings kept
stop-IsTidyStep own s d = (tt, λ h. let c = closings-close_all h s.peers in omega arith)

offer_to-IsTidyStep : (b : Browser) (from : String) (s : Jam) → IsTidyStep s (offer_to b from s)
unfolding offer_to closings new_peer
offer_to-IsTidyStep b from s =
    onward s (new_peer from false s).0 (offer_to b from s).0 (new_peer from false s).1
      (create_channel s.made
        ∷ ((if b.has_stream then add_tracks s.made ∷ [] else []) ++ create_offer s.made ∷ []))
      (new_peer-IsTidyStep from false s) refl refl
      (λ h. elim (Bool-cases b.has_stream) [
        | inl e ↦ rw e (omega arith)
        | inr e ↦ rw e (omega arith)
      ])

-- Of two outcomes that are each a step, the chosen one is.
pub choice-IsTidyStep :
    (s : Jam) (t : Bool) (x y : Jam × List Effect)
    → IsTidyStep s x
    → IsTidyStep s y
    → IsTidyStep s (if t then x else y)
choice-IsTidyStep s true x y p q = p
choice-IsTidyStep s false x y p q = q

pub still : (s : Jam) → IsTidyStep s (s, [])
unfolding closings
still s = calm s s [] refl refl (λ h. refl)

asked-IsTidyStep :
    (own : String) (b : Browser) (m : SignalMsg) (s : Jam) → IsTidyStep s (asked own b m s)
unfolding asked closings
asked-IsTidyStep own b m s =
    choice-IsTidyStep s _ (s, send (join_request own) ∷ [])
      (if not (is_broadcasting s.role) || is_connected_peer b (lookup m.from s.peers)
        then (s, [])
        else offer_to b m.from s)
      (calm s s (send (join_request own) ∷ []) refl refl (λ h. omega arith))
      (choice-IsTidyStep s _ (s, []) (offer_to b m.from s) (still s)
        (offer_to-IsTidyStep b m.from s))

offered-IsTidyStep : (from : String) (sdp : Name) (s : Jam) → IsTidyStep s (offered from sdp s)
unfolding offered closings new_peer
offered-IsTidyStep from sdp s =
    let t = (new_peer from true s).0 in
    let u = record t { waiting = t.waiting ++ accepting s.made from ∷ [] } in
    let more = set_remote s.made offer sdp ∷ [] in
    choice-IsTidyStep s (is_listening s.role) (u, (new_peer from true s).1 ++ more) (s, [])
      (onward s t u (new_peer from true s).1 more (new_peer-IsTidyStep from true s) refl refl
        (λ h. omega arith))
      (still s)

answered-IsTidyStep :
    (o : Option Connection) (sdp : Option Name) (s : Jam) → IsTidyStep s (answered o sdp s)
unfolding answered closings
answered-IsTidyStep none sdp s = still s
answered-IsTidyStep (some c) none s = still s
answered-IsTidyStep (some c) (some sdp) s =
    calm s (answered (some c) (some sdp) s).0 (answered (some c) (some sdp) s).1 refl refl
      (λ h. omega arith)

iced-IsTidyStep : (o : Option Connection) (c : Option Name) (s : Jam) → IsTidyStep s (iced o c s)
unfolding iced closings
iced-IsTidyStep none c s = still s
iced-IsTidyStep (some c) none s = still s
iced-IsTidyStep (some c) (some d) s =
    calm s (iced (some c) (some d) s).0 (iced (some c) (some d) s).1 refl refl (λ h. omega arith)

offer_heard-IsTidyStep :
    (own : String) (b : Browser) (m : SignalMsg) (o : Option Name) (s : Jam)
    → IsTidyStep s (offer_heard own b m o s)
unfolding offer_heard
offer_heard-IsTidyStep own b m none s = asked-IsTidyStep own b m s
offer_heard-IsTidyStep own b m (some sdp) s = offered-IsTidyStep m.from sdp s

pub heard-IsTidyStep :
    (own : String) (b : Browser) (m : SignalMsg) (k : Kind) (s : Jam)
    → IsTidyStep s (heard own b m k s)
unfolding heard
heard-IsTidyStep own b m offer s = offer_heard-IsTidyStep own b m (truthy m.sdp) s
heard-IsTidyStep own b m answer s = answered-IsTidyStep (lookup m.from s.peers) (truthy m.sdp) s
heard-IsTidyStep own b m ice s = iced-IsTidyStep (lookup m.from s.peers) m.candidate s
heard-IsTidyStep own b m bye s = left-IsTidyStep m.from s
heard-IsTidyStep own b m other s = still s

resume-Quiet : (own : String) (t : Task) (o : Outcome) → Quiet (resume own t o).1
unfolding resume closings
resume-Quiet own t rejected h = omega arith
resume-Quiet own (offering pc to) (resolved sdp) h = omega arith
resume-Quiet own (accepting pc to) (resolved sdp) h = omega arith
resume-Quiet own (answering pc to) (resolved sdp) h = omega arith
resume-Quiet own (describing to kind sdp) (resolved _) h = omega arith
resume-Quiet own ending (resolved _) h = refl

pub settle-Quiet :
    (own : String) (i : ℕ) (o : Outcome) (ts : List Task) → Quiet (settle own i o ts).1
unfolding settle closings
settle-Quiet own i o [] h = refl
settle-Quiet own ℕ.zero o (t ∷ ts) h = resume-Quiet own t o h
settle-Quiet own (suc i) o (t ∷ ts) h = settle-Quiet own i o ts h

pub pings-Quiet : (b : Browser) (now : Num) (m : List (String × Channel)) → Quiet (pings b now m)
unfolding pings closings
pings-Quiet b now [] h = refl
pings-Quiet b now ((k, ch) ∷ m) h =
    let r = pings-Quiet b now m h in
    elim (Bool-cases (b.is_open ch)) [ inl e ↦ rw e (omega arith) | inr e ↦ rw e r ]
