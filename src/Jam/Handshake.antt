-- ===== src/Jam/Handshake.antt =====
-- A listener and a broadcaster: from the announcement to the connection.
use mathlib.Core.List.{append_assoc}
use daw_project.Common.{
  ℕ, ◌≡◌, ◌≢◌, refl, ◌∙◌, ap, sym, String, true, false, none, some, List, [], ◌∷◌, ◌++◌,
}
use daw_project.Common.Dict.{lookup}
use daw_project.Schema.{Name}
use daw_project.Jam.{
  offer, answer, Effect, send, set_local, set_remote, Jam, Browser, broadcasting, listening,
  new_peer, join_request, described, peer_count, create_answer,
}
use daw_project.Jam.Signals.{is_connected_peer, offer_to}
use daw_project.Jam.Events.{signal, run}
use daw_project.Jam.Meeting.{
  sent, descriptions, at, offering_events, answering_events, answered_events, mute-offer_to,
  mute-new_peer, lookup_self, eq_self, offering_run, answering_run, answered_run, announced_run,
}

-- What the three runs of a handshake come to: each sends what the next one gets, each tab keeps the other's connection, and both
-- connections have both descriptions.
abbrev pub IsJoined :
    String
    → String
    → Jam
    → Jam
    → Name
    → Name
    → Jam × List Effect
    → Jam × List Effect
    → Jam × List Effect
    → Type 0
IsJoined l b L B o a (B1, e1) (L1, e2) (B2, e3) =
    (sent e1 ≡ described b l offer o ∷ [])
    × (sent e2 ≡ described l b answer a ∷ [])
    × (sent e3 ≡ [])
    × (lookup b L1.peers ≡ some (record { pc = L.made; takes_channels = true }))
    × (lookup l B2.peers ≡ some (record { pc = B.made; takes_channels = false }))
    × (descriptions L.made e2 ≡ set_remote L.made offer o ∷ set_local L.made answer a ∷ [])
    × (descriptions B.made (e1 ++ e3) ≡ set_local B.made offer o ∷ set_remote B.made answer a ∷ [])
    × (L1.waiting ≡ L.waiting)
    × (B2.waiting ≡ B.waiting)

joined :
    (l b : String) (bb : Browser) (L B : Jam) (o a : Name)
    → IsJoined l b L B o a
        (
          record (offer_to bb l B).0 { waiting = B.waiting },
          (offer_to bb l B).1 ++ set_local B.made offer o ∷ send (described b l offer o) ∷ [],
        )
        (
          record (new_peer b true L).0 { waiting = L.waiting },
          (new_peer b true L).1
              ++ set_remote L.made offer o
                ∷ create_answer L.made
                ∷ set_local L.made answer a
                ∷ send (described l b answer a)
                ∷ [],
        )
        (record (offer_to bb l B).0 { waiting = B.waiting }, set_remote B.made answer a ∷ [])
unfolding sent descriptions offer_to new_peer
joined l b bb L B o a =
    let out = mute-offer_to bb l B (set_local B.made offer o ∷ send (described b l offer o) ∷ []) in
    let ours = set_local B.made offer o ∷ send (described b l offer o) ∷ [] in
    let all = mute-offer_to bb l B (ours ++ set_remote B.made answer a ∷ []) in
    let back = mute-new_peer b L (
      set_remote L.made offer o
      ∷ create_answer L.made
      ∷ set_local L.made answer a
      ∷ send (described l b answer a)
      ∷ []) in
    (
      out.0,
      back.0,
      refl,
      lookup_self b (record { pc = L.made; takes_channels = true }) L.peers,
      lookup_self l (record { pc = B.made; takes_channels = false }) B.peers,
      back.1 ∙ rw (eq_self L.made) refl,
      ap (descriptions B.made)
            (append_assoc (offer_to bb l B).1 ours (set_remote B.made answer a ∷ []))
          ∙ all.1
          ∙ rw (eq_self B.made) refl,
      refl,
      refl,
    )

-- The handshake of a listener that waits, connected to nobody and without this peer, and a broadcaster that is not
-- connected to it, with whatever other promises. The announcement of the broadcaster makes the listener ask. Where the
-- broadcaster is asked, makes its offer and sets it, the listener gets what the broadcaster sent, makes its answer
-- and sets it, and the broadcaster gets what the listener sent: each keeps the connection to the other, which has
-- both descriptions, nothing else was sent, and the other promises wait as before.
pub handshake :
    (l b : String) (bl bb : Browser) (L B : Jam) (x y : ℕ) (o a : Name)
    → l ≢ b
    → L.role ≡ listening
    → peer_count bl L.peers ≡ 0
    → lookup b L.peers ≡ none
    → B.role ≡ broadcasting
    → is_connected_peer bb (lookup l B.peers) ≡ false
    → (run l (at bl (signal (join_request b) ∷ [])) L ≡ (L, send (join_request l) ∷ []))
      × IsJoined l b L B
          (x ∷ o)
          (y ∷ a)
          (run b (offering_events bb l B (x ∷ o)) B)
          (run l (answering_events bl (described b l offer (x ∷ o)) L (y ∷ a)) L)
          (run b
            (answered_events bb
              (described l b answer (y ∷ a))
              (run b (offering_events bb l B (x ∷ o)) B).0)
            (run b (offering_events bb l B (x ∷ o)) B).0)
unfolding offer_to new_peer
handshake l b bl bb L B x y o a n r c e q f =
    let m : b ≢ l = λ k. n (sym k) in
    let B1 = record (offer_to bb l B).0 { waiting = B.waiting } in
    let third =
      answered_run l b bb B1 (record { pc = B.made; takes_channels = false }) y a n
        (lookup_self l (record { pc = B.made; takes_channels = false }) B.peers) in
    (
      announced_run l b bl L m r c e,
      rw (offering_run l b bb B (x ∷ o) n q f, answering_run l b bl L x o (y ∷ a) m r, third)
          (joined l b bb L B (x ∷ o) (y ∷ a)),
    )
