-- ===== src/Jam/Meeting.antt =====
-- What a listener and a broadcaster do, run by run, when they are to be connected.
use mathlib.Core.List.{append_assoc, append-nil}
use daw_project.Common.{
  ℕ, ◌==◌, ◌≡◌, ◌≢◌, refl, ◌∙◌, String, Bool, true, false, ◌||◌, none, some, List, [], ◌∷◌, ◌++◌,
  arith, length, if◌then◌else◌, str_eq, str_eq_iff, Bool-cases, Option-cases, inl, inr,
}
use daw_project.Common.Dict.{lookup, insert, lookup-insert}
use daw_project.Schema.{Name}
use daw_project.Jam.{
  Kind, offer, answer, Connection, Effect, send, set_local, set_remote, SignalMsg, Jam, Browser,
  Task, ending, offering, answering, accepting, describing, broadcasting, listening, new_peer,
  close_old, join_request, described, peer_count, create_answer,
}
use daw_project.Jam.Signals.{
  is_connected_peer, is_for, offer_to, asked, offered, answered, offer_heard, heard, handle_signal,
  resolved, settle, resume, Outcome,
}
use daw_project.Jam.Events.{Event, signal, settles, handle, run}

-- The signals that go out, and the descriptions that a connection is given.
unfoldable pub sent : List Effect → List SignalMsg
sent [] = []
sent (e ∷ es) = let rest = sent es in elim e [ send m ↦ m ∷ rest | _ ↦ rest ]

unfoldable pub descriptions : ℕ → List Effect → List Effect
descriptions pc [] = []
descriptions pc (e ∷ es) =
    let rest = descriptions pc es in
    elim e [
      | set_local p k sdp ↦ if p == pc then set_local p k sdp ∷ rest else rest
      | set_remote p k sdp ↦ if p == pc then set_remote p k sdp ∷ rest else rest
      | _ ↦ rest
    ]

settle-last :
    (own : String) (o : Outcome) (ts : List Task) (t : Task)
    → settle own (length ts) o (ts ++ t ∷ []) ≡ (ts ++ (resume own t o).0, (resume own t o).1)
unfolding settle
settle-last own o [] t = refl
settle-last own o (u ∷ ts) t = rw (settle-last own o ts t) refl

-- The events of one browser.
abbrev pub at : Browser → List Event → List (Browser × Event)
at b [] = []
at b (e ∷ es) = (b, e) ∷ at b es

-- A broadcaster is asked, its offer is made, and set.
abbrev pub offering_events : Browser → String → Jam → Name → List (Browser × Event)
offering_events bb l B o = at bb (
    signal (join_request l)
    ∷ settles (length B.waiting) (resolved (some o))
    ∷ settles (length B.waiting) (resolved none)
    ∷ [])

-- A listener gets an offer, which is set, and its answer is made, and set.
abbrev pub answering_events : Browser → SignalMsg → Jam → Name → List (Browser × Event)
answering_events bl m L a = at bl (
    signal m
    ∷ settles (length L.waiting) (resolved none)
    ∷ settles (length L.waiting) (resolved (some a))
    ∷ settles (length L.waiting) (resolved none)
    ∷ [])

-- The broadcaster gets the answer, and it is set.
abbrev pub answered_events : Browser → SignalMsg → Jam → List (Browser × Event)
answered_events bb m B = at bb (signal m ∷ settles (length B.waiting) (resolved none) ∷ [])

apart : (l b : String) → l ≢ b → str_eq l b ≡ false
apart l b n = elim (Bool-cases (str_eq l b)) [
  | inl e ↦ absurd (n ((str_eq_iff l b).0 e))
  | inr e ↦ e
]

join-offer_to :
    (l b : String) (bb : Browser) (B : Jam)
    → l ≢ b
    → B.role ≡ broadcasting
    → is_connected_peer bb (lookup l B.peers) ≡ false
    → handle_signal b bb (join_request l) B ≡ offer_to bb l B
unfolding handle_signal heard offer_heard asked
join-offer_to l b bb B n r c = rw (apart l b n, r, c) refl

-- The first step of the broadcaster sends nothing and describes nothing.
pub mute-offer_to :
    (bb : Browser) (l : String) (B : Jam) (more : List Effect)
    → (sent ((offer_to bb l B).1 ++ more) ≡ sent more)
      × (descriptions B.made ((offer_to bb l B).1 ++ more) ≡ descriptions B.made more)
unfolding offer_to sent descriptions new_peer
mute-offer_to bb l B more = elim (Option-cases (lookup l B.peers)) [
  | inl e ↦ elim (Bool-cases bb.has_stream) [
    | inl h ↦ rw (e, h) (refl, refl)
    | inr h ↦ rw (e, h) (refl, refl)
  ]
  | inr (c, e) ↦ elim (Bool-cases bb.has_stream) [
    | inl h ↦ rw (e, h) (refl, refl)
    | inr h ↦ rw (e, h) (refl, refl)
  ]
]

pub mute-new_peer :
    (b : String) (L : Jam) (more : List Effect)
    → (sent ((new_peer b true L).1 ++ more) ≡ sent more)
      × (descriptions L.made ((new_peer b true L).1 ++ more) ≡ descriptions L.made more)
unfolding sent descriptions new_peer
mute-new_peer b L more = elim (Option-cases (lookup b L.peers)) [
  | inl e ↦ rw e (refl, refl)
  | inr (c, e) ↦ rw e (refl, refl)
]

pub lookup_self :
    (k : String) (c : Connection) (m : List (String × Connection))
    → lookup k (insert k c m) ≡ some c
lookup_self k c m = lookup-insert k k c m ∙ rw ((str_eq_iff k k).1 refl) refl

pub eq_self : (n : ℕ) → n == n ≡ true
eq_self n = ground arith

pub offering_run :
    (l b : String) (bb : Browser) (B : Jam) (o : Name)
    → l ≢ b
    → B.role ≡ broadcasting
    → is_connected_peer bb (lookup l B.peers) ≡ false
    → run b (offering_events bb l B o) B ≡ (
      record (offer_to bb l B).0 { waiting = B.waiting },
      (offer_to bb l B).1 ++ set_local B.made offer o ∷ send (described b l offer o) ∷ [],
    )
unfolding run handle offer_to new_peer resume
offering_run l b bb B o n r c =
    rw
      (
        join-offer_to l b bb B n r c,
        settle-last b (resolved (some o)) B.waiting (offering B.made l),
        settle-last b (resolved none) B.waiting (describing l offer o),
        append-nil B.waiting,
      )
      refl

or_true : (a : Bool) → a || true ≡ true
or_true true = refl
or_true false = refl

is_for-described :
    (l b : String) (k : Kind) (sdp : Name) → b ≢ l → is_for l (described b l k sdp) ≡ true
is_for-described l b k sdp n = rw (apart b l n, (str_eq_iff l l).1 refl, or_true _) refl

pub answering_run :
    (l b : String) (bl : Browser) (L : Jam) (x : ℕ) (o a : Name)
    → b ≢ l
    → L.role ≡ listening
    → run l (answering_events bl (described b l offer (x ∷ o)) L a) L ≡ (
      record (new_peer b true L).0 { waiting = L.waiting },
      (new_peer b true L).1
          ++ set_remote L.made offer (x ∷ o)
            ∷ create_answer L.made
            ∷ set_local L.made answer a
            ∷ send (described l b answer a)
            ∷ [],
    )
unfolding run handle handle_signal heard offer_heard offered new_peer resume
answering_run l b bl L x o a n r =
    rw
      (
        is_for-described l b offer (x ∷ o) n,
        r,
        settle-last l (resolved none) L.waiting (accepting L.made b),
        settle-last l (resolved (some a)) L.waiting (answering L.made b),
        settle-last l (resolved none) L.waiting (describing b answer a),
        append-nil L.waiting,
        append_assoc (close_old (lookup b L.peers)) (set_remote L.made offer (x ∷ o) ∷ [])
            (create_answer L.made ∷ set_local L.made answer a ∷ send (described l b answer a) ∷ []),
      )
      refl

pub answered_run :
    (l b : String) (bb : Browser) (B : Jam) (pc : Connection) (y : ℕ) (a : Name)
    → l ≢ b
    → lookup l B.peers ≡ some pc
    → run b (answered_events bb (described l b answer (y ∷ a)) B) B
      ≡ (B, set_remote pc.pc answer (y ∷ a) ∷ [])
unfolding run handle handle_signal heard answered resume
answered_run l b bb B pc y a n e =
    rw
      (
        is_for-described b l answer (y ∷ a) n,
        e,
        settle-last b (resolved none) B.waiting ending,
        append-nil B.waiting,
      )
      refl

-- A listener that is not attached hears the announcement of a broadcaster.
pub announced_run :
    (l b : String) (bl : Browser) (L : Jam)
    → b ≢ l
    → L.role ≡ listening
    → peer_count bl L.peers ≡ 0
    → lookup b L.peers ≡ none
    → run l (at bl (signal (join_request b) ∷ [])) L ≡ (L, send (join_request l) ∷ [])
unfolding run handle handle_signal heard offer_heard asked
announced_run l b bl L n r c e = rw (apart b l n, r, c, e) refl
