-- ===== src/Tests/Transport.antt =====
-- A peer whose clock is known sends an anchor to a tab that has just joined.
use daw_project.Common.{true, false, none, some, [], ◌∷◌, ◌≡◌, refl}
use daw_project.Num.{num}
use daw_project.Document.DisplayName.{eqb_name}
use daw_project.TransportSync.{
  Anchor, Surroundings, Message, SyncState, Body, initial_state, set_enabled, handle_signal,
  handle_body, try_apply, is_older,
}
use daw_project.TransportSync.Newest.{IsNotBefore, try_apply-IsNotBefore}
use daw_project.TransportSync.Follows.{drives, start, next, enables, hears, drives-enabled}

abbrev tab : Surroundings
tab = record {
  id = 1 ∷ [];
  now = num 900;
  offset_of = λ peer. some (num 5);
  suspended = false;
  live = none;
}

abbrev message : Message
message = record { from = 2 ∷ []; to = none; body = Body.anchor true (num 3) (num 700) }

abbrev joined : SyncState
joined = (set_enabled true initial_state).0

engine_driven : drives (handle_signal tab message joined).1 ≡ true
unfolding handle_signal handle_body try_apply eqb_name set_enabled is_older
engine_driven = refl

-- The sender's clock has no estimate, so that the anchor waits; then the sync is turned off.
abbrev deaf : Surroundings
deaf = record tab { offset_of = λ peer. none }

abbrev late : SyncState
late = (handle_signal deaf message joined).0

abbrev left : SyncState
left = (set_enabled false late).0

drives-enabled_example :
    (left.pending ≡ none)
    × (drives (set_enabled true left).1 ≡ false)
    × ((set_enabled true left).0.pending ≡ none)
unfolding set_enabled
drives-enabled_example =
    drives-enabled
      (next (next (next start (enables true initial_state)) (hears deaf message joined))
        (enables false late))
      (enables true left) refl

abbrev earlier : Anchor
earlier = record { playing = true; pos_sec = num 1; local_t = num 600; peer = 3 ∷ [] }

abbrev waiting : SyncState
waiting = record joined {
  last = some earlier;
  pending = some (record { from = 2 ∷ []; playing = true; pos_sec = num 3; t = num 700 });
}

try_apply-IsNotBefore_example : IsNotBefore earlier (try_apply tab waiting).0
try_apply-IsNotBefore_example = try_apply-IsNotBefore tab waiting earlier refl
