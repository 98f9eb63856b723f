-- ===== src/Gestures/Wide.antt =====
-- When a resize begins, web/src/app/gestures.ts.
use daw_project.Common.{
  ◌+◌, ◌*◌, ◌≡◌, refl, ◌∙◌, Bool, true, false, not, ◌&&◌, ◌||◌, List, [], ◌∷◌, leb, arith,
  Bool-cases, Option-cases, inl, inr,
}
use daw_project.Common.Int.{pos_part, neg_part}
use daw_project.Num.{unit}
use daw_project.Gestures.{
  Move, is_small, pending_after, Gesture, on_move, on_frame, Event, move, frame, run,
}
use daw_project.Project.{Automerge}

-- The pointer is three pixels or more from where it went down.
abbrev is_far : Move → Bool
is_far m = leb (3 * unit) (pos_part m.dx + neg_part m.dx)

-- Some move of the events is.
abbrev pub is_wide : List Event → Bool
is_wide [] = false
is_wide (move m ∷ es) = is_far m || is_wide es
is_wide (frame ∷ es) = is_wide es

module _ (A : Automerge) (emit : List A.Change → List A.Change) where
  on_move-moved : (m : Move) (g : Gesture A) → (on_move A m g).moved ≡ (g.moved || is_far m)
  unfolding on_move
  on_move-moved m g = elim (Bool-cases (not g.moved && is_small m.dx)) [
    | inl e ↦ rw (e, on_move) (ground arith)
    | inr e ↦
        let far : (g.moved || is_far m) ≡ true = ground arith in
        elim (Option-cases (pending_after g.resize m g.pending)) [
          | inl f ↦ rw (e, f, far, on_move) refl
          | inr (b, f) ↦ rw (e, f, far, on_move) refl
        ]
  ]

  on_frame-moved : (g : Gesture A) → (on_frame A emit g).moved ≡ g.moved
  unfolding on_frame
  on_frame-moved g = ground arith

  pub run-moved :
      (es : List Event) (g : Gesture A) → (run A emit es g).moved ≡ (g.moved || is_wide es)
  unfolding run
  run-moved [] g = ground arith
  run-moved (move m ∷ es) g = run-moved es (on_move A m g) ∙ rw (on_move-moved m g) (ground arith)
  run-moved (frame ∷ es) g = run-moved es (on_frame A emit g) ∙ rw (on_frame-moved g) refl
