-- ===== src/Gestures/Undone.antt =====
-- A whole resize of a clip is undone at once.
use mathlib.Core.Path.{subst}
use daw_project.Common.{
  ℕ, ◌≡◌, refl, ◌∙◌, ap, sym, String, Bool, true, false, not, ◌&&◌, some, List, [], ◌∷◌,
  if◌then◌else◌, Bool-cases, Option-cases, inl, inr, ◌⊎◌,
}
use daw_project.Schema.{ClipDef, ProjectDef}
use daw_project.Undo.{InverseOp, ClipBounds}
use daw_project.Journal.{begin_group, end_group, pop_undo}
use daw_project.Journal.Groups.{IsIdle, single, open_group, pop_undo-end_group}
use daw_project.Document.{find_clip}
use daw_project.Mutators.Clips.{set_clip_bounds, bounds_of}
use daw_project.Mutators.Clips.Undo.{set_clip_bounds_back}
use daw_project.Replay.{perform}
use daw_project.Replay.Reversible.{IsAbsolute}
use daw_project.Project.{Automerge, Project, done, mutate, begin_undo_group, end_undo_group, undo}
use daw_project.Project.History.{undo_single}
use daw_project.Gestures.{
  Resize, Move, is_small, pending_after, Gesture, start_resize, on_move, flush_bounds, on_frame,
  on_up, Event, move, frame, run,
}
use daw_project.Gestures.Writes
use daw_project.Gestures.Wide.{is_wide, run-moved}

-- A clip of the absolute domain, in the project `p`, outside any gesture and replay.
module _ (A : Automerge) (emit : List A.Change → List A.Change) (fresh : ℕ → String) (p : Project A)
    (r : Resize) (c : ClipDef) (found : find_clip (A.content p.doc) r.track_id r.clip_id ≡ some c)
    (absolute : IsAbsolute c) (idle : IsIdle p.journal) where
  open A use {content}

  abbrev before : ProjectDef
  before = Writes.before A p r c found absolute idle

  abbrev with_new : ClipBounds → ProjectDef
  with_new = Writes.with_new A p r c found absolute idle

  abbrev inverse : InverseOp
  inverse = Writes.inverse A p r c found absolute idle

  abbrev Begun : Project A → Type 0
  Begun = Writes.Begun A p r c found absolute idle

  -- Before the first move nothing is changed and no frame waits.
  abbrev Inv : Gesture A → Type 0
  Inv g =
      (g.resize ≡ r)
      × (((g.moved ≡ false) × (g.frame ≡ false) × (g.project ≡ p))
          ⊎ ((g.moved ≡ true) × Begun g.project))

  start-Inv : Inv (start_resize A p r)
  start-Inv = (refl, inl (refl, refl, refl))

  abbrev Stage : Bool → Project A → Type 0
  Stage moved q = ((moved ≡ false) × (q ≡ p)) ⊎ ((moved ≡ true) × Begun q)

  begin-Begun :
      (moved : Bool) (q : Project A)
      → Stage moved q
      → Begun (if moved then q else begin_undo_group A q)
  unfolding begin_undo_group
  begin-Begun false q (inl (m, e)) =
      inl (ap (λ x. content x.doc) e, ap (λ x. begin_group x.journal) e)
  begin-Begun true q (inl (m, e)) = cc
  begin-Begun false q (inr (m, w)) = cc
  begin-Begun true q (inr (m, w)) = w

  Inv-Stage : (g : Gesture A) → Inv g → Stage g.moved g.project
  Inv-Stage g (_, inl (m, f, e)) = inl (m, e)
  Inv-Stage g (_, inr (m, w)) = inr (m, w)

  on_move-Inv : (m : Move) (g : Gesture A) → Inv g → Inv (on_move A m g)
  unfolding on_move
  on_move-Inv m g i =
      let w = begin-Begun g.moved g.project (Inv-Stage g i) in
      elim (Bool-cases (not g.moved && is_small m.dx)) [
        | inl e ↦ rw (e, on_move) i
        | inr e ↦ elim (Option-cases (pending_after g.resize m g.pending)) [
          | inl f ↦ rw (e, f, on_move) (i.0, inr (refl, w))
          | inr (b, f) ↦ rw (e, f, on_move) (i.0, inr (refl, w))
        ]
      ]

  framed : (b : Bool) → b ≡ true → (g h : Gesture A) → Inv h → Inv (if b then h else g)
  framed true e g h i = i
  framed false e g h i = cc

  unframed : (b : Bool) → b ≡ false → (g h : Gesture A) → Inv g → Inv (if b then h else g)
  unframed true e g h i = cc
  unframed false e g h i = i

  abbrev Written : ClipBounds → Project A × Bool → Type 0
  Written b m =
      (m.1 ≡ false)
      × (content m.0.doc ≡ with_new b)
      × (m.0.journal ≡ open_group p.journal (single inverse))

  emitted :
      (b : ClipBounds) (m : Project A × Bool)
      → Written b m
      → Written b (if m.1 then (m.0, true) else (record m.0 { pending = emit m.0.pending }, false))
  emitted b (q, true) w = cc (w.0)
  emitted b (q, false) w = w

  flush-Written :
      (g : Gesture A) → g.resize ≡ r → Begun g.project → Written g.pending (flush_bounds A emit g)
  unfolding flush_bounds
  flush-Written g e w =
      emitted g.pending
        (mutate A (set_clip_bounds g.resize.track_id g.resize.clip_id g.pending) g.project)
        (subst
          (λ q.
            Written g.pending (mutate A (set_clip_bounds q.track_id q.clip_id g.pending) g.project))
          (sym e) (Writes.flush-Begun A p r c found absolute idle g.pending g.project w))

  on_frame-Inv : (g : Gesture A) → Inv g → Inv (on_frame A emit g)
  unfolding on_frame
  on_frame-Inv g i = elim (Bool-cases g.frame) [
    | inl e ↦ elim i.1 [
      | inl (m, f, same) ↦ cc
      | inr (m, w) ↦
          let t = flush-Written g i.0 w in
          framed g.frame e g (record g { project = (flush_bounds A emit g).0; frame = false })
            (i.0, inr (m, inr (g.pending, t.1, t.2)))
    ]
    | inr e ↦
        unframed g.frame e g (record g { project = (flush_bounds A emit g).0; frame = false }) i
  ]

  run-Inv : (es : List Event) (g : Gesture A) → Inv g → Inv (run A emit es g)
  unfolding run
  run-Inv [] g i = i
  run-Inv (move m ∷ es) g i = run-Inv es (on_move A m g) (on_move-Inv m g i)
  run-Inv (frame ∷ es) g i = run-Inv es (on_frame A emit g) (on_frame-Inv g i)

  upped :
      (moved : Bool)
      → moved ≡ true
      → (q : Project A) (m : Project A × Bool) → m.1 ≡ false
      → (if moved then (if m.1 then m.0 else end_undo_group A m.0) else q) ≡ end_undo_group A m.0
  upped true e q m f = rw f refl
  upped false e q m f = cc

  not_upped : (moved : Bool) → moved ≡ false → (q m : Project A) → (if moved then m else q) ≡ q
  not_upped true e q m = cc
  not_upped false e q m = refl

  -- The project after the pointer went up, where the gesture moved: it has the pending bounds.
  abbrev IsUndoable : ClipBounds → Project A → Type 0
  IsUndoable b q =
      (content q.doc ≡ with_new b)
      × (pop_undo q.journal ≡ (some (inverse ∷ []), record p.journal { redo_stack = [] }))

  up-IsUndoable :
      (g : Gesture A)
      → g.resize ≡ r
      → g.moved ≡ true
      → Begun g.project
      → IsUndoable g.pending (on_up A emit g)
  unfolding on_up end_undo_group
  up-IsUndoable g e m w =
      let t = flush-Written g e w in
      let up = upped g.moved m g.project (flush_bounds A emit g) t.0 in
      (
        ap (λ q. content q.doc) up ∙ t.1,
        ap (λ q. pop_undo q.journal) up
            ∙ ap (λ j. pop_undo (end_group j)) t.2
            ∙ pop_undo-end_group p.journal (single inverse) inverse [] refl idle.route idle.grouping
                idle.room,
      )

  undone_up :
      (b : ClipBounds) (q : Project A)
      → IsUndoable b q
      → (content (undo A emit fresh q).0.doc ≡ before)
        × ((undo A emit fresh q).0.journal.undo_stack ≡ p.journal.undo_stack)
        × ((undo A emit fresh q).1 ≡ done)
  unfolding perform
  undone_up b q (written, pops) =
      undo_single A emit fresh q inverse (record p.journal { redo_stack = [] }) pops
        (record { route = idle.route; grouping = idle.grouping; room = idle.room })
        (ap (set_clip_bounds r.track_id r.clip_id (bounds_of c)) written
          ∙ set_clip_bounds_back before r.track_id r.clip_id c found b absolute.0 absolute.1
              absolute.2 absolute.3)

  -- What a gesture of these events leaves.
  abbrev pub Settled : List Event → Type 0
  Settled es =
      let g = run A emit es (start_resize A p r) in
      let q = on_up A emit g in
      if is_wide es
      then (content q.doc ≡ with_new g.pending)
        × (content (undo A emit fresh q).0.doc ≡ before)
        × ((undo A emit fresh q).0.journal.undo_stack ≡ p.journal.undo_stack)
        × ((undo A emit fresh q).1 ≡ done)
      else q ≡ p

  choose_then : (b : Bool) (X Y : Type 0) → b ≡ true → X → if b then X else Y
  choose_then true X Y e x = x
  choose_then false X Y e x = cc

  choose_else : (b : Bool) (X Y : Type 0) → b ≡ false → Y → if b then X else Y
  choose_else true X Y e y = cc
  choose_else false X Y e y = y

  stays_still : (g : Gesture A) → g.moved ≡ false → g.project ≡ p → on_up A emit g ≡ p
  unfolding on_up
  stays_still g m e =
      not_upped g.moved m g.project (
        if (flush_bounds A emit g).1
        then (flush_bounds A emit g).0
        else end_undo_group A (flush_bounds A emit g).0)
      ∙ e

  abbrev Left : Bool → Gesture A → Type 0
  Left moved g =
      let q = on_up A emit g in
      if moved
      then (content q.doc ≡ with_new g.pending)
        × (content (undo A emit fresh q).0.doc ≡ before)
        × ((undo A emit fresh q).0.journal.undo_stack ≡ p.journal.undo_stack)
        × ((undo A emit fresh q).1 ≡ done)
      else q ≡ p

  Inv-Left : (g : Gesture A) → Inv g → Left g.moved g
  Inv-Left g (e, inl (m, f, same)) = choose_else g.moved _ _ m (stays_still g m same)
  Inv-Left g (e, inr (m, w)) =
      let u = up-IsUndoable g e m w in
      let back = undone_up g.pending (on_up A emit g) u in
      choose_then g.moved _ _ m (u.0, back.0, back.1, back.2)

  -- A resize of a clip of the absolute domain, from pointer down to pointer up, under any moves and
  -- frames, outside any gesture and replay, with room on the undo stack. Where no move of them is three
  -- pixels or more from where the pointer went down, the project is as it was. Else the document is
  -- the one of before but for the bounds of the clip, which are the pending ones; and one undo leaves
  -- the document of before in every field, and the undo stack of before, and reports that it did
  -- something.
  pub undo-resize : (es : List Event) → Settled es
  undo-resize es =
      let g = run A emit es (start_resize A p r) in
      subst (λ b. Left b g) (run-moved A emit es (start_resize A p r))
        (Inv-Left g (run-Inv es (start_resize A p r) start-Inv))
