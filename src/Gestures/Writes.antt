-- ===== src/Gestures/Writes.antt =====
-- What a resize writes: at the first frame the clip has new bounds and the undo group its one inverse; a later
-- frame overwrites the bounds and leaves the group as it is.
use daw_project.Common.{◌≡◌, refl, ◌∙◌, ap, false, some, inl, inr, ◌⊎◌}
use daw_project.Schema.{ClipDef, ProjectDef, is_musical_clip}
use daw_project.Undo.{InverseOp, ClipBounds, target_key, set_clip_bounds as op_clip_bounds}
use daw_project.Journal.{capture, begin_group}
use daw_project.Journal.Groups.{
  IsIdle, single, open_group, capture-begin_group, capture-open_group, capture_in_again,
}
use daw_project.Journal.Keys.{has_self}
use daw_project.Document.{applied, find_clip, update_clip}
use daw_project.Document.Access.{find_clip-update_clip, update_clip_overwrite}
use daw_project.Mutators.Clips.{set_clip_bounds, with_bounds, bounds_of}
use daw_project.Replay.Reversible.{IsAbsolute}
use daw_project.Project.{Automerge, Project, mutate}
use daw_project.Project.History.{mutate_parts}
use daw_project.Gestures.{Resize}

-- A clip of the absolute domain, in the project `p`, outside any gesture and replay.
module _ (A : Automerge) (p : Project A) (r : Resize) (c : ClipDef)
    (found : find_clip (A.content p.doc) r.track_id r.clip_id ≡ some c) (absolute : IsAbsolute c)
    (idle : IsIdle p.journal) where
  open A use {content, change, content-change}

  abbrev pub before : ProjectDef
  before = content p.doc

  abbrev pub with_new : ClipBounds → ProjectDef
  with_new b = update_clip r.track_id r.clip_id (with_bounds b) before

  abbrev pub inverse : InverseOp
  inverse = op_clip_bounds r.track_id r.clip_id (bounds_of c)

  -- The group is open, and nothing is written yet or the clip has bounds of the gesture.
  abbrev pub Begun : Project A → Type 0
  Begun q =
      ((content q.doc ≡ before) × (q.journal ≡ begin_group p.journal))
      ⊎ ((b : ClipBounds) × (content q.doc ≡ with_new b)
          × (q.journal ≡ open_group p.journal (single inverse)))

  first_write :
      (b : ClipBounds)
      → set_clip_bounds r.track_id r.clip_id b before ≡ applied inverse (with_new b)
  unfolding set_clip_bounds is_musical_clip
  first_write b = rw (found, set_clip_bounds, is_musical_clip, absolute.0) refl

  later_write :
      (b b' : ClipBounds)
      → set_clip_bounds r.track_id r.clip_id b' (with_new b)
        ≡ applied (op_clip_bounds r.track_id r.clip_id (bounds_of (with_bounds b c))) (with_new b')
  unfolding set_clip_bounds is_musical_clip
  later_write b b' =
      rw
        (
          find_clip-update_clip before r.track_id r.clip_id (with_bounds b) c found refl,
          set_clip_bounds,
          is_musical_clip,
          absolute.0,
        )
        (ap (applied (op_clip_bounds r.track_id r.clip_id (bounds_of (with_bounds b c)))) (
          update_clip_overwrite before r.track_id r.clip_id (with_bounds b) c found refl
            (with_bounds b') (with_bounds b') refl))

  capture_again :
      (b : ClipBounds)
      → capture (op_clip_bounds r.track_id r.clip_id b) (open_group p.journal (single inverse))
        ≡ open_group p.journal (single inverse)
  unfolding target_key
  capture_again b =
      capture-open_group (op_clip_bounds r.track_id r.clip_id b) p.journal (single inverse)
        idle.route
      ∙ ap (open_group p.journal) (
          capture_in_again (op_clip_bounds r.track_id r.clip_id b) (single inverse)
            (has_self (target_key inverse)))

  -- A write of the gesture.
  pub flush-Begun :
      (b : ClipBounds) (q : Project A)
      → Begun q
      → ((mutate A (set_clip_bounds r.track_id r.clip_id b) q).1 ≡ false)
        × (content (mutate A (set_clip_bounds r.track_id r.clip_id b) q).0.doc ≡ with_new b)
        × ((mutate A (set_clip_bounds r.track_id r.clip_id b) q).0.journal
            ≡ open_group p.journal (single inverse))
  flush-Begun b q (inl (same, j)) =
      let m =
        mutate_parts A (set_clip_bounds r.track_id r.clip_id b) q
          (ap (set_clip_bounds r.track_id r.clip_id b) same ∙ first_write b) in
      (
        m.0,
        m.1,
        m.2
            ∙ ap (capture inverse) j
            ∙ capture-begin_group inverse p.journal idle.route idle.grouping,
      )
  flush-Begun b q (inr (b', written, j)) =
      let m =
        mutate_parts A (set_clip_bounds r.track_id r.clip_id b) q
          (ap (set_clip_bounds r.track_id r.clip_id b) written ∙ later_write b' b) in
      (
        m.0,
        m.1,
        m.2
            ∙ ap (capture (op_clip_bounds r.track_id r.clip_id (bounds_of (with_bounds b' c)))) j
            ∙ capture_again (bounds_of (with_bounds b' c)),
      )
