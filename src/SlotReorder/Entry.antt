-- ===== src/SlotReorder/Entry.antt =====
-- What the drop of a slot leaves to undo.
use daw_project.Common.{
  ◌≡◌, refl, suc, length, Bool, true, false, ◌&&◌, ◌||◌, not, Option, none, some, List, [], ◌⊎◌,
  inl, inr, str_eq, Bool-cases,
}
use daw_project.Journal.{normal}
use daw_project.Mutators.Clips
use daw_project.Project.{Automerge, Project, begin_undo_group, end_undo_group}
use daw_project.Project.Composite.{Reply}
use daw_project.Project.Composite.Gesture.{
  Stack, Open, Closed, Left, begin-Open, end-Open, end-Closed, mutate-Open, move_clip_to_track-Left,
}
use daw_project.ServerClient.{Bytes, Browser, ServerClient, Effect}
use daw_project.Sending.{Sent, send_last_change, send_last_change_ends}
use daw_project.SlotReorder.{
  Cell, Slot, is_free, stands, change_scene, change_track, change_both, finish, apply_drop,
}

module _ (A : Automerge) (slot : Slot) (cell : Cell) where
  change_scene-Open :
      (stack : Stack) (p : Project A)
      → Open stack p.journal
      → Open stack (change_scene A slot cell p).0.journal
  unfolding change_scene
  change_scene-Open stack p o = elim (Bool-cases (str_eq cell.scene slot.scene)) [
    | inl e ↦ rw (e, change_scene) o
    | inr e ↦
        rw (e, change_scene)
          (mutate-Open A stack (Clips.set_clip_scene slot.track slot.clip cell.scene) p o)
  ]

  change_track-Left :
      (stack : Stack) (p : Project A)
      → Open stack p.journal
      → Left A stack (change_track A slot cell p).0
  unfolding change_track
  change_track-Left stack p o = elim (Bool-cases (str_eq cell.track slot.track)) [
    | inl e ↦ rw (e, change_track) (inl o)
    | inr e ↦
        rw (e, change_track)
          (move_clip_to_track-Left A stack slot.track slot.clip cell.track none p o)
  ]

  change_both-Left :
      (stack : Stack) (p : Project A)
      → Open stack p.journal
      → Left A stack (change_both A slot cell p).0
  unfolding change_both
  change_both-Left stack p o = elim (Bool-cases (change_scene A slot cell p).1) [
    | inl e ↦ rw (e, change_both) (inl (change_scene-Open stack p o))
    | inr e ↦
        rw (e, change_both)
          (change_track-Left stack (change_scene A slot cell p).0 (change_scene-Open stack p o))
  ]

-- The call ends, and leaves at most one entry more on the stack and no group open, or a change threw.
abbrev pub OneEntry : (A : Automerge) {B : Browser} → Stack → Bool → Option (Sent A B) → Type 0
OneEntry A {B} stack threw r =
    (q : Project A) × (last : Option (ServerClient B)) × (effects : List (Effect B)) × (r
      ≡ some (q, (last, effects)))
    × (Closed stack q.journal ⊎ (threw ≡ true))

abbrev pub is_failed : Reply → Bool
is_failed Reply.failed = true
is_failed _ = false

module _ (A : Automerge) where
  end-Closed_project :
      (stack : Stack) (p : Project A) → Left A stack p → Closed stack (end_undo_group A p).journal
  unfolding end_undo_group
  end-Closed_project stack p (inl o) = end-Open stack p.journal o
  end-Closed_project stack p (inr c) = end-Closed stack p.journal c

  begin-Open_group :
      (p : Project A)
      → p.journal.route ≡ normal
      → p.journal.grouping ≡ none
      → Open p.journal.undo_stack (begin_undo_group A p).journal
  unfolding begin_undo_group
  begin-Open_group p r g = begin-Open p.journal r g

module _ (A : Automerge) {B : Browser} (wire : A.Change → Bytes) where
  sent-OneEntry :
      (client : Option (ServerClient B)) (stack : Stack) (threw : Bool) (q : Project A)
      → Closed stack q.journal
      → OneEntry A stack threw (send_last_change A wire (suc (length q.pending)) q client)
  sent-OneEntry client stack threw q c =
      let (last, effects, e) = send_last_change_ends A wire q client in
      (record q { pending = [] }, last, effects, e, inl c)

  finish-OneEntry :
      (client : Option (ServerClient B)) (stack : Stack) (r : Project A × Reply)
      → Left A stack r.0
      → OneEntry A stack (is_failed r.1) (finish A wire client r)
  unfolding finish
  finish-OneEntry client stack (p, Reply.failed) l = (p, client, [], refl, inr refl)
  finish-OneEntry client stack (p, Reply.null) l =
      sent-OneEntry client stack false (end_undo_group A p) (end-Closed_project A stack p l)
  finish-OneEntry client stack (p, Reply.id name) l =
      sent-OneEntry client stack false (end_undo_group A p) (end-Closed_project A stack p l)

  -- A drop on any cell, outside any gesture and replay: the call ends, and either one of the changes
  -- threw, or no undo group is open after it and the undo stack is as before or has one entry pushed,
  -- also where the scene and the track both change and the move ends the group on its own.
  pub apply_drop-OneEntry :
      (slot : Slot) (cell : Cell) (p : Project A) (client : Option (ServerClient B))
      → p.journal.route ≡ normal
      → p.journal.grouping ≡ none
      → OneEntry A p.journal.undo_stack
          (is_failed (change_both A slot cell (begin_undo_group A p)).1)
          (apply_drop A wire slot cell p client)
  unfolding apply_drop
  apply_drop-OneEntry slot cell p client r g =
      elim (Bool-cases (
        not (is_free cell)
        || (str_eq cell.track slot.track && str_eq cell.scene slot.scene)
        || not (stands (A.content p.doc) slot))) [
          | inl e ↦ (p, client, [], rw (e, apply_drop), inl (g, inl refl))
          | inr e ↦
              rw (e, apply_drop)
                (finish-OneEntry client p.journal.undo_stack
                  (change_both A slot cell (begin_undo_group A p))
                  (change_both-Left A slot cell p.journal.undo_stack (begin_undo_group A p)
                    (begin-Open_group A p r g)))
        ]
