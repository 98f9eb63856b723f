-- ===== src/SlotReorder.antt =====
-- Dragging a slot of the session grid to another cell, web/src/app/slot_reorder.ts: the drop. The
-- pointer, and what is drawn meanwhile, are left out.
pub mod Entry
use daw_project.Common.{
  String, Bool, true, false, ◌||◌, ◌&&◌, not, Option, none, some, List, [], suc, length,
  if◌then◌else◌, str_eq,
}
use daw_project.Common.Find.{any}
use daw_project.Schema.{ProjectDef}
use daw_project.Document.{find_clip}
use daw_project.Mutators.Clips
use daw_project.Project.{Automerge, Project, mutate, begin_undo_group, end_undo_group}
use daw_project.Project.Composite.{Reply, move_clip_to_track}
use daw_project.ServerClient.{Bytes, Browser, ServerClient}
use daw_project.Sending.{Sent, send_last_change}

-- `ssTrack`, `ssScene` and `ssClip` of a cell; an attribute that is not there is "".
pub record Cell : Type 0 where
  pub track : String
  pub scene : String
  pub clip : String

-- The cell is on the grid, and it is empty.
abbrev pub is_free : Cell → Bool
is_free cell = not (str_eq cell.track "" || str_eq cell.scene "" || not (str_eq cell.clip ""))

-- A slot of a scene on a track.
pub record Slot : Type 0 where
  pub track : String
  pub scene : String
  pub clip : String

abbrev stands : ProjectDef → Slot → Bool
stands d slot = elim (find_clip d slot.track slot.clip) [ none ↦ false | some _ ↦ true ]

module _ (A : Automerge) where
  -- The scene changes before the track does; a throw is the Boolean.
  unfoldable pub change_scene : Slot → Cell → Project A → Project A × Bool
  change_scene slot cell p =
      if str_eq cell.scene slot.scene
      then (p, false)
      else mutate A (Clips.set_clip_scene slot.track slot.clip cell.scene) p

  unfoldable pub change_track : Slot → Cell → Project A → Project A × Reply
  change_track slot cell p =
      if str_eq cell.track slot.track
      then (p, Reply.null)
      else move_clip_to_track A slot.track slot.clip cell.track none p

  -- What is between the two ends of the undo group.
  unfoldable pub change_both : Slot → Cell → Project A → Project A × Reply
  change_both slot cell p =
      let (q, threw) = change_scene slot cell p in
      let rest = change_track slot cell q in if threw then (q, Reply.failed) else rest

  module _ {B : Browser} (wire : A.Change → Bytes) where
    -- A throw leaves the group open and sends nothing.
    unfoldable pub finish : Option (ServerClient B) → Project A × Reply → Option (Sent A B)
    finish client (p, Reply.failed) = some (p, (client, []))
    finish client (p, _) =
        let q = end_undo_group A p in send_last_change A wire (suc (length q.pending)) q client

    unfoldable pub apply_drop :
        Slot → Cell → Project A → Option (ServerClient B) → Option (Sent A B)
    apply_drop slot cell p client =
        if not (is_free cell)
          || (str_eq cell.track slot.track && str_eq cell.scene slot.scene)
          || not (stands (A.content p.doc) slot)
        then some (p, (client, []))
        else finish client (change_both slot cell (begin_undo_group A p))
