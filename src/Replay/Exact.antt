-- ===== src/Replay/Exact.antt =====
-- One undo step through the dispatch of `Project.replay`.
use daw_project.Common.{String, ◌≡◌}
use daw_project.Schema.{ProjectDef}
use daw_project.Undo.{InverseOp}
use daw_project.Document.{applied}
use daw_project.Replay.{perform}
use daw_project.Replay.Reversible.{Reversible, BackTo}
use daw_project.Replay.Reversible.Tracks.{
  gain-BackTo, pan-BackTo, order-BackTo, clear-BackTo, rename-BackTo,
}
use daw_project.Replay.Reversible.Clips.{
  clip_name-BackTo, bounds-BackTo, start-BackTo, timing-BackTo, fades-BackTo, scene-BackTo,
}
use daw_project.Replay.Reversible.Added.{add_clip-BackTo, add_track-BackTo, add_processor-BackTo}
use daw_project.Replay.Reversible.Globals.{master-BackTo, tempo-BackTo, scene_name-BackTo}
use daw_project.Replay.Reversible.Chain.{bypass-BackTo, remove-BackTo, move-BackTo}

perform-BackTo :
    (fresh : String) (d : ProjectDef) (op : InverseOp)
    → Reversible op d
    → BackTo fresh d (perform fresh op d)
unfolding perform
perform-BackTo fresh d (InverseOp.set_track_gain t g) r = gain-BackTo fresh d t g r
perform-BackTo fresh d (InverseOp.set_track_pan t p) r = pan-BackTo fresh d t p r
perform-BackTo fresh d (InverseOp.set_track_order t o) r = order-BackTo fresh d t o
perform-BackTo fresh d (InverseOp.clear_track_order t) r = clear-BackTo fresh d t
perform-BackTo fresh d (InverseOp.rename_track t n) r = rename-BackTo fresh d t n r
perform-BackTo fresh d (InverseOp.rename_clip t c n) r = clip_name-BackTo fresh d t c n r
perform-BackTo fresh d (InverseOp.set_processor_bypass t p b) r = bypass-BackTo fresh d t p b
perform-BackTo fresh d (InverseOp.set_clip_start t c s) r = start-BackTo fresh d t c s r
perform-BackTo fresh d (InverseOp.set_clip_bounds t c b) r = bounds-BackTo fresh d t c b r
perform-BackTo fresh d (InverseOp.set_clip_timing t c m) r = timing-BackTo fresh d t c m r
perform-BackTo fresh d (InverseOp.set_clip_fades t c i o) r = fades-BackTo fresh d t c i o r
perform-BackTo fresh d (InverseOp.set_clip_scene t c s) r = scene-BackTo fresh d t c s r
perform-BackTo fresh d (InverseOp.remove_processor t p) r = remove-BackTo fresh d t p r
perform-BackTo fresh d (InverseOp.move_processor t p i) r = move-BackTo fresh d t p i r
perform-BackTo fresh d (InverseOp.set_master_gain g) r = master-BackTo fresh d g r
perform-BackTo fresh d (InverseOp.set_tempo m) r = tempo-BackTo fresh d m r
perform-BackTo fresh d (InverseOp.set_processor_param t p k v) r = absurd r
perform-BackTo fresh d (InverseOp.remove_processor_param t p k) r = absurd r
perform-BackTo fresh d (InverseOp.add_clip t c) r = add_clip-BackTo fresh d t c r
perform-BackTo fresh d (InverseOp.delete_clip t c) r = absurd r
perform-BackTo fresh d (InverseOp.add_track t) r = add_track-BackTo fresh d t r
perform-BackTo fresh d (InverseOp.delete_track t) r = absurd r
perform-BackTo fresh d (InverseOp.add_processor t p i) r = add_processor-BackTo fresh d t p i
perform-BackTo fresh d (InverseOp.toggle_note t c n) r = absurd r
perform-BackTo fresh d (InverseOp.update_note t c n p) r = absurd r
perform-BackTo fresh d (InverseOp.rename_scene s n) r = scene_name-BackTo fresh d s n r
perform-BackTo fresh d (InverseOp.delete_scene s) r = absurd r
perform-BackTo fresh d (InverseOp.restore_scene s i cs) r = absurd r
perform-BackTo fresh d (InverseOp.delete_automation_lane t l) r = absurd r
perform-BackTo fresh d (InverseOp.restore_automation_lane t l i) r = absurd r
perform-BackTo fresh d (InverseOp.set_automation_lane_enabled t l b) r = absurd r
perform-BackTo fresh d (InverseOp.add_automation_point t l x v) r = absurd r
perform-BackTo fresh d (InverseOp.move_automation_point t l i x v) r = absurd r
perform-BackTo fresh d (InverseOp.delete_automation_point t l i) r = absurd r

-- Where the operation is reversible on the document and changed it, performing the inverse that it
-- captured gives the old document back, every field of it, and captures a redo.
pub undo_exact :
    (fresh : String) (op inverse : InverseOp) (d d' : ProjectDef)
    → Reversible op d
    → perform fresh op d ≡ applied inverse d'
    → (again : InverseOp) × (perform fresh inverse d' ≡ applied again d)
undo_exact fresh op inverse d d' r h = rw h at (perform-BackTo fresh d op r)
