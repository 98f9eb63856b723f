-- ===== src/Replay.antt =====
-- The dispatch of `Project.replay`, web/src/document/project.ts: each inverse operation is a call of
-- a mutator.
pub mod Reversible
pub mod Exact
pub mod Total
use daw_project.Common.{String, Option, some}
use daw_project.Sanitize.{finite}
use daw_project.Schema.{ProjectDef}
use daw_project.Undo.{InverseOp}
use daw_project.Undo
use daw_project.Document.{Outcome}
use daw_project.Mutators.Tracks
use daw_project.Mutators.Clips
use daw_project.Mutators.Processors
use daw_project.Mutators.Scenes
use daw_project.Mutators.Notes
use daw_project.Mutators.Lanes

-- `fresh` is the id that `newId` would give to a note that has none.
unfoldable pub perform : String → InverseOp → ProjectDef → Outcome
perform fresh (InverseOp.set_track_gain t g) = Tracks.set_track_gain t g
perform fresh (InverseOp.set_track_pan t p) = Tracks.set_track_pan t p
perform fresh (InverseOp.set_track_order t o) = Tracks.set_track_order t (finite o)
perform fresh (InverseOp.clear_track_order t) = Tracks.clear_track_order t
perform fresh (InverseOp.rename_track t n) = Tracks.rename_track t n
perform fresh (InverseOp.rename_clip t c n) = Clips.rename_clip t c n
perform fresh (InverseOp.set_master_gain g) = Tracks.set_master_gain g
perform fresh (InverseOp.set_tempo m) = Tracks.set_tempo_milli_bpm m
perform fresh (InverseOp.set_processor_bypass t p b) = Processors.set_processor_bypass t p b
perform fresh (InverseOp.set_processor_param t p k v) = Processors.set_processor_param t p k v
perform fresh (InverseOp.remove_processor_param t p k) = Processors.remove_processor_param t p k
perform fresh (InverseOp.set_clip_start t c s) = Clips.set_clip_start t c s
perform fresh (InverseOp.set_clip_bounds t c b) = Clips.set_clip_bounds t c b
perform fresh (InverseOp.set_clip_timing t c m) = Clips.set_clip_timing t c m
perform fresh (InverseOp.set_clip_fades t c i o) = Clips.set_clip_fades t c i o
perform fresh (InverseOp.add_clip t c) = Clips.add_clip t c
perform fresh (InverseOp.delete_clip t c) = Clips.delete_clip t c
perform fresh (InverseOp.set_clip_scene t c s) = Clips.set_clip_scene t c s
perform fresh (InverseOp.add_track t) = Tracks.add_track t
perform fresh (InverseOp.delete_track t) = Tracks.delete_track t
perform fresh (InverseOp.add_processor t p i) = Processors.add_processor t p (some i)
perform fresh (InverseOp.remove_processor t p) = Processors.remove_processor t p
perform fresh (InverseOp.move_processor t p i) = Processors.move_processor t p i
perform fresh (InverseOp.toggle_note t c n) = Notes.toggle_note fresh t c n
perform fresh (InverseOp.update_note t c n p) = Notes.update_note t c n p
perform fresh (InverseOp.rename_scene s n) = Scenes.rename_scene s n
perform fresh (InverseOp.delete_scene s) = Scenes.delete_scene s
perform fresh (InverseOp.restore_scene s i cs) = Scenes.restore_scene s i cs
perform fresh (InverseOp.delete_automation_lane t l) = Lanes.delete_automation_lane t l
perform fresh (InverseOp.restore_automation_lane t l i) = Lanes.restore_automation_lane t l i
perform fresh (InverseOp.set_automation_lane_enabled t l b) =
    Lanes.set_automation_lane_enabled t l b
perform fresh (InverseOp.add_automation_point t l x v) = Lanes.add_automation_point t l x v
perform fresh (InverseOp.move_automation_point t l i x v) = Lanes.move_automation_point t l i x v
perform fresh (InverseOp.delete_automation_point t l i) = Lanes.delete_automation_point t l i
