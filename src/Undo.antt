-- ===== src/Undo.antt =====
-- The inverse operations of web/src/document/undo.ts and the key of the target that each restores.
use daw_project.Common.{ℕ, String, Bool, Option, none, some, List, [], ◌∷◌}
use daw_project.Num.{Num}
use daw_project.Schema.{
  Name, NoteDef, ClipDef, ProcessorDef, AutomationLaneDef, TrackDef, SceneDef, or_else,
}

pub record ClipTiming : Type 0 where
  pub start_sample : Option Num
  pub length_samples : Option Num
  pub offset_samples : Option Num
  pub start_tick : Option Num
  pub length_tick : Option Num

pub record ClipBounds : Type 0 where
  pub start_sample : Num
  pub length_samples : Num
  pub offset_samples : Num

pub record NotePatch : Type 0 where
  pub pitch : Option Num
  pub velocity : Option Num
  pub start_sample : Option Num
  pub length_samples : Option Num
  pub start_tick : Option Num
  pub length_tick : Option Num

-- A clip with the track that it stood on.
pub record PlacedClip : Type 0 where
  pub track_id : String
  pub clip : ClipDef

-- `trackId` is `none` where the source has null, for the master's lanes.
pub data InverseOp : Type 0 where
  set_track_gain : String → Num → InverseOp
  set_track_pan : String → Num → InverseOp
  set_track_order : String → Num → InverseOp
  clear_track_order : String → InverseOp
  rename_track : String → Name → InverseOp
  rename_clip : String → String → Name → InverseOp
  set_master_gain : Num → InverseOp
  set_tempo : Num → InverseOp
  set_processor_bypass : String → String → Bool → InverseOp
  set_processor_param : String → String → String → Num → InverseOp
  remove_processor_param : String → String → String → InverseOp
  set_clip_start : String → String → Num → InverseOp
  set_clip_bounds : String → String → ClipBounds → InverseOp
  set_clip_timing : String → String → ClipTiming → InverseOp
  set_clip_fades : String → String → Num → Num → InverseOp
  add_clip : String → ClipDef → InverseOp
  delete_clip : String → String → InverseOp
  set_clip_scene : String → String → String → InverseOp
  add_track : TrackDef → InverseOp
  delete_track : String → InverseOp
  add_processor : String → ProcessorDef → ℕ → InverseOp
  remove_processor : String → String → InverseOp
  move_processor : String → String → Num → InverseOp
  toggle_note : String → String → NoteDef → InverseOp
  update_note : String → String → String → NotePatch → InverseOp
  rename_scene : String → Name → InverseOp
  delete_scene : String → InverseOp
  restore_scene : SceneDef → ℕ → List PlacedClip → InverseOp
  delete_automation_lane : Option String → String → InverseOp
  restore_automation_lane : Option String → AutomationLaneDef → ℕ → InverseOp
  set_automation_lane_enabled : Option String → String → Bool → InverseOp
  add_automation_point : Option String → String → Num → Num → InverseOp
  move_automation_point : Option String → String → ℕ → Num → Num → InverseOp
  delete_automation_point : Option String → String → ℕ → InverseOp

-- A piece of a template text, between the colons. A key is the list of its pieces: the ids that
-- `newId` makes hold no colon, so equal texts have equal pieces.
pub data Segment : Type 0 where
  text : String → Segment
  number : Num → Segment
  index : ℕ → Segment
  undefined : Segment

abbrev pub TargetKey : Type 0
TargetKey = List Segment

abbrev position_segment : Option Num → Option Num → Segment
position_segment (some tick) sample = number tick
position_segment none (some sample) = number sample
position_segment none none = undefined

abbrev pub scope : Option String → Segment
scope track_id = text (or_else track_id "master")

unfoldable pub target_key : InverseOp → TargetKey
target_key (set_track_gain t g) = text "gain" ∷ text t ∷ []
target_key (set_track_pan t p) = text "pan" ∷ text t ∷ []
target_key (set_track_order t o) = text "order" ∷ text t ∷ []
target_key (clear_track_order t) = text "order" ∷ text t ∷ []
target_key (rename_track t n) = text "trackname" ∷ text t ∷ []
target_key (rename_clip t c n) = text "clipname" ∷ text t ∷ text c ∷ []
target_key (set_master_gain g) = text "master" ∷ []
target_key (set_tempo m) = text "tempo" ∷ []
target_key (set_processor_bypass t p b) = text "byp" ∷ text t ∷ text p ∷ []
target_key (set_processor_param t p k v) = text "param" ∷ text t ∷ text p ∷ text k ∷ []
target_key (remove_processor_param t p k) = text "param" ∷ text t ∷ text p ∷ text k ∷ []
target_key (set_clip_start t c s) = text "clipstart" ∷ text t ∷ text c ∷ []
target_key (set_clip_bounds t c b) = text "clipbounds" ∷ text t ∷ text c ∷ []
target_key (set_clip_timing t c m) = text "clipstart" ∷ text t ∷ text c ∷ []
target_key (set_clip_fades t c i o) = text "clipfades" ∷ text t ∷ text c ∷ []
target_key (add_clip t c) = text "clip" ∷ text t ∷ text c.id ∷ []
target_key (delete_clip t c) = text "clip" ∷ text t ∷ text c ∷ []
target_key (set_clip_scene t c s) = text "clipscene" ∷ text t ∷ text c ∷ []
target_key (add_track t) = text "track" ∷ text t.id ∷ []
target_key (delete_track t) = text "track" ∷ text t ∷ []
target_key (add_processor t p i) = text "proc" ∷ text t ∷ text p.id ∷ []
target_key (remove_processor t p) = text "proc" ∷ text t ∷ text p ∷ []
target_key (move_processor t p i) = text "procmove" ∷ text t ∷ text p ∷ []
target_key (toggle_note t c n) =
    text "note"
    ∷ text t
    ∷ text c
    ∷ number n.pitch
    ∷ position_segment n.start_tick n.start_sample
    ∷ []
target_key (update_note t c n p) = text "noteid" ∷ text t ∷ text c ∷ text n ∷ []
target_key (rename_scene s n) = text "scenename" ∷ text s ∷ []
target_key (delete_scene s) = text "scene" ∷ text s ∷ []
target_key (restore_scene s i cs) = text "scene" ∷ text s.id ∷ []
target_key (delete_automation_lane t l) = text "alane" ∷ scope t ∷ text l ∷ []
target_key (restore_automation_lane t l i) = text "alane" ∷ scope t ∷ text l.id ∷ []
target_key (set_automation_lane_enabled t l b) = text "alaneon" ∷ scope t ∷ text l ∷ []
target_key (add_automation_point t l x v) =
    text "apoint" ∷ scope t ∷ text l ∷ number x ∷ number v ∷ []
target_key (move_automation_point t l i x v) =
    text "apoint" ∷ scope t ∷ text l ∷ number x ∷ number v ∷ []
target_key (delete_automation_point t l i) = text "apoint-i" ∷ scope t ∷ text l ∷ index i ∷ []
