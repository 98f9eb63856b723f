-- ===== src/Replay/Total.antt =====
-- No operation of the dispatch throws on a document that the tempo kernel can read.
use daw_project.Common.{ℕ, ◌<◌, List, [], ◌∷◌, ◌≡◌, refl, String, Bool, Option, some, arith}
use daw_project.Common.Int.{◌+ℤ◌}
use daw_project.Num.{Num, num}
use daw_project.Sanitize.{JsValue, finite}
use daw_project.Schema.{
  ensure_v2, Name, TrackDef, ProcessorDef, NoteDef, SceneDef, AutomationLaneDef, ClipDef,
  ProjectDef, or_else, effective_tempo_map,
}
use daw_project.Geometry.{sample_to_tick}
use daw_project.Geometry.Adjacent.{HasSortedMap}
use daw_project.Tempo.Kernel.{effective_map-IsMap, tick_at_sample_total}
use daw_project.Undo.{InverseOp, ClipTiming, ClipBounds, NotePatch, PlacedClip}
use daw_project.Document.{
  update_track, update_clip, update_processor, Outcome, applied, ignored, thrown,
}
use daw_project.Mutators.Tracks
use daw_project.Mutators.Clips
use daw_project.Mutators.Processors
use daw_project.Mutators.Scenes
use daw_project.Mutators.Notes
use daw_project.Mutators.Lanes
use daw_project.Replay.{perform}

-- The outcome is no throw, and its document has the tempo map and the sample rate of the old one.
abbrev pub Returns : ProjectDef → Outcome → Type 0
Returns d thrown = ⊥
Returns d ignored = Unit
Returns d (applied inverse d') = (d'.tempo_map ≡ d.tempo_map) × (d'.sample_rate ≡ d.sample_rate)

module _ (fresh : String) (d : ProjectDef) where
  sample_to_tick_total :
      HasSortedMap d → 0 < d.sample_rate → (x : Num) → (t : Num) × (sample_to_tick d x ≡ some t)
  unfolding sample_to_tick effective_tempo_map
  sample_to_tick_total sorted l x =
      let (boundaries, t, e, f) =
        tick_at_sample_total d.sample_rate (effective_tempo_map d) x
          (effective_map-IsMap (or_else d.tempo_milli_bpm (num 120000)) (or_else d.tempo_map [])
            sorted)
          l in
      (num t, rw (e, f) refl)

  set_track_gain-Returns : (x0 : String) (x1 : Num) → Returns d (Tracks.set_track_gain x0 x1 d)
  unfolding Tracks.set_track_gain update_track update_clip update_processor ensure_v2
  set_track_gain-Returns x0 x1 = ground arith

  set_track_pan-Returns : (x0 : String) (x1 : Num) → Returns d (Tracks.set_track_pan x0 x1 d)
  unfolding Tracks.set_track_pan update_track update_clip update_processor ensure_v2
  set_track_pan-Returns x0 x1 = ground arith

  set_track_order-Returns :
      (x0 : String) (x1 : JsValue) → Returns d (Tracks.set_track_order x0 x1 d)
  unfolding Tracks.set_track_order update_track update_clip update_processor ensure_v2
  set_track_order-Returns x0 x1 = ground arith

  clear_track_order-Returns : (x0 : String) → Returns d (Tracks.clear_track_order x0 d)
  unfolding Tracks.clear_track_order update_track update_clip update_processor ensure_v2
  clear_track_order-Returns x0 = ground arith

  rename_track-Returns : (x0 : String) (x1 : Name) → Returns d (Tracks.rename_track x0 x1 d)
  unfolding Tracks.rename_track update_track update_clip update_processor ensure_v2
  rename_track-Returns x0 x1 = ground arith

  rename_clip-Returns :
      (x0 : String) (x1 : String) (x2 : Name) → Returns d (Clips.rename_clip x0 x1 x2 d)
  unfolding Clips.rename_clip update_track update_clip update_processor ensure_v2
  rename_clip-Returns x0 x1 x2 = ground arith

  set_master_gain-Returns : (x0 : Num) → Returns d (Tracks.set_master_gain x0 d)
  unfolding Tracks.set_master_gain update_track update_clip update_processor ensure_v2
  set_master_gain-Returns x0 = ground arith

  set_tempo-Returns : (x0 : Num) → Returns d (Tracks.set_tempo_milli_bpm x0 d)
  unfolding Tracks.set_tempo_milli_bpm update_track update_clip update_processor ensure_v2
  set_tempo-Returns x0 = ground arith

  set_processor_bypass-Returns :
      (x0 : String) (x1 : String) (x2 : Bool)
      → Returns d (Processors.set_processor_bypass x0 x1 x2 d)
  unfolding Processors.set_processor_bypass update_track update_clip update_processor ensure_v2
  set_processor_bypass-Returns x0 x1 x2 = ground arith

  set_processor_param-Returns :
      (x0 : String) (x1 : String) (x2 : String) (x3 : Num)
      → Returns d (Processors.set_processor_param x0 x1 x2 x3 d)
  unfolding Processors.set_processor_param update_track update_clip update_processor ensure_v2
  set_processor_param-Returns x0 x1 x2 x3 = ground arith

  remove_processor_param-Returns :
      (x0 : String) (x1 : String) (x2 : String)
      → Returns d (Processors.remove_processor_param x0 x1 x2 d)
  unfolding Processors.remove_processor_param update_track update_clip update_processor ensure_v2
  remove_processor_param-Returns x0 x1 x2 = ground arith

  set_clip_timing-Returns :
      (x0 : String) (x1 : String) (x2 : ClipTiming) → Returns d (Clips.set_clip_timing x0 x1 x2 d)
  unfolding Clips.set_clip_timing update_track update_clip update_processor ensure_v2
  set_clip_timing-Returns x0 x1 x2 = ground arith

  set_clip_fades-Returns :
      (x0 : String) (x1 : String) (x2 : Num) (x3 : Num)
      → Returns d (Clips.set_clip_fades x0 x1 x2 x3 d)
  unfolding Clips.set_clip_fades update_track update_clip update_processor ensure_v2
  set_clip_fades-Returns x0 x1 x2 x3 = ground arith

  add_clip-Returns : (x0 : String) (x1 : ClipDef) → Returns d (Clips.add_clip x0 x1 d)
  unfolding Clips.add_clip update_track update_clip update_processor ensure_v2
  add_clip-Returns x0 x1 = ground arith

  delete_clip-Returns : (x0 : String) (x1 : String) → Returns d (Clips.delete_clip x0 x1 d)
  unfolding Clips.delete_clip update_track update_clip update_processor ensure_v2
  delete_clip-Returns x0 x1 = ground arith

  set_clip_scene-Returns :
      (x0 : String) (x1 : String) (x2 : String) → Returns d (Clips.set_clip_scene x0 x1 x2 d)
  unfolding Clips.set_clip_scene update_track update_clip update_processor ensure_v2
  set_clip_scene-Returns x0 x1 x2 = ground arith

  add_track-Returns : (x0 : TrackDef) → Returns d (Tracks.add_track x0 d)
  unfolding Tracks.add_track update_track update_clip update_processor ensure_v2
  add_track-Returns x0 = ground arith

  delete_track-Returns : (x0 : String) → Returns d (Tracks.delete_track x0 d)
  unfolding Tracks.delete_track update_track update_clip update_processor ensure_v2
  delete_track-Returns x0 = ground arith

  add_processor-Returns :
      (x0 : String) (x1 : ProcessorDef) (x2 : Option ℕ)
      → Returns d (Processors.add_processor x0 x1 x2 d)
  unfolding Processors.add_processor update_track update_clip update_processor ensure_v2
  add_processor-Returns x0 x1 x2 = ground arith

  remove_processor-Returns :
      (x0 : String) (x1 : String) → Returns d (Processors.remove_processor x0 x1 d)
  unfolding Processors.remove_processor update_track update_clip update_processor ensure_v2
  remove_processor-Returns x0 x1 = ground arith

  move_processor-Returns :
      (x0 : String) (x1 : String) (x2 : Num) → Returns d (Processors.move_processor x0 x1 x2 d)
  unfolding Processors.move_processor update_track update_clip update_processor ensure_v2
  move_processor-Returns x0 x1 x2 = ground arith

  toggle_note-Returns :
      (x0 : String) (x1 : String) (x2 : String) (x3 : NoteDef)
      → Returns d (Notes.toggle_note x0 x1 x2 x3 d)
  unfolding Notes.toggle_note update_track update_clip update_processor ensure_v2
  toggle_note-Returns x0 x1 x2 x3 = ground arith

  update_note-Returns :
      (x0 : String) (x1 : String) (x2 : String) (x3 : NotePatch)
      → Returns d (Notes.update_note x0 x1 x2 x3 d)
  unfolding Notes.update_note update_track update_clip update_processor ensure_v2
  update_note-Returns x0 x1 x2 x3 = ground arith

  rename_scene-Returns : (x0 : String) (x1 : Name) → Returns d (Scenes.rename_scene x0 x1 d)
  unfolding Scenes.rename_scene update_track update_clip update_processor ensure_v2
  rename_scene-Returns x0 x1 = ground arith

  delete_scene-Returns : (x0 : String) → Returns d (Scenes.delete_scene x0 d)
  unfolding Scenes.delete_scene update_track update_clip update_processor ensure_v2
  delete_scene-Returns x0 = ground arith

  restore_slots-same :
      (cs : List PlacedClip) (e : ProjectDef)
      → ((Scenes.restore_slots cs e).tempo_map ≡ e.tempo_map)
        × ((Scenes.restore_slots cs e).sample_rate ≡ e.sample_rate)
  unfolding Scenes.restore_slots update_track
  restore_slots-same [] e = (refl, refl)
  restore_slots-same (c ∷ cs) e =
      restore_slots-same cs (update_track c.track_id (Scenes.with_slot c.clip) e)

  restore_scene-Returns :
      (x0 : SceneDef) (x1 : ℕ) (x2 : List PlacedClip) → Returns d (Scenes.restore_scene x0 x1 x2 d)
  unfolding Scenes.restore_scene update_track update_clip update_processor ensure_v2
  restore_scene-Returns x0 x1 x2 = ground (
    arith,
    restore_slots-same x2
        (record d { scenes = some (Scenes.place_scene x0 x1 (Scenes.scenes_of d)) }),
  )

  delete_automation_lane-Returns :
      (x0 : Option String) (x1 : String) → Returns d (Lanes.delete_automation_lane x0 x1 d)
  unfolding Lanes.delete_automation_lane update_track update_clip update_processor
      Lanes.update_lanes Lanes.write_lanes
  delete_automation_lane-Returns x0 x1 = ground arith

  restore_automation_lane-Returns :
      (x0 : Option String) (x1 : AutomationLaneDef) (x2 : ℕ)
      → Returns d (Lanes.restore_automation_lane x0 x1 x2 d)
  unfolding Lanes.restore_automation_lane update_track update_clip update_processor
      Lanes.update_lanes Lanes.write_lanes
  restore_automation_lane-Returns x0 x1 x2 = ground arith

  set_automation_lane_enabled-Returns :
      (x0 : Option String) (x1 : String) (x2 : Bool)
      → Returns d (Lanes.set_automation_lane_enabled x0 x1 x2 d)
  unfolding Lanes.set_automation_lane_enabled update_track update_clip update_processor
      Lanes.update_lanes Lanes.write_lanes
  set_automation_lane_enabled-Returns x0 x1 x2 = ground arith

  add_automation_point-Returns :
      (x0 : Option String) (x1 : String) (x2 : Num) (x3 : Num)
      → Returns d (Lanes.add_automation_point x0 x1 x2 x3 d)
  unfolding Lanes.add_automation_point update_track update_clip update_processor Lanes.update_lanes
      Lanes.write_lanes
  add_automation_point-Returns x0 x1 x2 x3 = ground arith

  move_automation_point-Returns :
      (x0 : Option String) (x1 : String) (x2 : ℕ) (x3 : Num) (x4 : Num)
      → Returns d (Lanes.move_automation_point x0 x1 x2 x3 x4 d)
  unfolding Lanes.move_automation_point update_track update_clip update_processor Lanes.update_lanes
      Lanes.write_lanes
  move_automation_point-Returns x0 x1 x2 x3 x4 = ground arith

  delete_automation_point-Returns :
      (x0 : Option String) (x1 : String) (x2 : ℕ)
      → Returns d (Lanes.delete_automation_point x0 x1 x2 d)
  unfolding Lanes.delete_automation_point update_track update_clip update_processor
      Lanes.update_lanes Lanes.write_lanes
  delete_automation_point-Returns x0 x1 x2 = ground arith

  module _ (sorted : HasSortedMap d) (rate : 0 < d.sample_rate) where
    set_clip_start-Returns : (t c : String) (x : Num) → Returns d (Clips.set_clip_start t c x d)
    unfolding Clips.set_clip_start Clips.set_clip_timing update_track update_clip update_processor
        ensure_v2
    set_clip_start-Returns t c x =
        let (y, e) = sample_to_tick_total sorted rate x in ground (arith, e)

    set_clip_bounds-Returns :
        (t c : String) (b : ClipBounds) → Returns d (Clips.set_clip_bounds t c b d)
    unfolding Clips.set_clip_bounds Clips.set_clip_timing update_track update_clip update_processor
        ensure_v2
    set_clip_bounds-Returns t c b =
        let (x, e) = sample_to_tick_total sorted rate b.start_sample in
        let (y, f) = sample_to_tick_total sorted rate (b.start_sample +ℤ b.length_samples) in
        ground (arith, e, f)

    pub perform-Returns : (op : InverseOp) → Returns d (perform fresh op d)
    unfolding perform
    perform-Returns (InverseOp.set_track_gain t g) = set_track_gain-Returns t g
    perform-Returns (InverseOp.set_track_pan t p) = set_track_pan-Returns t p
    perform-Returns (InverseOp.set_track_order t o) = set_track_order-Returns t (finite o)
    perform-Returns (InverseOp.clear_track_order t) = clear_track_order-Returns t
    perform-Returns (InverseOp.rename_track t n) = rename_track-Returns t n
    perform-Returns (InverseOp.rename_clip t c n) = rename_clip-Returns t c n
    perform-Returns (InverseOp.set_master_gain g) = set_master_gain-Returns g
    perform-Returns (InverseOp.set_tempo m) = set_tempo-Returns m
    perform-Returns (InverseOp.set_processor_bypass t p b) = set_processor_bypass-Returns t p b
    perform-Returns (InverseOp.set_processor_param t p k v) = set_processor_param-Returns t p k v
    perform-Returns (InverseOp.remove_processor_param t p k) = remove_processor_param-Returns t p k
    perform-Returns (InverseOp.set_clip_start t c s) = set_clip_start-Returns t c s
    perform-Returns (InverseOp.set_clip_bounds t c b) = set_clip_bounds-Returns t c b
    perform-Returns (InverseOp.set_clip_timing t c m) = set_clip_timing-Returns t c m
    perform-Returns (InverseOp.set_clip_fades t c i o) = set_clip_fades-Returns t c i o
    perform-Returns (InverseOp.add_clip t c) = add_clip-Returns t c
    perform-Returns (InverseOp.delete_clip t c) = delete_clip-Returns t c
    perform-Returns (InverseOp.set_clip_scene t c s) = set_clip_scene-Returns t c s
    perform-Returns (InverseOp.add_track t) = add_track-Returns t
    perform-Returns (InverseOp.delete_track t) = delete_track-Returns t
    perform-Returns (InverseOp.add_processor t p i) = add_processor-Returns t p (some i)
    perform-Returns (InverseOp.remove_processor t p) = remove_processor-Returns t p
    perform-Returns (InverseOp.move_processor t p i) = move_processor-Returns t p i
    perform-Returns (InverseOp.toggle_note t c n) = toggle_note-Returns fresh t c n
    perform-Returns (InverseOp.update_note t c n p) = update_note-Returns t c n p
    perform-Returns (InverseOp.rename_scene s n) = rename_scene-Returns s n
    perform-Returns (InverseOp.delete_scene s) = delete_scene-Returns s
    perform-Returns (InverseOp.restore_scene s i cs) = restore_scene-Returns s i cs
    perform-Returns (InverseOp.delete_automation_lane t l) = delete_automation_lane-Returns t l
    perform-Returns (InverseOp.restore_automation_lane t l i) =
        restore_automation_lane-Returns t l i
    perform-Returns (InverseOp.set_automation_lane_enabled t l b) =
        set_automation_lane_enabled-Returns t l b
    perform-Returns (InverseOp.add_automation_point t l x v) = add_automation_point-Returns t l x v
    perform-Returns (InverseOp.move_automation_point t l i x v) =
        move_automation_point-Returns t l i x v
    perform-Returns (InverseOp.delete_automation_point t l i) =
        delete_automation_point-Returns t l i
