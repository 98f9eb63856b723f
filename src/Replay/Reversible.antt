-- ===== src/Replay/Reversible.antt =====
-- Which operations an undo takes back exactly, on which documents.
pub mod Tracks
pub mod Clips
pub mod Chain
pub mod Added
pub mod Globals
use daw_project.Common.{◌≤◌, String, false, none, some, [], ◌≡◌, ◌≢◌, str_eq}
use daw_project.Common.Int.{◌≤ℤ◌}
use daw_project.Common.Find.{find, any, remove_first}
use daw_project.Num.{Num, num}
use daw_project.Schema.{ClipDef, SceneDef, TrackDef, ProjectDef, or_else}
use daw_project.Undo.{InverseOp}
use daw_project.Document.{
  Outcome, applied, ignored, thrown, clip_is, processor_is, track_is, find_track, find_clip,
}
use daw_project.Document.DisplayName.{display_name}
use daw_project.Mutators.Scenes.{scene_is, scenes_of}
use daw_project.Tempo.{clamp_milli_bpm}
use daw_project.Mutators.Tracks.{minus_one}
use daw_project.Mutators.Clips.{whole, bounded_length, bounds_of, with_fades}
use daw_project.Mutators.Clips.Undo.{WholeField, CleanName}
use daw_project.Replay.{perform}

abbrev pub OnTrack : ProjectDef → String → (TrackDef → Type 0) → Type 0
OnTrack d id P = (t : TrackDef) → find_track d id ≡ some t → P t

abbrev pub OnClip : ProjectDef → String → String → (ClipDef → Type 0) → Type 0
OnClip d track_id id P = (c : ClipDef) → find_clip d track_id id ≡ some c → P c

-- A clip of the absolute domain with its three fields, as the mutators write them.
abbrev pub IsAbsolute : ClipDef → Type 0
IsAbsolute c =
    (c.start_tick ≡ none)
    × (some (whole (bounds_of c).start_sample) ≡ c.start_sample)
    × (some (bounded_length (bounds_of c).length_samples) ≡ c.length_samples)
    × (some (whole (bounds_of c).offset_samples) ≡ c.offset_samples)

-- Fades that are there and are within half of the clip.
abbrev pub FadesFit : ClipDef → Type 0
FadesFit c =
    ((with_fades (or_else c.fade_in_samples (num 0)) (or_else c.fade_out_samples (num 0))
        c).fade_in_samples
      ≡ c.fade_in_samples)
    × ((with_fades (or_else c.fade_in_samples (num 0)) (or_else c.fade_out_samples (num 0))
          c).fade_out_samples
        ≡ c.fade_out_samples)

-- No second device of this id.
abbrev pub StandsOnce : String → TrackDef → Type 0
StandsOnce id t = any (processor_is id) (remove_first (processor_is id) t.chain) ≡ false

abbrev pub WholeTiming : ClipDef → Type 0
WholeTiming c =
    WholeField c.start_sample
    × WholeField c.length_samples
    × WholeField c.offset_samples
    × WholeField c.start_tick
    × WholeField c.length_tick

-- The operations that undo exactly, with what they ask of the object that they change: its old
-- value is one that the mutator could have written.
abbrev pub Reversible : InverseOp → ProjectDef → Type 0
Reversible (InverseOp.set_track_gain t g) d =
    OnTrack d t (λ tr. (num 0 ≤ℤ tr.gain) × (tr.gain ≤ℤ num 2))
Reversible (InverseOp.set_track_pan t p) d =
    OnTrack d t (λ tr. (old : Num) × (tr.pan ≡ some old) × (minus_one ≤ℤ old) × (old ≤ℤ num 1))
Reversible (InverseOp.set_track_order t o) d = Unit
Reversible (InverseOp.clear_track_order t) d = Unit
Reversible (InverseOp.rename_track t n) d =
    OnTrack d t (λ tr. (display_name tr.name ≡ tr.name) × (tr.name ≢ []))
Reversible (InverseOp.rename_clip t c n) d = OnClip d t c (λ cl. CleanName cl.name)
Reversible (InverseOp.set_processor_bypass t p b) d = Unit
Reversible (InverseOp.set_clip_start t c s) d = OnClip d t c IsAbsolute
Reversible (InverseOp.set_clip_bounds t c b) d = OnClip d t c IsAbsolute
Reversible (InverseOp.set_clip_timing t c m) d = OnClip d t c WholeTiming × (2 ≤ d.schema_version)
Reversible (InverseOp.set_clip_fades t c i o) d = OnClip d t c FadesFit
Reversible (InverseOp.set_clip_scene t c s) d = str_eq s "" ≡ false
Reversible (InverseOp.remove_processor t p) d = OnTrack d t (StandsOnce p)
Reversible (InverseOp.move_processor t p i) d = OnTrack d t (StandsOnce p)
Reversible (InverseOp.add_clip t c) d =
    OnTrack d t (λ tr. any (clip_is c.id) tr.clips ≡ false) × (2 ≤ d.schema_version)
Reversible (InverseOp.add_track t) d = any (track_is t.id) d.tracks ≡ false
Reversible (InverseOp.add_processor t p i) d = Unit
Reversible (InverseOp.set_master_gain g) d =
    (old : Num) × (d.master_gain ≡ some old) × (num 0 ≤ℤ old) × (old ≤ℤ num 2)
Reversible (InverseOp.set_tempo m) d =
    ((old : Num) × (d.tempo_milli_bpm ≡ some old) × (num (clamp_milli_bpm old) ≡ old))
    × (2 ≤ d.schema_version)
Reversible (InverseOp.rename_scene s n) d =
    (scene : SceneDef)
    → find (scene_is s) (scenes_of d) ≡ some scene
    → (display_name scene.name ≡ scene.name) × (scene.name ≢ [])
Reversible _ d = ⊥

-- The inverse that the outcome carries takes its document back to `d`.
abbrev pub BackTo : String → ProjectDef → Outcome → Type 0
BackTo fresh d (applied inverse d') =
    (again : InverseOp) × (perform fresh inverse d' ≡ applied again d)
BackTo fresh d ignored = Unit
BackTo fresh d thrown = Unit
