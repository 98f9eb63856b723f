-- ===== src/Mutators/Clips.antt =====
-- Mutators of clips. A musical clip, one with a start tick, is moved and trimmed in ticks.
pub mod Undo
pub mod Fades
use Prim.Native.Nat.{max, min}
use mathlib.Core.Option
use daw_project.Common.{
  ℕ, ◌-◌, ◌*◌, ◌/◌, String, Bool, true, false, ◌||◌, Option, none, some, List, [], ◌∷◌, ◌++◌,
  if◌then◌else◌, str_eq,
}
use daw_project.Common.Find.{find, remove_first}
use daw_project.Common.Int.{◌+ℤ◌, pos_part}
use daw_project.Num.{Num, num, unit, round_pos}
use daw_project.Schema.{
  Name, ClipDef, TrackDef, ProjectDef, or_else, is_some, is_musical_clip, ensure_v2,
}
use daw_project.Sanitize.{finite, clamp_tick}
use daw_project.Geometry.{sample_to_tick}
use daw_project.Undo.{
  ClipTiming, ClipBounds, rename_clip as op_rename_clip, set_clip_start as op_clip_start,
  set_clip_bounds as op_clip_bounds, set_clip_timing as op_clip_timing,
  set_clip_fades as op_clip_fades, add_clip as op_add_clip, delete_clip as op_delete_clip,
  set_clip_scene as op_clip_scene,
}
use daw_project.Document.{
  Outcome, applied, ignored, thrown, clip_is, find_track, find_clip, update_track, update_clip,
}
use daw_project.Document.DisplayName.{display_name, eqb_name}

-- Math.max(0, Math.round(x)), as the document stores it.
abbrev pub whole : Num → Num
whole x = num (round_pos x)

abbrev pub timing_of : ClipDef → ClipTiming
timing_of clip = record {
  start_sample = clip.start_sample;
  length_samples = clip.length_samples;
  offset_samples = clip.offset_samples;
  start_tick = clip.start_tick;
  length_tick = clip.length_tick;
}

-- A clip name is removed where the new one is empty.
abbrev pub optional_name : Name → Option Name
optional_name [] = none
optional_name (c ∷ cs) = some (c ∷ cs)

abbrev pub with_clip_name : Name → ClipDef → ClipDef
with_clip_name next c = record c { name = optional_name next }

unfoldable pub rename_clip : String → String → Name → ProjectDef → Outcome
rename_clip track_id clip_id name d = elim (find_clip d track_id clip_id) [
  | none ↦ ignored
  | some clip ↦
      let next = display_name name in
      let before = or_else clip.name [] in
      if eqb_name next before
      then ignored
      else applied (op_rename_clip track_id clip_id before)
          (update_clip track_id clip_id (with_clip_name next) d)
]

-- The five fields: those present are set, those absent removed.
abbrev pub with_timing : ClipTiming → ClipDef → ClipDef
with_timing timing c = record c {
  start_sample = Option.map whole timing.start_sample;
  length_samples = Option.map whole timing.length_samples;
  offset_samples = Option.map whole timing.offset_samples;
  start_tick = Option.map whole timing.start_tick;
  length_tick = Option.map whole timing.length_tick;
}

abbrev pub bump_if : Bool → ProjectDef → ProjectDef
bump_if musical d = if musical then ensure_v2 d else d

abbrev pub has_ticks : ClipTiming → Bool
has_ticks timing = is_some timing.start_tick || is_some timing.length_tick

unfoldable pub set_clip_timing : String → String → ClipTiming → ProjectDef → Outcome
set_clip_timing track_id clip_id timing d = elim (find_clip d track_id clip_id) [
  | none ↦ ignored
  | some clip ↦
      applied (op_clip_timing track_id clip_id (timing_of clip))
        (update_clip track_id clip_id (with_timing timing) (bump_if (has_ticks timing) d))
]

abbrev pub with_start : Num → ClipDef → ClipDef
with_start start c = record c { start_sample = some (whole start) }

-- The timing of a musical clip dragged to a tick; no tick where the tempo kernel throws.
move_musical : String → String → ClipDef → ProjectDef → Option Num → Outcome
move_musical track_id clip_id clip d none = thrown
move_musical track_id clip_id clip d (some tick) =
    set_clip_timing track_id clip_id
      (record (timing_of clip) { start_tick = some (num (clamp_tick (finite tick))) }) d

unfoldable pub set_clip_start : String → String → Num → ProjectDef → Outcome
unfolding move_musical
set_clip_start track_id clip_id start_sample d = elim (find_clip d track_id clip_id) [
  | none ↦ ignored
  | some clip ↦
      if is_musical_clip clip
      then move_musical track_id clip_id clip d (sample_to_tick d start_sample)
      else applied (op_clip_start track_id clip_id (or_else clip.start_sample (num 0)))
          (update_clip track_id clip_id (with_start start_sample) d)
]

abbrev pub bounded_length : Num → Num
bounded_length x = num (max 1024 (round_pos x))

abbrev pub with_bounds : ClipBounds → ClipDef → ClipDef
with_bounds b c = record c {
  start_sample = some (whole b.start_sample);
  length_samples = some (bounded_length b.length_samples);
  offset_samples = some (whole b.offset_samples);
}

abbrev pub bounds_of : ClipDef → ClipBounds
bounds_of clip = record {
  start_sample = or_else clip.start_sample (num 0);
  length_samples = or_else clip.length_samples (num 0);
  offset_samples = or_else clip.offset_samples (num 0);
}

trimmed : ClipTiming → ClipBounds → ℕ → ClipTiming
trimmed timing b start_tick = record timing {
  start_tick = some (num start_tick);
  offset_samples = some (whole b.offset_samples);
}

-- Both ends in ticks where the clip has a length in ticks; else the length stays in samples.
trim_musical :
    String → String → ClipDef → ClipBounds → ProjectDef → Option Num → Option Num → Outcome
unfolding trimmed
trim_musical track_id clip_id clip b d none end' = thrown
trim_musical track_id clip_id clip b d (some start) end' =
    let start_tick = clamp_tick (finite start) in
    elim clip.length_tick [
      | none ↦
          set_clip_timing track_id clip_id
            (record (trimmed (timing_of clip) b start_tick) {
              length_samples = some (bounded_length b.length_samples);
            })
            d
      | some _ ↦ elim end' [
        | none ↦ thrown
        | some end'' ↦
            set_clip_timing track_id clip_id
              (record (trimmed (timing_of clip) b start_tick) {
                length_tick = some (num (max 1 (clamp_tick (finite end'') - start_tick)));
              })
              d
      ]
    ]

unfoldable pub set_clip_bounds : String → String → ClipBounds → ProjectDef → Outcome
unfolding trim_musical
set_clip_bounds track_id clip_id b d = elim (find_clip d track_id clip_id) [
  | none ↦ ignored
  | some clip ↦
      if is_musical_clip clip
      then trim_musical track_id clip_id clip b d (sample_to_tick d b.start_sample)
          (sample_to_tick d (b.start_sample +ℤ b.length_samples))
      else applied (op_clip_bounds track_id clip_id (bounds_of clip))
          (update_clip track_id clip_id (with_bounds b) d)
]

-- Math.floor((c.lengthSamples ?? 0) / 2); below 0 every fade is clamped to 0 in any case.
abbrev pub half_length : ClipDef → ℕ
half_length c = pos_part (or_else c.length_samples (num 0)) / (2 * unit)

abbrev pub with_fades : Num → Num → ClipDef → ClipDef
with_fades fade_in fade_out c = record c {
  fade_in_samples = some (num (min (half_length c) (round_pos fade_in)));
  fade_out_samples = some (num (min (half_length c) (round_pos fade_out)));
}

unfoldable pub set_clip_fades : String → String → Num → Num → ProjectDef → Outcome
set_clip_fades track_id clip_id fade_in fade_out d = elim (find_clip d track_id clip_id) [
  | none ↦ ignored
  | some clip ↦
      applied
        (op_clip_fades track_id clip_id (or_else clip.fade_in_samples (num 0))
          (or_else clip.fade_out_samples (num 0)))
        (update_clip track_id clip_id (with_fades fade_in fade_out) d)
]

abbrev pub without_clip : String → TrackDef → TrackDef
without_clip clip_id t = record t { clips = remove_first (clip_is clip_id) t.clips }

abbrev pub with_clip : ClipDef → TrackDef → TrackDef
with_clip clip t = record t { clips = t.clips ++ clip ∷ [] }

unfoldable pub delete_clip : String → String → ProjectDef → Outcome
delete_clip track_id clip_id d = elim (find_clip d track_id clip_id) [
  | none ↦ ignored
  | some clip ↦ applied (op_add_clip track_id clip) (update_track track_id (without_clip clip_id) d)
]

unfoldable pub add_clip : String → ClipDef → ProjectDef → Outcome
add_clip track_id clip d = elim (find_track d track_id) [
  | none ↦ ignored
  | some _ ↦
      applied (op_delete_clip track_id clip.id)
        (update_track track_id (with_clip clip) (bump_if (is_musical_clip clip) d))
]

abbrev pub with_scene : String → ClipDef → ClipDef
with_scene scene_id c = record c { scene_id = some scene_id }

-- A clip of the timeline, with no scene or the empty one, is no slot.
unfoldable pub set_clip_scene : String → String → String → ProjectDef → Outcome
set_clip_scene track_id clip_id scene_id d = elim (find_clip d track_id clip_id) [
  | none ↦ ignored
  | some clip ↦ elim clip.scene_id [
    | none ↦ ignored
    | some old ↦
        if str_eq old "" || str_eq old scene_id
        then ignored
        else applied (op_clip_scene track_id clip_id old)
            (update_clip track_id clip_id (with_scene scene_id) d)
  ]
]
