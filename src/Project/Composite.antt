-- ===== src/Project/Composite.antt =====
-- The methods of `Project` that call several mutators, web/src/document/project.ts. The ids that
-- `newId` gives are arguments.
pub mod Gesture
use Prim.Native.Nat.{max}
use daw_project.Common.{
  ℕ, ◌-◌, String, Bool, true, false, ◌||◌, ◌&&◌, not, Option, none, some, List, [], ◌∷◌, ◌++◌,
  length, if◌then◌else◌, str_eq,
}
use daw_project.Common.Int.{◌+ℤ◌, ◌-ℤ◌, ltb_ℤ}
use daw_project.Common.Find.{find, any}
use daw_project.Num.{Num, num, eqb_num, round_num}
use daw_project.Schema.{Name, ClipDef, TrackDef, or_else, is_musical_clip}
use daw_project.Sanitize.{finite, clamp_tick}
use daw_project.Geometry.{clip_start_samples, sample_to_tick}
use daw_project.Document.{find_clip, track_is}
use daw_project.Mutators.Clips
use daw_project.Mutators.Clips.{whole}
use daw_project.Mutators.Scenes
use daw_project.Mutators.Scenes.{scene_is, scenes_of, in_scene}
use daw_project.Project.{Automerge, Project, mutate, begin_undo_group, end_undo_group}

-- What a method returns: null, an id, or a throw.
pub data Reply : Type 0 where
  null : Reply
  id : String → Reply
  failed : Reply

-- ` (copie)`
abbrev copy_suffix : Name
copy_suffix = 32 ∷ 40 ∷ 99 ∷ 111 ∷ 112 ∷ 105 ∷ 101 ∷ 41 ∷ []

-- The start of the right half, and the two lengths.
record Cut : Type 0 where
  at : Num
  left : Num
  right : Num

abbrev cut_at : ClipDef → Num → Cut
cut_at clip at_sample =
    let at = round_num at_sample in
    let start = or_else clip.start_sample (num 0) in
    record {
      at = at;
      left = at -ℤ start;
      right = start +ℤ or_else clip.length_samples (num 0) -ℤ at;
    }

-- A fade-out of 0 is left out.
abbrev fade_or_none : Num → Option Num
fade_or_none fade = if eqb_num fade (num 0) then none else some fade

abbrev right_half : String → ClipDef → Cut → ClipDef
right_half right_id clip cut = record {
  id = right_id;
  name = clip.name;
  asset_hash = clip.asset_hash;
  start_sample = some cut.at;
  length_samples = some cut.right;
  offset_samples = some (or_else clip.offset_samples (num 0) +ℤ cut.left);
  fade_in_samples = none;
  fade_out_samples = fade_or_none (or_else clip.fade_out_samples (num 0));
  notes = none;
  scene_id = none;
  start_tick = none;
  length_tick = none;
}

abbrev new_clip : String → ClipDef
new_clip clip_id = record {
  id = clip_id;
  name = none;
  asset_hash = "";
  start_sample = none;
  length_samples = none;
  offset_samples = some (num 0);
  fade_in_samples = none;
  fade_out_samples = none;
  notes = some [];
  scene_id = none;
  start_tick = none;
  length_tick = none;
}

module _ (A : Automerge) where
  open A use {content}

  -- A sequence of calls: a throw ends it.
  unfoldable and_then : Project A × Bool → (Project A → Project A × Bool) → Project A × Bool
  and_then (p, true) next = (p, true)
  and_then (p, false) next = next p

  unfoldable returning : Reply → Project A × Bool → Project A × Reply
  returning reply (p, true) = (p, Reply.failed)
  returning reply (p, false) = (p, reply)

  unfoldable closing : Project A → Project A × Bool
  closing p = (end_undo_group A p, false)

  split_fades : String → String → Num → Num → Project A → Project A × Bool
  split_fades track_id clip_id fade_in fade_out p =
      if not (eqb_num fade_in (num 0)) || not (eqb_num fade_out (num 0))
      then mutate A (Clips.set_clip_fades track_id clip_id fade_in (num 0)) p
      else (p, false)

  split_absolute : String → String → String → ClipDef → Cut → Project A → Project A × Reply
  unfolding and_then returning closing split_fades
  split_absolute right_id track_id clip_id clip cut p = returning (Reply.id right_id) (
      and_then
        (and_then
          (and_then
            (mutate A
              (Clips.set_clip_bounds track_id clip_id (record {
                start_sample = or_else clip.start_sample (num 0);
                length_samples = cut.left;
                offset_samples = or_else clip.offset_samples (num 0);
              }))
              (begin_undo_group A p))
            (split_fades track_id clip_id (or_else clip.fade_in_samples (num 0))
              (or_else clip.fade_out_samples (num 0))))
          (mutate A (Clips.add_clip track_id (right_half right_id clip cut))))
        closing)

  unfoldable pub split_clip : String → String → String → Num → Project A → Project A × Reply
  unfolding split_absolute
  split_clip right_id track_id clip_id at_sample p =
      elim (find_clip (content p.doc) track_id clip_id) [
        | none ↦ (p, Reply.null)
        | some clip ↦
            let cut = cut_at clip at_sample in
            if str_eq clip.asset_hash ""
              || is_musical_clip clip
              || (ltb_ℤ cut.left (num 1024) || ltb_ℤ cut.right (num 1024))
            then (p, Reply.null)
            else split_absolute right_id track_id clip_id clip cut p
      ]

  -- Taken out of one track and added to the other.
  unfoldable relocate : String → String → String → ClipDef → Project A → Project A × Reply
  unfolding and_then returning closing
  relocate from clip_id to copy p = returning Reply.null (
      and_then
        (and_then (mutate A (Clips.delete_clip from clip_id) (begin_undo_group A p))
          (mutate A (Clips.add_clip to copy)))
        closing)

  unfoldable relocate_musical :
      String → String → String → ClipDef → Option Num → Project A → Project A × Reply
  unfolding relocate
  relocate_musical from clip_id to clip none p = (p, Reply.failed)
  relocate_musical from clip_id to clip (some tick) p =
      relocate from clip_id to (record clip { start_tick = some (num (clamp_tick (finite tick))) })
        p

  -- The start that the clip has now, in samples, is `current`.
  unfoldable relocate_from :
      String → String → String → Option Num → ClipDef → Option Num → Project A → Project A × Reply
  unfolding relocate_musical relocate
  relocate_from from clip_id to start clip none p = (p, Reply.failed)
  relocate_from from clip_id to start clip (some current) p =
      let dest = whole (or_else start current) in
      if str_eq from to && eqb_num dest current
      then (p, Reply.null)
      else if is_musical_clip clip
      then relocate_musical from clip_id to clip (sample_to_tick (content p.doc) dest) p
      else relocate from clip_id to (record clip { start_sample = some dest }) p

  unfoldable pub move_clip_to_track :
      String → String → String → Option Num → Project A → Project A × Reply
  unfolding relocate_from
  move_clip_to_track from clip_id to start p = elim (find_clip (content p.doc) from clip_id) [
    | none ↦ (p, Reply.null)
    | some clip ↦
        if any (track_is to) (content p.doc).tracks
        then relocate_from from clip_id to start clip (clip_start_samples clip (content p.doc)) p
        else (p, Reply.null)
  ]

  midi_clip : String → Num → Num → ClipDef
  midi_clip clip_id start end' =
      let start_tick = clamp_tick (finite start) in
      record (new_clip clip_id) {
        start_tick = some (num start_tick);
        length_tick = some (num (max 960 (clamp_tick (finite end') - start_tick)));
      }

  -- Both conversions come before the clip is added.
  add_midi : String → String → Option Num → Option Num → Project A → Project A × Reply
  unfolding returning midi_clip
  add_midi clip_id track_id (some start) (some end') p =
      returning (Reply.id clip_id)
        (mutate A (Clips.add_clip track_id (midi_clip clip_id start end')) p)
  add_midi clip_id track_id _ _ p = (p, Reply.failed)

  unfoldable pub add_midi_clip : String → String → Num → Num → Project A → Project A × Reply
  unfolding add_midi
  add_midi_clip clip_id track_id start length' p =
      add_midi clip_id track_id (sample_to_tick (content p.doc) start)
        (sample_to_tick (content p.doc) (start +ℤ length')) p

  unfoldable pub add_session_clip : String → String → String → Project A → Project A × Reply
  unfolding returning
  add_session_clip clip_id track_id scene_id p = returning (Reply.id clip_id) (
      mutate A
        (Clips.add_clip track_id (record (new_clip clip_id) {
          start_sample = some (num 0);
          length_samples = some (num 96000);
          scene_id = some scene_id;
        }))
        p)

  -- The first slot of the scene on each track, with a new id, by the tracks left.
  copy_slots : (ℕ → String) → String → String → List TrackDef → Project A → Project A × Bool
  copy_slots fresh scene_id copy_id [] p = (p, false)
  copy_slots fresh scene_id copy_id (t ∷ ts) p = elim (find (in_scene scene_id) t.clips) [
    | none ↦ copy_slots fresh scene_id copy_id ts p
    | some slot ↦
        let (q, threw) =
          mutate A
            (Clips.add_clip t.id (record slot { id = fresh (length ts); scene_id = some copy_id }))
            p in
        let rest = copy_slots fresh scene_id copy_id ts q in if threw then (q, true) else rest
  ]

  unfoldable pub duplicate_scene : String → (ℕ → String) → String → Project A → Project A × Reply
  unfolding and_then returning closing copy_slots
  duplicate_scene copy_id fresh scene_id p =
      elim (find (scene_is scene_id) (scenes_of (content p.doc))) [
        | none ↦ (p, Reply.null)
        | some scene ↦
            let q =
              mutate A (Scenes.add_scene copy_id (scene.name ++ copy_suffix))
                (begin_undo_group A p) in
            returning (Reply.id copy_id) (
              and_then (and_then q (copy_slots fresh scene_id copy_id (content q.0.doc).tracks))
                closing)
      ]
