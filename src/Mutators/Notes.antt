-- ===== src/Mutators/Notes.antt =====
-- Mutators of the notes of a MIDI clip.
use mathlib.Core.Option
use daw_project.Common.{
  String, Bool, true, false, ◌&&◌, Option, none, some, List, [], ◌∷◌, ◌++◌, ◌>>=◌, if◌then◌else◌,
  str_eq,
}
use daw_project.Common.Find.{find, any, update_first, remove_first}
use daw_project.Num.{Num, eqb_num}
use daw_project.Schema.{NoteDef, ClipDef, ProjectDef, or_else, is_some}
use daw_project.Undo.{NotePatch, toggle_note as op_toggle_note, update_note as op_update_note}
use daw_project.Document.{Outcome, applied, ignored, find_clip, update_clip}
use daw_project.Mutators.Clips.{bump_if}

-- `a === b` of fields that may be absent.
abbrev pub same_field : Option Num → Option Num → Bool
same_field none none = true
same_field (some a) (some b) = eqb_num a b
same_field _ _ = false

-- The position that tells notes of one pitch apart follows the domain of the note sought.
abbrev pub same_note : NoteDef → NoteDef → Bool
same_note note n =
    eqb_num n.pitch note.pitch
    && (if is_some note.start_tick
        then same_field n.start_tick note.start_tick
        else same_field n.start_sample note.start_sample)

abbrev pub notes_of : ClipDef → List NoteDef
notes_of c = or_else c.notes []

-- `newId('n')` is the argument `fresh`, used where the note has no id.
abbrev pub with_toggled : String → NoteDef → ClipDef → ClipDef
with_toggled fresh note c = record c {
  notes = some (
      if any (same_note note) (notes_of c)
      then remove_first (same_note note) (notes_of c)
      else notes_of c ++ record note { id = some (or_else note.id fresh) } ∷ []);
}

unfoldable pub toggle_note : String → String → String → NoteDef → ProjectDef → Outcome
toggle_note fresh track_id clip_id note d = elim (find_clip d track_id clip_id) [
  | none ↦ ignored
  | some clip ↦
      let adds =
        (if any (same_note note) (notes_of clip) then false else is_some note.start_tick) in
      applied (op_toggle_note track_id clip_id note)
        (update_clip track_id clip_id (with_toggled fresh note) (bump_if adds d))
]

abbrev pub note_has_id : String → NoteDef → Bool
note_has_id id n = elim n.id [ none ↦ false | some i ↦ str_eq i id ]

-- What the fields that the patch writes held before, where they held a number.
abbrev before_patch : NotePatch → NoteDef → NotePatch
before_patch patch n = record {
  pitch = Option.map (λ _. n.pitch) patch.pitch;
  velocity = Option.map (λ _. n.velocity) patch.velocity;
  start_sample = patch.start_sample >>= λ _. n.start_sample;
  length_samples = patch.length_samples >>= λ _. n.length_samples;
  start_tick = patch.start_tick >>= λ _. n.start_tick;
  length_tick = patch.length_tick >>= λ _. n.length_tick;
}

abbrev over : Option Num → Option Num → Option Num
over none old = old
over (some v) old = some v

abbrev pub with_patch : NotePatch → NoteDef → NoteDef
with_patch patch n = record n {
  pitch = or_else patch.pitch n.pitch;
  velocity = or_else patch.velocity n.velocity;
  start_sample = over patch.start_sample n.start_sample;
  length_samples = over patch.length_samples n.length_samples;
  start_tick = over patch.start_tick n.start_tick;
  length_tick = over patch.length_tick n.length_tick;
}

abbrev pub patch_note : String → NotePatch → ClipDef → ClipDef
patch_note note_id patch c = record c {
  notes = Option.map (update_first (note_has_id note_id) (with_patch patch)) c.notes;
}

unfoldable pub update_note : String → String → String → NotePatch → ProjectDef → Outcome
update_note track_id clip_id note_id patch d =
    elim (find_clip d track_id clip_id >>= λ c. find (note_has_id note_id) (notes_of c)) [
      | none ↦ ignored
      | some before ↦
          applied (op_update_note track_id clip_id note_id (before_patch patch before))
            (update_clip track_id clip_id (patch_note note_id patch) d)
    ]
