-- ===== src/Document.antt =====
-- Access to the parts of a document by id, as the mutators of web/src/document/project.ts make it,
-- and the outcome of a mutator.
pub mod Access
pub mod DisplayName
use daw_project.Common.{ℕ, String, Bool, Option, none, some, List, str_eq, ◌>>=◌}
use daw_project.Common.Find.{find, update_first}
use daw_project.Schema.{ClipDef, ProcessorDef, TrackDef, ProjectDef}
use daw_project.Undo.{InverseOp}

-- A mutator captures one inverse and changes the document, or returns before both, or throws.
pub data Outcome : Type 0 where
  applied : InverseOp → ProjectDef → Outcome
  ignored : Outcome
  thrown : Outcome

abbrev pub track_is : String → TrackDef → Bool
track_is id t = str_eq t.id id

abbrev pub clip_is : String → ClipDef → Bool
clip_is id c = str_eq c.id id

abbrev pub processor_is : String → ProcessorDef → Bool
processor_is id p = str_eq p.id id

unfoldable pub find_track : ProjectDef → String → Option TrackDef
find_track d id = find (track_is id) d.tracks

unfoldable pub find_clip : ProjectDef → String → String → Option ClipDef
find_clip d track_id id = find_track d track_id >>= λ t. find (clip_is id) t.clips

unfoldable pub find_processor : ProjectDef → String → String → Option ProcessorDef
find_processor d track_id id = find_track d track_id >>= λ t. find (processor_is id) t.chain

-- A write inside `Automerge.change`, to the object found by its ids.
unfoldable pub update_track : String → (TrackDef → TrackDef) → ProjectDef → ProjectDef
update_track id f d = record d { tracks = update_first (track_is id) f d.tracks }

unfoldable pub update_clip : String → String → (ClipDef → ClipDef) → ProjectDef → ProjectDef
update_clip track_id id f =
    update_track track_id (λ t. record t { clips = update_first (clip_is id) f t.clips })

unfoldable pub update_processor :
    String → String → (ProcessorDef → ProcessorDef) → ProjectDef → ProjectDef
update_processor track_id id f =
    update_track track_id (λ t. record t { chain = update_first (processor_is id) f t.chain })
