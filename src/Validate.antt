-- ===== src/Validate.antt =====
-- The structural check of a document, web/src/document/validate.ts. A message is a constructor; the
-- labels of the tracks in the messages are left out. A document is there, with its list of tracks.
pub mod Sound
use daw_project.Common.{
  ℕ, ltb, leb, String, Bool, true, false, ◌||◌, ◌&&◌, not, Option, none, some, List, [], ◌∷◌, ◌++◌,
  if◌then◌else◌, str_eq,
}
use daw_project.Common.Find.{any}
use daw_project.Common.Int.{ltb_ℤ, negsuc}
use daw_project.Num.{Num, num}
use daw_project.Schema.{
  ClipDef, ProcessorDef, TrackDef, ProjectDef, schema_version, is_musical_clip, is_some,
}
use daw_project.Selection.{is_id}

pub data Issue : Type 0 where
  version_below_1 version_unknown rate_not_positive : Issue
  track_id_empty track_id_twice gain_out_of_range pan_out_of_range : Issue
  clip_id_empty clip_id_twice negative_start_tick length_tick_invalid start_invalid : Issue
  length_invalid negative_offset device_id_empty device_type_empty : Issue

abbrev pub unless : Bool → Issue → List Issue
unless ok issue = if ok then [] else issue ∷ []

-- `x >= lo` and `x <= hi`
abbrev pub at_least : Num → Num → Bool
at_least lo x = not (ltb_ℤ x lo)

abbrev pub within : Num → Num → Num → Bool
within lo hi x = at_least lo x && at_least x hi

abbrev pub seen_id : String → List String → Bool
seen_id id seen = any (is_id id) seen

unfoldable pub id_issues : Issue → Issue → String → List String → List Issue
id_issues empty twice id seen =
    if str_eq id "" then empty ∷ [] else (if seen_id id seen then twice ∷ [] else [])

-- The set after the id: an empty one is not added.
unfoldable pub remember : String → List String → List String
remember id seen = if str_eq id "" || seen_id id seen then seen else id ∷ seen

-- A field that may be absent, and one that may not.
abbrev if_there : Option Num → (Num → Bool) → Issue → List Issue
if_there none ok issue = []
if_there (some x) ok issue = unless (ok x) issue

abbrev there_and : Option Num → (Num → Bool) → Bool
there_and none ok = false
there_and (some x) ok = ok x

abbrev positive : Num → Bool
positive x = ltb_ℤ (num 0) x

abbrev not_negative : Num → Bool
not_negative x = at_least (num 0) x

unfoldable pub clip_issues : ClipDef → List Issue
clip_issues c =
    (if is_musical_clip c
      then unless (there_and c.start_tick not_negative) negative_start_tick
        ++ if_there c.length_tick positive length_tick_invalid
      else unless (there_and c.start_sample not_negative) start_invalid)
    ++ (if not (is_musical_clip c) || not (is_some c.length_tick)
        then unless (there_and c.length_samples positive) length_invalid
        else [])
    ++ if_there c.offset_samples not_negative negative_offset

unfoldable pub clips_issues : List String → List ClipDef → List Issue
clips_issues seen [] = []
clips_issues seen (c ∷ cs) =
    id_issues clip_id_empty clip_id_twice c.id seen
    ++ clip_issues c
    ++ clips_issues (remember c.id seen) cs

unfoldable pub clips_seen : List String → List ClipDef → List String
clips_seen seen [] = seen
clips_seen seen (c ∷ cs) = clips_seen (remember c.id seen) cs

unfoldable pub chain_issues : List ProcessorDef → List Issue
chain_issues [] = []
chain_issues (p ∷ ps) =
    unless (not (str_eq p.id "")) device_id_empty
    ++ unless (not (str_eq p.kind "")) device_type_empty
    ++ chain_issues ps

unfoldable pub track_fields_issues : TrackDef → List Issue
track_fields_issues t =
    unless (within (num 0) (num 2) t.gain) gain_out_of_range
    ++ if_there t.pan (within (negsuc 1048575) (num 1)) pan_out_of_range

-- The two sets of ids are shared by the tracks.
unfoldable pub tracks_issues : List String → List String → List TrackDef → List Issue
tracks_issues track_ids clip_ids [] = []
tracks_issues track_ids clip_ids (t ∷ ts) =
    id_issues track_id_empty track_id_twice t.id track_ids
    ++ (track_fields_issues t
        ++ (clips_issues clip_ids t.clips
            ++ (chain_issues t.chain
                ++ tracks_issues (remember t.id track_ids) (clips_seen clip_ids t.clips) ts)))

unfoldable pub validate_document : ProjectDef → List Issue
unfolding tracks_issues
validate_document doc =
    unless (leb 1 doc.schema_version) version_below_1
    ++ (unless (leb doc.schema_version schema_version) version_unknown
        ++ (unless (ltb 0 doc.sample_rate) rate_not_positive ++ tracks_issues [] [] doc.tracks))
