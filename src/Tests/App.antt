-- ===== src/Tests/App.antt =====
-- A selection of two clips, and the checks of the document with one track.
use mathlib.Core.List.{Perm}
use daw_project.Common.{◌≤◌, ◌<◌, true, false, List, [], ◌∷◌, ◌≡◌, refl, map, length, some}
use daw_project.Common.Find.{any}
use daw_project.Num.{num, eqb_num}
use daw_project.Schema.{ProjectDef, schema_version, is_musical_clip}
use daw_project.Schema.Order.{Keyed, comes_before, track_of, ordered_tracks}
use daw_project.Schema.Order.Shown.{place_of, count, AreEntries, InOrder, ordered_tracks-InOrder}
use daw_project.Selection.{Selection, select_clip, set_clip_selection, selected_clips}
use daw_project.Selection.Invariant.{
  IsSettled, start, next, selects, sets, reads, nothing_selected, Reach-IsSettled,
}
use daw_project.Validate.{
  validate_document, tracks_issues, clips_issues, clip_issues, chain_issues, track_fields_issues,
  id_issues,
}
use daw_project.Validate.Sound.{TracksFrom, validate_document_sound}
use daw_project.Tests.Documents.{document, track}

-- A lasso of two clips, of which the document has the first, and a click.
abbrev lasso : Selection
lasso = set_clip_selection ("c1" ∷ "gone" ∷ []) false nothing_selected

Reach-IsSettled_example :
    IsSettled (select_clip "c2" "t1" true (selected_clips document.tracks lasso).1)
unfolding any
Reach-IsSettled_example = Reach-IsSettled (
    next
      (next (next start (sets ("c1" ∷ "gone" ∷ []) false nothing_selected refl))
        (reads document.tracks lasso))
      (selects "c2" "t1" true (selected_clips document.tracks lasso).1 refl))

no_issues : validate_document document ≡ []
unfolding validate_document tracks_issues clips_issues clip_issues chain_issues track_fields_issues
    id_issues is_musical_clip any
no_issues = refl

validate_document_sound_example :
    (1 ≤ document.schema_version)
    × (document.schema_version ≤ schema_version)
    × (0 < document.sample_rate)
    × TracksFrom [] document.tracks
validate_document_sound_example = validate_document_sound document no_issues

-- Four tracks, of which two have an order of their own.
abbrev mixed : ProjectDef
mixed = record document {
  tracks =
      track
      ∷ record track { id = "t2"; order = some (num 7) }
      ∷ record track { id = "t3"; order = some (num 0) }
      ∷ record track { id = "t4" }
      ∷ [];
}

ordered_tracks-InOrder_example :
    (ks : List Keyed) × (ordered_tracks mixed ≡ map track_of ks)
    × Perm (map place_of ks) (count 0 (length mixed.tracks))
    × AreEntries mixed.tracks ks
    × InOrder ks
ordered_tracks-InOrder_example = ordered_tracks-InOrder mixed

shown : map (λ t. t.id) (ordered_tracks mixed) ≡ "t1" ∷ "t3" ∷ "t4" ∷ "t2" ∷ []
unfolding ordered_tracks comes_before eqb_num
shown = refl
