-- ===== src/Ids/Stem.antt =====
-- The stem of an id is read back.
use daw_project.Common.{◌≡◌, refl, true, none, [], ◌∷◌, ◌++◌}
use daw_project.Schema.{Name}
use daw_project.Document.DisplayName.{eqb_name}
use daw_project.Ids.{
  dash, clip_word, new_id, split, join, is_uuid, next_parts, without_prefix, or_clip, clip_stem,
}
use daw_project.Ids.Parts.{join-split, split-append}
use daw_project.Ids.Rounds.{strip_tail-uuid}

without_prefix-clip : (s : Name) → without_prefix (clip_word ++ dash ∷ s) ≡ s
unfolding without_prefix eqb_name
without_prefix-clip s = refl

-- The id of a new clip has the stem that it was made with, where the stem ends in nothing that the loop takes
-- off; without a stem it reads "clip".
pub clip_stem-new_id :
    (stem u : Name)
    → is_uuid u ≡ true
    → next_parts (split stem) ≡ none
    → clip_stem (new_id clip_word stem u) ≡ or_clip stem
unfolding clip_stem new_id next_parts join
clip_stem-new_id [] u h e =
    let e0 : next_parts [] ≡ none = refl in
    rw (without_prefix-clip u, strip_tail-uuid [] u h e0) refl
clip_stem-new_id (c ∷ cs) u h e =
    rw
      (
        without_prefix-clip ((c ∷ cs) ++ dash ∷ u),
        split-append (c ∷ cs) u,
        strip_tail-uuid (split (c ∷ cs)) u h e,
        join-split (c ∷ cs),
      )
      refl
