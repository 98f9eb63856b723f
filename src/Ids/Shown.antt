-- ===== src/Ids/Shown.antt =====
-- The name shown of a new clip without a name.
use daw_project.Common.{
  ℕ, ◌≡◌, ◌<◌, refl, ap, Bool, true, false, ◌&&◌, Option, none, some, List, [], ◌∷◌, ◌++◌, All,
  length, arith, length-append, if◌then◌else◌, Bool-cases, inl, inr,
}
use daw_project.Schema.{Name, ClipDef, or_else}
use daw_project.Document.DisplayName.{trim, eqb_name, eqb_name_iff}
use daw_project.Ids.{
  codes, dash, clip_word, uuid, new_id, split, is_uuid, next_parts, or_clip, is_legacy_random,
  has_notes, derived_name, named_or, clip_display_name,
}
use daw_project.Ids.Uuid.{IsByte, uuid-is_uuid}
use daw_project.Ids.Stem.{clip_stem-new_id}

longer-eqb_name : (a b : Name) → length b < length a → eqb_name a b ≡ false
longer-eqb_name a b l = elim (Bool-cases (eqb_name a b)) [
  | inl q ↦
      let same : length a ≡ length b = ap (λ s. length s) ((eqb_name_iff a b).0 q) in
      absurd (omega arith)
  | inr q ↦ q
]

and_left : (a b : Bool) → a ≡ false → a && b ≡ false
and_left a b e = rw e refl

-- An id of today is longer than those of old.
new_id-not_legacy :
    (stem u : Name) → is_legacy_random (new_id clip_word stem u) (or_clip stem) ≡ false
unfolding is_legacy_random new_id
new_id-not_legacy [] u = ground arith
new_id-not_legacy (c ∷ cs) u =
    let l = length-append cs (dash ∷ u) in
    and_left (eqb_name (clip_word ++ dash ∷ ((c ∷ cs) ++ dash ∷ u)) (clip_word ++ dash ∷ c ∷ cs)) _
      (longer-eqb_name (clip_word ++ dash ∷ ((c ∷ cs) ++ dash ∷ u)) (clip_word ++ dash ∷ c ∷ cs)
        (omega arith))

shown_name-new_id :
    (clip : ClipDef) (stem u : Name)
    → codes clip.id ≡ new_id clip_word stem u
    → is_uuid u ≡ true
    → next_parts (split stem) ≡ none
    → trim (or_else clip.name []) ≡ []
    → clip_display_name clip ≡ (
        if eqb_name (or_clip stem) clip_word
        then (if has_notes clip then codes "MIDI" else codes "clip")
        else stem)
unfolding clip_display_name named_or derived_name eqb_name
shown_name-new_id clip [] u i h e n = rw (n, i, clip_stem-new_id [] u h e) refl
shown_name-new_id clip (c ∷ cs) u i h e n =
    rw (n, i, clip_stem-new_id (c ∷ cs) u h e, new_id-not_legacy (c ∷ cs) u) (ground arith)

-- The name shown of a clip that has none and whose id `newId` made from a stem that ends in nothing the loop of
-- `clipStem` takes off is that stem; where the stem is empty or reads "clip" it is "MIDI" for a clip with notes and
-- "clip" for another. What randomUUID gives, in a browser that has it, has the form of a UUID; else sixteen bytes
-- are drawn.
pub clip_display_name-new_id :
    (clip : ClipDef) (stem : Name) (native : Option Name) (bytes : List ℕ)
    → ((v : Name) → native ≡ some v → is_uuid v ≡ true)
    → length bytes ≡ 16
    → All IsByte bytes
    → codes clip.id ≡ new_id clip_word stem (uuid native bytes)
    → next_parts (split stem) ≡ none
    → trim (or_else clip.name []) ≡ []
    → clip_display_name clip ≡ (
        if eqb_name (or_clip stem) clip_word
        then (if has_notes clip then codes "MIDI" else codes "clip")
        else stem)
clip_display_name-new_id clip stem native bytes d l k i e n =
    shown_name-new_id clip stem (uuid native bytes) i (uuid-is_uuid native bytes d l k) e n
