-- ===== src/Selection.antt =====
-- The clip selection, web/src/app/clip_selection.ts. The set of ids is the list of its elements in
-- the order of insertion.
use daw_project.Common.{
  ℕ, String, Bool, true, false, ◌&&◌, ◌||◌, not, Option, none, some, List, [], ◌∷◌, ◌++◌, ◌≡◌, ltb,
  length, if◌then◌else◌, str_eq,
}
use daw_project.Common.Find.{any, remove_first}
use daw_project.Common.Int.{ltb_ℤ}
use daw_project.Num.{Num}
use daw_project.Schema.{ClipDef, TrackDef}
use daw_project.Undo.{PlacedClip}
mod Named
pub mod Invariant

pub record TimeSelection : Type 0 where
  pub start_sec : Num
  pub end_sec : Num

-- The four fields of `ctx`.
pub record Selection : Type 0 where
  pub clip_id : Option String
  pub clip_ids : List String
  pub track_id : Option String
  pub time_selection : Option TimeSelection

abbrev pub is_id : String → String → Bool
is_id a b = str_eq b a

abbrev pub holds : String → List String → Bool
holds id ids = any (is_id id) ids

abbrev pub add_id : String → List String → List String
add_id id ids = if holds id ids then ids else ids ++ id ∷ []

-- `xs[xs.length - 1] ?? null`
unfoldable pub last_of : List String → Option String
last_of [] = none
last_of (x ∷ []) = some x
last_of (x ∷ y ∷ xs) = last_of (y ∷ xs)

abbrev pub is_primary : String → Option String → Bool
is_primary id none = false
is_primary id (some p) = str_eq p id

abbrev drop_clip : String → String → Selection → Selection
drop_clip clip_id track_id s =
    let left = remove_first (is_id clip_id) s.clip_ids in
    record s {
      clip_ids = left;
      clip_id = if is_primary clip_id s.clip_id then last_of left else s.clip_id;
      track_id = some track_id;
      time_selection = none;
    }

abbrev choose : String → String → List String → Selection
choose clip_id track_id ids = record {
  clip_id = some clip_id;
  clip_ids = ids;
  track_id = some track_id;
  time_selection = none;
}

unfoldable pub select_clip : String → String → Bool → Selection → Selection
select_clip clip_id track_id additive s =
    if additive
    then if holds clip_id s.clip_ids && ltb 1 (length s.clip_ids)
      then drop_clip clip_id track_id s
      else choose clip_id track_id (add_id clip_id s.clip_ids)
    else choose clip_id track_id (clip_id ∷ [])

unfoldable pub clear_clip_selection : Selection → Selection
clear_clip_selection s = record s { clip_ids = []; clip_id = none; time_selection = none }

unfoldable pub set_time_selection : Num → Num → Selection → Selection
set_time_selection start_sec end_sec s = record s {
  time_selection =
      if ltb_ℤ start_sec end_sec
      then some (record { start_sec = start_sec; end_sec = end_sec })
      else none;
}

unfoldable pub add_ids : List String → List String → List String
add_ids [] ids = ids
add_ids (x ∷ xs) ids = add_ids xs (add_id x ids)

abbrev primary_after : List String → Bool → Option String → Option String
primary_after [] clears primary = if clears then none else primary
primary_after (x ∷ xs) clears primary = last_of (x ∷ xs)

-- The lot after the call; the primary clip is the last of the list where it has one.
unfoldable pub set_clip_selection : List String → Bool → Selection → Selection
set_clip_selection ids additive s =
    let lot = add_ids ids (if additive then s.clip_ids else []) in
    record s {
      clip_ids = lot;
      clip_id = primary_after ids (not additive || not (ltb 0 (length lot))) s.clip_id;
    }

unfoldable pub is_clip_selected : String → Selection → Bool
is_clip_selected clip_id s = holds clip_id s.clip_ids

-- The selected clips of a track, and of the document.
unfoldable pub selected_in : List String → String → List ClipDef → List PlacedClip
selected_in ids track_id [] = []
selected_in ids track_id (c ∷ cs) =
    let rest = selected_in ids track_id cs in
    if holds c.id ids then record { track_id = track_id; clip = c } ∷ rest else rest

unfoldable pub selected_among : List String → List TrackDef → List PlacedClip
unfolding selected_in
selected_among ids [] = []
selected_among ids (t ∷ ts) = selected_in ids t.id t.clips ++ selected_among ids ts

unfoldable pub clip_ids_of : List PlacedClip → List String
clip_ids_of [] = []
clip_ids_of (x ∷ xs) = x.clip.id ∷ clip_ids_of xs

unfoldable pub keep_alive : List String → List String → List String
keep_alive alive [] = []
keep_alive alive (x ∷ xs) =
    let rest = keep_alive alive xs in if holds x alive then x ∷ rest else rest

-- The primary clip that is gone is replaced by the last that is left; an empty id counts as none.
abbrev settle : List String → Option String → Option String
settle alive none = none
settle alive (some id) =
    if not (str_eq id "") && not (holds id alive) then last_of alive else some id

-- The ids that are gone fall out of the selection.
unfoldable pub selected_clips : List TrackDef → Selection → List PlacedClip × Selection
selected_clips tracks s =
    let out = selected_among s.clip_ids tracks in
    let alive = clip_ids_of out in
    (out, record s { clip_ids = keep_alive alive s.clip_ids; clip_id = settle alive s.clip_id })
