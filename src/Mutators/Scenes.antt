-- ===== src/Mutators/Scenes.antt =====
-- Mutators of the scenes of the clip launcher and of their slots.
use daw_project.Common.{
  ℕ, String, Bool, false, ◌||◌, none, some, List, [], ◌∷◌, ◌++◌, map, leb, length, if◌then◌else◌,
  str_eq,
}
use daw_project.Common.Find.{find, locate, any, update_first, remove_first, insert_at}
use daw_project.Schema.{Name, ClipDef, TrackDef, SceneDef, ProjectDef, or_else}
use daw_project.Undo.{
  PlacedClip, rename_scene as op_rename_scene, delete_scene as op_delete_scene,
  restore_scene as op_restore_scene,
}
use daw_project.Document.{Outcome, applied, ignored, clip_is, update_track}
use daw_project.Document.DisplayName.{display_name, eqb_name}
use daw_project.Mutators.Tracks.{is_empty}

abbrev pub scene_is : String → SceneDef → Bool
scene_is id s = str_eq s.id id

-- `doc.scenes ?? []`
abbrev pub scenes_of : ProjectDef → List SceneDef
scenes_of d = or_else d.scenes []

-- `newId('scene')` is the argument `id`.
unfoldable pub add_scene : String → Name → ProjectDef → Outcome
add_scene id name d =
    applied (op_delete_scene id)
      (record d { scenes = some (scenes_of d ++ record { id = id; name = name } ∷ []) })

abbrev pub with_scene_name : Name → SceneDef → SceneDef
with_scene_name name s = record s { name = name }

unfoldable pub rename_scene : String → Name → ProjectDef → Outcome
rename_scene scene_id name d = elim (find (scene_is scene_id) (scenes_of d)) [
  | none ↦ ignored
  | some scene ↦
      let next = display_name name in
      if is_empty next || eqb_name next scene.name
      then ignored
      else applied (op_rename_scene scene_id scene.name) (record d {
        scenes = some (update_first (scene_is scene_id) (with_scene_name next) (scenes_of d));
      })
]

-- `c.sceneId === sceneId`
abbrev pub in_scene : String → ClipDef → Bool
in_scene scene_id c = elim c.scene_id [ none ↦ false | some s ↦ str_eq s scene_id ]

slots_in : String → String → List ClipDef → List PlacedClip
slots_in scene_id track_id [] = []
slots_in scene_id track_id (c ∷ cs) =
    let rest = slots_in scene_id track_id cs in
    if in_scene scene_id c then record { track_id = track_id; clip = c } ∷ rest else rest

-- The slots of a scene, track by track.
unfoldable pub slots_of : String → List TrackDef → List PlacedClip
unfolding slots_in
slots_of scene_id [] = []
slots_of scene_id (t ∷ ts) = slots_in scene_id t.id t.clips ++ slots_of scene_id ts

drop_slots : String → List ClipDef → List ClipDef
drop_slots scene_id [] = []
drop_slots scene_id (c ∷ cs) =
    let rest = drop_slots scene_id cs in if in_scene scene_id c then rest else c ∷ rest

abbrev without_slots : String → TrackDef → TrackDef
without_slots scene_id t = record t { clips = drop_slots scene_id t.clips }

unfoldable pub delete_scene : String → ProjectDef → Outcome
unfolding drop_slots
delete_scene scene_id d = elim (locate (scene_is scene_id) (scenes_of d)) [
  | none ↦ ignored
  | some (index, scene) ↦
      applied (op_restore_scene scene index (slots_of scene_id d.tracks)) (record d {
        tracks = map (without_slots scene_id) d.tracks;
        scenes = some (remove_first (scene_is scene_id) (scenes_of d));
      })
]

-- A clip goes back to its track, unless the track is gone or a clip of that id is there.
abbrev pub with_slot : ClipDef → TrackDef → TrackDef
with_slot clip t =
    if any (clip_is clip.id) t.clips then t else record t { clips = t.clips ++ clip ∷ [] }

unfoldable pub restore_slots : List PlacedClip → ProjectDef → ProjectDef
restore_slots [] d = d
restore_slots (s ∷ ss) d = restore_slots ss (update_track s.track_id (with_slot s.clip) d)

abbrev pub place_scene : SceneDef → ℕ → List SceneDef → List SceneDef
place_scene scene index scenes =
    if leb index (length scenes) then insert_at index scene scenes else scenes ++ scene ∷ []

unfoldable pub restore_scene : SceneDef → ℕ → List PlacedClip → ProjectDef → Outcome
unfolding restore_slots
restore_scene scene index clips d =
    if any (scene_is scene.id) (scenes_of d)
    then ignored
    else applied (op_delete_scene scene.id)
        (restore_slots clips (record d { scenes = some (place_scene scene index (scenes_of d)) }))
