-- ===== src/Mutators/Lanes.antt =====
-- Mutators of automation lanes, of a track or, with no track id, of the master.
pub mod Sorted
use mathlib.Core.Option
use daw_project.Common.{
  ℕ, suc, String, Bool, true, false, not, ◌&&◌, ◌==◌, Option, none, some, List, [], ◌∷◌, ◌++◌,
  ◌>>=◌, leb, length, get_elem?, set, if◌then◌else◌, str_eq,
}
use daw_project.Common.Find.{find, locate, any, update_first, remove_first, insert_at, erase_at}
use daw_project.Common.Int.{ltb_ℤ}
use daw_project.Num.{Num, num, round_pos, clamp}
use daw_project.Schema.{AutomationTarget, AutomationPoint, AutomationLaneDef, ProjectDef, or_else}
use daw_project.Undo.{
  delete_automation_lane as op_delete_lane, restore_automation_lane as op_restore_lane,
  set_automation_lane_enabled as op_lane_enabled, add_automation_point as op_add_point,
  move_automation_point as op_move_point, delete_automation_point as op_delete_point,
}
use daw_project.Document.{Outcome, applied, ignored, find_track, update_track}

abbrev pub lane_is : String → AutomationLaneDef → Bool
lane_is id l = str_eq l.id id

unfoldable pub lanes_in : ProjectDef → Option String → Option (List AutomationLaneDef)
lanes_in d none = d.automation
lanes_in d (some track_id) = find_track d track_id >>= λ t. t.automation

-- `ensureLanes`, then a write to the lanes: nothing where the track is gone.
unfoldable pub write_lanes :
    Option String → (List AutomationLaneDef → List AutomationLaneDef) → ProjectDef → ProjectDef
write_lanes none f d = record d { automation = some (f (or_else d.automation [])) }
write_lanes (some track_id) f d =
    update_track track_id (λ t. record t { automation = some (f (or_else t.automation [])) }) d

-- `lanesIn`, then a write to the lanes: an absent list stays absent.
unfoldable pub update_lanes :
    Option String → (List AutomationLaneDef → List AutomationLaneDef) → ProjectDef → ProjectDef
update_lanes none f d = record d { automation = Option.map f d.automation }
update_lanes (some track_id) f d =
    update_track track_id (λ t. record t { automation = Option.map f t.automation }) d

abbrev pub update_lane :
    Option String → String → (AutomationLaneDef → AutomationLaneDef) → ProjectDef → ProjectDef
update_lane track_id lane_id f = update_lanes track_id (update_first (lane_is lane_id) f)

unfoldable pub find_lane : ProjectDef → Option String → String → Option AutomationLaneDef
find_lane d track_id lane_id = lanes_in d track_id >>= find (lane_is lane_id)

-- Math.max(0, Math.round(t)) and the clamp to 0 .. 1.
abbrev pub clamp_t : Num → Num
clamp_t t = num (round_pos t)

abbrev pub clamp_v : Num → Num
clamp_v v = clamp (num 0) (num 1) v

-- The scope names no track, or one that is there.
abbrev pub scope_exists : ProjectDef → Option String → Bool
scope_exists d none = true
scope_exists d (some track_id) = elim (find_track d track_id) [ none ↦ false | some _ ↦ true ]

-- `newId('lane')` is the argument `id`.
unfoldable pub add_automation_lane :
    String → Option String → AutomationTarget → ProjectDef → Outcome
add_automation_lane id track_id target d =
    if scope_exists d track_id
    then applied (op_delete_lane track_id id) (
        write_lanes track_id
          (λ ls.
            ls
            ++ record {
              id = id;
              target = target;
              points = [];
              enabled = true;
              time_base_ticks = false;
            }
              ∷ [])
          d)
    else ignored

unfoldable pub delete_automation_lane : Option String → String → ProjectDef → Outcome
delete_automation_lane track_id lane_id d =
    elim (lanes_in d track_id >>= locate (lane_is lane_id)) [
      | none ↦ ignored
      | some (index, lane) ↦
          applied (op_restore_lane track_id lane index)
            (update_lanes track_id (remove_first (lane_is lane_id)) d)
    ]

abbrev place_lane : AutomationLaneDef → ℕ → List AutomationLaneDef → List AutomationLaneDef
place_lane lane index ls =
    if leb index (length ls) then insert_at index lane ls else ls ++ lane ∷ []

unfoldable pub restore_automation_lane :
    Option String → AutomationLaneDef → ℕ → ProjectDef → Outcome
restore_automation_lane track_id lane index d =
    if scope_exists d track_id && not (any (lane_is lane.id) (or_else (lanes_in d track_id) []))
    then applied (op_delete_lane track_id lane.id) (write_lanes track_id (place_lane lane index) d)
    else ignored

abbrev with_enabled : Bool → AutomationLaneDef → AutomationLaneDef
with_enabled enabled l = record l { enabled = enabled }

unfoldable pub set_automation_lane_enabled : Option String → String → Bool → ProjectDef → Outcome
set_automation_lane_enabled track_id lane_id enabled d = elim (find_lane d track_id lane_id) [
  | none ↦ ignored
  | some lane ↦
      applied (op_lane_enabled track_id lane_id lane.enabled)
        (update_lane track_id lane_id (with_enabled enabled) d)
]

abbrev pub leb_num : Num → Num → Bool
leb_num a b = not (ltb_ℤ b a)

-- `points.filter((p) => p.t <= t).length`
unfoldable pub count_until : Num → List AutomationPoint → ℕ
count_until t [] = 0
count_until t (p ∷ ps) = if leb_num p.t t then suc (count_until t ps) else count_until t ps

abbrev pub with_points :
    (List AutomationPoint → List AutomationPoint) → AutomationLaneDef → AutomationLaneDef
with_points f l = record l { points = f l.points }

abbrev pub point : Num → Num → AutomationPoint
point t v = record { t = t; v = v }

unfoldable pub add_automation_point : Option String → String → Num → Num → ProjectDef → Outcome
add_automation_point track_id lane_id t v d = elim (find_lane d track_id lane_id) [
  | none ↦ ignored
  | some lane ↦
      let at = count_until (clamp_t t) lane.points in
      applied (op_delete_point track_id lane_id at) (
        update_lane track_id lane_id (with_points (insert_at at (point (clamp_t t) (clamp_v v)))) d)
]

-- In place while the index stays; else out, and in at the sorted index.
unfoldable pub reposition : ℕ → ℕ → AutomationPoint → List AutomationPoint → List AutomationPoint
reposition index new_index p ps =
    if new_index == index then set ps index p else insert_at new_index p (erase_at index ps)

unfoldable pub move_automation_point : Option String → String → ℕ → Num → Num → ProjectDef → Outcome
move_automation_point track_id lane_id index t v d = elim (find_lane d track_id lane_id) [
  | none ↦ ignored
  | some lane ↦ elim (get_elem? lane.points index) [
    | none ↦ ignored
    | some old ↦
        let new_index = count_until (clamp_t t) (erase_at index lane.points) in
        applied (op_move_point track_id lane_id new_index old.t old.v) (
          update_lane track_id lane_id
            (with_points (reposition index new_index (point (clamp_t t) (clamp_v v)))) d)
  ]
]

unfoldable pub delete_automation_point : Option String → String → ℕ → ProjectDef → Outcome
delete_automation_point track_id lane_id index d = elim (find_lane d track_id lane_id) [
  | none ↦ ignored
  | some lane ↦ elim (get_elem? lane.points index) [
    | none ↦ ignored
    | some p ↦
        applied (op_add_point track_id lane_id p.t p.v)
          (update_lane track_id lane_id (with_points (erase_at index)) d)
  ]
]
