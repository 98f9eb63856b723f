-- ===== src/Mutators/Tracks.antt =====
-- Mutators of track fields, the master gain and the tempo register. Each finds its target, captures
-- the inverse and writes inside one change; a target that is gone is a silent no-op.
pub mod Undo
use daw_project.Common.{
  String, Bool, true, false, ◌&&◌, ◌||◌, not, Option, none, some, List, [], ◌∷◌, ◌++◌,
  if◌then◌else◌,
}
use daw_project.Common.Find.{remove_first}
use daw_project.Common.Int.{negsuc, pos}
use daw_project.Num.{Num, num, unit, clamp, eqb_num}
use daw_project.Tempo.{clamp_milli_bpm}
use daw_project.Schema.{Name, TrackDef, ProjectDef, or_else, is_some, ensure_v2}
use daw_project.Undo.{
  set_track_gain as op_track_gain, set_track_pan as op_track_pan, set_track_order as op_track_order,
  clear_track_order as op_clear_order, rename_track as op_rename_track,
  set_master_gain as op_master_gain, set_tempo as op_tempo, add_track as op_add_track,
  delete_track as op_delete_track,
}
use daw_project.Sanitize.{JsValue, finite, other}
use daw_project.Document.{Outcome, applied, ignored, track_is, find_track, update_track}
use daw_project.Document.DisplayName.{display_name, eqb_name}

-- 0 .. 2
abbrev pub clamp_gain : Num → Num
clamp_gain gain = clamp (num 0) (num 2) gain

-- -1, and the clamp to -1 .. 1
abbrev pub minus_one : Num
minus_one = negsuc 1048575

abbrev pub clamp_pan : Num → Num
clamp_pan pan = clamp minus_one (num 1) pan

abbrev pub with_gain : Num → TrackDef → TrackDef
with_gain gain t = record t { gain = clamp_gain gain }

unfoldable pub set_track_gain : String → Num → ProjectDef → Outcome
set_track_gain track_id gain d = elim (find_track d track_id) [
  | none ↦ ignored
  | some track ↦
      applied (op_track_gain track_id track.gain) (update_track track_id (with_gain gain) d)
]

abbrev pub with_pan : Num → TrackDef → TrackDef
with_pan pan t = record t { pan = some (clamp_pan pan) }

unfoldable pub set_track_pan : String → Num → ProjectDef → Outcome
set_track_pan track_id pan d = elim (find_track d track_id) [
  | none ↦ ignored
  | some track ↦
      applied (op_track_pan track_id (or_else track.pan (num 0)))
        (update_track track_id (with_pan pan) d)
]

abbrev pub with_order : Option Num → TrackDef → TrackDef
with_order order t = record t { order = order }

-- `track.order === order`
abbrev has_order : Num → Option Num → Bool
has_order order none = false
has_order order (some o) = eqb_num o order

set_order_of : String → Num → Option Num → ProjectDef → Outcome
set_order_of track_id order none d =
    applied (op_clear_order track_id) (update_track track_id (with_order (some order)) d)
set_order_of track_id order (some old) d =
    applied (op_track_order track_id old) (update_track track_id (with_order (some order)) d)

-- A number that is not finite is refused; the order that is there already makes no entry.
unfoldable pub set_track_order : String → JsValue → ProjectDef → Outcome
unfolding set_order_of
set_track_order track_id other d = ignored
set_track_order track_id (finite order) d = elim (find_track d track_id) [
  | none ↦ ignored
  | some track ↦
      if has_order order track.order then ignored else set_order_of track_id order track.order d
]

unfoldable pub clear_track_order : String → ProjectDef → Outcome
clear_track_order track_id d = elim (find_track d track_id) [
  | none ↦ ignored
  | some track ↦ elim track.order [
    | none ↦ ignored
    | some order ↦
        applied (op_track_order track_id order) (update_track track_id (with_order none) d)
  ]
]

abbrev pub with_name : Name → TrackDef → TrackDef
with_name name t = record t { name = name }

abbrev pub is_empty : Name → Bool
is_empty [] = true
is_empty (_ ∷ _) = false

unfoldable pub rename_track : String → Name → ProjectDef → Outcome
rename_track track_id name d = elim (find_track d track_id) [
  | none ↦ ignored
  | some track ↦
      let next = display_name name in
      if is_empty next || eqb_name next track.name
      then ignored
      else applied (op_rename_track track_id track.name) (update_track track_id (with_name next) d)
]

unfoldable pub set_master_gain : Num → ProjectDef → Outcome
set_master_gain gain d =
    applied (op_master_gain (or_else d.master_gain (num 1)))
      (record d { master_gain = some (clamp_gain gain) })

abbrev pub with_tempo : Num → ProjectDef → ProjectDef
with_tempo next d = record (ensure_v2 d) { tempo_milli_bpm = some next }

unfoldable pub set_tempo_milli_bpm : Num → ProjectDef → Outcome
set_tempo_milli_bpm milli_bpm d =
    let prev = or_else d.tempo_milli_bpm (num 120000) in
    let next = num (clamp_milli_bpm milli_bpm) in
    if eqb_num next prev && is_some d.tempo_milli_bpm
    then ignored
    else applied (op_tempo prev) (with_tempo next d)

unfoldable pub add_track : TrackDef → ProjectDef → Outcome
add_track track d =
    applied (op_delete_track track.id) (record d { tracks = d.tracks ++ track ∷ [] })

unfoldable pub delete_track : String → ProjectDef → Outcome
delete_track track_id d = elim (find_track d track_id) [
  | none ↦ ignored
  | some track ↦
      applied (op_add_track track) (record d { tracks = remove_first (track_is track_id) d.tracks })
]
