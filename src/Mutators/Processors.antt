-- ===== src/Mutators/Processors.antt =====
-- Mutators of the device chain of a track. The order of the chain is its meaning.
pub mod Undo
use Prim.Native.Nat.{min}
use daw_project.Common.{
  ℕ, ◌-◌, String, Bool, true, false, ◌==◌, Option, none, some, List, [], ◌∷◌, ◌++◌, leb, length,
  if◌then◌else◌, str_eq,
}
use daw_project.Common.Find.{find, locate, any, update_first, remove_first, insert_at, erase_at}
use daw_project.Num.{Num, num, round_pos}
use daw_project.Schema.{ProcessorParam, ProcessorDef, TrackDef, ProjectDef}
use daw_project.Undo.{
  set_processor_bypass as op_bypass, set_processor_param as op_param,
  remove_processor_param as op_remove_param, add_processor as op_add, remove_processor as op_remove,
  move_processor as op_move,
}
use daw_project.Document.{
  Outcome, applied, ignored, processor_is, find_track, find_processor, update_track,
  update_processor,
}

abbrev pub with_bypass : Bool → ProcessorDef → ProcessorDef
with_bypass bypass p = record p { bypass = bypass }

unfoldable pub set_processor_bypass : String → String → Bool → ProjectDef → Outcome
set_processor_bypass track_id processor_id bypass d =
    elim (find_processor d track_id processor_id) [
      | none ↦ ignored
      | some proc ↦
          applied (op_bypass track_id processor_id proc.bypass)
            (update_processor track_id processor_id (with_bypass bypass) d)
    ]

abbrev pub param_is : String → ProcessorParam → Bool
param_is key p = str_eq p.key key

abbrev pub with_value : Num → ProcessorParam → ProcessorParam
with_value value p = record p { value = value }

-- The entry of the key is written, or a new one is pushed.
abbrev pub write_param : String → Num → List ProcessorParam → List ProcessorParam
write_param key value params =
    if any (param_is key) params
    then update_first (param_is key) (with_value value) params
    else params ++ record { key = key; value = value } ∷ []

abbrev pub with_param : String → Num → ProcessorDef → ProcessorDef
with_param key value p = record p { params = write_param key value p.params }

param_inverse : String → String → String → Option ProcessorParam → ProjectDef → Outcome
param_inverse track_id processor_id key none = applied (op_remove_param track_id processor_id key)
param_inverse track_id processor_id key (some existing) =
    applied (op_param track_id processor_id key existing.value)

unfoldable pub set_processor_param : String → String → String → Num → ProjectDef → Outcome
unfolding param_inverse
set_processor_param track_id processor_id key value d =
    elim (find_processor d track_id processor_id) [
      | none ↦ ignored
      | some proc ↦
          param_inverse track_id processor_id key (find (param_is key) proc.params)
            (update_processor track_id processor_id (with_param key value) d)
    ]

abbrev pub without_param : String → ProcessorDef → ProcessorDef
without_param key p = record p { params = remove_first (param_is key) p.params }

unfoldable pub remove_processor_param : String → String → String → ProjectDef → Outcome
remove_processor_param track_id processor_id key d = elim (find_processor d track_id processor_id) [
  | none ↦ ignored
  | some proc ↦ elim (find (param_is key) proc.params) [
    | none ↦ ignored
    | some existing ↦
        applied (op_param track_id processor_id key existing.value)
          (update_processor track_id processor_id (without_param key) d)
  ]
]

-- An index out of range, or none, is the end of the chain.
abbrev pub place : Option ℕ → ProcessorDef → List ProcessorDef → List ProcessorDef
place none proc chain = chain ++ proc ∷ []
place (some index) proc chain =
    if leb index (length chain) then insert_at index proc chain else chain ++ proc ∷ []

abbrev pub with_processor : Option ℕ → ProcessorDef → TrackDef → TrackDef
with_processor index proc t = record t { chain = place index proc t.chain }

unfoldable pub add_processor : String → ProcessorDef → Option ℕ → ProjectDef → Outcome
add_processor track_id proc index d = elim (find_track d track_id) [
  | none ↦ ignored
  | some track ↦
      if any (processor_is proc.id) track.chain
      then ignored
      else applied (op_remove track_id proc.id)
          (update_track track_id (with_processor index proc) d)
]

abbrev pub without_processor : String → TrackDef → TrackDef
without_processor processor_id t = record t {
  chain = remove_first (processor_is processor_id) t.chain;
}

unfoldable pub remove_processor : String → String → ProjectDef → Outcome
remove_processor track_id processor_id d = elim (find_track d track_id) [
  | none ↦ ignored
  | some track ↦ elim (locate (processor_is processor_id) track.chain) [
    | none ↦ ignored
    | some (index, proc) ↦
        applied (op_add track_id proc index)
          (update_track track_id (without_processor processor_id) d)
  ]
]

-- Out, and in again at `to`, clamped to the chain that has one device less.
abbrev pub with_moved : String → ProcessorDef → ℕ → TrackDef → TrackDef
with_moved processor_id copy to t =
    let rest = remove_first (processor_is processor_id) t.chain in
    record t { chain = insert_at (min to (length rest)) copy rest }

unfoldable pub move_processor : String → String → Num → ProjectDef → Outcome
move_processor track_id processor_id to_index d = elim (find_track d track_id) [
  | none ↦ ignored
  | some track ↦ elim (locate (processor_is processor_id) track.chain) [
    | none ↦ ignored
    | some (from, proc) ↦
        let to = min (round_pos to_index) (length track.chain - 1) in
        if to == from
        then ignored
        else applied (op_move track_id processor_id (num from))
            (update_track track_id (with_moved processor_id proc to) d)
  ]
]
