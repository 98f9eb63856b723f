-- ===== src/DeviceReorder.antt =====
-- Dragging a device along the chain of its track, web/src/app/device_reorder.ts: the slot under the
-- pointer, and the drop. What is drawn meanwhile is left out.
pub mod Order
use daw_project.Common.{
  ℕ, suc, ◌+◌, ◌-◌, ◌==◌, String, Bool, true, false, ◌||◌, Option, none, some, List, [], ◌∷◌, ltb,
  length, if◌then◌else◌, ◌>>=◌,
}
use daw_project.Common.Find.{locate}
use daw_project.Common.Int.{ltb_ℤ}
use daw_project.Num.{Num, num}
use daw_project.Schema.{ProcessorDef, ProjectDef}
use daw_project.Document.{find_track, processor_is}
use daw_project.Mutators.Processors.{move_processor}
use daw_project.Project.{Automerge, Project, mutate}
use daw_project.ServerClient.{Bytes, Browser, ServerClient}
use daw_project.Sending.{Sent, send_last_change}

-- The number of panels whose middle is left of the pointer; the middles are the browser's.
unfoldable pub slot_at : Num → List Num → ℕ
slot_at x [] = 0
slot_at x (middle ∷ middles) =
    let rest = slot_at x middles in if ltb_ℤ middle x then suc rest else rest

-- The index that a drop at the slot asks for: none where the device is gone or would not move.
unfoldable pub target_in : List ProcessorDef → String → ℕ → Option ℕ
target_in chain proc_id slot = elim (locate (processor_is proc_id) chain) [
  | none ↦ none
  | some (src, proc) ↦
      if slot == src || slot == suc src
      then none
      else some (if ltb src slot then slot - 1 else slot)
]

module _ (A : Automerge) {B : Browser} (wire : A.Change → Bytes) where
  open A use {content}

  -- The loop of `sendLastChange` has a round for each change of the queue and one more.
  unfoldable pub apply_drop :
      String → String → ℕ → Project A → Option (ServerClient B) → Option (Sent A B)
  apply_drop track_id proc_id slot p client =
      elim (find_track (content p.doc) track_id >>= λ t. target_in t.chain proc_id slot) [
        | none ↦ some (p, (client, []))
        | some to ↦
            let q = (mutate A (move_processor track_id proc_id (num to)) p).0 in
            send_last_change A wire (suc (length q.pending)) q client
      ]
