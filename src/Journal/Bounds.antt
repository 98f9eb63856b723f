-- ===== src/Journal/Bounds.antt =====
-- The bound on the two stacks of the journal, whatever is done to it.
use daw_project.Common.{◌≤◌, ◌≡◌, refl, none, List, [], ◌∷◌, arith, length, Option-cases, inl, inr}
use daw_project.Undo.{InverseOp, target_key}
use daw_project.Journal.{
  UndoGroup, Route, Journal, new_journal, max_entries, drop_oldest, push_entry, push_routed,
  clear_redo, capture, begin_group, end_group, pop_undo, pop_redo, enter_replay, leave_replay,
  clear,
}

pub record IsBounded (j : Journal) : Type 0 where
  pub undo : length j.undo_stack ≤ max_entries
  pub redo : length j.redo_stack ≤ max_entries

-- One call on the journal.
pub data Step : Journal → Journal → Type 0 where
  captures : (op : InverseOp) (j : Journal) → Step j (capture op j)
  begins : (j : Journal) → Step j (begin_group j)
  ends : (j : Journal) → Step j (end_group j)
  pops_undo : (j : Journal) → Step j (pop_undo j).1
  pops_redo : (j : Journal) → Step j (pop_redo j).1
  enters : (d : Route) (j : Journal) → Step j (enter_replay d j)
  leaves : (j : Journal) → Step j (leave_replay j)
  clears : (j : Journal) → Step j (clear j)

pub data Reach (start : Journal) : Journal → Type 0 where
  here : Reach start start
  next : {j k : Journal} → Reach start j → Step j k → Reach start k

length-drop_oldest {ℓ} :
    {A : Type ℓ} (x : A) (xs : List A) → length (drop_oldest (x ∷ xs)) ≡ length xs
unfolding drop_oldest
length-drop_oldest x [] = refl
length-drop_oldest x (y ∷ xs) = omega (arith, length-drop_oldest y xs)

pub length-push_entry :
    (g : UndoGroup) (stack : List UndoGroup)
    → length stack ≤ max_entries
    → length (push_entry g stack) ≤ max_entries
unfolding push_entry
length-push_entry g stack h = ground (arith, length-drop_oldest g stack)

push_routed-IsBounded : (g : UndoGroup) (j : Journal) → IsBounded j → IsBounded (push_routed g j)
unfolding push_routed
push_routed-IsBounded g j b =
    ground (arith, length-push_entry g j.undo_stack, length-push_entry g j.redo_stack)

capture-IsBounded : (op : InverseOp) (j : Journal) → IsBounded j → IsBounded (capture op j)
unfolding capture
capture-IsBounded op j b = ground (
  arith,
  push_routed-IsBounded (record { ops = op ∷ []; seen = target_key op ∷ [] }) (clear_redo j),
)

end_group-IsBounded : (j : Journal) → IsBounded j → IsBounded (end_group j)
unfolding end_group
end_group-IsBounded j b = elim (Option-cases j.grouping) [
  | inl e ↦ ground arith
  | inr (g, e) ↦ ground (arith, push_routed-IsBounded g (record j { grouping = none }))
]

Step-IsBounded : {j k : Journal} → Step j k → IsBounded j → IsBounded k
unfolding begin_group pop_undo pop_redo enter_replay leave_replay clear
Step-IsBounded (captures op j) b = capture-IsBounded op j b
Step-IsBounded (begins j) b = ground arith
Step-IsBounded (ends j) b = end_group-IsBounded j b
Step-IsBounded (pops_undo j) b = ground arith
Step-IsBounded (pops_redo j) b = ground arith
Step-IsBounded (enters d j) b = ground arith
Step-IsBounded (leaves j) b =
    let e = end_group-IsBounded j b in record { undo = e.undo; redo = e.redo }
Step-IsBounded (clears j) b = omega arith

-- Whatever calls are made on a journal, from a fresh one on, neither stack ever holds more than a
-- hundred entries.
pub Reach-IsBounded : {j : Journal} → Reach new_journal j → IsBounded j
Reach-IsBounded here = omega arith
Reach-IsBounded (next r s) = Step-IsBounded s (Reach-IsBounded r)
