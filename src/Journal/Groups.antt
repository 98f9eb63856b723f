-- ===== src/Journal/Groups.antt =====
-- What a gesture leaves in the journal: of each target the first capture.
use mathlib.Core.List.{reverse}
use daw_project.Common.{
  ◌<◌, ◌≡◌, refl, true, none, some, List, [], ◌∷◌, arith, length, if◌then◌else◌,
}
use daw_project.Undo.{InverseOp, TargetKey, target_key}
use daw_project.Journal.{
  UndoGroup, normal, Journal, has, max_entries, push_entry, push_routed, capture_in, capture,
  begin_group, end_group, pop_undo, enter_replay, leave_replay, to_redo, to_undo,
}

-- The captures of a gesture, in order.
abbrev pub capture_all : List InverseOp → Journal → Journal
capture_all [] j = j
capture_all (op ∷ ops) j = capture_all ops (capture op j)

-- The operations whose key is not among `seen` and has not come up earlier in the list.
unfoldable pub first_per_key : List TargetKey → List InverseOp → List InverseOp
first_per_key seen [] = []
first_per_key seen (op ∷ ops) =
    let later = first_per_key (target_key op ∷ seen) ops in
    if has (target_key op) seen then first_per_key seen ops else op ∷ later

unfoldable pub open_group : Journal → UndoGroup → Journal
open_group j g = record j { redo_stack = []; grouping = some g }

capture_in_all : List InverseOp → UndoGroup → UndoGroup
capture_in_all [] g = g
capture_in_all (op ∷ ops) g = capture_in_all ops (capture_in op g)

pub capture-open_group :
    (op : InverseOp) (j : Journal) (g : UndoGroup)
    → j.route ≡ normal
    → capture op (open_group j g) ≡ open_group j (capture_in op g)
unfolding open_group capture
capture-open_group op j g h = ground arith

pub capture_in_again :
    (op : InverseOp) (g : UndoGroup) → has (target_key op) g.seen ≡ true → capture_in op g ≡ g
unfolding capture_in
capture_in_again op g e = rw e

pub pop_undo-end_group :
    (j : Journal) (g : UndoGroup) (op : InverseOp) (ops : List InverseOp)
    → g.ops ≡ op ∷ ops
    → j.route ≡ normal
    → j.grouping ≡ none
    → length j.undo_stack < max_entries
    → pop_undo (end_group (open_group j g))
      ≡ (some (reverse (op ∷ ops)), record j { redo_stack = [] })
unfolding open_group end_group push_routed push_entry pop_undo
pop_undo-end_group j g op ops e r n l = ground arith

pub capture-begin_group :
    (op : InverseOp) (j : Journal)
    → j.route ≡ normal
    → j.grouping ≡ none
    → capture op (begin_group j)
      ≡ open_group j (record { ops = op ∷ []; seen = target_key op ∷ [] })
unfolding open_group begin_group capture capture_in has
capture-begin_group op j r n = ground arith

-- An entry of one capture.
abbrev pub single : InverseOp → UndoGroup
single op = record { ops = op ∷ []; seen = target_key op ∷ [] }

-- Outside any gesture and any replay, with room on the stack.
pub record IsIdle (j : Journal) : Type 0 where
  pub route : j.route ≡ normal
  pub grouping : j.grouping ≡ none
  pub room : length j.undo_stack < max_entries

reverse-singleton : (op : InverseOp) → reverse (op ∷ []) ≡ op ∷ []
reverse-singleton op = refl

module _ (op : InverseOp) (j : Journal) (idle : IsIdle j) where
  pub pop_undo-capture : pop_undo (capture op j) ≡ (some (op ∷ []), record j { redo_stack = [] })
  unfolding capture push_routed push_entry pop_undo
  pop_undo-capture = ground (arith, reverse-singleton op)

  -- The capture of a replayed undo is an entry to redo.
  pub replayed_undo :
      leave_replay (capture op (enter_replay to_redo j))
      ≡ record j { redo_stack = push_entry (single op) j.redo_stack }
  unfolding capture capture_in push_routed has enter_replay leave_replay end_group begin_group
  replayed_undo = ground arith

  -- The capture of a replayed redo is an entry to undo, and what else is to be redone stays.
  pub replayed_redo :
      leave_replay (capture op (enter_replay to_undo j))
      ≡ record j { undo_stack = push_entry (single op) j.undo_stack }
  unfolding capture capture_in push_routed has enter_replay leave_replay end_group begin_group
  replayed_redo = ground arith
