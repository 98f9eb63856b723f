-- ===== src/Journal.antt =====
-- Class `UndoJournal`, web/src/document/undo.ts.
pub mod Groups
pub mod Keys
pub mod Bounds
pub mod Newest
use mathlib.Core.List.{reverse}
use daw_project.Common.{
  ℕ, Bool, true, false, ◌&&◌, ◌||◌, ◌==◌, Option, none, some, List, [], ◌∷◌, ◌++◌, ltb, length,
  str_eq, if◌then◌else◌,
}
use daw_project.Num.{eqb_num}
use daw_project.Undo.{InverseOp, Segment, text, number, index, undefined, TargetKey, target_key}

unfoldable pub eqb_segment : Segment → Segment → Bool
eqb_segment (text a) (text b) = str_eq a b
eqb_segment (number a) (number b) = eqb_num a b
eqb_segment (index a) (index b) = a == b
eqb_segment undefined undefined = true
eqb_segment _ _ = false

unfoldable pub eqb_key : TargetKey → TargetKey → Bool
unfolding eqb_segment
eqb_key [] [] = true
eqb_key (a ∷ as') (b ∷ bs) = eqb_segment a b && eqb_key as' bs
eqb_key _ _ = false

-- `seen.has(key)`
unfoldable pub has : TargetKey → List TargetKey → Bool
unfolding eqb_key
has key [] = false
has key (k ∷ ks) = eqb_key key k || has key ks

-- `ops` in the order of capture.
pub record UndoGroup : Type 0 where
  pub ops : List InverseOp
  pub seen : List TargetKey

pub data Route : Type 0 where
  normal to_redo to_undo : Route

-- The two stacks with their last element first.
pub record Journal : Type 0 where
  pub undo_stack : List UndoGroup
  pub redo_stack : List UndoGroup
  pub grouping : Option UndoGroup
  pub route : Route

abbrev pub new_journal : Journal
new_journal = record { undo_stack = []; redo_stack = []; grouping = none; route = normal }

abbrev pub max_entries : ℕ
max_entries = 100

-- `shift` of the oldest entry, which stands last here.
unfoldable pub drop_oldest {ℓ} : {A : Type ℓ} → List A → List A
drop_oldest [] = []
drop_oldest (x ∷ []) = []
drop_oldest (x ∷ y ∷ xs) = x ∷ drop_oldest (y ∷ xs)

-- `stack.push(g); if (stack.length > MAX_ENTRIES) stack.shift();`
unfoldable pub push_entry : UndoGroup → List UndoGroup → List UndoGroup
push_entry g stack =
    if ltb max_entries (length (g ∷ stack)) then drop_oldest (g ∷ stack) else g ∷ stack

-- The push onto the stack that the route names.
unfoldable pub push_routed : UndoGroup → Journal → Journal
push_routed g j = elim j.route [
  | to_redo ↦ record j { redo_stack = push_entry g j.redo_stack }
  | _ ↦ record j { undo_stack = push_entry g j.undo_stack }
]

abbrev clear_redo : Journal → Journal
clear_redo j = elim j.route [ normal ↦ record j { redo_stack = [] } | _ ↦ j ]

unfoldable pub capture_in : InverseOp → UndoGroup → UndoGroup
capture_in op g =
    if has (target_key op) g.seen
    then g
    else record { ops = g.ops ++ op ∷ []; seen = target_key op ∷ g.seen }

unfoldable pub capture : InverseOp → Journal → Journal
unfolding capture_in
capture op j = elim j.grouping [
  | some g ↦ record (clear_redo j) { grouping = some (capture_in op g) }
  | none ↦ push_routed (record { ops = op ∷ []; seen = target_key op ∷ [] }) (clear_redo j)
]

unfoldable pub begin_group : Journal → Journal
begin_group j = elim j.grouping [
  | some g ↦ j
  | none ↦ record j { grouping = some (record { ops = []; seen = [] }) }
]

abbrev close : UndoGroup → Journal → Journal
close g j = elim g.ops [ [] ↦ j | _ ∷ _ ↦ push_routed g j ]

unfoldable pub end_group : Journal → Journal
end_group j = elim j.grouping [ none ↦ j | some g ↦ close g (record j { grouping = none }) ]

-- The entry to revert, its last operation first, and the journal without it.
unfoldable pub pop_undo : Journal → Option (List InverseOp) × Journal
pop_undo j = elim j.undo_stack [
  | [] ↦ (none, j)
  | g ∷ rest ↦ (some (reverse g.ops), record j { undo_stack = rest })
]

unfoldable pub pop_redo : Journal → Option (List InverseOp) × Journal
pop_redo j = elim j.redo_stack [
  | [] ↦ (none, j)
  | g ∷ rest ↦ (some (reverse g.ops), record j { redo_stack = rest })
]

-- `routeReplay` before and after the call of its function.
unfoldable pub enter_replay : Route → Journal → Journal
unfolding begin_group
enter_replay direction j = begin_group (record j { route = direction })

unfoldable pub leave_replay : Journal → Journal
unfolding end_group
leave_replay j = record (end_group j) { route = normal }

unfoldable pub clear : Journal → Journal
clear j = new_journal
