-- ===== src/Journal/Newest.antt =====
-- A stack keeps the newest hundred entries.
use daw_project.Common.{
  ℕ, zero, suc, ◌≤◌, ◌≡◌, refl, sym, ap, none, some, List, [], ◌∷◌, arith, length, take, ltb,
  if◌then◌else◌, if_elim, ltb→lt,
}
use daw_project.Undo.{InverseOp}
use daw_project.Journal.{
  Journal, UndoGroup, normal, max_entries, drop_oldest, push_entry, push_routed, capture, pop_undo,
}
use daw_project.Journal.Groups.{single}

drop_oldest-take {ℓ} :
    {A : Type ℓ} (n : ℕ) (xs : List A) → length xs ≡ suc n → drop_oldest xs ≡ take n xs
unfolding drop_oldest
drop_oldest-take n [] h = absurd (omega arith)
drop_oldest-take zero (x ∷ []) h = refl
drop_oldest-take (suc n) (x ∷ []) h = absurd (omega arith)
drop_oldest-take zero (x ∷ y ∷ xs) h = absurd (omega arith)
drop_oldest-take (suc n) (x ∷ y ∷ xs) h =
    ap (λ ys. x ∷ ys) (drop_oldest-take n (y ∷ xs) (omega arith))

take_all {ℓ} : {A : Type ℓ} (n : ℕ) (xs : List A) → length xs ≤ n → take n xs ≡ xs
take_all zero [] h = refl
take_all zero (x ∷ xs) h = absurd (omega arith)
take_all (suc n) [] h = refl
take_all (suc n) (x ∷ xs) h = ap (λ ys. x ∷ ys) (take_all n xs (omega arith))

bounded-take :
    (n : ℕ) (xs : List UndoGroup)
    → length xs ≤ suc n
    → (if ltb n (length xs) then drop_oldest xs else xs) ≡ take n xs
bounded-take n xs h =
    if_elim (λ (ys : List UndoGroup). ys ≡ take n xs) (ltb n (length xs))
      (λ e. drop_oldest-take n xs (omega (arith, ltb→lt n (length xs))))
      (λ e. sym (take_all n xs (ground arith)))

pub push_entry-take :
    (g : UndoGroup) (stack : List UndoGroup)
    → length stack ≤ max_entries
    → push_entry g stack ≡ take max_entries (g ∷ stack)
unfolding push_entry
push_entry-take g stack h = bounded-take max_entries (g ∷ stack) (omega arith)

-- Outside any gesture and any replay.
pub record IsCalm (j : Journal) : Type 0 where
  pub route : j.route ≡ normal
  pub grouping : j.grouping ≡ none
  pub bound : length j.undo_stack ≤ max_entries

pub capture_calm :
    (op : InverseOp) (j : Journal)
    → IsCalm j
    → capture op j ≡ record j { undo_stack = push_entry (single op) j.undo_stack; redo_stack = [] }
unfolding capture push_routed
capture_calm op j c = ground arith

pub pop_undo-single :
    (op : InverseOp) (j : Journal) (gs : List UndoGroup)
    → j.undo_stack ≡ single op ∷ gs
    → pop_undo j ≡ (some (op ∷ []), record j { undo_stack = gs })
unfolding pop_undo
pop_undo-single op j gs e = ground arith
