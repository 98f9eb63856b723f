-- ===== src/Selection/Named.antt =====
-- A selection without empty ids, web/src/app/clip_selection.ts.
use daw_project.Common.{
  ◌≡◌, refl, arith, ◌&&◌, String, Bool, true, false, List, [], ◌∷◌, ◌++◌, length, ltb, Bool-cases,
  inl, inr, str_eq, str_eq_iff,
}
use daw_project.Common.Find.{any, remove_first}
use daw_project.Selection.{
  Selection, is_id, holds, add_id, select_clip, add_ids, set_clip_selection, keep_alive,
}

-- No id of the lot is empty.
abbrev pub IsNamed : Selection → Type 0
IsNamed s = holds "" s.clip_ids ≡ false

empty_held :
    (p : String) (ids : List String)
    → p ≡ ""
    → holds "" ids ≡ false
    → holds p ids ≡ true
    → str_eq p "" ≡ false
empty_held p ids e n h = cc

-- What is held of a lot without empty ids is not empty.
pub held_named :
    (p : String) (ids : List String)
    → holds "" ids ≡ false
    → holds p ids ≡ true
    → str_eq p "" ≡ false
unfolding any
held_named p [] n h = cc
held_named p (x ∷ xs) n h = elim (Bool-cases (str_eq p "")) [
  | inl e ↦ empty_held p (x ∷ xs) ((str_eq_iff p "").0 e) n h
  | inr e ↦ e
]

append-named :
    (x : String) (ids : List String)
    → str_eq x "" ≡ false
    → holds "" ids ≡ false
    → holds "" (ids ++ x ∷ []) ≡ false
unfolding any
append-named x [] e n = rw e refl
append-named x (y ∷ ys) e n = ground (arith, append-named x ys)

add_id-named :
    (x : String) (ids : List String)
    → str_eq x "" ≡ false
    → holds "" ids ≡ false
    → holds "" (add_id x ids) ≡ false
add_id-named x ids e n = ground (arith, append-named x ids)

add_ids-named :
    (xs ids : List String)
    → holds "" xs ≡ false
    → holds "" ids ≡ false
    → holds "" (add_ids xs ids) ≡ false
unfolding any add_ids
add_ids-named [] ids e n = n
add_ids-named (x ∷ xs) ids e n =
    add_ids-named xs (add_id x ids) (ground arith) (add_id-named x ids (ground arith) n)

removed-named :
    (x : String) (ids : List String)
    → holds "" ids ≡ false
    → holds "" (remove_first (is_id x) ids) ≡ false
unfolding any remove_first
removed-named x [] n = refl
removed-named x (y ∷ ys) n = ground (arith, removed-named x ys)

pub keep_alive-named :
    (alive ids : List String) → holds "" ids ≡ false → holds "" (keep_alive alive ids) ≡ false
unfolding any keep_alive
keep_alive-named alive [] n = refl
keep_alive-named alive (x ∷ xs) n = ground (arith, keep_alive-named alive xs)

pub select_clip-IsNamed :
    (c t : String) (b : Bool) (s : Selection)
    → str_eq c "" ≡ false
    → IsNamed s
    → IsNamed (select_clip c t b s)
unfolding select_clip any
select_clip-IsNamed c t false s e n = add_id-named c [] e refl
select_clip-IsNamed c t true s e n =
    elim (Bool-cases (holds c s.clip_ids && ltb 1 (length s.clip_ids))) [
      | inl h ↦ rw h (removed-named c s.clip_ids n)
      | inr h ↦ rw h (add_id-named c s.clip_ids e n)
    ]

pub set_clip_selection-IsNamed :
    (ids : List String) (b : Bool) (s : Selection)
    → holds "" ids ≡ false
    → IsNamed s
    → IsNamed (set_clip_selection ids b s)
unfolding set_clip_selection any
set_clip_selection-IsNamed ids true s e n = add_ids-named ids s.clip_ids e n
set_clip_selection-IsNamed ids false s e n = add_ids-named ids [] e refl
