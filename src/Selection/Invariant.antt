-- ===== src/Selection/Invariant.antt =====
-- The invariant that web/src/app/clip_selection.ts names in its comment: the primary clip is in the
-- lot, or both are empty.
use daw_project.Common.{
  ◌≡◌, refl, arith, if◌then◌else◌, ◌||◌, ◌&&◌, not, String, Bool, true, false, Option, none, some,
  List, [], ◌∷◌, ◌++◌, length, ltb, Bool-cases, Option-cases, inl, inr, str_eq, str_eq_iff,
}
use daw_project.Common.Find.{any, remove_first}
use daw_project.Num.{Num}
use daw_project.Schema.{ClipDef, TrackDef}
use daw_project.Undo.{PlacedClip}
use daw_project.Selection.Named.{
  IsNamed, held_named, keep_alive-named, select_clip-IsNamed, set_clip_selection-IsNamed,
}
use daw_project.Selection.{
  Selection, is_id, holds, add_id, last_of, select_clip, clear_clip_selection, set_time_selection,
  add_ids, primary_after, set_clip_selection, selected_in, selected_among, clip_ids_of, keep_alive,
  settle, selected_clips, is_primary,
}

abbrev primary_held : Option String → List String → Bool
primary_held none [] = true
primary_held none (_ ∷ _) = false
primary_held (some p) ids = holds p ids

abbrev pub IsSettled : Selection → Type 0
IsSettled s = primary_held s.clip_id s.clip_ids ≡ true

-- The calls, none of which names a clip by the empty id.
pub data Step : Selection → Selection → Type 0 where
  selects :
      (c t : String) (additive : Bool) (s : Selection)
      → str_eq c "" ≡ false
      → Step s (select_clip c t additive s)
  clears : (s : Selection) → Step s (clear_clip_selection s)
  times : (a b : Num) (s : Selection) → Step s (set_time_selection a b s)
  sets :
      (ids : List String) (additive : Bool) (s : Selection)
      → holds "" ids ≡ false
      → Step s (set_clip_selection ids additive s)
  reads : (tracks : List TrackDef) (s : Selection) → Step s (selected_clips tracks s).1

abbrev pub nothing_selected : Selection
nothing_selected = record { clip_id = none; clip_ids = []; track_id = none; time_selection = none }

pub data Reach : Selection → Type 0 where
  start : Reach nothing_selected
  next : {s s' : Selection} → Reach s → Step s s' → Reach s'

holds-here : (x : String) (xs : List String) → holds x (x ∷ xs) ≡ true
unfolding any
holds-here x xs = ground (arith, str_eq_iff x x)

holds-cons : (p x : String) (xs : List String) → holds p xs ≡ true → holds p (x ∷ xs) ≡ true
unfolding any
holds-cons p x xs h = ground arith

holds-append : (p x : String) (xs : List String) → holds p xs ≡ true → holds p (xs ++ x ∷ []) ≡ true
unfolding any
holds-append p x [] h = cc
holds-append p x (y ∷ ys) h = ground (arith, holds-append p x ys)

holds-end : (x : String) (xs : List String) → holds x (xs ++ x ∷ []) ≡ true
holds-end x [] = holds-here x []
holds-end x (y ∷ ys) = holds-cons x y (ys ++ x ∷ []) (holds-end x ys)

holds-add_id : (x : String) (xs : List String) → holds x (add_id x xs) ≡ true
holds-add_id x xs = ground (arith, holds-end x xs)

keeps-add_id : (p x : String) (xs : List String) → holds p xs ≡ true → holds p (add_id x xs) ≡ true
keeps-add_id p x xs h = ground (arith, holds-append p x xs)

keeps-add_ids :
    (p : String) (xs ids : List String) → holds p ids ≡ true → holds p (add_ids xs ids) ≡ true
unfolding add_ids
keeps-add_ids p [] ids h = h
keeps-add_ids p (x ∷ xs) ids h = keeps-add_ids p xs (add_id x ids) (keeps-add_id p x ids h)

primary_held-cons :
    (p : Option String) (x y : String) (xs : List String)
    → primary_held p (y ∷ xs) ≡ true
    → primary_held p (x ∷ y ∷ xs) ≡ true
primary_held-cons none x y xs h = cc
primary_held-cons (some p) x y xs h = holds-cons p x (y ∷ xs) h

last-held : (xs : List String) → primary_held (last_of xs) xs ≡ true
unfolding last_of
last-held [] = refl
last-held (x ∷ []) = holds-here x []
last-held (x ∷ y ∷ xs) = primary_held-cons (last_of (y ∷ xs)) x y xs (last-held (y ∷ xs))

last-add_ids :
    (x : String) (xs ids : List String)
    → primary_held (last_of (x ∷ xs)) (add_ids (x ∷ xs) ids) ≡ true
unfolding last_of add_ids
last-add_ids x [] ids = holds-add_id x ids
last-add_ids x (y ∷ xs) ids = last-add_ids y xs (add_id x ids)

keeps-remove_first :
    (p x : String) (xs : List String)
    → str_eq p x ≡ false
    → holds p xs ≡ true
    → holds p (remove_first (is_id x) xs) ≡ true
unfolding any remove_first
keeps-remove_first p x [] d h = cc
keeps-remove_first p x (y ∷ ys) d h =
    ground (arith, keeps-remove_first p x ys, str_eq_iff y x, str_eq_iff y p, str_eq_iff p x)

dropped-held :
    (c : String) (p : Option String) (ids : List String)
    → primary_held p ids ≡ true
    → primary_held
        (if is_primary c p then last_of (remove_first (is_id c) ids) else p)
        (remove_first (is_id c) ids)
      ≡ true
unfolding remove_first
dropped-held c none [] h = refl
dropped-held c none (x ∷ xs) h = cc
dropped-held c (some p) ids h = elim (Bool-cases (str_eq p c)) [
  | inl e ↦ rw e (last-held (remove_first (is_id c) ids))
  | inr e ↦ rw e (keeps-remove_first p c ids e h)
]

select_clip-IsSettled :
    (c t : String) (b : Bool) (s : Selection) → IsSettled s → IsSettled (select_clip c t b s)
unfolding select_clip
select_clip-IsSettled c t false s h = holds-here c []
select_clip-IsSettled c t true s h =
    elim (Bool-cases (holds c s.clip_ids && ltb 1 (length s.clip_ids))) [
      | inl e ↦ rw e (dropped-held c s.clip_id s.clip_ids h)
      | inr e ↦ rw e (holds-add_id c s.clip_ids)
    ]

-- The lot of `setClipSelection` with no ids.
unchanged-IsSettled :
    (b : Bool) (p : Option String) (ids : List String)
    → primary_held p ids ≡ true
    → primary_held
        (primary_after [] (not b || not (ltb 0 (length (if b then ids else [])))) p)
        (if b then ids else [])
      ≡ true
unchanged-IsSettled true p [] h = refl
unchanged-IsSettled true p (x ∷ xs) h =
    let e : ltb 0 (length (x ∷ xs)) ≡ true = ground arith in rw e h
unchanged-IsSettled false p ids h = refl

set_clip_selection-IsSettled :
    (ids : List String) (b : Bool) (s : Selection)
    → IsSettled s
    → IsSettled (set_clip_selection ids b s)
unfolding set_clip_selection add_ids
set_clip_selection-IsSettled [] b s h = unchanged-IsSettled b s.clip_id s.clip_ids h
set_clip_selection-IsSettled (x ∷ xs) b s h = last-add_ids x xs (if b then s.clip_ids else [])

-- What is alive was selected.
alive_in :
    (p : String) (ids : List String) (t : String) (cs : List ClipDef)
    → holds p (clip_ids_of (selected_in ids t cs)) ≡ true
    → holds p ids ≡ true
unfolding any selected_in clip_ids_of
alive_in p ids t [] h = cc
alive_in p ids t (c ∷ cs) h = ground (arith, alive_in p ids t cs, str_eq_iff c.id p)

holds-clip_ids_of :
    (p : String) (xs ys : List PlacedClip)
    → holds p (clip_ids_of (xs ++ ys)) ≡ (holds p (clip_ids_of xs) || holds p (clip_ids_of ys))
unfolding any clip_ids_of
holds-clip_ids_of p [] ys = refl
holds-clip_ids_of p (x ∷ xs) ys = ground (arith, holds-clip_ids_of p xs ys)

alive_among :
    (p : String) (ids : List String) (ts : List TrackDef)
    → holds p (clip_ids_of (selected_among ids ts)) ≡ true
    → holds p ids ≡ true
unfolding any selected_among clip_ids_of
alive_among p ids [] h = cc
alive_among p ids (t ∷ ts) h = ground (
  arith,
  holds-clip_ids_of p (selected_in ids t.id t.clips) (selected_among ids ts),
  alive_in p ids t.id t.clips,
  alive_among p ids ts,
)

keep_alive-held :
    (p : String) (alive ids : List String)
    → holds p alive ≡ true
    → holds p ids ≡ true
    → holds p (keep_alive alive ids) ≡ true
unfolding any keep_alive
keep_alive-held p alive [] a h = cc
keep_alive-held p alive (x ∷ xs) a h = elim (Bool-cases (str_eq x p)) [
  | inl e ↦
      let same : x ≡ p = (str_eq_iff x p).0 e in
      let there : holds x alive ≡ true = rw same a in rw (there, e) refl
  | inr e ↦ ground (arith, keep_alive-held p alive xs)
]

keep_alive-nil : (ids : List String) → keep_alive [] ids ≡ []
unfolding any keep_alive
keep_alive-nil [] = refl
keep_alive-nil (x ∷ xs) = keep_alive-nil xs

last-settles :
    (alive ids : List String)
    → ((x : String) → holds x alive ≡ true → holds x ids ≡ true)
    → primary_held (last_of alive) (keep_alive alive ids) ≡ true
unfolding last_of
last-settles [] ids within = rw (keep_alive-nil ids) refl
last-settles (a ∷ as') ids within = elim (Option-cases (last_of (a ∷ as'))) [
  | inl e ↦ cc (rw e at (last-held (a ∷ as')))
  | inr (x, e) ↦
      let there : holds x (a ∷ as') ≡ true = (rw e at (last-held (a ∷ as'))) in
      rw e (keep_alive-held x (a ∷ as') ids there (within x there))
]

settle-held :
    (p : Option String) (alive ids : List String)
    → ((x : String) → holds x alive ≡ true → holds x ids ≡ true)
    → holds "" ids ≡ false
    → primary_held p ids ≡ true
    → primary_held (settle alive p) (keep_alive alive ids) ≡ true
unfolding keep_alive
settle-held none alive [] within n h = refl
settle-held none alive (x ∷ xs) within n h = cc
settle-held (some p) alive ids within n h = elim (Bool-cases (holds p alive)) [
  | inl e ↦ rw (e, held_named p ids n h) (keep_alive-held p alive ids e h)
  | inr e ↦ rw (e, held_named p ids n h) (last-settles alive ids within)
]

Step-IsSettled :
    {s s' : Selection} → Step s s' → IsSettled s × IsNamed s → IsSettled s' × IsNamed s'
unfolding clear_clip_selection set_time_selection selected_clips any
Step-IsSettled (selects c t b s e) (h, n) =
    (select_clip-IsSettled c t b s h, select_clip-IsNamed c t b s e n)
Step-IsSettled (clears s) (h, n) = (refl, refl)
Step-IsSettled (times a b s) (h, n) = (h, n)
Step-IsSettled (sets ids b s e) (h, n) =
    (set_clip_selection-IsSettled ids b s h, set_clip_selection-IsNamed ids b s e n)
Step-IsSettled (reads tracks s) (h, n) =
    let alive = clip_ids_of (selected_among s.clip_ids tracks) in
    (
      settle-held s.clip_id alive s.clip_ids (λ x. alive_among x s.clip_ids tracks) n h,
      keep_alive-named alive s.clip_ids n,
    )

Reach-both : {s : Selection} → Reach s → IsSettled s × IsNamed s
unfolding any
Reach-both start = (refl, refl)
Reach-both (next r st) = Step-IsSettled st (Reach-both r)

-- Whatever clicks, lassos, clears and readings of the selection follow one another, on whatever
-- documents, from nothing selected on, where no click or lasso names a clip by the empty id: the
-- primary clip is one of the lot, or the lot is empty and there is none.
pub Reach-IsSettled : {s : Selection} → Reach s → IsSettled s
Reach-IsSettled r = (Reach-both r).0
