-- ===== src/Gestures/Trim.antt =====
-- What the pending bounds of a resize are.
use mathlib.Core.Path.{subst}
use daw_project.Common.{
  ◌≡◌, refl, sym, Bool, true, false, not, ◌&&◌, none, some, List, [], ◌∷◌, arith, if◌then◌else◌,
  Bool-cases, ◌⊎◌, Option-cases, inl, inr,
}
use daw_project.Common.Int.{pos, ◌+ℤ◌, ◌-ℤ◌, ◌≤ℤ◌, +ℤ_parts, -ℤ_parts, int_laws}
use daw_project.Num.{Num, num, min_num, max_num}
use daw_project.Undo.{ClipBounds}
use daw_project.Project.{Automerge, Project}
use daw_project.Gestures.{
  Side, left, right, Resize, Move, min_length, trim_head, trim_tail, pending_after, snap_sec, trim,
  dragged_to, is_small, Gesture, flush_bounds, start_resize, on_move, on_frame, Event, move, frame,
  run,
}

-- The end that is not dragged stays.
abbrev pub OtherEnd : Side → ClipBounds → ClipBounds → Type 0
OtherEnd right orig b = b.start_sample ≡ orig.start_sample
OtherEnd left orig b = b.start_sample +ℤ b.length_samples ≡ orig.start_sample +ℤ orig.length_samples

-- The clip is on the timeline, plays its material from where it stood, and no earlier than its start.
pub record IsTrimmed (side : Side) (orig : ClipBounds) (b : ClipBounds) : Type 0 where
  pub on_timeline : pos 0 ≤ℤ b.start_sample
  pub in_material : pos 0 ≤ℤ b.offset_samples
  pub long_enough : min_length ≤ℤ b.length_samples
  pub in_place : b.offset_samples +ℤ orig.start_sample ≡ orig.offset_samples +ℤ b.start_sample
  pub other_end : OtherEnd side orig b

abbrev pub IsWhole : ClipBounds → Type 0
IsWhole orig =
    (pos 0 ≤ℤ orig.start_sample)
    × (pos 0 ≤ℤ orig.offset_samples)
    × (min_length ≤ℤ orig.length_samples)

squeezed :
    (lo hi wanted : Num)
    → pos 0 ≤ℤ hi
    → lo ≤ℤ hi
    → (pos 0 ≤ℤ min_num hi (max_num (num 0) (max_num lo wanted)))
      × (lo ≤ℤ min_num hi (max_num (num 0) (max_num lo wanted)))
      × (min_num hi (max_num (num 0) (max_num lo wanted)) ≤ℤ hi)
unfolding min_num max_num
squeezed lo hi wanted a b = (ground arith, ground arith, ground arith)

module _ (orig : ClipBounds) (wanted : Num) (h : IsWhole orig) where
  abbrev lo : Num
  lo = orig.start_sample -ℤ orig.offset_samples

  abbrev hi : Num
  hi = orig.start_sample +ℤ orig.length_samples -ℤ min_length

  abbrev start : Num
  start = min_num hi (max_num (num 0) (max_num lo wanted))

  start_bounds : (pos 0 ≤ℤ start) × (lo ≤ℤ start) × (start ≤ℤ hi)
  start_bounds =
      squeezed lo hi wanted (omega (arith, +ℤ_parts, -ℤ_parts, h))
        (omega (arith, +ℤ_parts, -ℤ_parts, h))

  trim_head-IsTrimmed : IsTrimmed left orig (trim_head orig wanted)
  unfolding trim_head
  trim_head-IsTrimmed = record {
    on_timeline = start_bounds.0;
    in_material = omega (arith, +ℤ_parts, -ℤ_parts, start_bounds);
    long_enough = omega (arith, +ℤ_parts, -ℤ_parts, start_bounds);
    in_place = omega int_laws;
    other_end = omega int_laws;
  }

trim_tail-IsTrimmed :
    (orig b : ClipBounds) (wanted : Num)
    → IsTrimmed right orig b
    → IsTrimmed right orig (trim_tail orig b wanted)
unfolding trim_tail max_num
trim_tail-IsTrimmed orig b wanted t = record {
  on_timeline = t.on_timeline;
  in_material = t.in_material;
  long_enough = ground arith;
  in_place = t.in_place;
  other_end = t.other_end;
}

trim-IsTrimmed :
    (side : Side) (orig b : ClipBounds) (wanted : Num)
    → IsWhole orig
    → IsTrimmed side orig b
    → IsTrimmed side orig (trim side orig b wanted)
unfolding trim
trim-IsTrimmed right orig b wanted h t = trim_tail-IsTrimmed orig b wanted t
trim-IsTrimmed left orig b wanted h t = trim_head-IsTrimmed orig wanted h

pending_after_cases :
    (r : Resize) (m : Move) (b : ClipBounds)
    → (pending_after r m b ≡ none)
      ⊎ ((wanted : Num) × (pending_after r m b ≡ some (trim r.side r.orig b wanted)))
unfolding pending_after
pending_after_cases r m b =
    elim (Option-cases (snap_sec r m.pps m.alt (dragged_to r.side r.orig m.shift))) [
      | inl e ↦ inl (rw e refl)
      | inr (wanted, e) ↦ inr (wanted, rw e refl)
    ]

IsTrimmed-self : (side : Side) (orig : ClipBounds) → IsWhole orig → IsTrimmed side orig orig
IsTrimmed-self left orig h = record {
  on_timeline = h.0;
  in_material = h.1;
  long_enough = h.2;
  in_place = refl;
  other_end = refl;
}
IsTrimmed-self right orig h = record {
  on_timeline = h.0;
  in_material = h.1;
  long_enough = h.2;
  in_place = refl;
  other_end = refl;
}

module _ (A : Automerge) (r : Resize) (h : IsWhole r.orig) where
  abbrev Inv : Gesture A → Type 0
  Inv g = (g.resize ≡ r) × IsTrimmed r.side r.orig g.pending

  start-Inv : (p : Project A) → Inv (start_resize A p r)
  start-Inv p = (refl, IsTrimmed-self r.side r.orig h)

  on_move-Inv : (m : Move) (g : Gesture A) → Inv g → Inv (on_move A m g)
  unfolding on_move
  on_move-Inv m g i = elim (Bool-cases (not g.moved && is_small m.dx)) [
    | inl e ↦ rw (e, on_move) i
    | inr e ↦ elim (pending_after_cases g.resize m g.pending) [
      | inl f ↦ rw (e, f, on_move) i
      | inr (wanted, f) ↦
          rw (e, f, on_move)
            (
              i.0,
              subst (λ q. IsTrimmed r.side r.orig (trim q.side q.orig g.pending wanted)) (sym i.0)
                  (trim-IsTrimmed r.side r.orig g.pending wanted h i.1),
            )
    ]
  ]

  if-Inv : (b : Bool) (x y : Gesture A) → Inv x → Inv y → Inv (if b then x else y)
  if-Inv true x y i j = i
  if-Inv false x y i j = j

  on_frame-Inv :
      (emit : List A.Change → List A.Change) (g : Gesture A) → Inv g → Inv (on_frame A emit g)
  unfolding on_frame
  on_frame-Inv emit g i =
      if-Inv g.frame (record g { project = (flush_bounds A emit g).0; frame = false }) g i i

  run-Inv :
      (emit : List A.Change → List A.Change) (es : List Event) (g : Gesture A)
      → Inv g
      → Inv (run A emit es g)
  unfolding run
  run-Inv emit [] g i = i
  run-Inv emit (move m ∷ es) g i = run-Inv emit es (on_move A m g) (on_move-Inv m g i)
  run-Inv emit (frame ∷ es) g i = run-Inv emit es (on_frame A emit g) (on_frame-Inv emit g i)

-- A resize of a clip that stands on the timeline at no negative place, with no negative offset, and has
-- at least 1024 samples, by either edge, under any moves and frames: the clip to be written stays on
-- the timeline, has at least 1024 samples and no negative offset, each sample of its material stays
-- at its time, and the end that is not dragged stays: the other end for the head, the start for the tail.
pub resize-IsTrimmed :
    (A : Automerge) (r : Resize) (p : Project A) (emit : List A.Change → List A.Change)
    (es : List Event)
    → IsWhole r.orig
    → IsTrimmed r.side r.orig (run A emit es (start_resize A p r)).pending
resize-IsTrimmed A r p emit es h =
    (run-Inv A r h emit es (start_resize A p r) (start-Inv A r h p)).1
