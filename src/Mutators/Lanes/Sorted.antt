-- ===== src/Mutators/Lanes/Sorted.antt =====
-- The points of a lane stay in the order of their times.
use daw_project.Common.{
  ℕ, zero, suc, ◌==◌, ◌≡◌, refl, ap, String, false, Option, none, some, List, [], ◌∷◌, ◌>>=◌, arith,
  get_elem?, set, if_elim, Bool-cases, Option-cases, inl, inr,
}
use mathlib.Core.Option
use daw_project.Common.Find.{
  find, update_first, insert_at, erase_at, find-update_first, find_passes,
}
use daw_project.Common.Int.{◌≤ℤ◌}
use daw_project.Num.{Num}
use daw_project.Schema.{AutomationPoint, AutomationLaneDef, ProjectDef}
use daw_project.Document.{Outcome, applied, ignored, thrown, find_track}
use daw_project.Document.Access.{find_track-update_track}
use daw_project.Mutators.Lanes.{
  lane_is, lanes_in, update_lanes, update_lane, find_lane, clamp_t, clamp_v, leb_num, count_until,
  with_points, point, reposition, add_automation_point, move_automation_point,
  delete_automation_point,
}

none-some {ℓ} : {A : Type ℓ} {x : A} → none ≡ some x → ⊥
none-some h = cc

-- No point is earlier than the one before it, and the first not than `a`.
abbrev From : Num → List AutomationPoint → Type 0
From a [] = Unit
From a (p ∷ ps) = (a ≤ℤ p.t) × From p.t ps

abbrev pub Ascending : List AutomationPoint → Type 0
Ascending [] = Unit
Ascending (p ∷ ps) = From p.t ps

From-weaken : (a b : Num) (ps : List AutomationPoint) → a ≤ℤ b → From b ps → From a ps
From-weaken a b [] h f = tt
From-weaken a b (p ∷ ps) h f = (omega (arith, f.0), f.1)

count_until-zero :
    (t b : Num) (ps : List AutomationPoint) → leb_num b t ≡ false → From b ps → count_until t ps ≡ 0
unfolding count_until
count_until-zero t b [] h f = refl
count_until-zero t b (p ∷ ps) h f =
    let e : leb_num p.t t ≡ false = ground (arith, f.0) in rw e (count_until-zero t p.t ps e f.1)

insert-From :
    (a t v : Num) (ps : List AutomationPoint)
    → a ≤ℤ t
    → From a ps
    → From a (insert_at (count_until t ps) (point t v) ps)
unfolding count_until insert_at
insert-From a t v [] h f = (h, tt)
insert-From a t v (p ∷ ps) h f = elim (Bool-cases (leb_num p.t t)) [
  | inl e ↦ rw e (f.0, insert-From p.t t v ps (ground arith) f.1)
  | inr e ↦ rw (e, count_until-zero t p.t ps e f.1) (h, (ground arith, f.1))
]

insert-Ascending :
    (t v : Num) (ps : List AutomationPoint)
    → Ascending ps
    → Ascending (insert_at (count_until t ps) (point t v) ps)
unfolding count_until insert_at
insert-Ascending t v [] f = tt
insert-Ascending t v (p ∷ ps) f = elim (Bool-cases (leb_num p.t t)) [
  | inl e ↦ rw e (insert-From p.t t v ps (ground arith) f)
  | inr e ↦ rw (e, count_until-zero t p.t ps e f) (ground arith, f)
]

From-Ascending : (a : Num) (ps : List AutomationPoint) → From a ps → Ascending ps
From-Ascending a [] f = tt
From-Ascending a (p ∷ ps) f = f.1

erase-From : (a : Num) (i : ℕ) (ps : List AutomationPoint) → From a ps → From a (erase_at i ps)
unfolding erase_at
erase-From a i [] f = tt
erase-From a zero (p ∷ ps) f = From-weaken a p.t ps f.0 f.1
erase-From a (suc i) (p ∷ ps) f = (f.0, erase-From p.t i ps f.1)

erase-Ascending : (i : ℕ) (ps : List AutomationPoint) → Ascending ps → Ascending (erase_at i ps)
unfolding erase_at
erase-Ascending i [] f = tt
erase-Ascending zero (p ∷ ps) f = From-Ascending p.t ps f
erase-Ascending (suc i) (p ∷ ps) f = erase-From p.t i ps f

set-eq-insert_at :
    (ps : List AutomationPoint) (i : ℕ) (p old : AutomationPoint)
    → get_elem? ps i ≡ some old
    → set ps i p ≡ insert_at i p (erase_at i ps)
unfolding insert_at erase_at
set-eq-insert_at [] i p old h = cc
set-eq-insert_at (q ∷ qs) zero p old h = refl
set-eq-insert_at (q ∷ qs) (suc i) p old h = ap (λ rs. q ∷ rs) (set-eq-insert_at qs i p old h)

reposition-Ascending :
    (i : ℕ) (t v : Num) (ps : List AutomationPoint) (old : AutomationPoint)
    → get_elem? ps i ≡ some old
    → Ascending ps
    → Ascending (reposition i (count_until t (erase_at i ps)) (point t v) ps)
unfolding reposition
reposition-Ascending i t v ps old h f =
    let new = count_until t (erase_at i ps) in
    let sorted = insert-Ascending t v (erase_at i ps) (erase-Ascending i ps f) in
    if_elim Ascending (new == i)
      (λ e.
        let same : new ≡ i = ground arith in
        rw (set-eq-insert_at ps i (point t v) old h) (rw same at sorted))
      (λ _. sorted)

written :
    (lane_id : String) (f : List AutomationPoint → List AutomationPoint) (l : AutomationLaneDef)
    (lanes : Option (List AutomationLaneDef))
    → (lanes >>= find (lane_is lane_id)) ≡ some l
    → (Option.map (update_first (lane_is lane_id) (with_points f)) lanes >>= find (lane_is lane_id))
      ≡ some (with_points f l)
written lane_id f l none h = cc
written lane_id f l (some ls) h =
    find-update_first (lane_is lane_id) (with_points f) ls l h
      (find_passes (lane_is lane_id) ls l h)

find_lane-update_lane :
    (d : ProjectDef) (track_id : Option String) (lane_id : String)
    (f : List AutomationPoint → List AutomationPoint) (l : AutomationLaneDef)
    → find_lane d track_id lane_id ≡ some l
    → find_lane (update_lane track_id lane_id (with_points f) d) track_id lane_id
      ≡ some (with_points f l)
unfolding find_lane update_lanes lanes_in
find_lane-update_lane d none lane_id f l h = written lane_id f l d.automation h
find_lane-update_lane d (some id) lane_id f l h = elim (Option-cases (find_track d id)) [
  | inl e ↦ absurd (none-some (rw e at h))
  | inr (t, e) ↦
      rw
        (find_track-update_track d id
          (λ tr. record tr {
            automation = Option.map (update_first (lane_is lane_id) (with_points f)) tr.automation;
          })
          t e refl)
        (written lane_id f l t.automation (rw e at h))
]

-- The lane, where it is there, is in order.
abbrev pub IsSorted : Option AutomationLaneDef → Type 0
IsSorted none = Unit
IsSorted (some l) = Ascending l.points

-- The outcome is no throw, and leaves the lane in order.
abbrev pub LeavesSorted : Option String → String → Outcome → Type 0
LeavesSorted track_id lane_id (applied inverse d) = IsSorted (find_lane d track_id lane_id)
LeavesSorted track_id lane_id ignored = Unit
LeavesSorted track_id lane_id thrown = ⊥

module _ (track_id : Option String) (lane_id : String) (d : ProjectDef) where
  update-IsSorted :
      (f : List AutomationPoint → List AutomationPoint) (l : AutomationLaneDef)
      → find_lane d track_id lane_id ≡ some l
      → Ascending (f l.points)
      → IsSorted (find_lane (update_lane track_id lane_id (with_points f) d) track_id lane_id)
  update-IsSorted f l h a = rw (find_lane-update_lane d track_id lane_id f l h) a

  module _ (l : AutomationLaneDef) (found : find_lane d track_id lane_id ≡ some l)
      (a : Ascending l.points) where
    add-IsSorted :
        (t v : Num) → LeavesSorted track_id lane_id (add_automation_point track_id lane_id t v d)
    unfolding add_automation_point
    add-IsSorted t v =
        rw (found, add_automation_point)
          (update-IsSorted
            (insert_at (count_until (clamp_t t) l.points) (point (clamp_t t) (clamp_v v))) l found
            (insert-Ascending (clamp_t t) (clamp_v v) l.points a))

    move-IsSorted :
        (t v : Num) (i : ℕ)
        → LeavesSorted track_id lane_id (move_automation_point track_id lane_id i t v d)
    unfolding move_automation_point
    move-IsSorted t v i = elim (Option-cases (get_elem? l.points i)) [
      | inl e ↦ rw (found, e, move_automation_point) tt
      | inr (old, e) ↦
          rw (found, e, move_automation_point)
            (update-IsSorted
              (reposition i (count_until (clamp_t t) (erase_at i l.points))
                (point (clamp_t t) (clamp_v v)))
              l found (reposition-Ascending i (clamp_t t) (clamp_v v) l.points old e a))
    ]

    delete-IsSorted :
        (i : ℕ) → LeavesSorted track_id lane_id (delete_automation_point track_id lane_id i d)
    unfolding delete_automation_point
    delete-IsSorted i = elim (Option-cases (get_elem? l.points i)) [
      | inl e ↦ rw (found, e, delete_automation_point) tt
      | inr (p, e) ↦
          rw (found, e, delete_automation_point)
            (update-IsSorted (erase_at i) l found (erase-Ascending i l.points a))
    ]

  -- In a lane whose points stand in the order of their times, they do so after any point is added,
  -- moved or deleted, whatever the time, the value and the index; none of the three throws.
  pub points-IsSorted :
      (t v : Num) (i : ℕ)
      → IsSorted (find_lane d track_id lane_id)
      → LeavesSorted track_id lane_id (add_automation_point track_id lane_id t v d)
        × LeavesSorted track_id lane_id (move_automation_point track_id lane_id i t v d)
        × LeavesSorted track_id lane_id (delete_automation_point track_id lane_id i d)
  unfolding add_automation_point move_automation_point delete_automation_point
  points-IsSorted t v i s = elim (Option-cases (find_lane d track_id lane_id)) [
    | inl e ↦ (
      rw (e, add_automation_point) tt,
      rw (e, move_automation_point) tt,
      rw (e, delete_automation_point) tt,
    )
    | inr (l, e) ↦
        let a : Ascending l.points = rw e at s in
        (add-IsSorted l e a t v, move-IsSorted l e a t v i, delete-IsSorted l e a i)
  ]
