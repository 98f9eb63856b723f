-- ===== src/Project/Composite/Gesture.antt =====
-- What `moveClipToTrack` leaves of the undo group in which it is called.
use daw_project.Common.{
  ◌≡◌, refl, ◌∙◌, String, Bool, true, false, ◌&&◌, Option, none, some, List, if◌then◌else◌, str_eq,
  arith, ◌⊎◌, inl, inr, Option-cases,
}
use daw_project.Num.{Num, num, eqb_num}
use daw_project.Schema.{ClipDef, ProjectDef, or_else, is_musical_clip}
use daw_project.Sanitize.{finite, clamp_tick}
use daw_project.Geometry.{clip_start_samples, sample_to_tick}
use daw_project.Document.{Outcome, applied, ignored, thrown, find_clip, track_is}
use daw_project.Journal.{
  Journal, UndoGroup, normal, capture, begin_group, end_group, push_routed, push_entry,
}
use daw_project.Common.Find.{any}
use daw_project.Undo.{InverseOp}
use daw_project.Project.{Automerge, Project, mutate, begin_undo_group, end_undo_group}
use daw_project.Mutators.Clips
use daw_project.Mutators.Clips.{whole}
use daw_project.Project.Composite.{
  Reply, move_clip_to_track, relocate, relocate_from, relocate_musical, returning, and_then,
  closing,
}

abbrev pub Stack : Type 0
Stack = List UndoGroup

-- A group is open on this stack.
abbrev pub Open : Stack → Journal → Type 0
Open stack j =
    (j.route ≡ normal)
    × (j.undo_stack ≡ stack)
    × (elim j.grouping [ none ↦ false | some _ ↦ true ] ≡ true)

-- No group is open, and the stack has at most one entry more.
abbrev pub Closed : Stack → Journal → Type 0
Closed stack j =
    (j.grouping ≡ none)
    × ((j.undo_stack ≡ stack) ⊎ ((g : UndoGroup) × (j.undo_stack ≡ push_entry g stack)))

capture-Open :
    (stack : Stack) (j : Journal) (op : InverseOp) → Open stack j → Open stack (capture op j)
unfolding capture
capture-Open stack j op (r, s, e) = (ground arith, ground arith, ground arith)

pub begin-Open :
    (j : Journal) → j.route ≡ normal → j.grouping ≡ none → Open j.undo_stack (begin_group j)
unfolding begin_group
begin-Open j r e = (ground arith, ground arith, ground arith)

begin-Open_again : (stack : Stack) (j : Journal) → Open stack j → Open stack (begin_group j)
unfolding begin_group
begin-Open_again stack j (r, s, e) = (ground arith, ground arith, ground arith)

end_grouping : (j : Journal) → j.route ≡ normal → (end_group j).grouping ≡ none
unfolding end_group push_routed
end_grouping j r = ground arith

end_stack :
    (j : Journal) (g : UndoGroup)
    → j.route ≡ normal
    → j.grouping ≡ some g
    → ((end_group j).undo_stack ≡ j.undo_stack)
      ⊎ ((end_group j).undo_stack ≡ push_entry g j.undo_stack)
unfolding end_group push_routed
end_stack j g r e = ground arith

pub end-Open : (stack : Stack) (j : Journal) → Open stack j → Closed stack (end_group j)
end-Open stack j (r, s, e) = (
  end_grouping j r,
  elim (Option-cases j.grouping) [
    | inl n ↦ absurd (ground arith)
    | inr (g, h) ↦ elim (end_stack j g r h) [
      | inl same ↦ inl (same ∙ s)
      | inr more ↦ inr (g, more ∙ rw s refl)
    ]
  ],
)

end_ungrouped : (j : Journal) → j.grouping ≡ none → end_group j ≡ j
unfolding end_group
end_ungrouped j e = ground arith

pub end-Closed : (stack : Stack) (j : Journal) → Closed stack j → Closed stack (end_group j)
end-Closed stack j c = rw (end_ungrouped j c.0) c

outcome_cases :
    (o : Outcome)
    → ((o ≡ ignored) ⊎ (o ≡ thrown)) ⊎ ((op : InverseOp) × (d : ProjectDef) × (o ≡ applied op d))
outcome_cases ignored = inl (inl refl)
outcome_cases thrown = inl (inr refl)
outcome_cases (applied op d) = inr (op, d, refl)

module _ (A : Automerge) (m : ProjectDef → Outcome) (p : Project A) where
  mutate-same :
      (m (A.content p.doc) ≡ ignored) ⊎ (m (A.content p.doc) ≡ thrown) → (mutate A m p).0 ≡ p
  unfolding mutate
  mutate-same (inl h) = rw (h, mutate)
  mutate-same (inr h) = rw (h, mutate)

  mutate-journal :
      (op : InverseOp) (d : ProjectDef)
      → m (A.content p.doc) ≡ applied op d
      → (mutate A m p).0.journal ≡ capture op p.journal
  unfolding mutate
  mutate-journal op d h = rw (h, mutate)

module _ (A : Automerge) (stack : Stack) where
  pub mutate-Open :
      (m : ProjectDef → Outcome) (p : Project A)
      → Open stack p.journal
      → Open stack (mutate A m p).0.journal
  mutate-Open m p o = elim (outcome_cases (m (A.content p.doc))) [
    | inl h ↦ rw (mutate-same A m p h) o
    | inr (op, d, h) ↦ rw (mutate-journal A m p op d h) (capture-Open stack p.journal op o)
  ]

  -- A method that opens and ends a group of its own ends the one that is open.
  abbrev pub Left : Project A → Type 0
  Left p = Open stack p.journal ⊎ Closed stack p.journal

  returning-0 : (reply : Reply) (r : Project A × Bool) → (returning A reply r).0 ≡ r.0
  unfolding returning
  returning-0 reply (p, true) = refl
  returning-0 reply (p, false) = refl

  and_then-Left :
      (r : Project A × Bool) (next : Project A → Project A × Bool)
      → Open stack r.0.journal
      → ((p : Project A) → Open stack p.journal → Left (next p).0)
      → Left (and_then A r next).0
  unfolding and_then
  and_then-Left (p, true) next o h = inl o
  and_then-Left (p, false) next o h = h p o

  and_then-Open :
      (r : Project A × Bool) (next : Project A → Project A × Bool)
      → Open stack r.0.journal
      → ((p : Project A) → Open stack p.journal → Open stack (next p).0.journal)
      → Open stack (and_then A r next).0.journal
  unfolding and_then
  and_then-Open (p, true) next o h = o
  and_then-Open (p, false) next o h = h p o

  closing-Left : (p : Project A) → Open stack p.journal → Left (closing A p).0
  unfolding closing end_undo_group
  closing-Left p o = inr (end-Open stack p.journal o)

  begin-Open_project :
      (p : Project A) → Open stack p.journal → Open stack (begin_undo_group A p).journal
  unfolding begin_undo_group
  begin-Open_project p o = begin-Open_again stack p.journal o

  relocate-Left :
      (from clip_id to : String) (copy : ClipDef) (p : Project A)
      → Open stack p.journal
      → Left (relocate A from clip_id to copy p).0
  unfolding relocate
  relocate-Left from clip_id to copy p o =
      let deleted = mutate A (Clips.delete_clip from clip_id) (begin_undo_group A p) in
      let added = and_then A deleted (mutate A (Clips.add_clip to copy)) in
      rw (returning-0 Reply.null (and_then A added (closing A))) (
        and_then-Left added (closing A)
          (and_then-Open deleted (mutate A (Clips.add_clip to copy))
            (mutate-Open (Clips.delete_clip from clip_id) (begin_undo_group A p)
              (begin-Open_project p o))
            (mutate-Open (Clips.add_clip to copy)))
          closing-Left)

  if-Left : (b : Bool) (x y : Project A × Reply) → Left x.0 → Left y.0 → Left (if b then x else y).0
  if-Left true x y l m = l
  if-Left false x y l m = m

  relocate_musical-Left :
      (from clip_id to : String) (clip : ClipDef) (tick : Option Num) (p : Project A)
      → Open stack p.journal
      → Left (relocate_musical A from clip_id to clip tick p).0
  unfolding relocate_musical
  relocate_musical-Left from clip_id to clip none p o = inl o
  relocate_musical-Left from clip_id to clip (some tick) p o =
      relocate-Left from clip_id to
        (record clip { start_tick = some (num (clamp_tick (finite tick))) }) p o

  relocate_from-Left :
      (from clip_id to : String) (start : Option Num) (clip : ClipDef) (current : Option Num)
      (p : Project A)
      → Open stack p.journal
      → Left (relocate_from A from clip_id to start clip current p).0
  unfolding relocate_from
  relocate_from-Left from clip_id to start clip none p o = inl o
  relocate_from-Left from clip_id to start clip (some current) p o =
      if-Left (str_eq from to && eqb_num (whole (or_else start current)) current) (p, Reply.null)
        (if is_musical_clip clip
          then relocate_musical A from clip_id to clip
              (sample_to_tick (A.content p.doc) (whole (or_else start current))) p
          else relocate A from clip_id to
              (record clip { start_sample = some (whole (or_else start current)) }) p)
        (inl o)
        (if-Left (is_musical_clip clip)
          (relocate_musical A from clip_id to clip
            (sample_to_tick (A.content p.doc) (whole (or_else start current))) p)
          (relocate A from clip_id to
            (record clip { start_sample = some (whole (or_else start current)) }) p)
          (relocate_musical-Left from clip_id to clip
            (sample_to_tick (A.content p.doc) (whole (or_else start current))) p o)
          (relocate-Left from clip_id to
            (record clip { start_sample = some (whole (or_else start current)) }) p o))

  -- In an open group, the move leaves it open or ends it.
  pub move_clip_to_track-Left :
      (from clip_id to : String) (start : Option Num) (p : Project A)
      → Open stack p.journal
      → Left (move_clip_to_track A from clip_id to start p).0
  unfolding move_clip_to_track
  move_clip_to_track-Left from clip_id to start p o =
      elim (Option-cases (find_clip (A.content p.doc) from clip_id)) [
        | inl e ↦ rw (e, move_clip_to_track) (inl o)
        | inr (clip, e) ↦
            rw (e, move_clip_to_track)
              (if-Left (any (track_is to) (A.content p.doc).tracks)
                (relocate_from A from clip_id to start clip
                  (clip_start_samples clip (A.content p.doc)) p)
                (p, Reply.null)
                (relocate_from-Left from clip_id to start clip
                  (clip_start_samples clip (A.content p.doc)) p o)
                (inl o))
      ]
