-- ===== src/Project/History/Timeline/Refines.antt =====
-- The edits and undos of class `Project` are those of the list of documents.
use daw_project.Common.{
  ℕ, zero, suc, ◌≤◌, String, ◌≡◌, refl, ap, ◌∙◌, none, List, [], ◌∷◌, arith, length, take, ◌⊎◌, inl,
  inr,
}
use daw_project.Schema.{ProjectDef}
use daw_project.Undo.{InverseOp}
use daw_project.Journal.{UndoGroup, normal, max_entries, pop_undo}
use daw_project.Journal.Groups.{single, IsIdle}
use daw_project.Document.{Outcome, applied, ignored, thrown}
use daw_project.Replay.{perform}
use daw_project.Replay.Reversible.{Reversible}
use daw_project.Replay.Exact.{undo_exact}
use daw_project.Journal.Newest.{IsCalm, push_entry-take, capture_calm, pop_undo-single}
use daw_project.Journal.Bounds.{length-push_entry}
use daw_project.Project.{Automerge, Project, mutate, undo}
use daw_project.Project.History.{after, mutate-applied, undo_entry, replay_routed_undo}
use daw_project.Project.History.Timeline.{
  Timeline, Command, edit, back, outcome, step_back, step, AllReversible, play,
}

module _ (fresh : String) where
  -- The entries of the undo stack lead from the document to the past ones, one after the other.
  abbrev Leads : List UndoGroup → List ProjectDef → ProjectDef → Type 0
  Leads [] [] d = Unit
  Leads (g ∷ gs) (e ∷ es) d =
      ((op : InverseOp) × (again : InverseOp) × (g ≡ single op)
        × (perform fresh op d ≡ applied again e))
      × Leads gs es e
  Leads _ _ d = ⊥

  Leads-take :
      (n : ℕ) (gs : List UndoGroup) (es : List ProjectDef) (d : ProjectDef)
      → Leads gs es d
      → Leads (take n gs) (take n es) d
  Leads-take zero gs es d l = tt
  Leads-take (suc n) [] [] d l = tt
  Leads-take (suc n) [] (e ∷ es) d l = absurd l
  Leads-take (suc n) (g ∷ gs) [] d l = absurd l
  Leads-take (suc n) (g ∷ gs) (e ∷ es) d l = (l.0, Leads-take n gs es e l.1)

  length-Leads :
      (gs : List UndoGroup) (es : List ProjectDef) (d : ProjectDef)
      → Leads gs es d
      → length gs ≡ length es
  length-Leads [] [] d l = refl
  length-Leads [] (e ∷ es) d l = absurd l
  length-Leads (g ∷ gs) [] d l = absurd l
  length-Leads (g ∷ gs) (e ∷ es) d l = ap suc (length-Leads gs es e l.1)

module _ (A : Automerge) (emit : List A.Change → List A.Change) (fresh : ℕ → String) where
  open A use {content, change, content-change}

  abbrev pub handle : Command → Project A → Project A
  handle (edit op) p = (mutate A (perform (fresh 0) op) p).0
  handle back p = (undo A emit fresh p).0

  unfoldable pub run : List Command → Project A → Project A
  run [] p = p
  run (c ∷ cs) p = run cs (handle c p)

  -- The project shows the timeline.
  record Shows (p : Project A) (t : Timeline) : Type 0 where
    present : content p.doc ≡ t.present
    calm : IsCalm p.journal
    leads : Leads (fresh 0) p.journal.undo_stack t.past t.present

  edit-Shows :
      (op inverse : InverseOp) (d : ProjectDef) (p : Project A) (t : Timeline)
      → Shows p t
      → Reversible op t.present
      → perform (fresh 0) op t.present ≡ applied inverse d
      → Shows
          (after A inverse d p)
          (record { present = d; past = take max_entries (t.present ∷ t.past) })
  edit-Shows op inverse d p t s r e =
      let (again, f) = undo_exact (fresh 0) op inverse t.present d r e in
      record {
        present = content-change p.doc d;
        calm = rw (capture_calm inverse p.journal s.calm) (record {
          route = s.calm.route;
          grouping = s.calm.grouping;
          bound = length-push_entry (single inverse) p.journal.undo_stack s.calm.bound;
        });
        leads =
            rw
              (
                capture_calm inverse p.journal s.calm,
                push_entry-take (single inverse) p.journal.undo_stack s.calm.bound,
              )
              (Leads-take (fresh 0) max_entries (single inverse ∷ p.journal.undo_stack)
                (t.present ∷ t.past) d ((inverse, again, refl, f), s.leads));
      }

  mutate_unchanged :
      (m : ProjectDef → Outcome) (p : Project A) (o : Outcome)
      → m (content p.doc) ≡ o
      → ((o ≡ ignored) ⊎ (o ≡ thrown))
      → (mutate A m p).0 ≡ p
  unfolding mutate
  mutate_unchanged m p o e (inl h) = rw (e ∙ h, mutate)
  mutate_unchanged m p o e (inr h) = rw (e ∙ h, mutate)

  edit_cases :
      (op : InverseOp) (p : Project A) (t : Timeline) (o : Outcome)
      → Shows p t
      → Reversible op t.present
      → perform (fresh 0) op t.present ≡ o
      → Shows (mutate A (perform (fresh 0) op) p).0 (outcome o t)
  edit_cases op p t (applied inverse d) s r e =
      rw (mutate-applied A (perform (fresh 0) op) p {inverse = inverse} {d = d} (rw s.present e))
        (edit-Shows op inverse d p t s r e)
  edit_cases op p t ignored s r e =
      rw (mutate_unchanged (perform (fresh 0) op) p ignored (rw s.present e) (inl refl)) s
  edit_cases op p t thrown s r e =
      rw (mutate_unchanged (perform (fresh 0) op) p thrown (rw s.present e) (inr refl)) s

  undo_empty : (p : Project A) → p.journal.undo_stack ≡ [] → (undo A emit fresh p).0 ≡ p
  unfolding undo pop_undo
  undo_empty p e = ground arith

  entry-Shows :
      (p : Project A) (t : Timeline) (op again : InverseOp) (d : ProjectDef) (gs : List UndoGroup)
      (ds : List ProjectDef)
      → Shows p t
      → p.journal.undo_stack ≡ single op ∷ gs
      → perform (fresh 0) op t.present ≡ applied again d
      → Leads (fresh 0) gs ds d
      → Shows (undo A emit fresh p).0 (record { present = d; past = ds })
  entry-Shows p t op again d gs ds s e f l =
      let shorter : suc (length gs) ≤ max_entries = rw (← ap length e) s.calm.bound in
      let idle : IsIdle (record p.journal { undo_stack = gs }) = record {
        route = s.calm.route;
        grouping = s.calm.grouping;
        room = omega arith;
      } in
      rw
        (
          undo_entry A emit fresh p op (record p.journal { undo_stack = gs })
              (pop_undo-single op p.journal gs e),
          replay_routed_undo A emit fresh op
              (record p { journal = record p.journal { undo_stack = gs } }) {inverse = again}
              {d = d} idle (rw s.present f),
        )
        (record {
          present = content-change p.doc d;
          calm = record { route = s.calm.route; grouping = s.calm.grouping; bound = omega arith };
          leads = l;
        })

  back_cases :
      (p : Project A) (t : Timeline) (gs : List UndoGroup) (es : List ProjectDef)
      → Shows p t
      → p.journal.undo_stack ≡ gs
      → Leads (fresh 0) gs es t.present
      → Shows (undo A emit fresh p).0 (step_back es t)
  back_cases p t [] [] s e l = rw (undo_empty p e) s
  back_cases p t [] (d ∷ ds) s e l = absurd l
  back_cases p t (g ∷ gs) [] s e l = absurd l
  back_cases p t (g ∷ gs) (d ∷ ds) s e ((op, again, h, f), l) =
      entry-Shows p t op again d gs ds s (e ∙ ap (λ x. x ∷ gs) h) f l

  step-Shows :
      (c : Command) (p : Project A) (t : Timeline)
      → Shows p t
      → AllReversible (fresh 0) (c ∷ []) t
      → Shows (handle c p) (step (fresh 0) c t)
  unfolding step
  step-Shows (edit op) p t s r = edit_cases op p t (perform (fresh 0) op t.present) s r.0 refl
  step-Shows back p t s r = back_cases p t p.journal.undo_stack t.past s refl s.leads

  run-Shows :
      (cs : List Command) (p : Project A) (t : Timeline)
      → Shows p t
      → AllReversible (fresh 0) cs t
      → Shows (run cs p) (play (fresh 0) cs t)
  unfolding run play
  run-Shows [] p t s r = s
  run-Shows (edit op ∷ cs) p t s r =
      run-Shows cs (handle (edit op) p) (step (fresh 0) (edit op) t)
        (step-Shows (edit op) p t s (r.0, tt)) r.1
  run-Shows (back ∷ cs) p t s r =
      run-Shows cs (handle back p) (step (fresh 0) back t) (step-Shows back p t s tt) r

  -- The class refines the list of documents. From a project with an empty undo stack, outside any
  -- gesture and replay, any sequence of edits and undos whose edits are reversible on the documents
  -- that they meet leaves the document that the list has: an edit that applies pushes the document of
  -- before, of which the newest hundred are kept, an undo takes the newest back and does nothing where
  -- there is none. As many undos are left as the list has past documents.
  pub run-play :
      (cs : List Command) (p : Project A)
      → p.journal.route ≡ normal
      → p.journal.grouping ≡ none
      → p.journal.undo_stack ≡ []
      → AllReversible (fresh 0) cs (record { present = content p.doc; past = [] })
      → (content (run cs p).doc
          ≡ (play (fresh 0) cs (record { present = content p.doc; past = [] })).present)
        × (length (run cs p).journal.undo_stack
            ≡ length (play (fresh 0) cs (record { present = content p.doc; past = [] })).past)
  run-play cs p n g e r =
      let t : Timeline = record { present = content p.doc; past = [] } in
      let start : Shows p t = record {
        present = refl;
        calm = record { route = n; grouping = g; bound = rw e (omega arith) };
        leads = rw e tt;
      } in
      let s = run-Shows cs p t start r in
      (
        s.present,
        length-Leads (fresh 0) (run cs p).journal.undo_stack (play (fresh 0) cs t).past
            (play (fresh 0) cs t).present s.leads,
      )
