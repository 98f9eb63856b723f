-- ===== src/Project/History/Timeline.antt =====
-- The history that a user sees: the document and the documents that undo goes back to, of which the
-- newest hundred are kept. No code is translated here: it is what `undo` promises.
pub mod Refines
use daw_project.Common.{
  ℕ, zero, suc, ◌≤◌, ◌<◌, String, false, ◌≡◌, refl, sym, ap, ◌∙◌, none, some, List, [], ◌∷◌, arith,
  length, take, ltb, if◌then◌else◌, if_elim, ltb→lt, ◌⊎◌, inl, inr,
}
use daw_project.Schema.{ProjectDef}
use daw_project.Undo.{InverseOp}
use daw_project.Journal
use daw_project.Journal.{
  Journal, Route, UndoGroup, normal, to_redo, max_entries, drop_oldest, push_entry, push_routed,
  capture, pop_undo,
}
use daw_project.Journal.Groups.{single, IsIdle}
use daw_project.Document.{Outcome, applied, ignored, thrown}
use daw_project.Replay.{perform}
use daw_project.Replay.Reversible.{Reversible}
use daw_project.Replay.Exact.{undo_exact}
use daw_project.Journal.Bounds.{length-push_entry}
use daw_project.Project.{Automerge, Project, done, mutate, queued, undo}
use daw_project.Project.History.{after, mutate-applied, undo_entry, replay_routed_undo}

-- The newest past document first.
pub record Timeline : Type 0 where
  pub present : ProjectDef
  pub past : List ProjectDef

pub data Command : Type 0 where
  edit : InverseOp → Command
  back : Command

abbrev pub outcome : Outcome → Timeline → Timeline
outcome (applied inverse d) t = record { present = d; past = take max_entries (t.present ∷ t.past) }
outcome ignored t = t
outcome thrown t = t

abbrev pub step_back : List ProjectDef → Timeline → Timeline
step_back [] t = t
step_back (d ∷ ds) t = record { present = d; past = ds }

module _ (fresh : String) where
  unfoldable pub step : Command → Timeline → Timeline
  step (edit op) t = outcome (perform fresh op t.present) t
  step back t = step_back t.past t

  -- Every edit is reversible on the document that it meets.
  abbrev pub AllReversible : List Command → Timeline → Type 0
  AllReversible [] t = Unit
  AllReversible (edit op ∷ cs) t = Reversible op t.present × AllReversible cs (step (edit op) t)
  AllReversible (back ∷ cs) t = AllReversible cs (step back t)

  unfoldable pub play : List Command → Timeline → Timeline
  play [] t = t
  play (c ∷ cs) t = play cs (step c t)
